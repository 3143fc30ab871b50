-- ===== src/Router/Announcements.antt =====
-- The ANNOUNCEMENT case as a whole: what the router learns, and what it tells whom.
use communication_network.Base.{
  ℕ, ◌+◌, ◌%◌, ◌<◌, ◌≡◌, refl, ap, List, [], ◌∷◌, ◌++◌, Option, none, some, Bool, true, false, ok,
  get_elem?, if◌then◌else◌, arith,
}
use mathlib.Core.List.{append-nil}
use communication_network.Wire.Header.{PacketHdr, get_octet, set_octet}
use communication_network.Wire.Packet.{Packet, send_packet}
use communication_network.Wire.Make.{announcement}
use communication_network.Router.Tables.{RtRecord, find_route}
use communication_network.Router.State.{Receiver, Router, message_packet, polling, committing}
use communication_network.Router.Handlers.{announced, set_header, decide_announcement, broadcast}
use communication_network.Router.Loop.{commit}
use communication_network.Router.Rounds.{
  settle, round, fresh_caches, round-eq, decide-announcement, Carries, datagram_of,
  send_packet-eq_datagram,
}
use communication_network.Router.Broadcast.{others, to_all, broadcast-eq}
use communication_network.Router.Learning.{learned, learn, is_news, table_told, learn-table_told}

-- The header of an announcement that goes on: one hop more, and one octet longer.
abbrev pub next_header : ℕ → ℕ → ℕ → PacketHdr → PacketHdr
next_header content hops last h = record {
  info = announcement ∷ content ∷ ((hops + 1) % 256) ∷ last ∷ [];
  header_length = h.header_length + 1;
}

abbrev pub next_packet : ℕ → ℕ → ℕ → Receiver → Packet
next_packet content hops last r = record (message_packet r) {
  header = next_header content hops last r.port.pkt.header;
}

maybe_broadcast-eq :
    (b : Bool) (i : ℕ) (p : Packet) (s : Router)
    → send_packet p ≡ ok (datagram_of p)
    → (if b then broadcast s.num_interfaces 0 i p s else ok s)
      ≡ ok
          (record s { sent = s.sent ++ (if b then to_all (others s.num_interfaces 0 i) p else []) })
maybe_broadcast-eq true i p s sends = broadcast-eq s.num_interfaces 0 i p s (omega arith) sends
maybe_broadcast-eq false i p s sends = rw append-nil

module _ {r : Receiver} {content hops : ℕ} (m : Carries r announcement content hops 1) where
  open m use {last, octets, header_room, filled, fits}

  next_sends :
      send_packet (next_packet content hops last r)
      ≡ ok (datagram_of (next_packet content hops last r))
  next_sends =
      send_packet-eq_datagram (next_packet content hops last r) (omega arith) filled (omega arith)

  pub decide_announcement-eq :
      (i : ℕ) (s : Router)
      → i < s.num_interfaces
      → let a = announced (find_route content s.rt_local) content hops i in
        let p = next_packet content hops last r in
        decide_announcement i r s
        ≡ ok (record (set_header i r p.header s) {
          sent = s.sent ++ (if a.1 then to_all (others s.num_interfaces 0 i) p else []);
          phase = committing a.0;
        })
  unfolding decide_announcement get_octet set_octet set_header
  decide_announcement-eq i s inside =
      let a = announced (find_route content s.rt_local) content hops i in
      let p = next_packet content hops last r in
      rw octets (rw (maybe_broadcast-eq a.1 i p (set_header i r p.header s) next_sends))

pub commit-announced :
    (o : Option RtRecord) (content hops i : ℕ) (t : Router)
    → commit (announced o content hops i).0 t ≡ record t {
      routing_table = learned o content hops i t.routing_table;
      rt_local = [];
      prt_local = [];
      phase = polling;
    }
unfolding commit announced
commit-announced none content hops i t = refl
commit-announced (some r) content hops i t = refl

announced-is_news :
    (o : Option RtRecord) (content hops i : ℕ) → (announced o content hops i).1 ≡ is_news o hops
unfolding announced
announced-is_news none content hops i = refl
announced-is_news (some r) content hops i = ground arith

-- An announcement of `content` from interface `i`, one of the router's, that an undisturbed pass of
-- the loop with empty caches takes from the queue; its header has room for one octet more within the
-- four of its block, and with it the packet fits the sending buffer. It is
-- news if the router had no route to the content, or one with no fewer hops than those announced.
-- The record of the content is moved to the end of the routing table or put there, with 25 seconds
-- to live, and with the announced hops and the interface `i` if it is news, its own otherwise. If it
-- is news, the packet with one hop more, and one octet more of header, is sent through every other
-- interface, and otherwise through none. The pending table stays.
pub announcement-round :
    (i content hops : ℕ) (rest : List ℕ) (r : Receiver) (s : Router)
    → s.rt_local ≡ []
    → s.prt_local ≡ []
    → s.message_queue ≡ i ∷ rest
    → get_elem? s.receivers i ≡ some r
    → i < s.num_interfaces
    → (m : Carries r announcement content hops 1)
    → (t : Router) × (round s ≡ ok t)
      × (t.routing_table ≡ table_told content hops i s.routing_table)
      × (t.pending_table ≡ s.pending_table)
      × (t.message_queue ≡ rest)
      × (t.sent
          ≡ s.sent
            ++ (if is_news (find_route content s.routing_table) hops
                then to_all (others s.num_interfaces 0 i) (next_packet content hops m.last r)
                else []))
unfolding settle set_header learn
announcement-round i content hops rest r s no_routes no_pendings queued found inside m =
    let u = fresh_caches rest s in
    let o = find_route content s.routing_table in
    let b = (announced o content hops i).1 in
    let p = next_packet content hops m.last r in
    let t = record (set_header i r p.header u) {
      sent = s.sent ++ (if b then to_all (others s.num_interfaces 0 i) p else []);
      phase = committing (announced o content hops i).0;
    } in
    (
      record t {
        routing_table = learn content hops i s.routing_table;
        rt_local = [];
        prt_local = [];
        phase = polling;
      },
      rw (round-eq i rest r s no_routes no_pendings queued found) (
          rw (decide-announcement i rest r u content hops m.last m.octets) (
            rw (decide_announcement-eq m i u inside)
              (ap ok (commit-announced o content hops i t)))),
      learn-table_told content hops i s.routing_table,
      refl,
      refl,
      ap (λ (k : Bool). s.sent ++ (if k then to_all (others s.num_interfaces 0 i) p else []))
          (announced-is_news o content hops i),
    )
