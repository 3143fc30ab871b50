-- ===== src/Router/Rounds.antt =====
-- One pass of the main loop that no other thread disturbs, and the messages that it is about.
use communication_network.Base.{
  ℕ, ◌+◌, ◌%◌, ◌≤◌, ◌<◌, ◌≡◌, ap, ◌∙◌, List, [], ◌∷◌, ◌++◌, some, Exec, ok, guard, ◌>>=◌, length,
  get_elem?, take, le→leb, lt→ltb,
}
use communication_network.Wire.Header.{get_octet}
use communication_network.Wire.Packet.{Packet, send_packet, make_packet, mtu_size}
use communication_network.Router.Tables.{RtRecord, PrtRecord}
use communication_network.Router.State.{
  Receiver, Phase, Router, message_packet, polling, cached_pending, cached, committing,
  cache_pending, cache_routes, send_on,
}
use communication_network.Router.Loop.{poll, commit, decide}
use communication_network.Router.Handlers.{decide_announcement, decide_request, decide_response}
use communication_network.Wire.Make.{
  announcement, request, response, contentid_pos, hostid_or_hops_pos,
}

-- The commit that the main thread waits for, if it does.
unfoldable pub settle : Phase → Router → Router
settle (committing u) s = commit u s
settle polling s = s
settle cached_pending s = s
settle cached s = s

-- `while(1)`, once.
unfoldable pub round : Router → Exec Router
unfolding settle
round s = do t ← poll (cache_routes (cache_pending s)); ok (settle t.phase t)

-- A message with these first three octets in its header, whose packet can be put into the sending
-- buffer with `spare` more header octets.
pub record Carries (r : Receiver) (kind content third spare : ℕ) : Type 0 where
  pub last : ℕ
  pub octets : r.port.pkt.header.info ≡ kind ∷ content ∷ third ∷ last ∷ []
  pub header_room : r.port.pkt.header.header_length + spare ≤ 4
  pub filled : r.message_size ≤ length r.port.pkt.payload
  pub fits : 1 + r.message_size + (r.port.pkt.header.header_length + spare) ≤ mtu_size + 1

-- The datagram that a packet becomes.
abbrev pub datagram_of : Packet → List ℕ
datagram_of p =
    (p.header.header_length % 256) ∷ take p.header.header_length p.header.info
    ++ take p.size p.payload

pub send_packet-eq_datagram :
    (p : Packet)
    → p.header.header_length ≤ length p.header.info
    → p.size ≤ length p.payload
    → 1 + p.size + p.header.header_length ≤ mtu_size + 1
    → send_packet p ≡ ok (datagram_of p)
unfolding send_packet make_packet
send_packet-eq_datagram p held filled fits =
    rw (le→leb _ _ held, guard) (rw (le→leb _ _ filled, guard) (rw (le→leb _ _ fits)))

-- On a port that exists, a packet that fits is sent.
pub send_on-eq :
    (i : ℕ) (p : Packet) (s : Router)
    → i < s.num_interfaces
    → send_packet p ≡ ok (datagram_of p)
    → send_on i p s ≡ ok (record s { sent = s.sent ++ (i, datagram_of p) ∷ [] })
unfolding send_on
send_on-eq i p s inside sends = rw (lt→ltb i s.num_interfaces inside, guard) (rw sends)

-- The state in which an undisturbed pass decides: fresh caches, the message off the queue.
abbrev pub fresh_caches : List ℕ → Router → Router
fresh_caches rest s = record s {
  rt_local = s.routing_table;
  prt_local = s.pending_table;
  message_queue = rest;
  phase = cached;
}

-- The state in which any pass decides: the copies are appended to what the caches still hold.
abbrev pub grown_caches : List ℕ → Router → Router
grown_caches rest s = record s {
  rt_local = s.rt_local ++ s.routing_table;
  prt_local = s.prt_local ++ s.pending_table;
  message_queue = rest;
  phase = cached;
}

module _ (i : ℕ) (rest : List ℕ) (r : Receiver) (s : Router) where
  pub round_grown-eq :
      s.message_queue ≡ i ∷ rest
      → get_elem? s.receivers i ≡ some r
      → round s ≡ (decide i r (grown_caches rest s) >>= λ t. ok (settle t.phase t))
  unfolding round poll cache_pending cache_routes
  round_grown-eq queued found = rw (queued, poll) (rw found)

  pub round-eq :
      s.rt_local ≡ []
      → s.prt_local ≡ []
      → s.message_queue ≡ i ∷ rest
      → get_elem? s.receivers i ≡ some r
      → round s ≡ (decide i r (fresh_caches rest s) >>= λ t. ok (settle t.phase t))
  round-eq no_routes no_pendings queued found =
      let routes : s.rt_local ++ s.routing_table ≡ s.routing_table = rw no_routes in
      let pendings : s.prt_local ++ s.pending_table ≡ s.pending_table = rw no_pendings in
      round_grown-eq queued found
      ∙ ap
          (λ (c : List RtRecord × List PrtRecord).
            decide i r
              (record s { rt_local = c.0; prt_local = c.1; message_queue = rest; phase = cached })
            >>= λ t. ok (settle t.phase t))
          (λ j. (routes j, pendings j))

  module _ (content third last : ℕ) where
    pub decide-announcement :
        r.port.pkt.header.info ≡ announcement ∷ content ∷ third ∷ last ∷ []
        → decide i r s ≡ decide_announcement i r s
    unfolding decide get_octet
    decide-announcement octets = rw octets

    pub decide-request :
        r.port.pkt.header.info ≡ request ∷ content ∷ third ∷ last ∷ []
        → decide i r s ≡ decide_request i (message_packet r) s
    unfolding decide get_octet
    decide-request octets = rw octets

    pub decide-response :
        r.port.pkt.header.info ≡ response ∷ content ∷ third ∷ last ∷ []
        → decide i r s ≡ decide_response (message_packet r) s
    unfolding decide get_octet
    decide-response octets = rw octets

-- The octets that the cases of the `switch` read.
module _ {r : Receiver} {kind content third spare : ℕ}
    (m : Carries r kind content third spare) where
  pub content_octet : get_octet contentid_pos r.port.pkt.header ≡ ok content
  unfolding get_octet
  content_octet = rw m.octets

  pub third_octet : get_octet hostid_or_hops_pos r.port.pkt.header ≡ ok third
  unfolding get_octet
  third_octet = rw m.octets
