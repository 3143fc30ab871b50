-- ===== src/Ambitious/Spreading.antt =====
-- Announcements at the router of Ambitious Version: where they go, and the routes that stay.
use communication_network.Base.{
  ℕ, zero, suc, ◌+◌, ◌%◌, ◌≤◌, ◌≡◌, ap, ◌∙◌, List, [], ◌∷◌, ◌++◌, ok, ◌==◌, arith, Option, none,
  some, Bool-cases, inl, inr, All,
}
use mathlib.Core.List.{append_assoc, append-nil}
use communication_network.Wire.Header.{get_octet, set_octet}
use communication_network.Wire.Packet.{Packet, send_packet}
use communication_network.Wire.Make.{announcement}
use communication_network.Router.Rounds.{datagram_of}
use communication_network.Router.Broadcast.{to_all}
use communication_network.Ambitious.Routing.{RoutingTableRecord, note_announcement}
use communication_network.Ambitious.RoutingLaws.{
  Route, route_of, better, route_of-note_announcement,
}
use communication_network.Ambitious.Answers.{send_through-eq}
use communication_network.Ambitious.Main.{
  CdnRouter, send_to_all, handle_announcement_packet, process,
}

-- The numbers from `index` on, `count` of them.
pub from : ℕ → ℕ → List ℕ
from zero index = []
from (suc count) index = index ∷ from count (index + 1)

send_to_all-eq :
    (count index : ℕ) (p : Packet) (s : CdnRouter)
    → index + count ≤ s.num_interfaces
    → send_packet p ≡ ok (datagram_of p)
    → send_to_all count index p s ≡ ok (record s { sent = s.sent ++ to_all (from count index) p })
unfolding send_to_all from
send_to_all-eq zero index p s fits sends = rw append-nil
send_to_all-eq (suc count) index p s fits sends =
    let one = s.sent ++ (index, datagram_of p) ∷ [] in
    rw (send_through-eq index p s (omega arith) sends) (
      send_to_all-eq count (index + 1) p (record s { sent = one }) (omega arith) sends
      ∙ ap (λ (out : List (ℕ × List ℕ)). ok (record s { sent = out }))
          (append_assoc s.sent ((index, datagram_of p) ∷ []) (to_all (from count (index + 1)) p)))

-- The announcement with one hop more, and one octet more in its header.
abbrev pub spread_packet : ℕ → ℕ → ℕ → Packet → Packet
spread_packet content hops last p = record p {
  header = record {
    info = announcement ∷ content ∷ ((hops + 1) % 256) ∷ last ∷ [];
    header_length = p.header.header_length + 1;
  };
}

-- Every announcement is sent on with one hop more, through every interface of the router once and in
-- their order, the one it came from included, whether or not it changed the routing table; the table
-- notes it and the pending table stays. It is the packet with one hop more that has to fit.
pub process-announcement :
    (i content hops last : ℕ) (p : Packet) (s : CdnRouter)
    → p.header.info ≡ announcement ∷ content ∷ hops ∷ last ∷ []
    → let q = spread_packet content hops last p in
      send_packet q ≡ ok (datagram_of q)
      → process i p s
        ≡ ok (record s {
          routing_table = note_announcement content hops i s.routing_table;
          sent = s.sent ++ to_all (from s.num_interfaces 0) (spread_packet content hops last p);
        })
unfolding process handle_announcement_packet get_octet set_octet
process-announcement i content hops last p s octets sends = rw octets (
    send_to_all-eq s.num_interfaces 0 (spread_packet content hops last p)
      (record s { routing_table = note_announcement content hops i s.routing_table }) (omega arith)
      sends)

pub record Announced : Type 0 where
  pub content : ℕ
  pub hops : ℕ
  pub interface : ℕ

-- The announcements one after the other.
pub note_all : List Announced → List RoutingTableRecord → List RoutingTableRecord
note_all [] table = table
note_all (a ∷ rest) table = note_all rest (note_announcement a.content a.hops a.interface table)

-- The route to a content reaches it in no more hops than the number.
abbrev pub Reaches : ℕ → Option Route → Type 0
Reaches hops none = ⊥
Reaches hops (some r) = r.0 ≤ hops

better-Reaches :
    (hops i k : ℕ) (o : Option Route) → Reaches k o → Reaches k (some (better hops i o))
better-Reaches hops i k none h = absurd h
better-Reaches hops i k (some r) h = ground (arith, h)

better-Reaches_own : (hops i : ℕ) (o : Option Route) → Reaches hops (some (better hops i o))
better-Reaches_own hops i none = omega arith
better-Reaches_own hops i (some r) = ground arith

note_all-Reaches :
    (c k : ℕ) (heard : List Announced) (table : List RoutingTableRecord)
    → Reaches k (route_of c table)
    → Reaches k (route_of c (note_all heard table))
unfolding note_all
note_all-Reaches c k [] table h = h
note_all-Reaches c k (a ∷ rest) table h =
    note_all-Reaches c k rest (note_announcement a.content a.hops a.interface table) (
      rw (route_of-note_announcement a.content a.hops a.interface c table)
        (elim (Bool-cases (a.content == c)) [
          | inr other ↦ rw other h
          | inl same ↦
              let e : a.content ≡ c = ground (arith, same) in
              rw (same, e) (better-Reaches a.hops a.interface k (route_of c table) h)
        ]))

-- After any list of announcements, on whatever table, there is a valid route to every content that
-- was announced, and it has no more hops than any of the announcements of the content.
pub note_all-Reaches_each :
    (heard : List Announced) (table : List RoutingTableRecord)
    → All (λ a. Reaches a.hops (route_of a.content (note_all heard table))) heard
unfolding note_all
note_all-Reaches_each [] table = tt
note_all-Reaches_each (a ∷ rest) table =
    let noted = note_announcement a.content a.hops a.interface table in
    (
      note_all-Reaches a.content a.hops rest noted (
          rw (route_of-note_announcement a.content a.hops a.interface a.content table)
            (ground (arith, better-Reaches_own a.hops a.interface (route_of a.content table)))),
      note_all-Reaches_each rest noted,
    )
