-- ===== src/Router/HopLimit.antt =====
-- The length of an announcement's header and the size of its block, in router.cpp.
use communication_network.Base.{
  ℕ, zero, suc, ◌+◌, ◌≤◌, ◌<◌, ◌≡◌, ◌≢◌, List, [], ◌∷◌, true, fault, overrun, some, length,
  get_elem?, ◌==◌, arith, Bool-cases, inl, inr, lt→not_leb, lt→ltb,
}
use communication_network.Wire.Header.{get_octet, set_octet}
use communication_network.Wire.Make.{announcement}
use communication_network.Wire.Packet.{Packet, send_packet, make_packet}
use communication_network.Router.Tables.{find_route}
use communication_network.Router.State.{Receiver, Router, send_on}
use communication_network.Router.Handlers.{announced, set_header, broadcast, decide_announcement}
use communication_network.Router.Rounds.{round, fresh_caches, round-eq, decide-announcement}
use communication_network.Router.Announcements.{next_packet}

send_packet-overrun :
    (p : Packet) → length p.header.info < p.header.header_length → send_packet p ≡ fault overrun
unfolding send_packet make_packet
send_packet-overrun p long = rw (lt→not_leb _ _ long)

broadcast-overrun :
    (rounds index i k : ℕ) (p : Packet) (s : Router)
    → send_packet p ≡ fault overrun
    → k ≢ i
    → index ≤ k
    → k < index + rounds
    → index + rounds ≤ s.num_interfaces
    → broadcast rounds index i p s ≡ fault overrun
unfolding broadcast send_on
broadcast-overrun zero index i k p s bad other low high fits = absurd (omega arith)
broadcast-overrun (suc rounds) index i k p s bad other low high fits =
    elim (Bool-cases (index == i)) [
      | inl own ↦ rw own (
          broadcast-overrun rounds (index + 1) i k p s bad other (ground (arith, own, other))
            (omega arith) (omega arith))
      | inr ne ↦ rw ne (rw (lt→ltb index s.num_interfaces (omega arith)) (rw bad))
    ]

-- An undisturbed pass over an announcement that has to be broadcast, on a router with another
-- interface than the one it came from, where the announcement arrived with a header length of four
-- or more: `setOctet` makes the length at least five, and `makePacket` reads past the four octets of
-- the header block.
pub announcement_overrun :
    (i k content hops last : ℕ) (rest : List ℕ) (r : Receiver) (s : Router)
    → s.rt_local ≡ []
    → s.prt_local ≡ []
    → s.message_queue ≡ i ∷ rest
    → get_elem? s.receivers i ≡ some r
    → r.port.pkt.header.info ≡ announcement ∷ content ∷ hops ∷ last ∷ []
    → 4 ≤ r.port.pkt.header.header_length
    → (announced (find_route content s.routing_table) content hops i).1 ≡ true
    → k ≢ i
    → k < s.num_interfaces
    → round s ≡ fault overrun
unfolding decide_announcement set_header set_octet get_octet
announcement_overrun i k content hops last rest r s no_routes no_pendings queued found octets long
      spreads other inside =
    let u = fresh_caches rest s in
    let p = next_packet content hops last r in
    let bad : send_packet p ≡ fault overrun = send_packet-overrun p (omega arith) in
    let lost =
      broadcast-overrun s.num_interfaces 0 i k p (set_header i r p.header u) bad other (omega arith)
        (omega arith) (omega arith) in
    rw (round-eq i rest r s no_routes no_pendings queued found) (
      rw (decide-announcement i rest r u content hops last octets)
        (rw octets (rw spreads (rw lost))))
