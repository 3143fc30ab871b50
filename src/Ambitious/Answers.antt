-- ===== src/Ambitious/Answers.antt =====
-- A request and the responses to it at the router of Ambitious Version.
use communication_network.Base.{
  ℕ, zero, suc, ◌<◌, ◌≡◌, ℤ, pos, negsuc, List, [], ◌∷◌, ◌++◌, ok, guard, ◌>>=◌, arith, lt→ltb,
}
use mathlib.Core.List.{append_assoc, append-nil}
use communication_network.Wire.Header.{get_octet}
use communication_network.Wire.Packet.{Packet, send_packet}
use communication_network.Wire.Make.{
  request, response, packet_type_pos, contentid_pos, hostid_or_hops_pos,
}
use communication_network.Router.Rounds.{datagram_of}
use communication_network.Ambitious.Pending.{
  note_request, delete_record, get_interface_from_pending_table,
}
use communication_network.Ambitious.PendingLaws.{get-note, get-delete}
use communication_network.Ambitious.Routing.{get_interface_from_routing_table}
use communication_network.Ambitious.Main.{
  CdnRouter, send_through, send_request, send_response, process, handle_request_packets,
  process_response,
}

-- A packet with these first three octets in its header, which `sendPacket` can send.
pub record Sendable (p : Packet) (kind content third : ℕ) : Type 0 where
  pub last : ℕ
  pub octets : p.header.info ≡ kind ∷ content ∷ third ∷ last ∷ []
  pub sends : send_packet p ≡ ok (datagram_of p)

-- The octets that the handlers read.
module _ {p : Packet} {kind content third : ℕ} (m : Sendable p kind content third) where
  kind_octet : get_octet packet_type_pos p.header ≡ ok kind
  unfolding get_octet
  kind_octet = rw m.octets

  content_octet : get_octet contentid_pos p.header ≡ ok content
  unfolding get_octet
  content_octet = rw m.octets

  third_octet : get_octet hostid_or_hops_pos p.header ≡ ok third
  unfolding get_octet
  third_octet = rw m.octets

pub send_through-eq :
    (i : ℕ) (p : Packet) (s : CdnRouter)
    → i < s.num_interfaces
    → send_packet p ≡ ok (datagram_of p)
    → send_through i p s ≡ ok (record s { sent = s.sent ++ (i, datagram_of p) ∷ [] })
unfolding send_through
send_through-eq i p s inside sends = rw (lt→ltb i s.num_interfaces inside, guard) (rw sends)

-- Where a packet goes that is sent through this interface, unless it is -1.
abbrev pub through : ℤ → Packet → List (ℕ × List ℕ)
through (pos i) p = (i, datagram_of p) ∷ []
through (negsuc n) p = []

-- The interface is one of the router's, or -1.
abbrev pub IsInterface : ℕ → ℤ → Type 0
IsInterface n (pos i) = i < n
IsInterface n (negsuc k) = k ≡ 0

send_request-eq :
    (z : ℤ) (p : Packet) (s : CdnRouter)
    → IsInterface s.num_interfaces z
    → send_packet p ≡ ok (datagram_of p)
    → send_request z p s ≡ ok (record s { sent = s.sent ++ through z p })
unfolding send_request
send_request-eq (pos i) p s inside sends = send_through-eq i p s inside sends
send_request-eq (negsuc zero) p s inside sends = rw append-nil
send_request-eq (negsuc (suc n)) p s inside sends = absurd (omega arith)

pub process-request :
    (i content host : ℕ) (p : Packet) (s : CdnRouter)
    → Sendable p request content host
    → IsInterface s.num_interfaces (get_interface_from_routing_table content s.routing_table)
    → process i p s
      ≡ ok (record s {
        pending_table = note_request content host i s.pending_table;
        sent = s.sent ++ through (get_interface_from_routing_table content s.routing_table) p;
      })
unfolding process handle_request_packets
process-request i content host p s m inside = rw (kind_octet m) (
    rw (content_octet m) (
      rw (third_octet m) (
        send_request-eq (get_interface_from_routing_table content s.routing_table) p
          (record s { pending_table = note_request content host i s.pending_table }) inside
          m.sends)))

pub process-response :
    (i j content host : ℕ) (p : Packet) (s : CdnRouter)
    → Sendable p response content host
    → get_interface_from_pending_table content host s.pending_table ≡ pos i
    → i < s.num_interfaces
    → process j p s
      ≡ ok (record s {
        pending_table = delete_record content host s.pending_table;
        sent = s.sent ++ (i, datagram_of p) ∷ [];
      })
unfolding process process_response send_response
process-response i j content host p s m found inside = rw (kind_octet m) (
    rw (content_octet m)
      (rw (third_octet m) (rw found (rw (send_through-eq i p s inside m.sends)))))

pub process-unasked_response :
    (j content host : ℕ) (p : Packet) (s : CdnRouter)
    → Sendable p response content host
    → get_interface_from_pending_table content host s.pending_table ≡ negsuc 0
    → process j p s ≡ ok s
unfolding process process_response send_response
process-unasked_response j content host p s m missing =
    rw (kind_octet m) (rw (content_octet m) (rw (third_octet m) (rw missing)))

-- A request of `host` for `content` that comes in on interface `i`, and then two responses to it,
-- without a fault: the request is sent along the valid route, if there is one; the first response is
-- sent through `i`, whatever the pending table held before; the second is not sent at all.
pub one_response_returns :
    (i j k content host : ℕ) (p q : Packet) (s : CdnRouter)
    → Sendable p request content host
    → Sendable q response content host
    → IsInterface s.num_interfaces (get_interface_from_routing_table content s.routing_table)
    → i < s.num_interfaces
    → (t : CdnRouter) × ((process i p s >>= process j q >>= process k q) ≡ ok t)
      × (t.sent
          ≡ s.sent
            ++ (through (get_interface_from_routing_table content s.routing_table) p
                ++ (i, datagram_of q) ∷ []))
      × (get_interface_from_pending_table content host t.pending_table ≡ negsuc 0)
one_response_returns i j k content host p q s m n routed inside =
    let asked = note_request content host i s.pending_table in
    let out = through (get_interface_from_routing_table content s.routing_table) p in
    let s1 = record s { pending_table = asked; sent = s.sent ++ out } in
    let s2 = record s1 {
      pending_table = delete_record content host asked;
      sent = s1.sent ++ (i, datagram_of q) ∷ [];
    } in
    let found : get_interface_from_pending_table content host asked ≡ pos i =
      ground (arith, get-note content host i content host s.pending_table) in
    let gone : get_interface_from_pending_table content host (delete_record content host asked)
        ≡ negsuc 0 =
      ground (arith, get-delete content host content host asked) in
    (
      s2,
      rw (process-request i content host p s m routed) (
          rw (process-response i j content host q s1 n found inside)
            (process-unasked_response k content host q s2 n gone)),
      append_assoc s.sent out ((i, datagram_of q) ∷ []),
      gone,
    )
