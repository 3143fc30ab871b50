-- ===== src/Ambitious/Main.antt =====
-- The handlers and the `switch` of Ambitious Version/Router.cpp, on the packet that a queued message
-- holds when it is popped. Sending stands for `MySendingPorts.at(i)->sendPacket`.
use communication_network.Base.{
  ℕ, zero, suc, ◌+◌, ◌%◌, ℤ, pos, negsuc, List, [], ◌∷◌, ◌++◌, Exec, ok, fault, out_of_range, guard,
  ◌>>◌, ◌>>=◌, ltb, ◌==◌, if◌then◌else◌,
}
use communication_network.Wire.Header.{get_octet, set_octet}
use communication_network.Wire.Packet.{Packet, send_packet}
use communication_network.Wire.Make.{
  packet_type_pos, contentid_pos, hostid_or_hops_pos, request, response, announcement,
}
use communication_network.Ambitious.Pending.{
  PendingTableRecord, note_request, delete_record, get_interface_from_pending_table,
}
use communication_network.Ambitious.Routing.{
  RoutingTableRecord, note_announcement, get_interface_from_routing_table,
}

pub record CdnRouter : Type 0 where
  pub num_interfaces : ℕ
  pub routing_table : List RoutingTableRecord
  pub pending_table : List PendingTableRecord
  pub sent : List (ℕ × List ℕ)

unfoldable pub send_through : ℕ → Packet → CdnRouter → Exec CdnRouter
send_through i p s = do
  guard (ltb i s.num_interfaces) out_of_range
  bytes ← send_packet p
  ok (record s { sent = s.sent ++ (i, bytes) ∷ [] })

-- The interface, or -1, that HandleRequestPackets returns, and the state that it leaves.
unfoldable pub handle_request_packets : ℕ → Packet → CdnRouter → Exec (ℤ × CdnRouter)
handle_request_packets rx_interface p s = do
  content_id ← get_octet contentid_pos p.header
  req_host_id ← get_octet hostid_or_hops_pos p.header
  ok (
    get_interface_from_routing_table content_id s.routing_table,
    record s { pending_table = note_request content_id req_host_id rx_interface s.pending_table },
  )

-- HandleAnnouncementPacket changes the packet's header; what it returns is `true` always.
unfoldable pub handle_announcement_packet : ℕ → Packet → CdnRouter → Exec (Packet × CdnRouter)
handle_announcement_packet rx_interface p s = do
  content_id ← get_octet contentid_pos p.header
  hops ← get_octet hostid_or_hops_pos p.header
  h ← set_octet ((hops + 1) % 256) hostid_or_hops_pos p.header
  ok (
    record p { header = h },
    record s { routing_table = note_announcement content_id hops rx_interface s.routing_table },
  )

-- The loop that sends an announcement through all ports.
unfoldable pub send_to_all : ℕ → ℕ → Packet → CdnRouter → Exec CdnRouter
send_to_all zero index p s = ok s
send_to_all (suc rounds) index p s =
    send_through index p s >>= λ t. send_to_all rounds (index + 1) p t

-- case REQUEST, once the interface is known.
unfoldable pub send_request : ℤ → Packet → CdnRouter → Exec CdnRouter
send_request (pos i) p s = send_through i p s
send_request (negsuc zero) p s = ok s
send_request (negsuc (suc n)) p s = fault out_of_range

-- case RESPONSE, once the interface is known: send, then delete the pending record.
unfoldable pub send_response : ℤ → ℕ → ℕ → Packet → CdnRouter → Exec CdnRouter
send_response (pos i) content_id host_id p s = do
  t ← send_through i p s
  ok (record t { pending_table = delete_record content_id host_id t.pending_table })
send_response (negsuc zero) content_id host_id p s = ok s
send_response (negsuc (suc n)) content_id host_id p s = fault out_of_range

unfoldable pub process_response : Packet → CdnRouter → Exec CdnRouter
unfolding send_response
process_response p s = do
  content_id ← get_octet contentid_pos p.header
  host_id ← get_octet hostid_or_hops_pos p.header
  send_response (get_interface_from_pending_table content_id host_id s.pending_table) content_id
      host_id p s

-- The `switch`.
unfoldable pub process : ℕ → Packet → CdnRouter → Exec CdnRouter
unfolding handle_request_packets process_response handle_announcement_packet send_to_all
    send_request
process rx_interface p s = do
  packet_type ← get_octet packet_type_pos p.header
  (if packet_type == request
      then handle_request_packets rx_interface p s >>= (λ r. send_request r.0 p r.1)
      else (if packet_type == response
          then process_response p s
          else (if packet_type == announcement
              then handle_announcement_packet rx_interface p s
                >>= (λ r. send_to_all r.1.num_interfaces 0 r.0 r.1)
              else ok s)))
