-- ===== src/Earlier/Handlers.antt =====
-- rx_function of simple_router.cpp: the round that a thread makes for a packet.
use communication_network.Base.{
  ℕ, zero, suc, ◌+◌, ◌%◌, List, [], ◌∷◌, ◌++◌, Option, none, some, Bool, Exec, ok, ◌>>=◌, ◌==◌,
  if◌then◌else◌,
}
use communication_network.Wire.Header.{get_octet, set_octet}
use communication_network.Wire.Packet.{Packet, Allocator, receive_packet}
use communication_network.Wire.Make.{
  packet_type_pos, contentid_pos, hostid_or_hops_pos, request, response, announcement,
}
use communication_network.Earlier.Tables.{
  RtRecord, PrtRecord, pending_expiry, routing_expiry, scan_pendings, scan_routes, renew_pending,
  erase_pending, renew_route, fewer_hops,
}
use communication_network.Earlier.State.{
  Change, add_pending, keep_pending, drop_pending, add_route, keep_route, no_change, Stage, waiting,
  taken, has_pendings, has_routes, changing, RxThread, Shared, send_at,
}

-- `receivePacket`; the thread goes on if the port does not drop the packet.
unfoldable pub take_packet : Allocator → Bool → List ℕ → RxThread → Exec RxThread
take_packet new dropped datagram t = do
  port ← receive_packet new datagram t.port
  ok (record t { port = port; stage = (if dropped then waiting else taken) })

-- The two copying loops, each under its table's lock.
unfoldable pub copy_pendings : Shared → RxThread → RxThread
copy_pendings s t = record t { prt_local = t.prt_local ++ s.pending_table; stage = has_pendings }

unfoldable pub copy_routes : Shared → RxThread → RxThread
copy_routes s t = record t { rt_local = t.rt_local ++ s.routing_table; stage = has_routes }

abbrev pub pending_of : ℕ → ℕ → ℕ → PrtRecord
pending_of content_id host_id rx_interface = record {
  c_id = content_id;
  h_id = host_id;
  interface = rx_interface;
  ttl_val = pending_expiry;
}

abbrev pub route_to : ℕ → ℕ → ℕ → RtRecord
route_to content_id hops rx_interface = record {
  c_id = content_id;
  interface = rx_interface;
  num_hops = hops;
  ttl_rt = routing_expiry;
}

-- `if (interface_send != -1)`.
unfoldable pub send_towards : Option RtRecord → Packet → Shared → Exec Shared
send_towards none p s = ok s
send_towards (some r) p s = send_at r.interface p s

-- The record that the REQUEST case writes back.
abbrev pub requested_change : PrtRecord × Bool → ℕ → ℕ → ℕ → Change
requested_change scanned content_id host_id rx_interface =
    if scanned.1
    then keep_pending scanned.0.c_id scanned.0.h_id
    else add_pending (pending_of content_id host_id rx_interface)

-- case REQUEST, up to the lock. `unset` is what an uninitialised PRTrecord holds.
unfoldable pub handle_request : PrtRecord → ℕ → Packet → RxThread → Shared → Exec (Shared × Change)
unfolding send_towards
handle_request unset rx_interface p t s = do
  content_id ← get_octet contentid_pos p.header
  host_id ← get_octet hostid_or_hops_pos p.header
  let scanned = scan_pendings content_id host_id unset t.prt_local
  u ← send_towards (scan_routes content_id t.rt_local) p s
  ok (u, requested_change scanned content_id host_id rx_interface)

-- case RESPONSE, up to the lock: the record to be erased is the one that the loop left.
unfoldable pub handle_response : PrtRecord → Packet → RxThread → Shared → Exec (Shared × Change)
handle_response unset p t s = do
  content_id ← get_octet contentid_pos p.header
  host_id ← get_octet hostid_or_hops_pos p.header
  let scanned = scan_pendings content_id host_id unset t.prt_local
  u ← if scanned.1 then send_at scanned.0.interface p s else ok s
  ok (u, drop_pending scanned.0.c_id scanned.0.h_id)

-- The loop that sends an announcement: the octet of the hops is set in each round.
unfoldable pub send_to_others : ℕ → ℕ → ℕ → ℕ → Packet → Shared → Exec (Packet × Shared)
send_to_others zero index hops rx_interface p s = ok (p, s)
send_to_others (suc rounds) index hops rx_interface p s =
    set_octet ((hops + 1) % 256) hostid_or_hops_pos p.header >>= λ h.
    (if index == rx_interface then ok s else send_at index (record p { header = h }) s) >>= λ u.
    send_to_others rounds (index + 1) hops rx_interface (record p { header = h }) u

abbrev pub announced_change : Option RtRecord → ℕ → ℕ → ℕ → Change
announced_change none content_id hops rx_interface =
    add_route (route_to content_id hops rx_interface)
announced_change (some r) content_id hops rx_interface = keep_route content_id (fewer_hops hops r)

-- case ANNOUNCEMENT, up to the lock. The packet is the port's.
unfoldable pub handle_announcement :
    ℕ → Packet → RxThread → Shared → Exec (Packet × (Shared × Change))
unfolding send_to_others
handle_announcement rx_interface p t s = do
  content_id ← get_octet contentid_pos p.header
  hops ← get_octet hostid_or_hops_pos p.header
  q ← send_to_others s.num_interfaces 0 hops rx_interface p s
  ok (q.0, (q.1, announced_change (scan_routes content_id t.rt_local) content_id hops rx_interface))

abbrev pub goes_on : RxThread → Shared × Change → Shared × RxThread
goes_on t u = (u.0, record t { stage = changing u.1 })

-- The `switch` on the type of the packet.
unfoldable pub handle_packet : PrtRecord → ℕ → RxThread → Shared → Exec (Shared × RxThread)
unfolding handle_request handle_response handle_announcement
handle_packet unset rx_interface t s = do
  let p = t.port.pkt
  packet_type ← get_octet packet_type_pos p.header
  (if packet_type == request
      then (handle_request unset rx_interface p t s >>= λ u. ok (goes_on t u))
      else (if packet_type == response
          then (handle_response unset p t s >>= λ u. ok (goes_on t u))
          else (if packet_type == announcement
              then (handle_announcement rx_interface p t s >>= λ u.
                  ok (goes_on (record t { port = record t.port { pkt = u.0 } }) u.1))
              else ok (s, record t { stage = changing no_change }))))

-- What is done under the lock.
unfoldable pub make_change : Change → Shared → Shared
make_change (add_pending r) s = record s { pending_table = s.pending_table ++ r ∷ [] }
make_change (keep_pending c h) s = record s { pending_table = renew_pending c h s.pending_table }
make_change (drop_pending c h) s = record s { pending_table = erase_pending c h s.pending_table }
make_change (add_route r) s = record s { routing_table = s.routing_table ++ r ∷ [] }
make_change (keep_route c hops) s = record s { routing_table = renew_route c hops s.routing_table }
make_change no_change s = s

-- The end of the round: both copies are cleared.
unfoldable pub end_round : RxThread → RxThread
end_round t = record t { rt_local = []; prt_local = []; stage = waiting }

abbrev pub change_at : Stage → Change
change_at (changing c) = c
change_at waiting = no_change
change_at taken = no_change
change_at has_pendings = no_change
change_at has_routes = no_change

-- The round for a packet that was taken, with no other thread in between.
unfoldable pub pass : PrtRecord → ℕ → Shared → RxThread → Exec (Shared × RxThread)
unfolding copy_pendings copy_routes handle_packet make_change end_round
pass unset rx_interface s t = do
  r ← handle_packet unset rx_interface (copy_routes s (copy_pendings s t)) s
  ok (make_change (change_at r.1.stage) r.0, end_round r.1)
