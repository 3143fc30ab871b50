-- ===== src/Router/Handlers.antt =====
-- What the main loop of router.cpp decides and sends on a message, before it takes a lock: the three
-- cases of the `switch`.
use communication_network.Base.{
  ℕ, zero, suc, ◌+◌, ◌%◌, Option, none, some, Bool, true, Exec, ok, ◌>>=◌, set, ◌==◌, leb,
  if◌then◌else◌,
}
use communication_network.Wire.Header.{PacketHdr, get_octet, set_octet}
use communication_network.Wire.Packet.{Packet}
use communication_network.Wire.Make.{contentid_pos, hostid_or_hops_pos}
use communication_network.Router.Tables.{
  RtRecord, PrtRecord, pending_table_expiry_time, routing_table_expiry_time,
  is_content_present_in_rt, find_route, find_pending, refresh_route, is_some,
}
use communication_network.Router.State.{
  Receiver, Update, Router, message_packet, push_pending, renew_pending, scan_pending, push_route,
  renew_route, committing, send_on, forward,
}

unfoldable pub new_pending : ℕ → ℕ → ℕ → PrtRecord
new_pending content_id host_id rx_interface = record {
  c_id = content_id;
  h_id = host_id;
  interface = rx_interface;
  ttl_val = pending_table_expiry_time;
}

unfoldable pub new_route : ℕ → ℕ → ℕ → RtRecord
new_route content_id hops rx_interface = record {
  c_id = content_id;
  interface = rx_interface;
  num_hops = hops;
  ttl_rt = routing_table_expiry_time;
}

-- case REQUEST, up to the lock.
unfoldable pub decide_request : ℕ → Packet → Router → Exec Router
unfolding new_pending
decide_request rx_interface p s = do
  content_id ← get_octet contentid_pos p.header
  host_id ← get_octet hostid_or_hops_pos p.header
  let test_flag = is_some (find_pending content_id host_id s.prt_local)
  t ← forward (is_content_present_in_rt content_id s.rt_local) p s
  ok (record t {
    phase = committing (
        if test_flag
        then renew_pending content_id host_id
        else push_pending (new_pending content_id host_id rx_interface));
  })

abbrev pub respond : Option PrtRecord → Packet → Router → Exec Router
respond none p s = ok s
respond (some r) p s = send_on r.interface p s

-- case RESPONSE, up to the lock. (The erasure under the lock is commented out.)
unfoldable pub decide_response : Packet → Router → Exec Router
decide_response p s = do
  content_id ← get_octet contentid_pos p.header
  host_id ← get_octet hostid_or_hops_pos p.header
  t ← respond (find_pending content_id host_id s.prt_local) p s
  ok (record t { phase = committing scan_pending })

-- The loop that sends an announcement through all interfaces but the one it came from.
unfoldable pub broadcast : ℕ → ℕ → ℕ → Packet → Router → Exec Router
broadcast zero index rx_interface p s = ok s
broadcast (suc rounds) index rx_interface p s =
    (if index == rx_interface then ok s else send_on index p s) >>= λ t.
    broadcast rounds (index + 1) rx_interface p t

-- The record that the ANNOUNCEMENT case writes back, and whether it broadcasts.
unfoldable pub announced : Option RtRecord → ℕ → ℕ → ℕ → Update × Bool
unfolding new_route refresh_route
announced none content_id hops rx_interface =
    (push_route (new_route content_id hops rx_interface), true)
announced (some r) content_id hops rx_interface =
    (renew_route (refresh_route hops rx_interface r), leb hops r.num_hops)

-- `setOctet` through the message's header pointer changes the header that the port shares.
unfoldable pub set_header : ℕ → Receiver → PacketHdr → Router → Router
set_header i r h s = record s { receivers = set s.receivers i shared }
  where
    shared : Receiver
    shared = record r { port = record r.port { pkt = record r.port.pkt { header = h } } }

-- case ANNOUNCEMENT, up to the lock.
unfoldable pub decide_announcement : ℕ → Receiver → Router → Exec Router
unfolding announced set_header
decide_announcement rx_interface r s = do
  let p = message_packet r
  content_id ← get_octet contentid_pos p.header
  hops ← get_octet hostid_or_hops_pos p.header
  let (update, is_broadcast) =
      announced (find_route content_id s.rt_local) content_id hops rx_interface
  h ← set_octet ((hops + 1) % 256) hostid_or_hops_pos p.header
  let q = record p { header = h }
  let u = set_header rx_interface r h s
  t ← if is_broadcast then broadcast s.num_interfaces 0 rx_interface q u else ok u
  ok (record t { phase = committing update })
