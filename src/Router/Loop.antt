-- ===== src/Router/Loop.antt =====
-- The rest of the main loop of router.cpp, the timer thread and the receiving threads.
use communication_network.Base.{
  ℕ, List, [], ◌∷◌, ◌++◌, Bool, Exec, ok, overrun, or_fault, ◌>>=◌, get_elem?, set, ◌==◌,
  if◌then◌else◌,
}
use communication_network.Wire.Header.{get_octet}
use communication_network.Wire.Packet.{Allocator, receive_packet}
use communication_network.Wire.Make.{packet_type_pos, request, response, announcement}
use communication_network.Router.Tables.{touch_pending, replace_route, tick_routes, tick_pendings}
use communication_network.Router.State.{
  Receiver, Update, Router, message_packet, push_pending, renew_pending, scan_pending, push_route,
  renew_route, polling,
}
use communication_network.Router.Handlers.{decide_request, decide_response, decide_announcement}

-- The end of the loop's body: both caches are cleared.
unfoldable pub clear_caches : Router → Router
clear_caches s = record s { rt_local = []; prt_local = []; phase = polling }

-- The `switch` on the packet's type.
unfoldable pub decide : ℕ → Receiver → Router → Exec Router
unfolding decide_request decide_response decide_announcement clear_caches
decide rx_interface r s = do
  packet_type ← get_octet packet_type_pos r.port.pkt.header
  (if packet_type == request
      then decide_request rx_interface (message_packet r) s
      else (if packet_type == response
          then decide_response (message_packet r) s
          else (if packet_type == announcement
              then decide_announcement rx_interface r s
              else ok (clear_caches s))))

-- `messageQueue.pop`; on an empty queue `continue` skips the clearing of the caches.
unfoldable pub poll : Router → Exec Router
poll s = elim s.message_queue [
  | [] ↦ ok (record s { phase = polling })
  | i ∷ rest ↦ (or_fault (get_elem? s.receivers i) overrun) >>= λ r.
      decide i r (record s { message_queue = rest })
]

-- The update under the lock.
unfoldable pub apply_update : Update → Router → Router
apply_update (push_pending r) s = record s { pending_table = s.pending_table ++ r ∷ [] }
apply_update (renew_pending content_id host_id) s = record s {
  pending_table = touch_pending content_id host_id s.pending_table;
}
apply_update scan_pending s = s
apply_update (push_route r) s = record s { routing_table = s.routing_table ++ r ∷ [] }
apply_update (renew_route r) s = record s { routing_table = replace_route r s.routing_table }

unfoldable pub commit : Update → Router → Router
unfolding apply_update clear_caches
commit u s = clear_caches (apply_update u s)

-- The two locked halves of a timer round.
unfoldable pub expire_routes : Router → Router
unfolding tick_routes
expire_routes s = record s { routing_table = tick_routes s.routing_table }

unfoldable pub expire_pendings : Router → Router
unfolding tick_pendings
expire_pendings s = record s { pending_table = tick_pendings s.pending_table }

-- A receiving thread gets a datagram. One that LossyReceivingPort drops has still been read into
-- the shared packet.
unfoldable pub receive : Allocator → ℕ → Bool → List ℕ → Router → Exec Router
receive new i dropped datagram s = do
  r ← or_fault (get_elem? s.receivers i) overrun
  port ← receive_packet new datagram r.port
  ok (
      if dropped
      then record s { receivers = set s.receivers i (record r { port = port }) }
      else record s {
        receivers = set s.receivers i (record {
          port = port;
          message_size = port.pkt.size;
          message_buffer_length = port.pkt.buffer_length;
        });
        message_queue = s.message_queue ++ i ∷ [];
      })
