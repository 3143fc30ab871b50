-- ===== src/Router/State.antt =====
-- The state that the threads of a router share, and what its main loop does with a message.
-- Sending stands for `MySendingPorts.at(i)->sendPacket`: the datagram joins `sent`, the trace of
-- what was handed to `sendto`; that call itself is taken to succeed.
use communication_network.Base.{
  ℕ, zero, suc, ℤ, pos, negsuc, List, [], ◌∷◌, ◌++◌, Exec, ok, fault, out_of_range, guard, ◌>>◌,
  ◌>>=◌, ltb,
}
use communication_network.Wire.Packet.{Packet, ReceivingPort, send_packet}
use communication_network.Router.Tables.{RtRecord, PrtRecord}

-- A receiving thread's port and the one `Message` that it reuses. The message's packet is a copy of
-- the port's `*pkt_`: its own two numbers, and the port's payload and header behind shared pointers.
pub record Receiver : Type 0 where
  pub port : ReceivingPort
  pub message_size : ℕ
  pub message_buffer_length : ℕ

-- `message->_recvPacket` as the main thread sees it.
abbrev pub message_packet : Receiver → Packet
message_packet r = record {
  size = r.message_size;
  buffer_length = r.message_buffer_length;
  payload = r.port.pkt.payload;
  header = r.port.pkt.header;
}

-- What the main thread still has to do under a lock, once it has decided and sent.
pub data Update : Type 0 where
  push_pending : PrtRecord → Update
  renew_pending : ℕ → ℕ → Update
  scan_pending : Update
  push_route : RtRecord → Update
  renew_route : RtRecord → Update

-- Where the main thread stands in its loop.
pub data Phase : Type 0 where
  polling cached_pending cached : Phase
  committing : Update → Phase

pub record Router : Type 0 where
  pub num_interfaces : ℕ
  pub routing_table : List RtRecord
  pub pending_table : List PrtRecord
  pub rt_local : List RtRecord
  pub prt_local : List PrtRecord
  pub receivers : List Receiver
  pub message_queue : List ℕ  -- the threads whose messages are queued, oldest first
  pub sent : List (ℕ × List ℕ)
  pub phase : Phase

-- The two copying loops at the top of `while(1)`, each under its table's lock. They append.
unfoldable pub cache_pending : Router → Router
cache_pending s = record s { prt_local = s.prt_local ++ s.pending_table; phase = cached_pending }

unfoldable pub cache_routes : Router → Router
cache_routes s = record s { rt_local = s.rt_local ++ s.routing_table; phase = cached }

-- `MySendingPorts.at(i)->sendPacket(p)`.
unfoldable pub send_on : ℕ → Packet → Router → Exec Router
send_on i p s = do
  guard (ltb i s.num_interfaces) out_of_range
  bytes ← send_packet p
  ok (record s { sent = s.sent ++ (i, bytes) ∷ [] })

-- `if (interface_send != -1)`; `.at` of another negative number throws.
unfoldable pub forward : ℤ → Packet → Router → Exec Router
unfolding send_on
forward (pos i) p s = send_on i p s
forward (negsuc zero) p s = ok s
forward (negsuc (suc n)) p s = fault out_of_range
