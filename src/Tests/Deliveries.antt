-- ===== src/Tests/Deliveries.antt =====
-- The delivery of one content of two bytes.
use communication_network.Base.{ℕ, pos, List, [], ◌∷◌, Option, none, some, true, if◌then◌else◌}
use communication_network.Wire.Packet.{Packet}
use communication_network.Router.State.{Router, polling}
use communication_network.Host.State.{FileName, fn_generator, same_file, Host}
use communication_network.Host.Retrying.{booted}
use communication_network.Network.Chain.{Link}
use communication_network.Tests.Values.{receiver, route_7}

abbrev file_7 : FileName → Option (List ℕ)
file_7 f = if same_file f (fn_generator (pos 7) true) then some (104 ∷ 105 ∷ []) else none

abbrev asking_host : Host
asking_host = booted (pos 5) (λ f. none) true

abbrev offering_host : Host
offering_host = booted (pos 6) file_7 true

abbrev router : Router
router = record {
  num_interfaces = 2;
  routing_table = route_7 ∷ [];
  pending_table = [];
  rt_local = [];
  prt_local = [];
  receivers = receiver ∷ receiver ∷ [];
  message_queue = [];
  sent = [];
  phase = polling;
}

-- Two routers like that, one after the other.
abbrev link : Link
link = record { router = router; entry = 0; exit = 1 }
