-- ===== src/Tests/Sockets.antt =====
-- A router's ports from a configuration file, and a host's answer on its way back.
use communication_network.Ambitious.Setup.{set_up, all_listening, set_up_lem}
use communication_network.Base.{
  ℕ, ◌≡◌, refl, pos, negsuc, List, [], ◌∷◌, ◌++◌, none, some, Option, ok, fault, failure, false,
  length, get_elem?, arith, if◌then◌else◌,
}
use communication_network.Wire.Header.{get_octet}
use communication_network.Wire.Packet.{
  Packet, send_packet, make_packet, receive_packet, ReceivingPort,
}
use communication_network.Wire.Make.{request}
use communication_network.Host.State.{Host, FileName}
use communication_network.Router.Configuration.{read_numbers, configured}
use communication_network.Ports.Sockets.{
  Resolver, SystemCalls, UdpPort, localhost, resolve, send_to,
}
use communication_network.Ports.Opening.{
  all_opened, open_sending_port, open_sending_ports, is_port, Succeed, opened,
  open_sending_port_lem,
}
use communication_network.Ports.Configured.{configured_port_sends}
use communication_network.Ambitious.Pending.{get_interface_from_pending_table}
use communication_network.Ambitious.Routing.{get_interface_from_routing_table, fresh_route}
use communication_network.Ambitious.Main.{CdnRouter, process}
use communication_network.Ambitious.Answers.{Sendable, IsInterface}
use communication_network.Ambitious.Hosts.{rx_packet}
use communication_network.Ambitious.Misaddressed.{reply, reply_is_dropped}
use communication_network.Tests.Values.{thread, zeroed, port, port-IsReady}

-- Every name is 127.0.0.1, every call succeeds.
abbrev dns : Resolver
dns = record {
  inet_aton = λ _. none;
  gethostbyname = λ _. some 2130706433;
  inet_ntoa = λ _. localhost;
}

abbrev calls : ℕ → SystemCalls
calls k = record { socket = pos 3; bind = pos 0; setsockopt = pos 0 }

succeeds : (k : ℕ) → Succeed (calls k)
succeeds k = record { makes = refl; binds = refl }

-- A remote port of 40000 is negative as a `short`.
open_sending_port_lem_example :
    open_sending_port dns (calls 0) zeroed 6000 40000
    ≡ (if is_port 40000 then ok (opened (calls 0) zeroed 6000 40000) else fault failure)
open_sending_port_lem_example = open_sending_port_lem dns (calls 0) zeroed 6000 40000 (succeeds 0)

abbrev asking : Packet
asking = (thread request 7 5 3).port.pkt

resolves : resolve dns localhost ≡ ok 2130706433
unfolding resolve
resolves = refl

sends : send_packet asking ≡ ok (3 ∷ request ∷ 7 ∷ 5 ∷ [])
unfolding send_packet make_packet
sends = refl

configured_port_sends_example :
    let c =
      read_numbers 0
        (1 ∷ 2 ∷ 5000 ∷ 5001 ∷ 6000 ∷ 6001 ∷ 4000 ∷ 7000 ∷ 99 ∷ [])
        (configured 0 0 [] [] []) in
    (ports : List UdpPort) × (one : UdpPort) × (open_sending_ports dns calls zeroed c.num_interfaces
        0 c.tx_addressess c.tx_remote_addressess
      ≡ ok ports)
    × (length ports ≡ 2)
    × (get_elem? ports 1 ≡ some one)
    × (one.my_sock_address ≡ some (record { sin_port = 6001; sin_addr = 0 }))
    × (send_to dns (pos 4) asking one
        ≡ ok (record { sin_port = 7000; sin_addr = 2130706433 }, 3 ∷ request ∷ 7 ∷ 5 ∷ []))
configured_port_sends_example =
    configured_port_sends dns calls zeroed 1 2 0 0 (5000 ∷ 5001 ∷ []) (6000 ∷ 6001 ∷ [])
      (4000 ∷ 7000 ∷ []) (99 ∷ []) 1 6001 7000 2130706433 (pos 4) asking (3 ∷ request ∷ 7 ∷ 5 ∷ [])
      refl refl refl (omega arith) (omega arith) succeeds refl refl resolves refl sends

-- Comments behind the numbers are ignored, and the last line is behind all that is read.
abbrev file : List (List ℕ)
file =
    (1 ∷ 11 ∷ [])
    ∷ (2 ∷ [])
    ∷ []
    ∷ (5000 ∷ [])
    ∷ (5001 ∷ 8 ∷ 8 ∷ [])
    ∷ (6000 ∷ [])
    ∷ (6001 ∷ [])
    ∷ (4000 ∷ [])
    ∷ (7000 ∷ [])
    ∷ (99 ∷ [])
    ∷ []

set_up_lem_example :
    set_up dns calls calls zeroed file (configured 0 0 [] [] [])
    ≡ ok (
      all_opened calls zeroed 0 (6000 ∷ 6001 ∷ []) (4000 ∷ 7000 ∷ []),
      all_listening calls zeroed 0 (5000 ∷ 5001 ∷ []),
    )
set_up_lem_example =
    set_up_lem dns calls calls zeroed 1 2 0 0 (5000 ∷ 5001 ∷ []) (6000 ∷ 6001 ∷ [])
      (4000 ∷ 7000 ∷ []) (99 ∷ []) file refl refl refl refl (omega arith) succeeds succeeds

-- Host 5 asks for content 7, which host 4 has.
abbrev has_7 : FileName → Option (List ℕ)
has_7 f = some (104 ∷ 105 ∷ [])

abbrev owner : Host
owner = record {
  host_id = pos 4;
  list1 = pos 7 ∷ [];
  files = has_7;
  content_number = negsuc 0;
  content_resp = false;
  ackflag = false;
  last_pkt = none;
  timers = [];
  tid = 0;
  sent = [];
}

abbrev routed : CdnRouter
routed = record {
  num_interfaces = 2;
  routing_table = fresh_route 7 1 1 ∷ [];
  pending_table = [];
  sent = [];
}

asking-Sendable : Sendable asking request 7 5
unfolding send_packet make_packet
asking-Sendable = record { last = 0; octets = refl; sends = refl }

octets : (get_octet 1 asking.header ≡ ok 7) × (get_octet 0 asking.header ≡ ok request)
unfolding get_octet
octets = (refl, refl)

not_asked : get_interface_from_pending_table 7 4 [] ≡ negsuc 0
unfolding get_interface_from_pending_table
not_asked = refl

inside : IsInterface 2 (get_interface_from_routing_table 7 routed.routing_table)
unfolding get_interface_from_routing_table
inside = omega arith

reply_is_dropped_example :
    (noted : CdnRouter) × (back : ReceivingPort) × (process 0 asking routed ≡ ok noted)
    × (rx_packet zeroed asking owner
        ≡ ok (record owner { sent = [] ++ reply 7 4 (104 ∷ 105 ∷ []) ∷ [] }))
    × (receive_packet zeroed (reply 7 4 (104 ∷ 105 ∷ [])) port ≡ ok back)
    × (process 1 back.pkt noted ≡ ok noted)
    × (get_interface_from_pending_table 7 5 noted.pending_table ≡ pos 0)
reply_is_dropped_example =
    reply_is_dropped zeroed zeroed 0 1 7 5 4 (104 ∷ 105 ∷ []) asking asking routed owner port
      asking-Sendable inside not_asked (omega arith) refl (omega arith) (omega arith) (omega arith)
      refl octets.0 octets.1 port-IsReady
