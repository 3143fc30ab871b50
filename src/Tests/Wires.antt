-- ===== src/Tests/Wires.antt =====
-- Headers, packets and ports on concrete bytes.
use communication_network.Base.{
  ◌≡◌, refl, [], ◌∷◌, false, ok, fault, overrun, get_elem?, arith, ◌>>=◌, take, inl, some,
}
use communication_network.Wire.Packet.{ReceivingPort, Packet, send_packet, receive_packet}
use communication_network.Wire.Received.{IsReady}
use communication_network.Wire.RoundTrip.{receive_packet-send_packet, receive_packet-overrun}
use communication_network.Router.State.{Receiver, Router, message_packet, polling}
use communication_network.Router.Loop.{receive}
use communication_network.Router.SharedMessage.{second_overwrites_first}
use communication_network.Tests.Values.{zeroed, port, port-IsReady, receiver}

abbrev response_7 : Packet
response_7 = record {
  size = 2;
  buffer_length = 3;
  payload = 104 ∷ 105 ∷ 0 ∷ [];
  header = record { info = 1 ∷ 7 ∷ 5 ∷ 0 ∷ []; header_length = 3 };
}

receive_packet-send_packet_example :
    (got : ReceivingPort) × ((send_packet response_7 >>= λ bytes. receive_packet zeroed bytes port)
      ≡ ok got)
    × IsReady got
    × (got.pkt.header.header_length ≡ 3)
    × (take 3 got.pkt.header.info ≡ 1 ∷ 7 ∷ 5 ∷ [])
    × (got.pkt.size ≡ 2)
    × (take 2 got.pkt.payload ≡ 104 ∷ 105 ∷ [])
receive_packet-send_packet_example =
    receive_packet-send_packet zeroed response_7 port
      (record { header_block = refl; payload_block = refl; within = omega arith }) (omega arith)
      (omega arith) port-IsReady

receive_packet-overrun_example : receive_packet zeroed (9 ∷ 1 ∷ 7 ∷ []) port ≡ fault overrun
receive_packet-overrun_example =
    receive_packet-overrun zeroed 9 (1 ∷ 7 ∷ []) port port-IsReady (omega arith) (inl (omega arith))

abbrev listening : Router
listening = record {
  num_interfaces = 1;
  routing_table = [];
  pending_table = [];
  rt_local = [];
  prt_local = [];
  receivers = receiver ∷ [];
  message_queue = [];
  sent = [];
  phase = polling;
}

second_overwrites_first_example :
    (t : Router) × (x : Receiver) × ((receive zeroed 0 false (3 ∷ 2 ∷ 7 ∷ 0 ∷ []) listening
        >>= receive zeroed 0 false (3 ∷ 0 ∷ 8 ∷ 5 ∷ 104 ∷ []))
      ≡ ok t)
    × (t.message_queue ≡ 0 ∷ 0 ∷ [])
    × (get_elem? t.receivers 0 ≡ some x)
    × (take 3 (message_packet x).header.info ≡ 0 ∷ 8 ∷ 5 ∷ [])
    × (take 1 (message_packet x).payload ≡ 104 ∷ [])
    × ((message_packet x).size ≡ 1)
second_overwrites_first_example =
    second_overwrites_first zeroed 0 (2 ∷ 7 ∷ 0 ∷ []) [] (0 ∷ 8 ∷ 5 ∷ []) (104 ∷ []) receiver
      listening refl port-IsReady (omega arith) (omega arith) (omega arith) (omega arith)
