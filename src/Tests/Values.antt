-- ===== src/Tests/Values.antt =====
-- Messages, records and blocks of memory that the tests share.
use communication_network.Wire.Make.{announcement}
use communication_network.Base.{
  ℕ, zero, suc, ◌≡◌, refl, List, [], ◌∷◌, pos, length, replicate, arith,
}
use communication_network.Wire.Packet.{Allocator, ReceivingPort}
use communication_network.Wire.Header.{PacketHdr}
use communication_network.Wire.Received.{IsReady}
use communication_network.Router.Tables.{RtRecord}
use communication_network.Router.State.{Receiver}

-- A thread whose message has these header octets, with a header length of three and no payload.
abbrev pub thread : ℕ → ℕ → ℕ → ℕ → Receiver
thread kind content third len = record {
  port = record {
    pkt = record {
      size = 0;
      buffer_length = 4;
      payload = 0 ∷ 0 ∷ 0 ∷ 0 ∷ [];
      header = record { info = kind ∷ content ∷ third ∷ 0 ∷ []; header_length = len };
    };
    tmp_buffer = [];
  };
  message_size = 0;
  message_buffer_length = 4;
}

-- A thread that has read the announcement of content 7, with these hops and this header length.
abbrev pub heard_thread : ℕ → ℕ → Receiver
heard_thread hops len = record (thread announcement 7 hops len) {
  port = record {
    pkt = record {
      size = 0;
      buffer_length = 4;
      payload = 0 ∷ 0 ∷ 0 ∷ 0 ∷ [];
      header = record { info = announcement ∷ 7 ∷ hops ∷ 0 ∷ []; header_length = len };
    };
    tmp_buffer = 3 ∷ announcement ∷ 7 ∷ 0 ∷ [];
  };
}

abbrev pub two_threads : List Receiver
two_threads = thread 0 0 0 0 ∷ thread 0 0 0 0 ∷ []

unfoldable pub zeros : ℕ → List ℕ
zeros n = replicate n 0

pub length-zeros : (n : ℕ) → length (zeros n) ≡ n
unfolding zeros
length-zeros zero = refl
length-zeros (suc n) = omega (arith, length-zeros n)

abbrev pub zeroed : Allocator
zeroed = record { block = zeros; length-block = length-zeros }

abbrev pub route_7 : RtRecord
route_7 = record { c_id = 7; interface = 1; num_hops = 0; ttl_rt = pos 25 }

abbrev pub empty_header : PacketHdr
empty_header = record { info = 0 ∷ 0 ∷ 0 ∷ 0 ∷ []; header_length = 0 }

abbrev pub port : ReceivingPort
port = record {
  pkt = record { size = 0; buffer_length = 10000; payload = zeros 10000; header = empty_header };
  tmp_buffer = zeros 10000;
}

pub port-IsReady : IsReady port
port-IsReady = record {
  sound = record { header_block = refl; payload_block = length-zeros 10000; within = omega arith };
  payload_room = refl;
  buffer_room = length-zeros 10000;
}

abbrev pub receiver : Receiver
receiver = record { port = port; message_size = 0; message_buffer_length = 10000 }
