-- ===== src/Wire/Packet.antt =====
-- class Packet (common.h and common.cpp), and the sending and receiving buffers of the ports. An
-- access past an allocation is undefined in C++ and a fault here.
use communication_network.Base.{
  ℕ, ◌+◌, ◌-◌, ◌*◌, ◌/◌, ◌%◌, ◌≡◌, List, ◌∷◌, ◌++◌, Exec, ok, overrun, guard, ◌>>◌, ◌>>=◌, or_fault,
  length, get_elem?, take, drop, ltb, leb, if◌then◌else◌, min,
}
use communication_network.Wire.Header.{PacketHdr, packet_hdr, set_header_size}

abbrev pub default_payload_size : ℕ
default_payload_size = 512

abbrev pub max_buf_length : ℕ
max_buf_length = 10000

abbrev pub mtu_size : ℕ
mtu_size = 1500

-- `payload` is the whole buffer of `buffer_length` bytes; the first `size` of them are the payload.
pub record Packet : Type 0 where
  pub size : ℕ
  pub buffer_length : ℕ
  pub payload : List ℕ
  pub header : PacketHdr

-- `Packet(int buffer_length)`: the blocks are the memory that `new` returns, uninitialised.
-- `Packet()` is the same with DEFAULT_PAYLOAD_SIZE.
abbrev pub packet : ℕ → List ℕ → List ℕ → Packet
packet buffer_length payload_block header_block = record {
  size = 0;
  buffer_length = buffer_length;
  payload = payload_block;
  header = packet_hdr header_block;
}

-- What `new char[n]` may hold: any block of n bytes.
pub record Allocator : Type 0 where
  pub block : ℕ → List ℕ
  pub length-block : (n : ℕ) → length (block n) ≡ n

-- The buffer grows to one and a half times the size, and what it held is lost.
unfoldable pub set_payload_size : Allocator → ℕ → Packet → Packet
set_payload_size new size p =
    if ltb p.buffer_length size
    then record p { size = size; buffer_length = size * 3 / 2; payload = new.block (size * 3 / 2) }
    else record p { size = size }

-- `memcpy` of `size` bytes from the input stream into the payload buffer.
unfoldable pub fill_payload : Allocator → ℕ → List ℕ → Packet → Exec Packet
unfolding set_payload_size
fill_payload new size inputstream p = do
  let q = set_payload_size new size p
  guard (leb size (length inputstream)) overrun
  guard (leb size (length q.payload)) overrun
  ok (record q { payload = take size inputstream ++ drop size q.payload })

-- The bytes put at the start of `streambuf`, a buffer of `room` bytes: the header's length in one
-- octet, the header, the payload. (`streambuf[1] = 0x00` is overwritten or not sent.)
unfoldable pub make_packet : ℕ → Packet → Exec (List ℕ)
make_packet room p = do
  let header_size = p.header.header_length
  guard (leb header_size (length p.header.info)) overrun
  guard (leb p.size (length p.payload)) overrun
  guard (leb (1 + p.size + header_size) room) overrun
  ok ((header_size % 256) ∷ take header_size p.header.info ++ take p.size p.payload)

-- The first octet of the stream says how many octets are copied into the header block.
unfoldable pub extract_header : List ℕ → PacketHdr → Exec PacketHdr
unfolding set_header_size
extract_header streambuf h = do
  a ← or_fault (get_elem? streambuf 0) overrun
  let g = set_header_size a h
  guard (leb a (length h.info)) overrun
  guard (leb a (length (drop 1 streambuf))) overrun
  ok (record g { info = take a (drop 1 streambuf) ++ drop a h.info })

-- SendingPort::sendPacket: what is handed to `sendto`. The sending buffer has MTU_SIZE + 1 bytes.
unfoldable pub send_packet : Packet → Exec (List ℕ)
send_packet p = make_packet (mtu_size + 1) p

-- ReceivingPort: the one packet and the one buffer that all receptions reuse.
pub record ReceivingPort : Type 0 where
  pub pkt : Packet
  pub tmp_buffer : List ℕ

-- `recvfrom` writes the datagram, cut at MAXBUFLENGTH, over the start of the buffer.
unfoldable pub receive_from : List ℕ → List ℕ → List ℕ
receive_from datagram tmp_buffer = take max_buf_length datagram ++ drop (length datagram) tmp_buffer

-- ReceivingPort::receivePacket after a successful `recvfrom` of `len` bytes. A negative
-- `len - 1 - header size` reaches `memcpy` as a huge size.
unfoldable pub receive_packet : Allocator → List ℕ → ReceivingPort → Exec ReceivingPort
receive_packet new datagram port = do
  let buffer = receive_from datagram port.tmp_buffer
  let len = min (length datagram) max_buf_length
  h ← extract_header buffer port.pkt.header
  guard (leb (1 + h.header_length) len) overrun
  p ←
      fill_payload new (len - 1 - h.header_length) (drop (h.header_length + 1) buffer)
        (record port.pkt { header = h })
  ok (record { pkt = p; tmp_buffer = buffer })
