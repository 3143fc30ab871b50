-- ===== src/Wire/Received.antt =====
-- What a ready port holds after a well-formed datagram: `extractHeader` and `fillPayload`.
use communication_network.Base.{
  false, ℕ, ◌+◌, ◌-◌, ◌≤◌, ◌≡◌, List, ◌∷◌, ◌++◌, ok, length, drop, ltb, min, arith, ap, ◌∙◌,
  length-append, length-drop, take-append, drop-append, take_all, le→leb,
}
use mathlib.Core.List.{append_assoc}
use native.Mathlib.Numerals.{add-one}
use communication_network.Wire.Header.{PacketHdr, IsAllocated, max_header_size}
use communication_network.Wire.Packet.{
  Packet, ReceivingPort, Allocator, max_buf_length, fill_payload, extract_header, receive_from,
  receive_packet,
}

-- A packet as its constructors make it and its operations leave it.
pub record IsSound (p : Packet) : Type 0 where
  pub header_block : IsAllocated p.header
  pub payload_block : length p.payload ≡ p.buffer_length
  pub within : p.size ≤ p.buffer_length

-- A receiving port as `ReceivingPort()` and `init` make it: both buffers of MAXBUFLENGTH bytes.
pub record IsReady (port : ReceivingPort) : Type 0 where
  pub sound : IsSound port.pkt
  pub payload_room : port.pkt.buffer_length ≡ max_buf_length
  pub buffer_room : length port.tmp_buffer ≡ max_buf_length

pub receive_from-eq :
    (datagram buffer : List ℕ)
    → length datagram ≤ max_buf_length
    → receive_from datagram buffer ≡ datagram ++ drop (length datagram) buffer
unfolding receive_from
receive_from-eq datagram buffer h = rw (take_all max_buf_length datagram h)

-- The header block after a header `hs` was copied over its start.
abbrev pub over_header : List ℕ → PacketHdr → PacketHdr
over_header hs h = record { info = hs ++ drop (length hs) h.info; header_length = length hs }

extract_header-eq :
    (hs rest : List ℕ) (h : PacketHdr)
    → length hs ≤ length h.info
    → extract_header (length hs ∷ hs ++ rest) h ≡ ok (over_header hs h)
unfolding extract_header
extract_header-eq hs rest h small =
    let long : length hs ≤ length (hs ++ rest) = omega (arith, length-append hs rest) in
    rw (le→leb _ _ small, le→leb _ _ long, take-append hs rest)

-- The packet after the payload `ps` was copied over the start of its buffer.
abbrev pub over_payload : List ℕ → Packet → Packet
over_payload ps p = record p { size = length ps; payload = ps ++ drop (length ps) p.payload }

fill_payload-eq :
    (new : Allocator) (ps rest : List ℕ) (p : Packet)
    → length ps ≤ p.buffer_length
    → length ps ≤ length p.payload
    → fill_payload new (length ps) (ps ++ rest) p ≡ ok (over_payload ps p)
unfolding fill_payload
fill_payload-eq new ps rest p fits room =
    let long : length ps ≤ length (ps ++ rest) = omega (arith, length-append ps rest) in
    let kept : ltb p.buffer_length (length ps) ≡ false = ground arith in
    rw (kept, fill_payload) (rw (le→leb _ _ long, le→leb _ _ room, take-append ps rest))

-- The port after a datagram with the header `hs` and the payload `ps` arrived.
abbrev pub received : List ℕ → List ℕ → ReceivingPort → ReceivingPort
received hs ps port = record {
  pkt = over_payload ps (record port.pkt { header = over_header hs port.pkt.header });
  tmp_buffer = length hs ∷ hs ++ (ps ++ drop (length (length hs ∷ hs ++ ps)) port.tmp_buffer);
}

module _ (new : Allocator) (hs ps : List ℕ) (port : ReceivingPort) where
  open port use {pkt, tmp_buffer}

  -- The buffer behind the datagram.
  behind : List ℕ
  behind = drop (length (length hs ∷ hs ++ ps)) tmp_buffer

  buffered :
      1 + length hs + length ps ≤ max_buf_length
      → receive_from (length hs ∷ hs ++ ps) tmp_buffer ≡ length hs ∷ hs ++ (ps ++ behind)
  unfolding behind
  buffered fits =
      receive_from-eq (length hs ∷ hs ++ ps) tmp_buffer (omega (arith, length-append hs ps))
      ∙ ap (◌∷◌ (length hs)) (append_assoc hs ps behind)

  len-eq :
      1 + length hs + length ps ≤ max_buf_length
      → min (length (length hs ∷ hs ++ ps)) max_buf_length ≡ 1 + length hs + length ps
  len-eq fits = omega (arith, length-append hs ps)

  pub receive_packet-eq :
      length hs ≤ max_header_size
      → 1 + length hs + length ps ≤ max_buf_length
      → IsReady port
      → receive_packet new (length hs ∷ hs ++ ps) port ≡ ok (received hs ps port)
  unfolding receive_packet behind
  receive_packet-eq small fits ready =
      let h = over_header hs pkt.header in
      let n : 1 + length hs + length ps - 1 - length hs ≡ length ps = omega arith in
      let start : drop (length hs + 1) (length hs ∷ hs ++ (ps ++ behind)) ≡ ps ++ behind =
        rw add-one (drop-append hs (ps ++ behind)) in
      rw (buffered fits, len-eq fits)
        (rw (extract_header-eq hs (ps ++ behind) pkt.header (omega arith)) (
          rw (le→leb (1 + length hs) (1 + length hs + length ps) (omega arith), n, start)
            (rw (
              fill_payload-eq new ps behind (record pkt { header = h }) (omega arith)
                (omega arith)))))

  pub received-IsReady :
      length hs ≤ max_header_size
      → 1 + length hs + length ps ≤ max_buf_length
      → IsReady port
      → IsReady (received hs ps port)
  received-IsReady small fits ready = record {
    sound = record {
      header_block = omega (
        arith,
        length-append hs (drop (length hs) pkt.header.info),
        length-drop (length hs) pkt.header.info,
      );
      payload_block = omega (
        arith,
        length-append ps (drop (length ps) pkt.payload),
        length-drop (length ps) pkt.payload,
      );
      within = omega arith;
    };
    payload_room = ready.payload_room;
    buffer_room = omega (
      arith,
      length-append hs (ps ++ drop (length (length hs ∷ hs ++ ps)) tmp_buffer),
      length-append ps (drop (length (length hs ∷ hs ++ ps)) tmp_buffer),
      length-drop (length (length hs ∷ hs ++ ps)) tmp_buffer,
      length-append hs ps,
    );
  }
