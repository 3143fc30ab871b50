-- ===== src/Wire/RoundTrip.antt =====
-- What one port sends, another receives: `makePacket` against `receivePacket`.
use communication_network.Base.{
  false, ◌⊎◌, inl, inr, Bool-cases, ℕ, ◌+◌, ◌-◌, ◌%◌, ◌≤◌, ◌<◌, ◌≡◌, refl, List, ◌∷◌, ◌++◌, ok,
  fault, overrun, guard, ◌>>=◌, length, take, drop, leb, min, arith, length-take,
  take-append_of_length, leb→le, le→leb, lt→not_leb,
}
use communication_network.Wire.Header.{PacketHdr, max_header_size}
use communication_network.Wire.Packet.{
  Packet, ReceivingPort, Allocator, max_buf_length, mtu_size, make_packet, extract_header,
  send_packet, receive_packet,
}
use communication_network.Wire.Received.{
  IsSound, IsReady, received, receive_packet-eq, received-IsReady, receive_from-eq,
}

send_packet-eq :
    (p : Packet)
    → IsSound p
    → p.header.header_length ≤ max_header_size
    → p.size ≤ mtu_size - p.header.header_length
    → let hs = take p.header.header_length p.header.info in
      let ps = take p.size p.payload in
      (send_packet p ≡ ok (length hs ∷ hs ++ ps))
      × (length hs ≡ p.header.header_length)
      × (length ps ≡ p.size)
unfolding send_packet make_packet
send_packet-eq p sound small fits =
    let n = p.header.header_length in
    let lh : length (take n p.header.info) ≡ n =
      omega (arith, length-take n p.header.info, sound.header_block) in
    let low : n % 256 ≡ n = omega arith in
    (
      rw (le→leb n (length p.header.info) (omega (arith, sound.header_block))) (
          rw (le→leb p.size (length p.payload) (omega (arith, sound.payload_block, sound.within)))
            (rw (le→leb (1 + p.size + n) (mtu_size + 1) (omega arith), low, lh))),
      lh,
      omega (arith, length-take p.size p.payload, sound.payload_block, sound.within),
    )

-- A sound packet whose header has at most MAX_HEADER_SIZE octets and that fits the MTU is sent
-- without a fault, and a ready port receives it: the header length, the header's octets, the
-- payload size and the payload are those that were sent, and the port is ready again.
pub receive_packet-send_packet :
    (new : Allocator) (p : Packet) (port : ReceivingPort)
    → IsSound p
    → p.header.header_length ≤ max_header_size
    → p.size ≤ mtu_size - p.header.header_length
    → IsReady port
    → (got : ReceivingPort) × ((send_packet p >>= λ bytes. receive_packet new bytes port) ≡ ok got)
      × IsReady got
      × (got.pkt.header.header_length ≡ p.header.header_length)
      × (take p.header.header_length got.pkt.header.info
          ≡ take p.header.header_length p.header.info)
      × (got.pkt.size ≡ p.size)
      × (take p.size got.pkt.payload ≡ take p.size p.payload)
receive_packet-send_packet new p port sound small fits ready =
    let hs = take p.header.header_length p.header.info in
    let ps = take p.size p.payload in
    let (sent, lh, lp) = send_packet-eq p sound small fits in
    (
      received hs ps port,
      rw sent (receive_packet-eq new hs ps port (omega arith) (omega arith) ready),
      received-IsReady new hs ps port (omega arith) (omega arith) ready,
      lh,
      take-append_of_length _ hs (drop (length hs) port.pkt.header.info) lh,
      lp,
      take-append_of_length _ ps (drop (length ps) port.pkt.payload) lp,
    )

-- The header copy faults, or leaves the announced length; past the block it faults.
extract_header-cases :
    (a : ℕ) (rest : List ℕ) (h : PacketHdr)
    → (extract_header (a ∷ rest) h ≡ fault overrun)
      ⊎ ((g : PacketHdr) × (extract_header (a ∷ rest) h ≡ ok g)
          × (g.header_length ≡ a)
          × (a ≤ length h.info))
unfolding extract_header
extract_header-cases a rest h = elim (Bool-cases (leb a (length h.info))) [
  | inr long ↦ inl (rw (long, guard))
  | inl small ↦ elim (Bool-cases (leb a (length rest))) [
    | inr short ↦ inl (rw (small, guard) (rw short))
    | inl full ↦ inr (
      record { info = take a rest ++ drop a h.info; header_length = a },
      rw (small, guard) (rw full),
      refl,
      leb→le _ _ small,
    )
  ]
]

-- A datagram whose first octet announces more than MAX_HEADER_SIZE header octets makes
-- `extractHeader` write past the header block, and one that is shorter than its header makes
-- `receivePacket` copy a negative number of bytes: whatever the rest of the datagram, a fault.
pub receive_packet-overrun :
    (new : Allocator) (a : ℕ) (rest : List ℕ) (port : ReceivingPort)
    → IsReady port
    → length rest < max_buf_length
    → (max_header_size < a) ⊎ (length rest < a)
    → receive_packet new (a ∷ rest) port ≡ fault overrun
unfolding receive_packet
receive_packet-overrun new a rest port ready fits bad =
    let tail = drop (length (a ∷ rest)) port.tmp_buffer in
    rw (receive_from-eq (a ∷ rest) port.tmp_buffer (omega arith))
      (elim (extract_header-cases a (rest ++ tail) port.pkt.header) [
        | inl f ↦ rw f
        | inr (g, good, e, small) ↦
            let late : leb (1 + g.header_length) (min (length (a ∷ rest)) max_buf_length) ≡ false =
              lt→not_leb _ _ (omega arith) in
            rw good (rw late)
      ])
