-- ===== src/Host/Announcing.antt =====
-- What a round of `bcast` sends.
use communication_network.Base.{
  ℕ, ◌+◌, ◌≡◌, refl, ℤ, pos, List, [], ◌∷◌, ◌++◌, ok, fault, overrun, arith, length, le→leb,
}
use communication_network.Wire.Header.{set_octet, four_octets}
use communication_network.Wire.Packet.{Packet, Allocator, send_packet, make_packet}
use communication_network.Wire.Make.{to_octet, announcement, make_announcement_packet, fill_header}
use communication_network.Host.State.{Host, send}
use communication_network.Host.Threads.{new_packet, announce_all, bcast}

-- The header after MakeAnnouncementPacket: three octets are written, and three counted once more.
abbrev announced_packet : ℤ → ℕ → Packet → Packet
announced_packet c last p = record p {
  header = record {
    info = announcement ∷ to_octet c ∷ 0 ∷ last ∷ [];
    header_length = p.header.header_length + 1 + 1 + 1;
  };
}

make_announcement_packet-eq :
    (c : ℤ) (p : Packet) (x y z w : ℕ)
    → p.header.info ≡ x ∷ y ∷ z ∷ w ∷ []
    → make_announcement_packet c (pos 0) p ≡ ok (announced_packet c w p)
unfolding make_announcement_packet fill_header set_octet
make_announcement_packet-eq c p x y z w e = rw e

-- The first announcement of a round.
send_first :
    (c : ℤ) (w : ℕ) (p : Packet) (s : Host)
    → p.size ≡ 0
    → p.header.header_length ≡ 0
    → send (announced_packet c w p) s
      ≡ ok (record s { sent = s.sent ++ (3 ∷ announcement ∷ to_octet c ∷ 0 ∷ []) ∷ [] })
unfolding send send_packet make_packet
send_first c w p s empty fresh = rw (empty, fresh) (rw (le→leb 0 (length p.payload) (omega arith)))

-- The next one in the same packet: its header has a length of six.
send_second :
    (c : ℤ) (w : ℕ) (p : Packet) (s : Host)
    → p.header.header_length ≡ 3
    → send (announced_packet c w p) s ≡ fault overrun
unfolding send send_packet make_packet
send_second c w p s used = rw used

-- A round of `bcast` on a list of contents. Without one it sends nothing. For a single content it
-- sends the announcement with no hops. With two or more it reads past the header block of its packet
-- at the second announcement, because it writes all of them into one packet, whose header length
-- is never reset.
pub bcast_round :
    (new : Allocator) (c d : ℤ) (cs : List ℤ) (s : Host)
    → (bcast new (record s { list1 = [] }) ≡ ok (record s { list1 = [] }))
      × (bcast new (record s { list1 = c ∷ [] })
          ≡ ok (record s {
            list1 = c ∷ [];
            sent = s.sent ++ (3 ∷ announcement ∷ to_octet c ∷ 0 ∷ []) ∷ [];
          }))
      × (bcast new (record s { list1 = c ∷ d ∷ cs }) ≡ fault overrun)
unfolding bcast announce_all
bcast_round new c d cs s =
    let p = new_packet new in
    let (x, y, z, w, e) = four_octets (new.block 4) (new.length-block 4) in
    let q = announced_packet c w p in
    (
      refl,
      rw (make_announcement_packet-eq c p x y z w e)
          (rw (send_first c w p (record s { list1 = c ∷ [] }) refl refl)),
      rw (make_announcement_packet-eq c p x y z w e) (
          rw (send_first c w p (record s { list1 = c ∷ d ∷ cs }) refl refl) (
            rw (make_announcement_packet-eq d q announcement (to_octet c) 0 w refl) (
              rw (
                send_second d w q
                  (record s {
                    list1 = c ∷ d ∷ cs;
                    sent = s.sent ++ (3 ∷ announcement ∷ to_octet c ∷ 0 ∷ []) ∷ [];
                  })
                  refl)))),
    )
