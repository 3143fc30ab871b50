-- ===== src/Sender/Announcing.antt =====
-- What a round of bcast of Ambitious Version/sender.cpp sends.
use communication_network.Base.{
  ℕ, ◌+◌, ◌%◌, ◌≤◌, ◌<◌, ◌≡◌, refl, sym, ap, ◌∙◌, ℤ, List, [], ◌∷◌, ◌++◌, ok, fault, overrun, ◌>>=◌,
  length, take, arith, le→leb, lt→not_leb, leb→le, leb, Bool-cases, inl, inr, if◌then◌else◌,
}
use mathlib.Core.List.{append_assoc, append-nil}
use communication_network.Wire.Header.{PacketHdr, set_octet, four_octets}
use communication_network.Wire.Packet.{Packet, Allocator, send_packet, make_packet}
use communication_network.Wire.Make.{to_octet, announcement}
use communication_network.Host.State.{Host, send}
use communication_network.Host.Threads.{new_packet}
use communication_network.Sender.Threads.{announce_cids, bcast_cids}

-- The datagrams for contents in a row, the first with a header length of `n`; `x` and `y` are the two
-- octets that were never written.
abbrev pub growing : ℕ → ℕ → ℕ → List ℤ → List (List ℕ)
growing x y n [] = []
growing x y n (c ∷ cs) =
    (n ∷ take n (announcement ∷ to_octet c ∷ x ∷ y ∷ [])) ∷ growing x y (n + 1) cs

-- The packet before the loop writes the next content.
abbrev announcing : ℕ → ℕ → ℕ → ℕ → Packet → Packet
announcing o x y n p = record p {
  header = record { info = announcement ∷ o ∷ x ∷ y ∷ []; header_length = n };
}

send_next :
    (o x y n : ℕ) (p : Packet) (s : Host)
    → p.size ≡ 0
    → n ≤ 4
    → send (announcing o x y n p) s
      ≡ ok (record s { sent = s.sent ++ (n ∷ take n (announcement ∷ o ∷ x ∷ y ∷ [])) ∷ [] })
unfolding send send_packet make_packet
send_next o x y n p s empty small =
    let low : n % 256 ≡ n = omega arith in
    rw (empty, le→leb n 4 small)
      (rw (le→leb 0 (length p.payload) (omega arith)) (
        rw (le→leb (1 + 0 + n) 1501 (omega arith), low)
          (ap (λ (l : List ℕ). ok (record s { sent = s.sent ++ (n ∷ l) ∷ [] }))
            (append-nil (take n (announcement ∷ o ∷ x ∷ y ∷ []))))))

-- With five octets to send, the block of four is read past its end.
send_over :
    (h : PacketHdr) (p : Packet) (s : Host)
    → length h.info ≡ 4
    → 4 < h.header_length
    → send (record p { header = h }) s ≡ fault overrun
unfolding send send_packet make_packet
send_over h p s four long =
    rw (lt→not_leb (length h.info) h.header_length (omega (arith, four))) refl

announce_cids-within :
    (cs : List ℤ) (o x y n : ℕ) (p : Packet) (s : Host)
    → p.size ≡ 0
    → n + length cs ≤ 4
    → announce_cids cs (announcing o x y n p) s
      ≡ ok (record s { sent = s.sent ++ growing x y (n + 1) cs })
unfolding announce_cids set_octet
announce_cids-within [] o x y n p s empty small =
    ap (λ (l : List (List ℕ)). ok (record s { sent = l })) (sym (append-nil s.sent))
announce_cids-within (c ∷ cs) o x y n p s empty small =
    let first = (n + 1) ∷ take (n + 1) (announcement ∷ to_octet c ∷ x ∷ y ∷ []) in
    rw (send_next (to_octet c) x y (n + 1) p s empty (omega arith), ◌>>=◌)
      (announce_cids-within cs (to_octet c) x y (n + 1) p (record s { sent = s.sent ++ first ∷ [] })
          empty (omega arith)
        ∙ ap (λ (l : List (List ℕ)). ok (record s { sent = l }))
            (append_assoc s.sent (first ∷ []) (growing x y (n + 1 + 1) cs)))

announce_cids-beyond :
    (cs : List ℤ) (o x y n : ℕ) (p : Packet) (s : Host)
    → p.size ≡ 0
    → n ≤ 4
    → 4 < n + length cs
    → announce_cids cs (announcing o x y n p) s ≡ fault overrun
unfolding announce_cids set_octet
announce_cids-beyond [] o x y n p s empty small long = absurd (omega arith)
announce_cids-beyond (c ∷ cs) o x y n p s empty small long = elim (Bool-cases (leb (n + 1) 4)) [
  | inl more ↦
      let room = leb→le (n + 1) 4 more in
      rw (send_next (to_octet c) x y (n + 1) p s empty room, ◌>>=◌)
        (announce_cids-beyond cs (to_octet c) x y (n + 1) p _ empty room (omega arith))
  | inr last ↦
      let h : PacketHdr = record {
        info = announcement ∷ to_octet c ∷ x ∷ y ∷ [];
        header_length = n + 1;
      } in
      rw (send_over h p s refl (ground (arith, last)), ◌>>=◌) refl
]

-- A round of bcast, for every list of contents. The packet's header grows by an octet at each
-- content: up to three contents are announced, with headers of two, three and four octets, the
-- third and fourth never written; with four or more the header block is read past its end.
pub bcast_cids_lem :
    (new : Allocator) (s : Host)
    → (x : ℕ) × (y : ℕ) × (bcast_cids new s ≡ (
        if leb (length s.list1) 3
        then ok (record s { sent = s.sent ++ growing x y 2 s.list1 })
        else fault overrun))
unfolding bcast_cids set_octet
bcast_cids_lem new s =
    let (a, o, x, y, e) = four_octets (new.block 4) (new.length-block 4) in
    let p = new_packet new in
    (
      x,
      y,
      rw e (elim (Bool-cases (leb (length s.list1) 3)) [
        | inl few ↦
            rw few (announce_cids-within s.list1 o x y 1 p s refl (omega (arith, leb→le _ _ few)))
        | inr many ↦
            rw many
              (announce_cids-beyond s.list1 o x y 1 p s refl (omega arith) (ground (arith, many)))
      ]),
    )
