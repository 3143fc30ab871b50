-- ===== src/Wire/Header.antt =====
-- class PacketHdr (common.h and common.cpp): a block of MAX_HEADER_SIZE octets and a length that
-- each write of a field raises. An access past the block is undefined in C++ and a fault here.
use communication_network.Base.{
  fault, ◌⊎◌, inl, inr, Option-cases, Bool-cases, ℕ, ◌+◌, ◌<◌, ◌≡◌, refl, List, [], ◌∷◌, Exec, ok,
  overrun, guard, or_fault, ◌>>◌, length, get_elem?, set, replicate, ltb, arith, length-set,
}

abbrev pub max_header_size : ℕ
max_header_size = 4

pub record PacketHdr : Type 0 where
  pub info : List ℕ
  pub header_length : ℕ

-- `PacketHdr()`: `block` is the memory that `new unsigned char[4]` returns, uninitialised.
abbrev pub packet_hdr : List ℕ → PacketHdr
packet_hdr block = record { info = block; header_length = 0 }

-- `init`: `memset`; the length stays.
pub init : PacketHdr → PacketHdr
init h = record h { info = replicate max_header_size 0 }

-- The argument is an `unsigned char`.
unfoldable pub set_octet : ℕ → ℕ → PacketHdr → Exec PacketHdr
set_octet c position h = do
  guard (ltb position (length h.info)) overrun
  ok (record h { info = set h.info position c; header_length = h.header_length + 1 })

unfoldable pub get_octet : ℕ → PacketHdr → Exec ℕ
get_octet position h = or_fault (get_elem? h.info position) overrun

unfoldable pub set_header_size : ℕ → PacketHdr → PacketHdr
set_header_size len h = record h { header_length = len }

-- The block has the size that the constructor asks for.
abbrev pub IsAllocated : PacketHdr → Type 0
IsAllocated h = length h.info ≡ max_header_size

-- A block of four octets, taken apart.
pub four_octets :
    (xs : List ℕ)
    → length xs ≡ 4
    → (a : ℕ) × (b : ℕ) × (c : ℕ) × (d : ℕ) × (xs ≡ a ∷ b ∷ c ∷ d ∷ [])
four_octets [] h = absurd (omega arith)
four_octets (a ∷ []) h = absurd (omega arith)
four_octets (a ∷ b ∷ []) h = absurd (omega arith)
four_octets (a ∷ b ∷ c ∷ []) h = absurd (omega arith)
four_octets (a ∷ b ∷ c ∷ d ∷ []) h = (a, b, c, d, refl)
four_octets (a ∷ b ∷ c ∷ d ∷ e ∷ xs) h = absurd (omega arith)

-- Within the block a write succeeds, keeps the block's size, and counts one more octet.
pub set_octet-IsAllocated :
    (c position : ℕ) (h : PacketHdr)
    → IsAllocated h
    → position < max_header_size
    → (g : PacketHdr) × (set_octet c position h ≡ ok g)
      × IsAllocated g
      × (g.header_length ≡ h.header_length + 1)
unfolding set_octet
set_octet-IsAllocated c position h a p = (
  record h { info = set h.info position c; header_length = h.header_length + 1 },
  ground arith,
  omega (arith, length-set h.info position c),
  refl,
)

-- An access to an octet finds it or is past the block.
pub get_octet-cases :
    (position : ℕ) (h : PacketHdr)
    → (get_octet position h ≡ fault overrun) ⊎ ((c : ℕ) × (get_octet position h ≡ ok c))
unfolding get_octet
get_octet-cases position h = elim (Option-cases (get_elem? h.info position)) [
  | inl e ↦ inl (rw e)
  | inr (c, e) ↦ inr (c, rw e)
]

pub set_octet-cases :
    (c position : ℕ) (h : PacketHdr)
    → (set_octet c position h ≡ fault overrun) ⊎ ((g : PacketHdr) × (set_octet c position h ≡ ok g))
unfolding set_octet
set_octet-cases c position h = elim (Bool-cases (ltb position (length h.info))) [
  | inr e ↦ inl (rw e)
  | inl e ↦
      inr (record h { info = set h.info position c; header_length = h.header_length + 1 }, rw e)
]
