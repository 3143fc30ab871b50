-- ===== src/Wire/Integers.antt =====
-- The 16-bit and 32-bit fields of a header. An `int` or a `short` is its bit pattern, a number
-- below 2 ^ 32 or 2 ^ 16; `& 0xFF` and the store into an octet keep the lowest eight bits.
use Prim.Native.Nat.{bit_or}
use communication_network.Base.{
  ℕ, ◌+◌, ◌*◌, ◌/◌, ◌%◌, ◌^◌, ◌<◌, ◌≡◌, ap, List, Exec, overrun, guard, ◌>>◌, ◌>>=◌, length,
  get_elem?, set, ltb, arith, length-set, lt→ltb, some, ok, get_elem?-set,
}
use communication_network.Wire.Bits.{bit_or_byte}
use communication_network.Wire.Header.{PacketHdr, get_octet}

-- `val << 8 | octet`, in a type of `width` bits.
push_octet : ℕ → ℕ → ℕ → ℕ
push_octet width val octet = bit_or (val * 256 % 2 ^ width) octet

pub get_integer_info : ℕ → PacketHdr → Exec ℕ
get_integer_info position h = do
  a ← get_octet position h
  b ← get_octet (position + 1) h
  c ← get_octet (position + 2) h
  d ← get_octet (position + 3) h
  ok (push_octet 32 (push_octet 32 (push_octet 32 a b) c) d)

pub get_short_integer_info : ℕ → PacketHdr → Exec ℕ
get_short_integer_info position h = do
  a ← get_octet position h
  b ← get_octet (position + 1) h
  ok (push_octet 16 a b)

pub set_integer_info : ℕ → ℕ → PacketHdr → Exec PacketHdr
set_integer_info a position h = do
  guard (ltb (position + 3) (length h.info)) overrun
  let i1 = set h.info position (a / 2 ^ 24 % 256)
  let i2 = set i1 (position + 1) (a / 2 ^ 16 % 256)
  let i3 = set i2 (position + 2) (a / 2 ^ 8 % 256)
  ok (record h { info = set i3 (position + 3) (a % 256); header_length = h.header_length + 4 })

pub set_short_integer_info : ℕ → ℕ → PacketHdr → Exec PacketHdr
set_short_integer_info b position h = do
  guard (ltb (position + 1) (length h.info)) overrun
  ok (record h {
    info = set (set h.info position (b / 2 ^ 8 % 256)) (position + 1) (b % 256);
    header_length = h.header_length + 2;
  })

push_octet-eq :
    (width val octet : ℕ)
    → octet < 256
    → val * 256 < 2 ^ width
    → push_octet width val octet ≡ val * 256 + octet
unfolding push_octet
push_octet-eq width val octet h fits =
    let kept : val * 256 % 2 ^ width ≡ val * 256 = grind arith in rw kept (bit_or_byte val octet h)

-- Four writes at consecutive positions are all read back.
get_elem?-set_four :
    (xs : List ℕ) (p a b c d : ℕ)
    → p + 3 < length xs
    → let ys = set (set (set (set xs p a) (p + 1) b) (p + 2) c) (p + 3) d in
      (get_elem? ys p ≡ some a)
      × (get_elem? ys (p + 1) ≡ some b)
      × (get_elem? ys (p + 2) ≡ some c)
      × (get_elem? ys (p + 3) ≡ some d)
get_elem?-set_four xs p a b c d h =
    let s1 = set xs p a in
    let s2 = set s1 (p + 1) b in
    let s3 = set s2 (p + 2) c in
    let l1 : length s1 ≡ length xs = length-set xs p a in
    let l2 : length s2 ≡ length s1 = length-set s1 (p + 1) b in
    let l3 : length s3 ≡ length s2 = length-set s2 (p + 2) c in
    let w4 = λ (j : ℕ). get_elem?-set s3 (p + 3) j d (omega arith) in
    let w3 = λ (j : ℕ). get_elem?-set s2 (p + 2) j c (omega arith) in
    let w2 = λ (j : ℕ). get_elem?-set s1 (p + 1) j b (omega arith) in
    let w1 = get_elem?-set xs p p a (omega arith) in
    (
      ground (arith, w4 p, w3 p, w2 p, w1),
      ground (arith, w4 (p + 1), w3 (p + 1), w2 (p + 1)),
      ground (arith, w4 (p + 2), w3 (p + 2)),
      ground (arith, w4 (p + 3)),
    )

octets_join :
    (a b c d : ℕ)
    → a < 256
    → b < 256
    → c < 256
    → d < 256
    → push_octet 32 (push_octet 32 (push_octet 32 a b) c) d ≡ ((a * 256 + b) * 256 + c) * 256 + d
octets_join a b c d ha hb hc hd = rw (push_octet-eq 32 a b hb (omega arith)) (
    rw (push_octet-eq 32 (a * 256 + b) c hc (omega arith))
      (push_octet-eq 32 ((a * 256 + b) * 256 + c) d hd (omega arith)))

-- A 32-bit field reads back the integer that was written, at any position that leaves room for it.
pub get_integer_info-set_integer_info :
    (a position : ℕ) (h : PacketHdr)
    → a < 2 ^ 32
    → position + 3 < length h.info
    → (set_integer_info a position h >>= get_integer_info position) ≡ ok a
unfolding set_integer_info get_integer_info get_octet
get_integer_info-set_integer_info a position h fits room =
    let (r0, r1, r2, r3) =
      get_elem?-set_four h.info position (a / 2 ^ 24 % 256) (a / 2 ^ 16 % 256) (a / 2 ^ 8 % 256)
        (a % 256) room in
    let joined =
      octets_join (a / 2 ^ 24 % 256) (a / 2 ^ 16 % 256) (a / 2 ^ 8 % 256) (a % 256) (omega arith)
        (omega arith) (omega arith) (omega arith) in
    rw (lt→ltb _ _ room) (rw (r0, r1, r2, r3, joined) (ap ok (omega arith)))

-- So does a 16-bit field.
pub get_short_integer_info-set_short_integer_info :
    (b position : ℕ) (h : PacketHdr)
    → b < 2 ^ 16
    → position + 1 < length h.info
    → (set_short_integer_info b position h >>= get_short_integer_info position) ≡ ok b
unfolding set_short_integer_info get_short_integer_info get_octet
get_short_integer_info-set_short_integer_info b position h fits room =
    let s1 = set h.info position (b / 2 ^ 8 % 256) in
    let l1 : length s1 ≡ length h.info = length-set h.info position (b / 2 ^ 8 % 256) in
    let w2 = λ (j : ℕ). get_elem?-set s1 (position + 1) j (b % 256) (omega arith) in
    let w1 = get_elem?-set h.info position position (b / 2 ^ 8 % 256) (omega arith) in
    let r0 : get_elem? (set s1 (position + 1) (b % 256)) position ≡ some (b / 2 ^ 8 % 256) =
      ground (arith, w2 position, w1) in
    let r1 : get_elem? (set s1 (position + 1) (b % 256)) (position + 1) ≡ some (b % 256) =
      ground (arith, w2 (position + 1)) in
    rw (lt→ltb _ _ room) (
      rw (r0, r1, push_octet-eq 16 (b / 2 ^ 8 % 256) (b % 256) (omega arith) (omega arith))
        (ap ok (omega arith)))
