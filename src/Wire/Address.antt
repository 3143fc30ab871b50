-- ===== src/Wire/Address.antt =====
-- class Address of common.h and common.cpp: hardware addresses as text. A character is its code; one
-- of 128 or more is negative as a `char`, so it is neither above '9' nor a digit.
use Prim.Native.Nat.{bit_or}
use communication_network.Base.{
  ℕ, zero, suc, ◌+◌, ◌-◌, ◌*◌, ◌/◌, ◌%◌, ◌≤◌, ◌<◌, ◌≡◌, refl, sym, ap, ◌∙◌, lt→not_leb, List, [],
  ◌∷◌, Option, none, some, Bool, true, false, ◌&&◌, Exec, ok, fault, overrun, failure, guard, ◌>>◌,
  ◌>>=◌, length, ltb, leb, ◌==◌, if◌then◌else◌, arith, All,
}
use communication_network.Wire.Bits.{bit_or_half_byte}

abbrev pub mac_addr_length : ℕ
mac_addr_length = 6

-- `HexChar | 0x20` for what stands above '9'.
unfoldable pub lower_case : ℕ → ℕ
lower_case c = if ltb 57 c && ltb c 128 then (if c / 32 % 2 == 0 then c + 32 else c) else c

unfoldable pub is_hex : ℕ → Bool
is_hex c = if leb 48 c && leb c 57 then true else leb 97 c && leb c 102

-- The first loop: how many hexadecimal digits stand before something else, at most twelve.
abbrev num_mac_chars : ℕ → List ℕ → ℕ
num_mac_chars n [] = n
num_mac_chars n (c ∷ cs) =
    if c == 58
    then num_mac_chars n cs
    else (if is_hex (lower_case c) && ltb n (mac_addr_length * 2)
        then num_mac_chars (n + 1) cs
        else n)

unfoldable pub hex_value : ℕ → ℕ
unfolding lower_case
hex_value c = let v = lower_case c - 48 in if ltb 9 v then v - 39 else v

-- The second loop: two digits to a byte; `half` is the value of the first of them.
abbrev bytes_of : ℕ → Option ℕ → List ℕ → Exec (List ℕ)
bytes_of zero half cs = ok []
bytes_of (suc n) half [] = fault overrun
bytes_of (suc n) none (c ∷ cs) =
    if c == 58 then bytes_of (suc n) none cs else bytes_of (suc n) (some (hex_value c)) cs
bytes_of (suc n) (some half) (c ∷ cs) =
    if c == 58
    then bytes_of (suc n) (some half) cs
    else bytes_of n none cs >>= λ rest. ok (bit_or (half * 16 % 256) (hex_value c) ∷ rest)

-- `setHWAddrFromColonFormat`: the address, or the exception.
unfoldable pub set_hw_addr_from_colon_format : List ℕ → Exec (List ℕ)
set_hw_addr_from_colon_format colonmac = do
  guard (num_mac_chars 0 colonmac == mac_addr_length * 2) failure
  bytes_of mac_addr_length none colonmac

-- The text that `%02X` gives for a byte, and the six of them with colons.
unfoldable pub hex_digit : ℕ → ℕ
hex_digit d = if ltb d 10 then d + 48 else d + 55

abbrev pub colon_format : List ℕ → List ℕ
colon_format [] = []
colon_format (x ∷ []) = hex_digit (x / 16) ∷ hex_digit (x % 16) ∷ []
colon_format (x ∷ y ∷ ys) = hex_digit (x / 16) ∷ hex_digit (x % 16) ∷ 58 ∷ colon_format (y ∷ ys)

-- `convertHWAddrToColonFormat`: `sprintf` of the text and the zero behind it into 17 bytes.
unfoldable pub convert_hw_addr_to_colon_format : List ℕ → Exec (List ℕ)
convert_hw_addr_to_colon_format macaddr = do
  guard (leb (length (colon_format macaddr) + 1) 17) overrun
  ok (colon_format macaddr)

digit-hex :
    (d : ℕ)
    → d < 16
    → (is_hex (lower_case (hex_digit d)) ≡ true)
      × (hex_value (hex_digit d) ≡ d)
      × ((hex_digit d == 58) ≡ false)
unfolding is_hex lower_case hex_digit hex_value
digit-hex d small = (ground arith, ground arith, ground arith)

-- Two digits are counted.
num_two :
    (n x : ℕ) (tail : List ℕ)
    → x < 256
    → n + 2 ≤ 12
    → num_mac_chars n (hex_digit (x / 16) ∷ hex_digit (x % 16) ∷ tail) ≡ num_mac_chars (n + 2) tail
num_two n x tail small few =
    let (h1, v1, c1) = digit-hex (x / 16) (omega arith) in
    let (h2, v2, c2) = digit-hex (x % 16) (omega arith) in
    let l1 : ltb n 12 ≡ true = ground arith in
    let l2 : ltb (n + 1) 12 ≡ true = ground arith in
    let two : n + 1 + 1 ≡ n + 2 = omega arith in
    rw c1 (rw h1 (rw l1 (rw c2 (rw h2 (rw l2 (rw two))))))

-- Two digits make a byte.
bytes_two :
    (n x : ℕ) (tail : List ℕ)
    → x < 256
    → bytes_of (suc n) none (hex_digit (x / 16) ∷ hex_digit (x % 16) ∷ tail)
      ≡ (bytes_of n none tail >>= λ rest. ok (x ∷ rest))
bytes_two n x tail small =
    let (h1, v1, c1) = digit-hex (x / 16) (omega arith) in
    let (h2, v2, c2) = digit-hex (x % 16) (omega arith) in
    let low : x / 16 * 16 % 256 ≡ x / 16 * 16 = omega arith in
    let whole : bit_or (x / 16 * 16 % 256) (x % 16) ≡ x =
      ap (λ (h : ℕ). bit_or h (x % 16)) low
      ∙ bit_or_half_byte (x / 16) (x % 16) (omega arith)
      ∙ omega arith in
    rw c1 (rw c2 (rw (v1, v2, whole)))

num-colon_format :
    (n : ℕ) (mac : List ℕ)
    → All (λ x. x < 256) mac
    → n + 2 * length mac ≤ 12
    → num_mac_chars n (colon_format mac) ≡ n + 2 * length mac
num-colon_format n [] a few = omega arith
num-colon_format n (x ∷ []) a few = num_two n x [] a.0 (omega arith)
num-colon_format n (x ∷ y ∷ ys) a few =
    num_two n x (58 ∷ colon_format (y ∷ ys)) a.0 (omega arith)
    ∙ num-colon_format (n + 2) (y ∷ ys) a.1 (omega arith)
    ∙ omega arith

bytes-colon_format :
    (mac : List ℕ) → All (λ x. x < 256) mac → bytes_of (length mac) none (colon_format mac) ≡ ok mac
bytes-colon_format [] a = refl
bytes-colon_format (x ∷ []) a = bytes_two 0 x [] a.0
bytes-colon_format (x ∷ y ∷ ys) a =
    bytes_two (suc (length ys)) x (58 ∷ colon_format (y ∷ ys)) a.0
    ∙ ap (λ (m : Exec (List ℕ)). m >>= λ rest. ok (x ∷ rest)) (bytes-colon_format (y ∷ ys) a.1)

-- The text with colons of six bytes is read back as these bytes.
pub set_hw_addr-colon_format :
    (mac : List ℕ)
    → length mac ≡ mac_addr_length
    → All (λ x. x < 256) mac
    → set_hw_addr_from_colon_format (colon_format mac) ≡ ok mac
unfolding set_hw_addr_from_colon_format
set_hw_addr-colon_format mac six a =
    let twelve : (num_mac_chars 0 (colon_format mac) == 12) ≡ true =
      ground (arith, num-colon_format 0 mac a (omega (arith, six)), six) in
    rw (twelve, guard)
      (ap (λ (n : ℕ). bytes_of n none (colon_format mac)) (sym six) ∙ bytes-colon_format mac a)

length-colon_format : (x : ℕ) (xs : List ℕ) → length (colon_format (x ∷ xs)) ≡ 3 * length xs + 2
length-colon_format x [] = refl
length-colon_format x (y ∷ ys) = omega (arith, length-colon_format y ys)

-- Writing the text of a hardware address always runs past the 17 bytes that are allocated for it:
-- the zero behind the 17 characters has no room.
pub convert_hw_addr-overrun :
    (x : ℕ) (xs : List ℕ)
    → length (x ∷ xs) ≡ mac_addr_length
    → convert_hw_addr_to_colon_format (x ∷ xs) ≡ fault overrun
unfolding convert_hw_addr_to_colon_format
convert_hw_addr-overrun x xs six =
    let long : leb (length (colon_format (x ∷ xs)) + 1) 17 ≡ false =
      lt→not_leb _ _ (omega (arith, length-colon_format x xs, six)) in
    rw (long, guard)
