-- ===== src/Ports/Addresses.antt =====
-- class Address of common.h and common.cpp: host names, port numbers and hardware addresses. A host
-- name is the text before the zero that ends it.
use communication_network.Base.{
  ℕ, ◌-◌, ◌%◌, ℤ, pos, negsuc, List, [], ◌∷◌, ◌++◌, Option, none, some, Bool, true, false, ◌&&◌,
  not, Exec, ok, overrun, guard, ◌>>◌, ◌>>=◌, length, take, drop, set, ltb, leb, ◌==◌,
  if◌then◌else◌,
}
use communication_network.Host.State.{◌==ℤ◌}
use communication_network.Wire.Address.{mac_addr_length}

abbrev pub max_hostname_length : ℕ
max_hostname_length = 256

abbrev pub default_send_port : ℤ
default_send_port = pos 3000

abbrev pub default_recv_port : ℤ
default_recv_port = pos 4000

-- `(short)` of an `int`.
abbrev pub to_short : ℤ → ℤ
to_short (pos n) = if ltb (n % 65536) 32768 then pos (n % 65536) else negsuc (65535 - n % 65536)
to_short (negsuc n) = if ltb (n % 65536) 32768 then negsuc (n % 65536) else pos (65535 - n % 65536)

pub record Address : Type 0 where
  pub hostname : List ℕ
  pub port : ℤ
  pub macaddr : List ℕ

-- `Address()`; `block` is the memory of `macaddr_`, uninitialised but for its first octet.
abbrev pub unset_address : List ℕ → Address
unset_address block = record { hostname = []; port = negsuc 0; macaddr = set block 0 0 }

abbrev pub non_negative : ℤ → Bool
non_negative (pos n) = true
non_negative (negsuc n) = false

abbrev pub is_set : Address → Bool
is_set a = not (length a.hostname == 0) && non_negative a.port

abbrev pub set_port : ℤ → Address → Address
set_port port a = record a { port = port }

-- `strcpy` into a buffer of MAX_HOSTNAME_LENGTH characters; the null pointer gives the empty name.
unfoldable pub set_hostname : Option (List ℕ) → Address → Exec Address
set_hostname none a = ok (record a { hostname = [] })
set_hostname (some name) a = do
  guard (ltb (length name) max_hostname_length) overrun
  ok (record a { hostname = name })

-- `Address(hostname, port)`: the hardware address stays as `new` left it.
unfoldable pub new_address : List ℕ → List ℕ → ℤ → Exec Address
unfolding set_hostname
new_address block hostname port =
    set_hostname (some hostname)
      (set_port port (record { hostname = []; port = negsuc 0; macaddr = block }))

-- `memcpy` of six octets.
unfoldable pub set_hw_addr : List ℕ → Address → Exec Address
set_hw_addr hwaddr a = do
  guard (leb mac_addr_length (length hwaddr)) overrun
  ok (record a { macaddr = take mac_addr_length hwaddr ++ drop mac_addr_length a.macaddr })

-- `strcmp` and `memcmp`, for equality.
abbrev pub same_text : List ℕ → List ℕ → Bool
same_text [] [] = true
same_text [] (y ∷ ys) = false
same_text (x ∷ xs) [] = false
same_text (x ∷ xs) (y ∷ ys) = (x == y) && same_text xs ys

unfoldable pub is_same_mac_addr : Address → Address → Bool
is_same_mac_addr a b = same_text (take mac_addr_length a.macaddr) (take mac_addr_length b.macaddr)

-- `isSame`, which answers false where the port numbers are equal.
unfoldable pub is_same : Address → Address → Bool
is_same a b = if a.port ==ℤ b.port then false else same_text a.hostname b.hostname

unfoldable pub clone : List ℕ → Address → Exec Address
unfolding new_address set_hw_addr
clone block a = new_address block a.hostname a.port >>= λ copy. set_hw_addr a.macaddr copy
