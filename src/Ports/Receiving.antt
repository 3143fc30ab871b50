-- ===== src/Ports/Receiving.antt =====
-- The receiving ports of router.cpp, and the copies and comparisons of addresses.
use communication_network.Base.{
  ℕ, zero, suc, Exec, Option-cases, ◌%◌, ◌<◌, ◌≤◌, ◌≡◌, refl, ap, ℤ, pos, negsuc, List, [], ◌∷◌,
  ◌++◌, Option, none, some, true, false, ok, fault, out_of_range, ◌>>=◌, get_elem?, length, take,
  drop, ltb, arith, Bool-cases, inl, inr, le→leb, lt→ltb, take_all,
}
use mathlib.Core.List.{append-nil}
use communication_network.Host.State.{◌==ℤ◌}
use communication_network.Wire.Packet.{Allocator, max_buf_length}
use communication_network.Ports.Addresses.{
  Address, set_hostname, new_address, set_hw_addr, same_text, is_same, is_same_mac_addr, clone,
  to_short, unset_address,
}
use communication_network.Ports.Sockets.{
  Resolver, SystemCalls, SockAddress, UdpPort, set_sock_address, decode_sock_address, to_unsigned,
  set_address, default_address, open_socket, init_receiving, resolve,
}
use communication_network.Ports.Opening.{open_receiving_port, is_port, bound_port, Succeed, named}

-- A receiving port that is open.
abbrev pub listening : SystemCalls → Allocator → ℕ → UdpPort
listening calls new rx = record {
  myaddr = named (new.block 6) (bound_port 4000 rx);
  itsaddr = unset_address (new.block 6);
  my_sock_address = some (record { sin_port = bound_port 4000 rx; sin_addr = 0 });
  sockfd = calls.socket;
  bcastflag = pos 0;
  buffer = some (new.block max_buf_length);
}

abbrev listening_at : SystemCalls → Allocator → Option ℕ → Exec UdpPort
listening_at calls new none = fault out_of_range
listening_at calls new (some rx) = ok (listening calls new rx)

-- Where the file gave no number for the interface, `.at` throws; otherwise the port is bound to the
-- number, or to 4000 if that does not fit a `short`.
pub open_receiving_port_lem :
    (dns : Resolver) (calls : SystemCalls) (new : Allocator) (index : ℕ) (rxs : List ℕ)
    → Succeed calls
    → open_receiving_port dns calls new index rxs ≡ listening_at calls new (get_elem? rxs index)
unfolding open_receiving_port set_hostname set_address init_receiving default_address open_socket
    new_address set_sock_address resolve
open_receiving_port_lem dns calls new index rxs s = elim (Option-cases (get_elem? rxs index)) [
  | inl missing ↦ rw missing refl
  | inr (rx, found) ↦
      let once : rx % 65536 % 65536 ≡ rx % 65536 = omega arith in
      rw found (elim (Bool-cases (is_port rx)) [
        | inl t ↦ rw (t, s.makes, s.binds) (rw once refl)
        | inr t ↦ rw (t, s.makes, s.binds) refl
      ])
]

same_text_refl : (l : List ℕ) → same_text l l ≡ true
same_text_refl [] = refl
same_text_refl (x ∷ xs) = ground (arith, same_text_refl xs)

==ℤ_refl : (z : ℤ) → (z ==ℤ z) ≡ true
==ℤ_refl (pos n) = ground arith
==ℤ_refl (negsuc n) = ground arith

drop_all : (n : ℕ) (l : List ℕ) → length l ≤ n → drop n l ≡ []
drop_all zero [] h = refl
drop_all zero (x ∷ xs) h = absurd (omega arith)
drop_all (suc n) [] h = refl
drop_all (suc n) (x ∷ xs) h = drop_all n xs (omega arith)

-- An address whose name and hardware address fill their buffers no more than they may.
pub record IsWhole (a : Address) : Type 0 where
  pub short_name : length a.hostname < 256
  pub six_octets : length a.macaddr ≡ 6

-- A clone is equal to its address in name, number and hardware address, and `isSameMACAddr` says so;
-- `isSame` says that the two differ.
pub clone-same :
    (block : List ℕ) (a : Address)
    → length block ≡ 6
    → IsWhole a
    → (clone block a ≡ ok a) × (is_same_mac_addr a a ≡ true) × (is_same a a ≡ false)
unfolding clone new_address set_hostname set_hw_addr is_same_mac_addr is_same
clone-same block a six w =
    let whole : take 6 a.macaddr ++ drop 6 block ≡ a.macaddr =
      rw (take_all 6 a.macaddr (omega (arith, w.six_octets)), drop_all 6 block (omega (arith, six)))
        (append-nil a.macaddr) in
    (
      rw
          (
            lt→ltb (length a.hostname) 256 w.short_name,
            le→leb 6 (length a.macaddr) (omega (arith, w.six_octets)),
          )
          (ap (λ (m : List ℕ). ok (record a { macaddr = m })) whole),
      same_text_refl (take 6 a.macaddr),
      rw (==ℤ_refl a.port) refl,
    )

-- What the program relies on of the conversions of IP addresses.
pub record Faithful (dns : Resolver) : Type 0 where
  pub aton-ntoa : (x : ℕ) → dns.inet_aton (dns.inet_ntoa x) ≡ some x
  pub some_text : (x : ℕ) → 1 ≤ length (dns.inet_ntoa x)
  pub short_text : (x : ℕ) → length (dns.inet_ntoa x) < 256

resolve-inet_aton :
    (dns : Resolver) (text : List ℕ) (x : ℕ)
    → 1 ≤ length text
    → dns.inet_aton text ≡ some x
    → resolve dns text ≡ ok x
unfolding resolve
resolve-inet_aton dns [] x some_text e = absurd (omega arith)
resolve-inet_aton dns (c ∷ cs) x some_text e = rw (e, resolve) refl

unsigned_short : (n : ℕ) → n < 65536 → to_unsigned (to_short (pos n)) ≡ n
unsigned_short n small =
    let whole : n % 65536 ≡ n = omega arith in
    elim (Bool-cases (ltb n 32768)) [
      | inl low ↦ rw (whole, low) whole
      | inr high ↦ rw (whole, high) (ground (arith, high, small))
    ]

-- A socket address that is decoded into an address and made again from it is the same.
pub set_sock_address-decode_sock_address :
    (dns : Resolver) (a : Address) (s : SockAddress)
    → Faithful dns
    → s.sin_port < 65536
    → (decode_sock_address dns a s >>= set_sock_address dns) ≡ ok s
unfolding decode_sock_address set_hostname set_sock_address resolve
set_sock_address-decode_sock_address dns a s f small =
    let text = dns.inet_ntoa s.sin_addr in
    rw (lt→ltb (length text) 256 (f.short_text s.sin_addr)) (
      rw (resolve-inet_aton dns text s.sin_addr (f.some_text s.sin_addr) (f.aton-ntoa s.sin_addr))
        (ap (λ (k : ℕ). ok (record s { sin_port = k })) (unsigned_short s.sin_port small)))
