-- ===== src/Ports/Opening.antt =====
-- The start of `main` in router.cpp: the ports that the numbers of the configuration give.
use communication_network.Base.{
  ℕ, zero, suc, ◌+◌, ◌%◌, ◌≡◌, refl, ap, ◌∙◌, ℤ, pos, negsuc, List, [], ◌∷◌, All, length, drop,
  some, Bool, true, false, Exec, ok, fault, failure, overrun, out_of_range, or_fault, ◌>>=◌,
  get_elem?, set, ltb, if◌then◌else◌, arith, Bool-cases, inl, inr,
}
use communication_network.Host.State.{◌==ℤ◌}
use communication_network.Wire.Packet.{Packet, Allocator, mtu_size, send_packet}
use communication_network.Ports.Addresses.{
  Address, to_short, non_negative, set_hostname, new_address,
}
use communication_network.Ports.Sockets.{
  Resolver, SystemCalls, UdpPort, localhost, resolve, set_sock_address, set_address,
  set_remote_address, unopened, sending_port, default_address, open_socket, init_sending,
  init_receiving, send_to,
}

-- One round of the loop that configures the sending ports.
unfoldable pub open_sending_port : Resolver → SystemCalls → Allocator → ℕ → ℕ → Exec UdpPort
unfolding new_address sending_port set_address set_remote_address init_sending
open_sending_port dns calls new tx remote = do
  tx_addr ← new_address (new.block 6) localhost (to_short (pos tx))
  tx_remote_addr ← new_address (new.block 6) localhost (to_short (pos remote))
  p ← sending_port (new.block 6) (new.block 6)
  p ← set_address tx_addr p
  p ← set_remote_address tx_remote_addr p
  init_sending dns calls new p

-- The loop. `calls index` is what the system answers in the round `index`.
unfoldable pub open_sending_ports :
    Resolver → (ℕ → SystemCalls) → Allocator → ℕ → ℕ → List ℕ → List ℕ → Exec (List UdpPort)
unfolding open_sending_port
open_sending_ports dns calls new zero index txs remotes = ok []
open_sending_ports dns calls new (suc rounds) index txs remotes =
    or_fault (get_elem? txs index) overrun >>= λ tx.
    or_fault (get_elem? remotes index) overrun >>= λ remote.
    open_sending_port dns (calls index) new tx remote >>= λ p.
    open_sending_ports dns calls new rounds (index + 1) txs remotes >>= λ rest. ok (p ∷ rest)

-- The port of one receiving thread.
unfoldable pub open_receiving_port : Resolver → SystemCalls → Allocator → ℕ → List ℕ → Exec UdpPort
unfolding new_address set_address init_receiving
open_receiving_port dns calls new index rxs = do
  rx ← or_fault (get_elem? rxs index) out_of_range
  my_rx_addr ← new_address (new.block 6) localhost (to_short (pos rx))
  p ← set_address my_rx_addr (unopened (new.block 6) (new.block 6))
  init_receiving dns calls new p

-- The number that a `short` keeps of a configured port, and whether it is one.
abbrev pub is_port : ℕ → Bool
is_port n = ltb (n % 65536) 32768

abbrev pub bound_port : ℕ → ℕ → ℕ
bound_port default n = if is_port n then n % 65536 else default

-- The system makes and binds the socket.
pub record Succeed (calls : SystemCalls) : Type 0 where
  pub makes : non_negative calls.socket ≡ true
  pub binds : non_negative calls.bind ≡ true

abbrev pub named : List ℕ → ℕ → Address
named block n = record { hostname = localhost; port = pos n; macaddr = set block 0 0 }

-- A sending port that is open.
abbrev pub opened : SystemCalls → Allocator → ℕ → ℕ → UdpPort
opened calls new tx remote = record {
  myaddr = named (new.block 6) (bound_port 3000 tx);
  itsaddr = named (new.block 6) (remote % 65536);
  my_sock_address = some (record { sin_port = bound_port 3000 tx; sin_addr = 0 });
  sockfd = calls.socket;
  bcastflag = pos 0;
  buffer = some (new.block (mtu_size + 1));
}

-- A round of the loop, when the system makes and binds the socket. If the remote number, kept in 16
-- bits, is below 32768, the port is bound to its own number, or to 3000 where that, kept in 16 bits,
-- is 32768 or more, on every address of the machine, and sends to the remote number of `localhost`.
-- Otherwise `init` throws.
pub open_sending_port_lem :
    (dns : Resolver) (calls : SystemCalls) (new : Allocator) (tx remote : ℕ)
    → Succeed calls
    → open_sending_port dns calls new tx remote
      ≡ (if is_port remote then ok (opened calls new tx remote) else fault failure)
unfolding open_sending_port sending_port set_hostname set_address set_remote_address init_sending
    default_address open_socket new_address set_sock_address resolve
open_sending_port_lem dns calls new tx remote s =
    let once : tx % 65536 % 65536 ≡ tx % 65536 = omega arith in
    elim (Bool-cases (is_port tx)) [
      | inl t ↦ elim (Bool-cases (is_port remote)) [
        | inl r ↦ rw (t, r, s.makes, s.binds) (rw once refl)
        | inr r ↦ rw (t, r) refl
      ]
      | inr t ↦ elim (Bool-cases (is_port remote)) [
        | inl r ↦ rw (t, r, s.makes, s.binds) refl
        | inr r ↦ rw (t, r) refl
      ]
    ]

-- What the loop opens, in order.
abbrev pub all_opened : (ℕ → SystemCalls) → Allocator → ℕ → List ℕ → List ℕ → List UdpPort
all_opened calls new index [] remotes = []
all_opened calls new index (tx ∷ txs) [] = []
all_opened calls new index (tx ∷ txs) (remote ∷ remotes) =
    opened (calls index) new tx remote ∷ all_opened calls new (index + 1) txs remotes

pub drop-cons :
    (index : ℕ) (l : List ℕ) {x : ℕ} {xs : List ℕ}
    → drop index l ≡ x ∷ xs
    → (get_elem? l index ≡ some x) × (drop (suc index) l ≡ xs)
drop-cons zero [] e = absurd (cc)
drop-cons zero (y ∷ ys) e = (cc, cc)
drop-cons (suc index) [] e = absurd (cc)
drop-cons (suc index) (y ∷ ys) e = drop-cons index ys e

pub open_sending_ports_from :
    (dns : Resolver) (calls : ℕ → SystemCalls) (new : Allocator) (index : ℕ)
    (all_txs all_remotes txs remotes : List ℕ)
    → ((k : ℕ) → Succeed (calls k))
    → All (λ n. is_port n ≡ true) remotes
    → length txs ≡ length remotes
    → drop index all_txs ≡ txs
    → drop index all_remotes ≡ remotes
    → open_sending_ports dns calls new (length txs) index all_txs all_remotes
      ≡ ok (all_opened calls new index txs remotes)
unfolding open_sending_ports
open_sending_ports_from dns calls new index all_txs all_remotes [] remotes s a e t r = refl
open_sending_ports_from dns calls new index all_txs all_remotes (tx ∷ txs) [] s a e t r =
    absurd (omega (arith, e))
open_sending_ports_from dns calls new index all_txs all_remotes (tx ∷ txs) (remote ∷ remotes) s a e
      t r =
    let (tx_at, txs_on) = drop-cons index all_txs t in
    let (remote_at, remotes_on) = drop-cons index all_remotes r in
    let next : index + 1 ≡ suc index = omega arith in
    let txs_next = ap (λ (k : ℕ). drop k all_txs) next ∙ txs_on in
    let remotes_next = ap (λ (k : ℕ). drop k all_remotes) next ∙ remotes_on in
    let opens : open_sending_port dns (calls index) new tx remote
        ≡ ok (opened (calls index) new tx remote) =
      open_sending_port_lem dns (calls index) new tx remote (s index) ∙ rw a.0 refl in
    rw (tx_at, or_fault)
      (rw (remote_at, or_fault)
        (rw (opens, ◌>>=◌)
          (rw
            (open_sending_ports_from dns calls new (index + 1) all_txs all_remotes txs remotes s a.1
              (omega (arith, e)) txs_next remotes_next)
            refl)))

-- Every port that is opened sends to its own destination.
pub send_to-opened :
    (dns : Resolver) (calls : SystemCalls) (new : Allocator) (tx remote home : ℕ) (len : ℤ)
    (pkt : Packet) {bytes : List ℕ}
    → resolve dns localhost ≡ ok home
    → (len ==ℤ negsuc 0) ≡ false
    → send_packet pkt ≡ ok bytes
    → send_to dns len pkt (opened calls new tx remote)
      ≡ ok (record { sin_port = remote % 65536; sin_addr = home }, bytes)
unfolding send_to set_sock_address
send_to-opened dns calls new tx remote home len pkt here went sends =
    let once : remote % 65536 % 65536 ≡ remote % 65536 = omega arith in
    rw (sends, ◌>>=◌) (rw (here, ◌>>=◌) (rw (went, once) refl))

pub all_opened-get_elem? :
    (calls : ℕ → SystemCalls) (new : Allocator) (index i : ℕ) (txs remotes : List ℕ) {tx remote : ℕ}
    → get_elem? txs i ≡ some tx
    → get_elem? remotes i ≡ some remote
    → get_elem? (all_opened calls new index txs remotes) i
      ≡ some (opened (calls (index + i)) new tx remote)
all_opened-get_elem? calls new index i [] remotes t r = absurd (cc)
all_opened-get_elem? calls new index i (x ∷ txs) [] t r = absurd (cc)
all_opened-get_elem? calls new index zero (x ∷ txs) (y ∷ remotes) t r = ground (arith, t, r)
all_opened-get_elem? calls new index (suc i) (x ∷ txs) (y ∷ remotes) {tx} {remote} t r =
    let next : index + 1 + i ≡ index + suc i = omega arith in
    all_opened-get_elem? calls new (index + 1) i txs remotes t r
    ∙ ap (λ (k : ℕ). some (opened (calls k) new tx remote)) next
