-- ===== src/Ambitious/Setup.antt =====
-- The configuration file and the ports of Ambitious Version/Router.cpp, from the numbers on each line
-- of the file.
use communication_network.Base.{
  ℕ, zero, suc, ◌+◌, ◌%◌, ◌<◌, ◌≡◌, refl, ap, sym, ◌∙◌, pos, List, [], ◌∷◌, ◌++◌, length, drop,
  Exec, ok, overrun, or_fault, ◌>>=◌, get_elem?, All, All-imp, Bool-cases, inl, inr, arith,
}
use communication_network.Wire.Packet.{Allocator}
use communication_network.Router.Configuration.{
  Configuration, read_number, read_numbers, configured, read_numbers_lem,
}
use communication_network.Ports.Addresses.{to_short, set_hostname, new_address}
use communication_network.Ports.Sockets.{
  Resolver, SystemCalls, UdpPort, localhost, resolve, set_sock_address, set_address, unopened,
  default_address, open_socket, init_receiving,
}
use communication_network.Ports.Opening.{
  open_sending_ports, is_port, Succeed, all_opened, open_sending_ports_from, drop-cons,
}
use communication_network.Ports.Receiving.{listening}
use communication_network.Ports.Configured.{is_port-of_lt}

-- `while (file >> num)`, which passes over empty lines; the rest of the line of a number is ignored.
unfoldable pub read_lines : ℕ → List (List ℕ) → Configuration → Configuration
read_lines index [] c = c
read_lines index ([] ∷ lines) c = read_lines index lines c
read_lines index ((num ∷ ignored) ∷ lines) c =
    read_lines (index + 1) lines (read_number index num c)

-- The first number of each line that has one.
abbrev pub first_numbers : List (List ℕ) → List ℕ
first_numbers [] = []
first_numbers ([] ∷ lines) = first_numbers lines
first_numbers ((num ∷ ignored) ∷ lines) = num ∷ first_numbers lines

read_lines-first_numbers :
    (index : ℕ) (lines : List (List ℕ)) (c : Configuration)
    → read_lines index lines c ≡ read_numbers index (first_numbers lines) c
unfolding read_lines read_numbers
read_lines-first_numbers index [] c = refl
read_lines-first_numbers index ([] ∷ lines) c = read_lines-first_numbers index lines c
read_lines-first_numbers index ((num ∷ ignored) ∷ lines) c =
    read_lines-first_numbers (index + 1) lines (read_number index num c)

-- A file whose lines begin with the router's number, the number `n` of its interfaces, `n` receiving,
-- `n` sending and `n` remote ports gives these, whatever else stands on the lines and behind them.
pub read_lines_lem :
    (id n old_id old_n : ℕ) (rx tx remote rest : List ℕ) (lines : List (List ℕ))
    → first_numbers lines ≡ id ∷ n ∷ rx ++ (tx ++ (remote ++ rest))
    → length rx ≡ n
    → length tx ≡ n
    → length remote ≡ n
    → read_lines 0 lines (configured old_id old_n [] [] []) ≡ configured id n rx tx remote
read_lines_lem id n old_id old_n rx tx remote rest lines e lrx ltx lremote =
    read_lines-first_numbers 0 lines (configured old_id old_n [] [] [])
    ∙ ap (λ (l : List ℕ). read_numbers 0 l (configured old_id old_n [] [] [])) e
    ∙ read_numbers_lem id n old_id old_n rx tx remote rest lrx ltx lremote

-- A round of the loop that configures the receiving ports.
unfoldable pub open_cdn_port : Resolver → SystemCalls → Allocator → ℕ → Exec UdpPort
unfolding new_address set_address init_receiving
open_cdn_port dns calls new rx = do
  rx_addr ← new_address (new.block 6) localhost (to_short (pos rx))
  p ← set_address rx_addr (unopened (new.block 6) (new.block 6))
  init_receiving dns calls new p

unfoldable pub open_cdn_ports :
    Resolver → (ℕ → SystemCalls) → Allocator → ℕ → ℕ → List ℕ → Exec (List UdpPort)
unfolding open_cdn_port
open_cdn_ports dns calls new zero index rxs = ok []
open_cdn_ports dns calls new (suc rounds) index rxs =
    or_fault (get_elem? rxs index) overrun >>= λ rx. open_cdn_port dns (calls index) new rx >>= λ p.
    open_cdn_ports dns calls new rounds (index + 1) rxs >>= λ rest. ok (p ∷ rest)

-- `main` up to its threads: the sending ports and the receiving ports.
unfoldable pub set_up :
    Resolver
    → (ℕ → SystemCalls)
    → (ℕ → SystemCalls)
    → Allocator
    → List (List ℕ)
    → Configuration
    → Exec (List UdpPort × List UdpPort)
unfolding read_lines open_sending_ports open_cdn_ports
set_up dns tx_calls rx_calls new lines unset =
    let c = read_lines 0 lines unset in
    open_sending_ports dns tx_calls new c.num_interfaces 0 c.tx_addressess c.tx_remote_addressess
    >>= λ sending.
        open_cdn_ports dns rx_calls new c.num_interfaces 0 c.rx_addressess >>= λ receiving.
        ok (sending, receiving)

open_cdn_port_lem :
    (dns : Resolver) (calls : SystemCalls) (new : Allocator) (rx : ℕ)
    → Succeed calls
    → open_cdn_port dns calls new rx ≡ ok (listening calls new rx)
unfolding open_cdn_port set_hostname set_address init_receiving default_address open_socket
    new_address set_sock_address resolve
open_cdn_port_lem dns calls new rx s =
    let once : rx % 65536 % 65536 ≡ rx % 65536 = omega arith in
    elim (Bool-cases (is_port rx)) [
      | inl t ↦ rw (t, s.makes, s.binds) (rw once refl)
      | inr t ↦ rw (t, s.makes, s.binds) refl
    ]

abbrev pub all_listening : (ℕ → SystemCalls) → Allocator → ℕ → List ℕ → List UdpPort
all_listening calls new index [] = []
all_listening calls new index (rx ∷ rxs) =
    listening (calls index) new rx ∷ all_listening calls new (index + 1) rxs

open_cdn_ports_from :
    (dns : Resolver) (calls : ℕ → SystemCalls) (new : Allocator) (index : ℕ) (all_rxs rxs : List ℕ)
    → ((k : ℕ) → Succeed (calls k))
    → drop index all_rxs ≡ rxs
    → open_cdn_ports dns calls new (length rxs) index all_rxs
      ≡ ok (all_listening calls new index rxs)
unfolding open_cdn_ports
open_cdn_ports_from dns calls new index all_rxs [] s r = refl
open_cdn_ports_from dns calls new index all_rxs (rx ∷ rxs) s r =
    let (rx_at, rxs_on) = drop-cons index all_rxs r in
    let next : index + 1 ≡ suc index = omega arith in
    let rxs_next = ap (λ (k : ℕ). drop k all_rxs) next ∙ rxs_on in
    rw (rx_at, or_fault)
      (rw (open_cdn_port_lem dns (calls index) new rx (s index), ◌>>=◌)
        (rw (open_cdn_ports_from dns calls new (index + 1) all_rxs rxs s rxs_next) refl))

-- From a file whose lines begin as they should, with remote numbers below 32768, and a system that
-- makes and binds every socket, a router opens for each of its `n` interfaces a port that sends to
-- the remote number of `localhost` and a port that listens.
pub set_up_lem :
    (dns : Resolver) (tx_calls rx_calls : ℕ → SystemCalls) (new : Allocator) (id n old_id old_n : ℕ)
    (rx tx remote rest : List ℕ) (lines : List (List ℕ))
    → first_numbers lines ≡ id ∷ n ∷ rx ++ (tx ++ (remote ++ rest))
    → length rx ≡ n
    → length tx ≡ n
    → length remote ≡ n
    → All (λ m. m < 32768) remote
    → ((k : ℕ) → Succeed (tx_calls k))
    → ((k : ℕ) → Succeed (rx_calls k))
    → set_up dns tx_calls rx_calls new lines (configured old_id old_n [] [] [])
      ≡ ok (all_opened tx_calls new 0 tx remote, all_listening rx_calls new 0 rx)
unfolding set_up
set_up_lem dns tx_calls rx_calls new id n old_id old_n rx tx remote rest lines e lrx ltx lremote
      small sends listens =
    let sending : open_sending_ports dns tx_calls new n 0 tx remote
        ≡ ok (all_opened tx_calls new 0 tx remote) =
      ap (λ (k : ℕ). open_sending_ports dns tx_calls new k 0 tx remote) (sym ltx)
      ∙ open_sending_ports_from dns tx_calls new 0 tx remote tx remote sends
          (All-imp remote is_port-of_lt small) (ltx ∙ sym lremote) refl refl in
    let receiving : open_cdn_ports dns rx_calls new n 0 rx ≡ ok (all_listening rx_calls new 0 rx) =
      ap (λ (k : ℕ). open_cdn_ports dns rx_calls new k 0 rx) (sym lrx)
      ∙ open_cdn_ports_from dns rx_calls new 0 rx rx listens refl in
    rw (read_lines_lem id n old_id old_n rx tx remote rest lines e lrx ltx lremote)
      (rw (sending, ◌>>=◌) (rw (receiving, ◌>>=◌) refl))
