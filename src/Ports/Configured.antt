-- ===== src/Ports/Configured.antt =====
-- From the configuration file of a router to the datagrams that its ports hand to the system.
use communication_network.Base.{
  ℕ, zero, suc, ◌+◌, ◌%◌, ◌<◌, ◌≡◌, refl, ap, sym, ◌∙◌, ℤ, negsuc, List, [], ◌∷◌, ◌++◌, some, true,
  false, ok, length, get_elem?, All, All-imp, arith,
}
use communication_network.Host.State.{◌==ℤ◌}
use communication_network.Wire.Packet.{Packet, Allocator, send_packet}
use communication_network.Router.Configuration.{read_numbers, configured, read_numbers_lem}
use communication_network.Ports.Sockets.{
  Resolver, SystemCalls, UdpPort, localhost, resolve, send_to,
}
use communication_network.Ports.Opening.{
  open_sending_ports, is_port, Succeed, opened, all_opened, open_sending_ports_from,
  all_opened-get_elem?, send_to-opened,
}

pub is_port-of_lt : (n : ℕ) → n < 32768 → is_port n ≡ true
is_port-of_lt n h = ground arith

lt-of_All :
    (l : List ℕ) (i : ℕ) {x : ℕ} → All (λ n. n < 32768) l → get_elem? l i ≡ some x → x < 32768
lt-of_All [] i a e = absurd (cc)
lt-of_All (y ∷ ys) zero a e = ground (arith, a, e)
lt-of_All (y ∷ ys) (suc i) a e = lt-of_All ys i a.1 e

length-all_opened :
    (calls : ℕ → SystemCalls) (new : Allocator) (index : ℕ) (txs remotes : List ℕ)
    → length txs ≡ length remotes
    → length (all_opened calls new index txs remotes) ≡ length txs
length-all_opened calls new index [] remotes e = refl
length-all_opened calls new index (x ∷ txs) [] e = absurd (omega (arith, e))
length-all_opened calls new index (x ∷ txs) (y ∷ remotes) e =
    ap suc (length-all_opened calls new (index + 1) txs remotes (omega (arith, e)))

-- A router reads its configuration file and opens its sending ports. If the file gives three blocks
-- of `n` numbers below 32768 and the system makes and binds every socket, the loop opens `n` ports;
-- the one at position `i` is bound to the `i`-th sending number, and a packet that fits the buffer,
-- sent through it, is handed to the system for the `i`-th remote number at the address of
-- `localhost`.
pub configured_port_sends :
    (dns : Resolver) (calls : ℕ → SystemCalls) (new : Allocator) (id n old_id old_n : ℕ)
    (rx tx remote rest : List ℕ) (i own far home : ℕ) (len : ℤ) (pkt : Packet) (bytes : List ℕ)
    → length rx ≡ n
    → length tx ≡ n
    → length remote ≡ n
    → All (λ m. m < 32768) tx
    → All (λ m. m < 32768) remote
    → ((k : ℕ) → Succeed (calls k))
    → get_elem? tx i ≡ some own
    → get_elem? remote i ≡ some far
    → resolve dns localhost ≡ ok home
    → (len ==ℤ negsuc 0) ≡ false
    → send_packet pkt ≡ ok bytes
    → let c =
        read_numbers 0
          (id ∷ n ∷ rx ++ (tx ++ (remote ++ rest)))
          (configured old_id old_n [] [] []) in
      (ports : List UdpPort) × (port : UdpPort) × (open_sending_ports dns calls new c.num_interfaces
          0 c.tx_addressess c.tx_remote_addressess
        ≡ ok ports)
      × (length ports ≡ n)
      × (get_elem? ports i ≡ some port)
      × (port.my_sock_address ≡ some (record { sin_port = own; sin_addr = 0 }))
      × (send_to dns len pkt port ≡ ok (record { sin_port = far; sin_addr = home }, bytes))
configured_port_sends dns calls new id n old_id old_n rx tx remote rest i own far home len pkt bytes
      lrx ltx lremote small_tx small_remote works own_at far_at here went sends =
    let own_small = lt-of_All tx i small_tx own_at in
    let far_small = lt-of_All remote i small_remote far_at in
    let read = read_numbers_lem id n old_id old_n rx tx remote rest lrx ltx lremote in
    let exact : far % 65536 ≡ far = omega (arith, far_small) in
    let ports = all_opened calls new 0 tx remote in
    (
      ports,
      opened (calls (0 + i)) new own far,
      rw read (
          ap (λ (k : ℕ). open_sending_ports dns calls new k 0 tx remote) (sym ltx)
          ∙ open_sending_ports_from dns calls new 0 tx remote tx remote works
              (All-imp remote is_port-of_lt small_remote) (ltx ∙ sym lremote) refl refl),
      length-all_opened calls new 0 tx remote (ltx ∙ sym lremote) ∙ ltx,
      all_opened-get_elem? calls new 0 i tx remote own_at far_at,
      ground (arith, own_small),
      send_to-opened dns (calls (0 + i)) new own far home len pkt here went sends
          ∙ ap (λ (k : ℕ). ok (record { sin_port = k; sin_addr = home }, bytes)) exact,
    )
