-- ===== src/Router/SharedMessage.antt =====
-- A receiving thread reuses one `Message`: what the queue holds when two datagrams arrive.
use communication_network.Base.{
  ℕ, suc, zero, ◌+◌, ◌≤◌, ◌≡◌, refl, List, [], ◌∷◌, ◌++◌, some, false, ok, ◌>>=◌, length, get_elem?,
  set, take, take-append,
}
use mathlib.Core.List.{append_assoc}
use communication_network.Wire.Header.{max_header_size}
use communication_network.Wire.Packet.{Allocator, max_buf_length}
use communication_network.Wire.Received.{IsReady, received, receive_packet-eq, received-IsReady}
use communication_network.Router.State.{Receiver, Router, message_packet}
use communication_network.Router.Loop.{receive}

-- The thread after a datagram with the header `hs` and the payload `ps` arrived.
abbrev pub holding : List ℕ → List ℕ → Receiver → Receiver
holding hs ps r = record {
  port = received hs ps r.port;
  message_size = length ps;
  message_buffer_length = r.port.pkt.buffer_length;
}

pub receive-eq :
    (new : Allocator) (i : ℕ) (hs ps : List ℕ) (r : Receiver) (s : Router)
    → get_elem? s.receivers i ≡ some r
    → IsReady r.port
    → length hs ≤ max_header_size
    → 1 + length hs + length ps ≤ max_buf_length
    → receive new i false (length hs ∷ hs ++ ps) s
      ≡ ok (record s {
        receivers = set s.receivers i (holding hs ps r);
        message_queue = s.message_queue ++ i ∷ [];
      })
unfolding receive
receive-eq new i hs ps r s found ready small fits =
    rw found (rw (receive_packet-eq new hs ps r.port small fits ready))

pub get_elem?-set_at {ℓ} :
    {A : Type ℓ} (xs : List A) (i : ℕ) (x v : A)
    → get_elem? xs i ≡ some x
    → get_elem? (set xs i v) i ≡ some v
get_elem?-set_at [] i x v e = absurd (cc)
get_elem?-set_at (y ∷ xs) zero x v e = refl
get_elem?-set_at (y ∷ xs) (suc i) x v e = get_elem?-set_at xs i x v e

-- Two well-formed datagrams that reach one ready receiving thread before the main thread polls are
-- both queued, but as one message: it has the header and the payload of the second, so the first
-- datagram is lost and the second will be handled twice.
pub second_overwrites_first :
    (new : Allocator) (i : ℕ) (hs ps ks qs : List ℕ) (r : Receiver) (s : Router)
    → get_elem? s.receivers i ≡ some r
    → IsReady r.port
    → length hs ≤ max_header_size
    → 1 + length hs + length ps ≤ max_buf_length
    → length ks ≤ max_header_size
    → 1 + length ks + length qs ≤ max_buf_length
    → (t : Router) × (x : Receiver) × ((receive new i false (length hs ∷ hs ++ ps) s
          >>= receive new i false (length ks ∷ ks ++ qs))
        ≡ ok t)
      × (t.message_queue ≡ s.message_queue ++ i ∷ i ∷ [])
      × (get_elem? t.receivers i ≡ some x)
      × (take (length ks) (message_packet x).header.info ≡ ks)
      × (take (length qs) (message_packet x).payload ≡ qs)
      × ((message_packet x).size ≡ length qs)
second_overwrites_first new i hs ps ks qs r s found ready small fits small' fits' =
    let y = holding hs ps r in
    let x = holding ks qs y in
    let t = record s {
      receivers = set s.receivers i y;
      message_queue = s.message_queue ++ i ∷ [];
    } in
    let here = get_elem?-set_at s.receivers i r y found in
    (
      record t { receivers = set t.receivers i x; message_queue = t.message_queue ++ i ∷ [] },
      x,
      rw (receive-eq new i hs ps r s found ready small fits) (
          receive-eq new i ks qs y t here (received-IsReady new hs ps r.port small fits ready)
            small' fits'),
      append_assoc s.message_queue (i ∷ []) (i ∷ []),
      get_elem?-set_at t.receivers i y x here,
      take-append ks _,
      take-append qs _,
      refl,
    )
