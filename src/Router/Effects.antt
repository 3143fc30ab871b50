-- ===== src/Router/Effects.antt =====
-- What sending and deciding leave alone.
use communication_network.Base.{
  ℕ, zero, suc, ◌+◌, ◌%◌, ◌<◌, ◌≡◌, refl, ℤ, pos, negsuc, List, [], ◌∷◌, ◌++◌, Option, none, some,
  ◌⊎◌, inl, inr, Exec, ok, fault, overrun, guard, ◌>>=◌, length, ◌==◌, if◌then◌else◌, arith,
  Bool-cases, take, ◌%◌, lt→ltb, leb, ◌≤◌,
}
use communication_network.Wire.Packet.{Packet, send_packet, make_packet, mtu_size}
use communication_network.Router.Tables.{PrtRecord}
use communication_network.Router.State.{Router, send_on, forward}
use communication_network.Router.Handlers.{respond, broadcast}

-- A call that sends runs past a buffer, or changes nothing but the trace of what was sent.
abbrev pub OnlySends : Router → Exec Router → Type 0
OnlySends s r =
    (r ≡ fault overrun) ⊎ ((out : List (ℕ × List ℕ)) × (r ≡ ok (record s { sent = out })))

pub send_packet-cases :
    (p : Packet) → (send_packet p ≡ fault overrun) ⊎ ((b : List ℕ) × (send_packet p ≡ ok b))
unfolding send_packet make_packet
send_packet-cases p = elim (Bool-cases (leb p.header.header_length (length p.header.info))) [
  | inr long ↦ inl (rw (long, guard))
  | inl held ↦ elim (Bool-cases (leb p.size (length p.payload))) [
    | inr long ↦ inl (rw (held, guard) (rw (long, guard)))
    | inl filled ↦ elim (Bool-cases (leb (1 + p.size + p.header.header_length) (mtu_size + 1))) [
      | inr big ↦ inl (rw (held, guard) (rw (filled, guard) (rw big)))
      | inl fits ↦ inr (
        (p.header.header_length % 256) ∷ take p.header.header_length p.header.info
            ++ take p.size p.payload,
        rw (held, guard) (rw (filled, guard) (rw fits)),
      )
    ]
  ]
]

module _ (s : Router) where
  -- A port that `.at` finds, or the -1 that stands for no port.
  abbrev pub CanSend : ℤ → Type 0
  CanSend (pos i) = i < s.num_interfaces
  CanSend (negsuc zero) = Unit {0}
  CanSend (negsuc (suc n)) = ⊥

pub send_on-OnlySends :
    (i : ℕ) (p : Packet) (s : Router) → i < s.num_interfaces → OnlySends s (send_on i p s)
unfolding send_on
send_on-OnlySends i p s h = rw (lt→ltb i s.num_interfaces h) (elim (send_packet-cases p) [
  | inl e ↦ inl (rw e)
  | inr (bytes, e) ↦ inr (s.sent ++ (i, bytes) ∷ [], rw e)
])

pub forward-OnlySends :
    (i : ℤ) (p : Packet) (s : Router) → CanSend s i → OnlySends s (forward i p s)
unfolding forward
forward-OnlySends (pos i) p s h = send_on-OnlySends i p s h
forward-OnlySends (negsuc zero) p s h = inr (s.sent, refl)
forward-OnlySends (negsuc (suc n)) p s h = absurd h

pub respond-OnlySends :
    (r : Option PrtRecord) (p : Packet) (s : Router)
    → ((x : PrtRecord) → r ≡ some x → x.interface < s.num_interfaces)
    → OnlySends s (respond r p s)
respond-OnlySends none p s h = inr (s.sent, refl)
respond-OnlySends (some r) p s h = send_on-OnlySends r.interface p s (h r refl)

visit-OnlySends :
    (index i : ℕ) (p : Packet) (s : Router)
    → index < s.num_interfaces
    → OnlySends s (if index == i then ok s else send_on index p s)
visit-OnlySends index i p s h = elim (Bool-cases (index == i)) [
  | inl own ↦ rw own (inr (s.sent, refl))
  | inr other ↦ rw other (send_on-OnlySends index p s h)
]

pub broadcast-OnlySends :
    (rounds index i : ℕ) (p : Packet) (s : Router)
    → index + rounds ≤ s.num_interfaces
    → OnlySends s (broadcast rounds index i p s)
unfolding broadcast
broadcast-OnlySends zero index i p s h = inr (s.sent, refl)
broadcast-OnlySends (suc rounds) index i p s h = elim (visit-OnlySends index i p s (omega arith)) [
  | inl e ↦ inl (rw e)
  | inr (out, e) ↦
      rw (e, ◌>>=◌)
        (broadcast-OnlySends rounds (index + 1) i p (record s { sent = out }) (omega arith))
]
