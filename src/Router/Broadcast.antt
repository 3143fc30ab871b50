-- ===== src/Router/Broadcast.antt =====
-- Through which interfaces an announcement goes on.
use communication_network.Base.{
  ℕ, zero, suc, ◌+◌, ◌≤◌, ◌≡◌, ap, ◌∙◌, List, [], ◌∷◌, ◌++◌, ok, ◌==◌, if◌then◌else◌, arith,
  Bool-cases, inl, inr, map, leb, ltb, ◌&&◌, not,
}
use mathlib.Core.List.{append-nil, append_assoc}
use communication_network.Wire.Packet.{Packet, send_packet}
use communication_network.Router.State.{Router}
use communication_network.Router.Handlers.{broadcast}
use communication_network.Router.Rounds.{datagram_of, send_on-eq}

-- The interfaces from `index` on, `count` of them, without `i`.
pub others : ℕ → ℕ → ℕ → List ℕ
others zero index i = []
others (suc count) index i =
    if index == i then others count (index + 1) i else index ∷ others count (index + 1) i

abbrev pub to_all : List ℕ → Packet → List (ℕ × List ℕ)
to_all is p = map (λ k. (k, datagram_of p)) is

pub broadcast-eq :
    (rounds index i : ℕ) (p : Packet) (s : Router)
    → index + rounds ≤ s.num_interfaces
    → send_packet p ≡ ok (datagram_of p)
    → broadcast rounds index i p s
      ≡ ok (record s { sent = s.sent ++ to_all (others rounds index i) p })
unfolding broadcast others
broadcast-eq zero index i p s fits sends = rw append-nil
broadcast-eq (suc rounds) index i p s fits sends = elim (Bool-cases (index == i)) [
  | inl own ↦ rw own (broadcast-eq rounds (index + 1) i p s (omega arith) sends)
  | inr other ↦
      let one = s.sent ++ (index, datagram_of p) ∷ [] in
      let later =
        broadcast-eq rounds (index + 1) i p (record s { sent = one }) (omega arith) sends in
      let regroup =
        append_assoc s.sent ((index, datagram_of p) ∷ [])
          (to_all (others rounds (index + 1) i) p) in
      rw other (
        rw (send_on-eq index p s (omega arith) sends)
          (later ∙ ap (λ (out : List (ℕ × List ℕ)). ok (record s { sent = out })) regroup))
]

-- How often a number stands in a list.
abbrev pub occurs : ℕ → List ℕ → ℕ
occurs k [] = 0
occurs k (x ∷ xs) = (if x == k then 1 else 0) + occurs k xs

-- Every interface of the range stands in the list once, but `i` does not.
pub occurs-others :
    (k count index i : ℕ)
    → occurs k (others count index i)
      ≡ (if leb index k && ltb k (index + count) && not (k == i) then 1 else 0)
unfolding others
occurs-others k zero index i = ground arith
occurs-others k (suc count) index i = ground (arith, occurs-others k count (index + 1) i)

-- An announcement that goes out of a router, on a packet that `makePacket` can put into the sending
-- buffer: the loop ends without a fault, and what it adds to the trace of sent datagrams is the same
-- datagram on a list of interfaces in which every interface of the router stands once, except the
-- one it came from, which does not stand there at all, nor does any number that is no interface.
pub broadcast_once :
    (i : ℕ) (p : Packet) (s : Router)
    → send_packet p ≡ ok (datagram_of p)
    → (is : List ℕ) × (broadcast s.num_interfaces 0 i p s
        ≡ ok (record s { sent = s.sent ++ to_all is p }))
      × ((k : ℕ) → occurs k is ≡ (if ltb k s.num_interfaces && not (k == i) then 1 else 0))
broadcast_once i p s sends = (
  others s.num_interfaces 0 i,
  broadcast-eq s.num_interfaces 0 i p s (omega arith) sends,
  λ k. ground (arith, occurs-others k s.num_interfaces 0 i),
)
