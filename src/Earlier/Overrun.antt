-- ===== src/Earlier/Overrun.antt =====
-- The broadcast of simple_router.cpp, which sets the hops once for each interface.
use communication_network.Base.{
  ℕ, zero, suc, ◌+◌, ◌%◌, ◌<◌, ◌≤◌, ◌≡◌, refl, ◌∙◌, List, ok, fault, overrun, ◌>>=◌, ◌⊎◌, inl, inr,
  length, leb, ◌==◌, false, arith, Bool-cases, lt→ltb,
}
use communication_network.Wire.Header.{
  get_octet, get_octet-cases, set_octet-IsAllocated, IsAllocated,
}
use communication_network.Wire.Packet.{Packet, send_packet, make_packet}
use communication_network.Wire.Make.{
  packet_type_pos, contentid_pos, announcement, hostid_or_hops_pos,
}
use communication_network.Earlier.Tables.{PrtRecord}
use communication_network.Earlier.State.{RxThread, Shared, send_at}
use communication_network.Earlier.Handlers.{send_to_others, handle_announcement, handle_packet}
use communication_network.Earlier.Sends.{send_at-OnlySends}

-- A header that counts more octets than its block has is read past its end.
send_at-long :
    (i : ℕ) (p : Packet) (s : Shared)
    → i < s.num_interfaces
    → IsAllocated p.header
    → 4 < p.header.header_length
    → send_at i p s ≡ fault overrun
unfolding send_at send_packet make_packet
send_at-long i p s inside a long =
    let e : leb p.header.header_length (length p.header.info) ≡ false = ground arith in
    rw (lt→ltb i s.num_interfaces inside, e) refl

module _ (hops i : ℕ) where
  -- A round runs past a buffer, or leaves a header that counts one octet more.
  round-cases :
      (rounds index : ℕ) (p : Packet) (s : Shared)
      → index < s.num_interfaces
      → IsAllocated p.header
      → (send_to_others (suc rounds) index hops i p s ≡ fault overrun)
        ⊎ ((q : Packet) × (out : List (ℕ × List ℕ)) × (send_to_others (suc rounds) index hops i p s
              ≡ send_to_others rounds (index + 1) hops i q (record s { sent = out }))
            × IsAllocated q.header
            × (q.header.header_length ≡ p.header.header_length + 1))
  unfolding send_to_others
  round-cases rounds index p s inside a =
      let (h, set_it, b, longer) =
        set_octet-IsAllocated ((hops + 1) % 256) hostid_or_hops_pos p.header a (omega arith) in
      rw (set_it, ◌>>=◌)
        (elim (Bool-cases (index == i)) [
          | inl own ↦ rw (own, ◌>>=◌) (inr (record p { header = h }, s.sent, refl, b, longer))
          | inr other ↦
              rw other (elim (send_at-OnlySends index (record p { header = h }) s inside) [
                | inl e ↦ inl (rw e)
                | inr (out, e) ↦ inr (record p { header = h }, out, rw e, b, longer)
              ])
        ])

  round-long :
      (rounds index : ℕ) (p : Packet) (s : Shared)
      → index < s.num_interfaces
      → IsAllocated p.header
      → 4 ≤ p.header.header_length
      → index == i ≡ false
      → send_to_others (suc rounds) index hops i p s ≡ fault overrun
  unfolding send_to_others
  round-long rounds index p s inside a long other =
      let (h, set_it, b, longer) =
        set_octet-IsAllocated ((hops + 1) % 256) hostid_or_hops_pos p.header a (omega arith) in
      rw (set_it, ◌>>=◌)
        (rw (other, send_at-long index (record p { header = h }) s inside b (omega arith)) refl)

rounds_overrun :
    (k hops i : ℕ) (p : Packet) (s : Shared)
    → suc (suc (suc k)) ≤ s.num_interfaces
    → IsAllocated p.header
    → 3 ≤ p.header.header_length
    → send_to_others (suc (suc (suc k))) 0 hops i p s ≡ fault overrun
rounds_overrun k hops i p s fits a long =
    elim (round-cases hops i (suc (suc k)) 0 p s (omega arith) a) [
      | inl e ↦ e
      | inr (q, out, e, b, longer) ↦ elim (Bool-cases (1 == i)) [
        | inr other ↦
            e
            ∙ round-long hops i (suc k) 1 q (record s { sent = out }) (omega arith) b (omega arith)
                other
        | inl own ↦
            elim (round-cases hops i (suc k) 1 q (record s { sent = out }) (omega arith) b) [
              | inl f ↦ e ∙ f
              | inr (q2, out2, f, b2, longer2) ↦
                  e
                  ∙ f
                  ∙ round-long hops i k 2 q2 (record s { sent = out2 }) (omega arith) b2
                      (omega arith) (ground (arith, own))
            ]
      ]
    ]

broadcast_overruns :
    (n hops i : ℕ) (p : Packet) (s : Shared)
    → 3 ≤ n
    → n ≤ s.num_interfaces
    → IsAllocated p.header
    → 3 ≤ p.header.header_length
    → send_to_others n 0 hops i p s ≡ fault overrun
broadcast_overruns zero hops i p s few fits a long = absurd (omega arith)
broadcast_overruns (suc zero) hops i p s few fits a long = absurd (omega arith)
broadcast_overruns (suc (suc zero)) hops i p s few fits a long = absurd (omega arith)
broadcast_overruns (suc (suc (suc k))) hops i p s few fits a long =
    rounds_overrun k hops i p s fits a long

-- At a router with three interfaces or more, every announcement whose header counts three octets or
-- more makes the receiving thread read past the header block of four: each of the
-- loop's calls of setOctet counts one octet more.
pub announcement_overruns :
    (unset : PrtRecord) (i : ℕ) (t : RxThread) (s : Shared)
    → IsAllocated t.port.pkt.header
    → get_octet packet_type_pos t.port.pkt.header ≡ ok announcement
    → 3 ≤ t.port.pkt.header.header_length
    → 3 ≤ s.num_interfaces
    → handle_packet unset i t s ≡ fault overrun
unfolding handle_packet handle_announcement
announcement_overruns unset i t s a ty long many =
    let p = t.port.pkt in
    rw (ty, ◌>>=◌)
      (elim (get_octet-cases contentid_pos p.header) [
        | inl e ↦ rw e refl
        | inr (c, ec) ↦ elim (get_octet-cases hostid_or_hops_pos p.header) [
          | inl e ↦ rw (ec, ◌>>=◌) (rw e refl)
          | inr (hops, eh) ↦
              rw (ec, ◌>>=◌)
                (rw (eh, ◌>>=◌)
                  (rw (broadcast_overruns s.num_interfaces hops i p s many (omega arith) a long)
                    refl))
        ]
      ])
