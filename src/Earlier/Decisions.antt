-- ===== src/Earlier/Decisions.antt =====
-- What the switch of rx_function in simple_router.cpp can come to.
use communication_network.Base.{
  ℕ, zero, suc, ◌+◌, ◌%◌, ◌<◌, ◌≤◌, ◌≡◌, refl, List, Option, none, some, ◌⊎◌, inl, inr, Exec, ok,
  fault, overrun, ◌>>=◌, ◌==◌, if◌then◌else◌, arith, Bool-cases,
}
use communication_network.Wire.Header.{get_octet-cases, set_octet-cases}
use communication_network.Wire.Packet.{Packet}
use communication_network.Wire.Make.{
  packet_type_pos, contentid_pos, hostid_or_hops_pos, request, response, announcement,
}
use communication_network.Earlier.Tables.{RtRecord, PrtRecord, scan_routes}
use communication_network.Earlier.State.{Change, no_change, changing, RxThread, Shared, send_at}
use communication_network.Earlier.Handlers.{
  handle_request, handle_response, send_to_others, announced_change, handle_announcement,
  handle_packet, goes_on,
}
use communication_network.Earlier.Sends.{
  RoutesWithin, PendingsWithin, ChangeWithin, OnlySends, send_at-OnlySends, Decides,
  handle_request-Decides, handle_response-Decides,
}

visit-OnlySends :
    (index i : ℕ) (p : Packet) (s : Shared)
    → index < s.num_interfaces
    → OnlySends s (if index == i then ok s else send_at index p s)
visit-OnlySends index i p s h = elim (Bool-cases (index == i)) [
  | inl own ↦ rw own (inr (s.sent, refl))
  | inr other ↦ rw other (send_at-OnlySends index p s h)
]

-- Broadcasting changes the packet's header and the trace.
abbrev Broadcasts : Shared → Exec (Packet × Shared) → Type 0
Broadcasts s r =
    (r ≡ fault overrun)
    ⊎ ((q : Packet) × (out : List (ℕ × List ℕ)) × (r ≡ ok (q, record s { sent = out })))

send_to_others-Broadcasts :
    (rounds index hops i : ℕ) (p : Packet) (s : Shared)
    → index + rounds ≤ s.num_interfaces
    → Broadcasts s (send_to_others rounds index hops i p s)
unfolding send_to_others
send_to_others-Broadcasts zero index hops i p s fits = inr (p, s.sent, refl)
send_to_others-Broadcasts (suc rounds) index hops i p s fits =
    elim (set_octet-cases ((hops + 1) % 256) hostid_or_hops_pos p.header) [
      | inl e ↦ inl (rw e)
      | inr (h, eh) ↦ elim (visit-OnlySends index i (record p { header = h }) s (omega arith)) [
        | inl e ↦ inl (rw (eh, ◌>>=◌) (rw e))
        | inr (out, e) ↦
            rw (eh, ◌>>=◌)
              (rw (e, ◌>>=◌)
                (send_to_others-Broadcasts rounds (index + 1) hops i (record p { header = h })
                  (record s { sent = out }) (omega arith)))
      ]
    ]

-- The switch runs past a buffer, or changes the trace, the thread's packet and its stage, and the
-- change to come is within bounds.
abbrev pub Handles : Shared → RxThread → Exec (Shared × RxThread) → Type 0
Handles s t r =
    (r ≡ fault overrun)
    ⊎ ((out : List (ℕ × List ℕ)) × (q : Packet) × (c : Change) × (r
          ≡ ok (
            record s { sent = out },
            record t { port = record t.port { pkt = q }; stage = changing c },
          ))
        × ChangeWithin s.num_interfaces c)

goes_on-Handles :
    (s : Shared) (t : RxThread) (r : Exec (Shared × Change))
    → Decides s r
    → Handles s t (r >>= λ u. ok (goes_on t u))
goes_on-Handles s t r (inl e) = inl (rw e)
goes_on-Handles s t r (inr (out, c, e, w)) = inr (out, t.port.pkt, c, rw e, w)

announced_change-Within :
    (found : Option RtRecord) (n c hops i : ℕ)
    → i < n
    → ChangeWithin n (announced_change found c hops i)
announced_change-Within none n c hops i w = w
announced_change-Within (some r) n c hops i w = tt

module _ (i : ℕ) (p : Packet) (t : RxThread) (s : Shared) where
  handle_announcement-Handles :
      i < s.num_interfaces
      → Handles s t (
          handle_announcement i p t s >>= λ u.
          ok (goes_on (record t { port = record t.port { pkt = u.0 } }) u.1))
  unfolding handle_announcement
  handle_announcement-Handles own = elim (get_octet-cases contentid_pos p.header) [
    | inl e ↦ inl (rw e)
    | inr (c, ec) ↦ elim (get_octet-cases hostid_or_hops_pos p.header) [
      | inl e ↦ inl (rw (ec, ◌>>=◌) (rw e))
      | inr (hops, eh) ↦
          elim (send_to_others-Broadcasts s.num_interfaces 0 hops i p s (omega arith)) [
            | inl e ↦ inl (rw (ec, ◌>>=◌) (rw (eh, ◌>>=◌) (rw e)))
            | inr (q, out, e) ↦ inr (
              out,
              q,
              announced_change (scan_routes c t.rt_local) c hops i,
              rw (ec, ◌>>=◌) (rw (eh, ◌>>=◌) (rw e)),
              announced_change-Within (scan_routes c t.rt_local) s.num_interfaces c hops i own,
            )
          ]
    ]
  ]

pub handle_packet-Handles :
    (unset : PrtRecord) (i : ℕ) (t : RxThread) (s : Shared)
    → i < s.num_interfaces
    → RoutesWithin s.num_interfaces t.rt_local
    → PendingsWithin s.num_interfaces t.prt_local
    → Handles s t (handle_packet unset i t s)
unfolding handle_packet
handle_packet-Handles unset i t s own routes pendings =
    let p = t.port.pkt in
    elim (get_octet-cases packet_type_pos p.header) [
      | inl e ↦ inl (rw e)
      | inr (ty, et) ↦
          rw (et, ◌>>=◌)
            (elim (Bool-cases (ty == request)) [
              | inl asked ↦ rw asked (
                  goes_on-Handles s t (handle_request unset i p t s)
                    (handle_request-Decides unset i p t s own routes))
              | inr other ↦ rw other (elim (Bool-cases (ty == response)) [
                | inl answered ↦ rw answered (
                    goes_on-Handles s t (handle_response unset p t s)
                      (handle_response-Decides unset p t s pendings))
                | inr third ↦ rw third (elim (Bool-cases (ty == announcement)) [
                  | inl announced ↦ rw announced (handle_announcement-Handles i p t s own)
                  | inr unknown ↦ rw unknown (inr (s.sent, t.port.pkt, no_change, refl, tt))
                ])
              ])
            ])
    ]
