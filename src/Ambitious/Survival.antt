-- ===== src/Ambitious/Survival.antt =====
-- The ports that the handlers and the `switch` of Ambitious Version/Router.cpp ask for.
use communication_network.Base.{
  ℕ, zero, suc, ◌+◌, ◌%◌, ◌≤◌, ◌<◌, ◌≡◌, refl, sym, subst, ℤ, pos, negsuc, List, [], ◌∷◌, ◌++◌, ◌⊎◌,
  inl, inr, Exec, ok, fault, overrun, ◌>>=◌, ◌==◌, arith, Bool-cases, lt→ltb, All,
}
use communication_network.Wire.Header.{get_octet-cases, set_octet-cases}
use communication_network.Wire.Packet.{Packet}
use communication_network.Wire.Make.{
  packet_type_pos, contentid_pos, hostid_or_hops_pos, request, response, announcement,
}
use communication_network.Router.Effects.{send_packet-cases}
use communication_network.Ambitious.Pending.{
  note_request, delete_record, get_interface_from_pending_table,
}
use communication_network.Ambitious.Routing.{note_announcement, get_interface_from_routing_table}
use communication_network.Ambitious.Answers.{IsInterface}
use communication_network.Ambitious.Timers.{WellFormed, note-WellFormed, delete-WellFormed}
use communication_network.Ambitious.Main.{
  CdnRouter, send_through, send_to_all, send_request, send_response, handle_request_packets,
  handle_announcement_packet, process_response, process,
}
use communication_network.Ambitious.Inside.{
  PendingInside, RouteInside, note_request-Inside, delete-Inside, get_pending-Inside,
  note_announcement-Inside, get_route-Inside,
}

-- A call that sends runs past a buffer, or changes nothing but the trace of what was sent.
abbrev Sends : CdnRouter → Exec CdnRouter → Type 0
Sends s r = (r ≡ fault overrun) ⊎ ((out : List (ℕ × List ℕ)) × (r ≡ ok (record s { sent = out })))

send_through-Sends :
    (i : ℕ) (p : Packet) (s : CdnRouter) → i < s.num_interfaces → Sends s (send_through i p s)
unfolding send_through
send_through-Sends i p s h = rw (lt→ltb i s.num_interfaces h) (elim (send_packet-cases p) [
  | inl e ↦ inl (rw e)
  | inr (bytes, e) ↦ inr (s.sent ++ (i, bytes) ∷ [], rw e)
])

send_request-Sends :
    (z : ℤ) (p : Packet) (s : CdnRouter)
    → IsInterface s.num_interfaces z
    → Sends s (send_request z p s)
unfolding send_request
send_request-Sends (pos i) p s h = send_through-Sends i p s h
send_request-Sends (negsuc zero) p s h = inr (s.sent, refl)
send_request-Sends (negsuc (suc n)) p s h = absurd (omega arith)

send_to_all-Sends :
    (count index : ℕ) (p : Packet) (s : CdnRouter)
    → index + count ≤ s.num_interfaces
    → Sends s (send_to_all count index p s)
unfolding send_to_all
send_to_all-Sends zero index p s h = inr (s.sent, refl)
send_to_all-Sends (suc count) index p s h = elim (send_through-Sends index p s (omega arith)) [
  | inl e ↦ inl (rw e)
  | inr (out, e) ↦
      rw (e, ◌>>=◌) (send_to_all-Sends count (index + 1) p (record s { sent = out }) (omega arith))
]

-- Both tables name interfaces of the router only, and the pending table is well-formed.
pub record IsInside (n : ℕ) (s : CdnRouter) : Type 0 where
  pub interfaces : s.num_interfaces ≡ n
  pub routes : All (RouteInside n) s.routing_table
  pub pendings : All (PendingInside n) s.pending_table
  pub well_formed : WellFormed s.pending_table

abbrev pub Survives : ℕ → Exec CdnRouter → Type 0
Survives n r = (r ≡ fault overrun) ⊎ ((t : CdnRouter) × (r ≡ ok t) × IsInside n t)

Sends-Survives :
    (n : ℕ) (s : CdnRouter) (r : Exec CdnRouter) → IsInside n s → Sends s r → Survives n r
Sends-Survives n s r v (inl e) = inl e
Sends-Survives n s r v (inr (out, e)) = inr (
  record s { sent = out },
  e,
  record {
    interfaces = v.interfaces;
    routes = v.routes;
    pendings = v.pendings;
    well_formed = v.well_formed;
  },
)

send_response-Survives :
    (n : ℕ) (z : ℤ) (c h : ℕ) (p : Packet) (s : CdnRouter)
    → IsInside n s
    → IsInterface s.num_interfaces z
    → Survives n (send_response z c h p s)
unfolding send_response
send_response-Survives n (pos i) c h p s v inside = elim (send_through-Sends i p s inside) [
  | inl e ↦ inl (rw e)
  | inr (out, e) ↦ inr (
    record s { pending_table = delete_record c h s.pending_table; sent = out },
    rw e,
    record {
      interfaces = v.interfaces;
      routes = v.routes;
      pendings = delete-Inside n c h s.pending_table v.pendings;
      well_formed = delete-WellFormed c h s.pending_table v.well_formed;
    },
  )
]
send_response-Survives n (negsuc zero) c h p s v inside = inr (s, refl, v)
send_response-Survives n (negsuc (suc k)) c h p s v inside = absurd (omega arith)

module _ (n i : ℕ) (p : Packet) (s : CdnRouter) (inside : i < n) (v : IsInside n s) where
  request-Survives : Survives n (handle_request_packets i p s >>= λ r. send_request r.0 p r.1)
  unfolding handle_request_packets
  request-Survives = elim (get_octet-cases contentid_pos p.header) [
    | inl e ↦ inl (rw e)
    | inr (c, ec) ↦
        rw (ec, ◌>>=◌)
          (elim (get_octet-cases hostid_or_hops_pos p.header) [
            | inl e ↦ inl (rw e)
            | inr (h, eh) ↦
                let t = record s { pending_table = note_request c h i s.pending_table } in
                rw (eh, ◌>>=◌)
                  (Sends-Survives n t _
                    (record {
                      interfaces = v.interfaces;
                      routes = v.routes;
                      pendings = note_request-Inside n c h i s.pending_table inside v.pendings;
                      well_formed = note-WellFormed c h i s.pending_table v.well_formed;
                    })
                    (send_request-Sends (get_interface_from_routing_table c s.routing_table) p t (
                      subst
                        (λ k. IsInterface k (get_interface_from_routing_table c s.routing_table))
                        (sym v.interfaces) (get_route-Inside n c s.routing_table v.routes))))
          ])
  ]

  response-Survives : Survives n (process_response p s)
  unfolding process_response
  response-Survives = elim (get_octet-cases contentid_pos p.header) [
    | inl e ↦ inl (rw e)
    | inr (c, ec) ↦
        rw (ec, ◌>>=◌)
          (elim (get_octet-cases hostid_or_hops_pos p.header) [
            | inl e ↦ inl (rw e)
            | inr (h, eh) ↦
                rw (eh, ◌>>=◌)
                  (send_response-Survives n (get_interface_from_pending_table c h s.pending_table) c
                    h p s v
                    (subst
                      (λ k. IsInterface k (get_interface_from_pending_table c h s.pending_table))
                      (sym v.interfaces) (get_pending-Inside n c h s.pending_table v.pendings)))
          ])
  ]

  announcement-Survives :
      Survives n
        (handle_announcement_packet i p s >>= λ r. send_to_all r.1.num_interfaces 0 r.0 r.1)
  unfolding handle_announcement_packet
  announcement-Survives = elim (get_octet-cases contentid_pos p.header) [
    | inl e ↦ inl (rw e)
    | inr (c, ec) ↦
        rw (ec, ◌>>=◌)
          (elim (get_octet-cases hostid_or_hops_pos p.header) [
            | inl e ↦ inl (rw e)
            | inr (hops, eh) ↦
                rw (eh, ◌>>=◌)
                  (elim (set_octet-cases ((hops + 1) % 256) hostid_or_hops_pos p.header) [
                    | inl e ↦ inl (rw e)
                    | inr (g, eg) ↦
                        let t = record s {
                          routing_table = note_announcement c hops i s.routing_table;
                        } in
                        rw (eg, ◌>>=◌)
                          (Sends-Survives n t _
                            (record {
                              interfaces = v.interfaces;
                              routes =
                                  note_announcement-Inside n c hops i s.routing_table inside
                                    v.routes;
                              pendings = v.pendings;
                              well_formed = v.well_formed;
                            })
                            (send_to_all-Sends t.num_interfaces 0 (record p { header = g }) t
                              (omega arith)))
                  ])
          ])
  ]

  pub process-Survives : Survives n (process i p s)
  unfolding process
  process-Survives = elim (get_octet-cases packet_type_pos p.header) [
    | inl e ↦ inl (rw e)
    | inr (kind, e) ↦
        rw (e, ◌>>=◌)
          (elim (Bool-cases (kind == request)) [
            | inl q ↦ rw q request-Survives
            | inr nq ↦ rw nq (elim (Bool-cases (kind == response)) [
              | inl q ↦ rw q response-Survives
              | inr np ↦ rw np (elim (Bool-cases (kind == announcement)) [
                | inl q ↦ rw q announcement-Survives
                | inr na ↦ rw na (inr (s, refl, v))
              ])
            ])
          ])
  ]
