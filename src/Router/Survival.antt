-- ===== src/Router/Survival.antt =====
-- The `switch` of router.cpp and the invariant of a router.
use communication_network.Base.{
  ℕ, ◌<◌, ◌≡◌, refl, List, ◌⊎◌, inl, inr, Exec, fault, overrun, ok, ◌>>=◌, length, ◌==◌, Bool-cases,
  All,
}
use communication_network.Wire.Header.{get_octet-cases}
use communication_network.Wire.Make.{packet_type_pos, request, response, announcement}
use communication_network.Router.State.{
  Receiver, Phase, Router, message_packet, push_pending, renew_pending, scan_pending, push_route,
  renew_route, polling, cached_pending, cached, committing,
}
use communication_network.Router.Loop.{decide, clear_caches}
use communication_network.Router.Decisions.{
  Decides, decide_request-Decides, decide_response-Decides, decide_announcement-Decides,
}
use communication_network.Router.Invariant.{
  Inv, PhaseHolds, CoversPendings, CoversRoutes, cleared-Inv,
}
use communication_network.Router.Commits.{Decided-Inv}

requeue-PhaseHolds :
    (ph : Phase) (s : Router) (rs : List Receiver) (q : List ℕ)
    → PhaseHolds ph s
    → PhaseHolds ph (record s { receivers = rs; message_queue = q })
requeue-PhaseHolds polling s rs q h = tt
requeue-PhaseHolds cached_pending s rs q h = h
requeue-PhaseHolds cached s rs q h = h
requeue-PhaseHolds (committing (push_pending r)) s rs q h = h
requeue-PhaseHolds (committing (renew_pending c k)) s rs q h = tt
requeue-PhaseHolds (committing scan_pending) s rs q h = tt
requeue-PhaseHolds (committing (push_route r)) s rs q h = h
requeue-PhaseHolds (committing (renew_route r)) s rs q h = h

-- The invariant says nothing of the messages but how many there are and who queued them.
pub requeue-Inv :
    (s : Router) (rs : List Receiver) (q : List ℕ)
    → Inv s
    → length rs ≡ s.num_interfaces
    → All (λ i. i < s.num_interfaces) q
    → Inv (record s { receivers = rs; message_queue = q })
requeue-Inv s rs q v threads queued = record {
  threads = threads;
  queued = queued;
  routes_unique = v.routes_unique;
  pendings_unique = v.pendings_unique;
  routes = v.routes;
  pendings = v.pendings;
  routes_cached = v.routes_cached;
  pendings_cached = v.pendings_cached;
  phase_holds = requeue-PhaseHolds s.phase s rs q v.phase_holds;
}

-- The main thread runs past a buffer, or reaches a state that satisfies the invariant.
abbrev pub Survives : Exec Router → Type 0
Survives r = (r ≡ fault overrun) ⊎ ((t : Router) × (r ≡ ok t) × Inv t)

Decides-Survives :
    (s : Router) (r : Exec Router)
    → Inv s
    → CoversPendings s × CoversRoutes s
    → Decides s r
    → Survives r
Decides-Survives s r v covers (inl e) = inl e
Decides-Survives s r v covers (inr (t, e, d)) = inr (t, e, Decided-Inv s t v covers d)

pub decide-Survives :
    (i : ℕ) (r : Receiver) (s : Router)
    → i < s.num_interfaces
    → Inv s
    → CoversPendings s × CoversRoutes s
    → Survives (decide i r s)
unfolding decide
decide-Survives i r s inside v covers = elim (get_octet-cases packet_type_pos r.port.pkt.header) [
  | inl e ↦ inl (rw e)
  | inr (kind, e) ↦
      rw (e, ◌>>=◌)
        (elim (Bool-cases (kind == request)) [
          | inl q ↦ rw q (
              Decides-Survives s _ v covers
                (decide_request-Decides i (message_packet r) s inside v.routes_cached))
          | inr nq ↦ rw nq (elim (Bool-cases (kind == response)) [
            | inl q ↦ rw q (
                Decides-Survives s _ v covers
                  (decide_response-Decides (message_packet r) s v.pendings_cached))
            | inr np ↦ rw np (elim (Bool-cases (kind == announcement)) [
              | inl q ↦ rw q (
                  Decides-Survives s _ v covers
                    (decide_announcement-Decides i r s inside v.routes_cached))
              | inr na ↦ rw na (inr (clear_caches s, refl, cleared-Inv v))
            ])
          ])
        ])
]
