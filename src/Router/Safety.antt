-- ===== src/Router/Safety.antt =====
-- The steps of a router's threads and its invariant.
use communication_network.Base.{
  ◌⊎◌, overrun, lt-of_get_elem?, get_elem?-within, ok-injective, ℕ, ◌<◌, ◌≡◌, refl, sym, subst, ◌≢◌,
  List, [], ◌∷◌, ◌++◌, Bool, true, false, inl, inr, fault, out_of_range, ok, or_fault, ◌>>=◌,
  if◌then◌else◌, arith, Option-cases, Exec-cases, All, All-append, set, length-set, get_elem?, ◌∙◌,
}
use communication_network.Wire.Packet.{Allocator, receive_packet}
use communication_network.Router.State.{Receiver, Router, polling, cached}
use communication_network.Router.Loop.{poll, receive}
use communication_network.Router.Steps.{
  Step, Reach, here, next, caches_pending, caches_routes, polls, commits, expires_routes,
  expires_pendings, receives, started,
}
use communication_network.Router.Keys.{UniqueRoutes, UniquePendings}
use communication_network.Router.Ranges.{RouteInRange, PendingInRange}
use communication_network.Router.Invariant.{
  Inv, PhaseHolds, CoversPendings, CoversRoutes, expire_routes-Inv, expire_pendings-Inv,
  cache_pending-Inv, cache_routes-Inv,
}
use communication_network.Router.Commits.{commit-Inv}
use communication_network.Router.Survival.{requeue-Inv, Survives, decide-Survives}

poll-Survives_queue :
    (q : List ℕ) (s : Router)
    → s.message_queue ≡ q
    → Inv s
    → CoversPendings s × CoversRoutes s
    → Survives (poll s)
unfolding poll
poll-Survives_queue [] s e v covers =
    rw (e, poll)
      (inr (
        record s { phase = polling },
        refl,
        record {
          threads = v.threads;
          queued = v.queued;
          routes_unique = v.routes_unique;
          pendings_unique = v.pendings_unique;
          routes = v.routes;
          pendings = v.pendings;
          routes_cached = v.routes_cached;
          pendings_cached = v.pendings_cached;
          phase_holds = tt;
        },
      ))
poll-Survives_queue (i ∷ rest) s e v covers =
    let q : All (λ i. i < s.num_interfaces) (i ∷ rest) =
      subst (λ l. All (λ i. i < s.num_interfaces) l) e v.queued in
    let (r, found) = get_elem?-within s.receivers i (omega (arith, v.threads, q.0)) in
    rw (e, poll)
      (rw (found, ◌>>=◌)
        (decide-Survives i r (record s { message_queue = rest }) q.0
          (requeue-Inv s s.receivers rest v v.threads q.1) covers))

poll-Survives : (s : Router) → Inv s → s.phase ≡ cached → Survives (poll s)
poll-Survives s v at =
    poll-Survives_queue s.message_queue s refl v (subst (λ ph. PhaseHolds ph s) at v.phase_holds)

poll-Inv : (s t : Router) → Inv s → s.phase ≡ cached → poll s ≡ ok t → Inv t
poll-Inv s t v at e = elim (poll-Survives s v at) [
  | inl f ↦ absurd (cc)
  | inr (u, f, w) ↦ subst Inv (ok-injective (sym f ∙ e)) w
]

either_Inv : (b : Bool) (s t : Router) → Inv s → Inv t → Inv (if b then s else t)
either_Inv true s t v w = v
either_Inv false s t v w = w

receive-Inv :
    (new : Allocator) (i : ℕ) (dropped : Bool) (datagram : List ℕ) (s t : Router)
    → Inv s
    → receive new i dropped datagram s ≡ ok t
    → Inv t
unfolding receive
receive-Inv new i dropped datagram s t v e = elim (Option-cases (get_elem? s.receivers i)) [
  | inl missing ↦ absurd (cc (rw (missing, or_fault) at e))
  | inr (r, found) ↦ elim (Exec-cases (receive_packet new datagram r.port)) [
    | inr (x, bad) ↦ absurd (cc (rw bad at (rw found at e)))
    | inl (port, good) ↦
        let inside : i < s.num_interfaces =
          omega (arith, lt-of_get_elem? s.receivers i found, v.threads) in
        let threads = λ (x : Receiver). length-set s.receivers i x ∙ v.threads in
        subst Inv (ok-injective (rw good at (rw found at e))) (
          either_Inv dropped _ _
            (requeue-Inv s (set s.receivers i _) s.message_queue v (threads _) v.queued)
            (requeue-Inv s (set s.receivers i _) (s.message_queue ++ i ∷ []) v (threads _) (
              All-append (λ j. j < s.num_interfaces) s.message_queue (i ∷ []) v.queued
                (inside, tt))))
  ]
]

Step-Inv : {s t : Router} → Step s t → Inv s → Inv t
Step-Inv (caches_pending at) v = cache_pending-Inv v
Step-Inv (caches_routes at) v = cache_routes-Inv v at
Step-Inv {s} {t} (polls at e) v = poll-Inv s t v at e
Step-Inv {s} (commits u at) v = commit-Inv u s (subst (λ ph. PhaseHolds ph s) at v.phase_holds) v
Step-Inv expires_routes v = expire_routes-Inv v
Step-Inv expires_pendings v = expire_pendings-Inv v
Step-Inv {s} {t} (receives new i dropped datagram e) v = receive-Inv new i dropped datagram s t v e

started-Inv : (receivers : List Receiver) → Inv (started receivers)
unfolding started
started-Inv receivers = record {
  threads = refl;
  queued = tt;
  routes_unique = tt;
  pendings_unique = tt;
  routes = tt;
  pendings = tt;
  routes_cached = tt;
  pendings_cached = tt;
  phase_holds = tt;
}

Reach-Inv : {s t : Router} → Inv s → Reach s t → Inv t
Reach-Inv v here = v
Reach-Inv v (next r st) = Step-Inv st (Reach-Inv v r)

-- Under every interleaving of the main thread, the timer thread and the receiving threads of a
-- router, whatever datagrams arrive: no two records of the routing table are for one content, no two
-- records of the pending table for one content and host; every record names an interface that the
-- router has, and its time to live is between 1 and what the table gives (25 and 35 seconds).
pub reachable_tables :
    (receivers : List Receiver) {t : Router}
    → Reach (started receivers) t
    → UniqueRoutes t.routing_table
      × UniquePendings t.pending_table
      × All (RouteInRange t.num_interfaces) t.routing_table
      × All (PendingInRange t.num_interfaces) t.pending_table
reachable_tables receivers {t} r =
    let v = Reach-Inv (started-Inv receivers) r in
    (v.routes_unique, v.pendings_unique, v.routes, v.pendings)

-- In every reachable state in which the main thread polls the queue it never throws
-- `std::out_of_range` out of `MySendingPorts.at`: it either runs past a buffer, or comes to the end of
-- the switch.
pub poll_never_out_of_range :
    (receivers : List Receiver) {t : Router}
    → Reach (started receivers) t
    → t.phase ≡ cached
    → (poll t ≢ fault out_of_range) × ((poll t ≡ fault overrun) ⊎ ((u : Router) × (poll t ≡ ok u)))
poll_never_out_of_range receivers {t} r at =
    let survives = poll-Survives t (Reach-Inv (started-Inv receivers) r) at in
    (
      λ e. elim survives [ inl f ↦ ground (arith, e, f) | inr (u, f, w) ↦ ground (arith, e, f) ],
      elim survives [ inl f ↦ inl f | inr (u, f, w) ↦ inr (u, f) ],
    )
