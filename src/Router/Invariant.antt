-- ===== src/Router/Invariant.antt =====
-- The invariant of a router under every interleaving of its threads.
use communication_network.Base.{ℕ, ◌<◌, ◌≡◌, subst, none, length, arith, All, All-append}
use communication_network.Router.Tables.{find_route, find_pending}
use communication_network.Router.State.{
  Update, Phase, Router, push_pending, renew_pending, scan_pending, push_route, renew_route,
  polling, cached_pending, cached, committing, cache_pending, cache_routes,
}
use communication_network.Router.Loop.{clear_caches, expire_routes, expire_pendings}
use communication_network.Router.Keys.{
  UniqueRoutes, UniquePendings, find_route-append, find_pending-append, tick_routes-none,
  tick_routes-Unique, tick_pendings-none, tick_pendings-Unique,
}
use communication_network.Router.Ranges.{
  RouteInRange, PendingInRange, tick_routes-InRange, tick_pendings-InRange,
}

-- A key that the cache lacks is not in the table either: between the copy and the commit the table
-- can only lose records.
abbrev pub CoversPendings : Router → Type 0
CoversPendings s =
    (c h : ℕ) → find_pending c h s.prt_local ≡ none → find_pending c h s.pending_table ≡ none

abbrev pub CoversRoutes : Router → Type 0
CoversRoutes s = (c : ℕ) → find_route c s.rt_local ≡ none → find_route c s.routing_table ≡ none

-- A record that waits to be pushed has no rival in the table.
abbrev pub CanCommit : Update → Router → Type 0
CanCommit (push_pending r) s =
    (find_pending r.c_id r.h_id s.pending_table ≡ none) × PendingInRange s.num_interfaces r
CanCommit (renew_pending c h) s = Unit {0}
CanCommit scan_pending s = Unit {0}
CanCommit (push_route r) s =
    (find_route r.c_id s.routing_table ≡ none) × RouteInRange s.num_interfaces r
CanCommit (renew_route r) s = RouteInRange s.num_interfaces r

abbrev pub PhaseHolds : Phase → Router → Type 0
PhaseHolds polling s = Unit {0}
PhaseHolds cached_pending s = CoversPendings s
PhaseHolds cached s = CoversPendings s × CoversRoutes s
PhaseHolds (committing u) s = CanCommit u s

pub record Inv (s : Router) : Type 0 where
  pub threads : length s.receivers ≡ s.num_interfaces
  pub queued : All (λ i. i < s.num_interfaces) s.message_queue
  pub routes_unique : UniqueRoutes s.routing_table
  pub pendings_unique : UniquePendings s.pending_table
  pub routes : All (RouteInRange s.num_interfaces) s.routing_table
  pub pendings : All (PendingInRange s.num_interfaces) s.pending_table
  pub routes_cached : All (RouteInRange s.num_interfaces) s.rt_local
  pub pendings_cached : All (PendingInRange s.num_interfaces) s.prt_local
  pub phase_holds : PhaseHolds s.phase s

expire_routes-PhaseHolds :
    (ph : Phase) (s : Router) → PhaseHolds ph s → PhaseHolds ph (expire_routes s)
unfolding expire_routes
expire_routes-PhaseHolds polling s h = tt
expire_routes-PhaseHolds cached_pending s h = h
expire_routes-PhaseHolds cached s h = (h.0, λ c e. tick_routes-none s.routing_table c (h.1 c e))
expire_routes-PhaseHolds (committing (push_pending r)) s h = h
expire_routes-PhaseHolds (committing (renew_pending c k)) s h = tt
expire_routes-PhaseHolds (committing scan_pending) s h = tt
expire_routes-PhaseHolds (committing (push_route r)) s h =
    (tick_routes-none s.routing_table r.c_id h.0, h.1)
expire_routes-PhaseHolds (committing (renew_route r)) s h = h

expire_pendings-PhaseHolds :
    (ph : Phase) (s : Router) → PhaseHolds ph s → PhaseHolds ph (expire_pendings s)
unfolding expire_pendings
expire_pendings-PhaseHolds polling s h = tt
expire_pendings-PhaseHolds cached_pending s h =
    λ c k e. tick_pendings-none s.pending_table c k (h c k e)
expire_pendings-PhaseHolds cached s h =
    (λ c k e. tick_pendings-none s.pending_table c k (h.0 c k e), h.1)
expire_pendings-PhaseHolds (committing (push_pending r)) s h =
    (tick_pendings-none s.pending_table r.c_id r.h_id h.0, h.1)
expire_pendings-PhaseHolds (committing (renew_pending c k)) s h = tt
expire_pendings-PhaseHolds (committing scan_pending) s h = tt
expire_pendings-PhaseHolds (committing (push_route r)) s h = h
expire_pendings-PhaseHolds (committing (renew_route r)) s h = h

module _ {s : Router} (v : Inv s) where
  open v use {
    threads, queued, routes_unique, pendings_unique, routes, pendings, routes_cached,
    pendings_cached, phase_holds,
  }

  pub expire_routes-Inv : Inv (expire_routes s)
  unfolding expire_routes
  expire_routes-Inv = record {
    threads = threads;
    queued = queued;
    routes_unique = tick_routes-Unique s.routing_table routes_unique;
    pendings_unique = pendings_unique;
    routes = tick_routes-InRange s.num_interfaces s.routing_table routes;
    pendings = pendings;
    routes_cached = routes_cached;
    pendings_cached = pendings_cached;
    phase_holds = expire_routes-PhaseHolds s.phase s phase_holds;
  }

  pub expire_pendings-Inv : Inv (expire_pendings s)
  unfolding expire_pendings
  expire_pendings-Inv = record {
    threads = threads;
    queued = queued;
    routes_unique = routes_unique;
    pendings_unique = tick_pendings-Unique s.pending_table pendings_unique;
    routes = routes;
    pendings = tick_pendings-InRange s.num_interfaces s.pending_table pendings;
    routes_cached = routes_cached;
    pendings_cached = pendings_cached;
    phase_holds = expire_pendings-PhaseHolds s.phase s phase_holds;
  }

  pub cache_pending-Inv : Inv (cache_pending s)
  unfolding cache_pending
  cache_pending-Inv = record {
    threads = threads;
    queued = queued;
    routes_unique = routes_unique;
    pendings_unique = pendings_unique;
    routes = routes;
    pendings = pendings;
    routes_cached = routes_cached;
    pendings_cached =
        All-append (PendingInRange s.num_interfaces) s.prt_local s.pending_table pendings_cached
          pendings;
    phase_holds = λ c h e. ground (arith, find_pending-append c h s.prt_local s.pending_table, e);
  }

  pub cache_routes-Inv : s.phase ≡ cached_pending → Inv (cache_routes s)
  unfolding cache_routes
  cache_routes-Inv at = record {
    threads = threads;
    queued = queued;
    routes_unique = routes_unique;
    pendings_unique = pendings_unique;
    routes = routes;
    pendings = pendings;
    routes_cached =
        All-append (RouteInRange s.num_interfaces) s.rt_local s.routing_table routes_cached routes;
    pendings_cached = pendings_cached;
    phase_holds = (
      subst (λ ph. PhaseHolds ph s) at phase_holds,
      λ c e. ground (arith, find_route-append c s.rt_local s.routing_table, e),
    );
  }

  -- The caches are cleared, the loop begins again.
  pub cleared-Inv : Inv (clear_caches s)
  unfolding clear_caches
  cleared-Inv = record {
    threads = threads;
    queued = queued;
    routes_unique = routes_unique;
    pendings_unique = pendings_unique;
    routes = routes;
    pendings = pendings;
    routes_cached = tt;
    pendings_cached = tt;
    phase_holds = tt;
  }
