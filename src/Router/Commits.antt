-- ===== src/Router/Commits.antt =====
-- The locked update, the decision before it, and the invariant of a router.
use communication_network.Base.{◌≡◌, sym, subst, [], ◌∷◌, All-append, ◌∙◌}
use communication_network.Router.State.{
  Update, Router, push_pending, renew_pending, scan_pending, push_route, renew_route,
}
use communication_network.Router.Loop.{commit}
use communication_network.Router.Keys.{
  push_route-Unique, push_pending-Unique, replace_route-Unique, touch_pending-Unique,
}
use communication_network.Router.Ranges.{
  RouteInRange, PendingInRange, touch_pending-InRange, replace_route-InRange,
}
use communication_network.Router.Decisions.{Justified, Decided}
use communication_network.Router.Invariant.{
  Inv, PhaseHolds, CanCommit, CoversPendings, CoversRoutes, cleared-Inv,
}

pub commit-Inv : (u : Update) (s : Router) → CanCommit u s → Inv s → Inv (commit u s)
unfolding commit
commit-Inv (push_pending r) s can v = record {
  threads = v.threads;
  queued = v.queued;
  routes_unique = v.routes_unique;
  pendings_unique = push_pending-Unique s.pending_table r v.pendings_unique can.0;
  routes = v.routes;
  pendings =
      All-append (PendingInRange s.num_interfaces) s.pending_table (r ∷ []) v.pendings (can.1, tt);
  routes_cached = tt;
  pendings_cached = tt;
  phase_holds = tt;
}
commit-Inv (renew_pending c h) s can v = record {
  threads = v.threads;
  queued = v.queued;
  routes_unique = v.routes_unique;
  pendings_unique = touch_pending-Unique c h s.pending_table v.pendings_unique;
  routes = v.routes;
  pendings = touch_pending-InRange s.num_interfaces c h s.pending_table v.pendings;
  routes_cached = tt;
  pendings_cached = tt;
  phase_holds = tt;
}
commit-Inv scan_pending s can v = cleared-Inv v
commit-Inv (push_route r) s can v = record {
  threads = v.threads;
  queued = v.queued;
  routes_unique = push_route-Unique s.routing_table r v.routes_unique can.0;
  pendings_unique = v.pendings_unique;
  routes = All-append (RouteInRange s.num_interfaces) s.routing_table (r ∷ []) v.routes (can.1, tt);
  pendings = v.pendings;
  routes_cached = tt;
  pendings_cached = tt;
  phase_holds = tt;
}
commit-Inv (renew_route r) s can v = record {
  threads = v.threads;
  queued = v.queued;
  routes_unique = replace_route-Unique r s.routing_table v.routes_unique;
  pendings_unique = v.pendings_unique;
  routes = replace_route-InRange s.num_interfaces r s.routing_table can v.routes;
  pendings = v.pendings;
  routes_cached = tt;
  pendings_cached = tt;
  phase_holds = tt;
}

-- What the cache justifies can be committed, since the cache covers the table.
Justified-CanCommit :
    (u : Update) (s : Router) → Justified s u → CoversPendings s × CoversRoutes s → CanCommit u s
Justified-CanCommit (push_pending r) s j covers = (covers.0 r.c_id r.h_id j.0, j.1)
Justified-CanCommit (renew_pending c h) s j covers = tt
Justified-CanCommit scan_pending s j covers = tt
Justified-CanCommit (push_route r) s j covers = (covers.1 r.c_id j.0, j.1)
Justified-CanCommit (renew_route r) s j covers = j

Decided-CanCommit :
    (u : Update) (s t : Router)
    → t.num_interfaces ≡ s.num_interfaces
    → t.routing_table ≡ s.routing_table
    → t.pending_table ≡ s.pending_table
    → CanCommit u s
    → CanCommit u t
Decided-CanCommit (push_pending r) s t n rt pt can = rw (n, pt) can
Decided-CanCommit (renew_pending c h) s t n rt pt can = tt
Decided-CanCommit scan_pending s t n rt pt can = tt
Decided-CanCommit (push_route r) s t n rt pt can = rw (n, rt) can
Decided-CanCommit (renew_route r) s t n rt pt can = rw n can

pub Decided-Inv : (s t : Router) → Inv s → CoversPendings s × CoversRoutes s → Decided s t → Inv t
Decided-Inv s t v covers d = record {
  threads = d.threads ∙ v.threads ∙ sym d.interfaces;
  queued = rw (d.queued, d.interfaces) v.queued;
  routes_unique = rw d.routes v.routes_unique;
  pendings_unique = rw d.pendings v.pendings_unique;
  routes = rw (d.interfaces, d.routes) v.routes;
  pendings = rw (d.interfaces, d.pendings) v.pendings;
  routes_cached = rw (d.interfaces, d.routes_cached) v.routes_cached;
  pendings_cached = rw (d.interfaces, d.pendings_cached) v.pendings_cached;
  phase_holds =
      subst (λ ph. PhaseHolds ph t) (sym d.at_lock)
        (Decided-CanCommit d.update s t d.interfaces d.routes d.pendings
          (Justified-CanCommit d.update s d.justified covers));
}
