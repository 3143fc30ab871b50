-- ===== src/Earlier/Acts.antt =====
-- One act of a receiving thread of simple_router.cpp: the bounds that it keeps.
use communication_network.Base.{
  ok-injective, ℕ, ◌<◌, ◌≡◌, refl, sym, subst, ◌∙◌, List, [], ◌∷◌, Bool, true, false, inl, inr, ok,
  if◌then◌else◌, arith, All-append, >>=-ok,
}
use communication_network.Wire.Packet.{receive_packet}
use communication_network.Earlier.Tables.{
  RtRecord, PrtRecord, renew_pending, erase_pending, renew_route,
}
use communication_network.Earlier.State.{
  Change, add_pending, keep_pending, drop_pending, add_route, keep_route, no_change, Stage, waiting,
  taken, has_pendings, has_routes, changing, RxThread, Shared,
}
use communication_network.Earlier.Handlers.{
  take_packet, copy_pendings, copy_routes, handle_packet, make_change, end_round,
}
use communication_network.Earlier.Steps.{
  Act, takes, copies_pendings, copies_routes, handles, changes,
}
use communication_network.Earlier.Sends.{RoutesWithin, PendingsWithin, ChangeWithin}
use communication_network.Earlier.Decisions.{handle_packet-Handles}

renew_pending-within :
    (n c h : ℕ) (table : List PrtRecord)
    → PendingsWithin n table
    → PendingsWithin n (renew_pending c h table)
unfolding renew_pending
renew_pending-within n c h [] a = tt
renew_pending-within n c h (r ∷ rs) a = ground (arith, a, renew_pending-within n c h rs a.1)

erase_pending-within :
    (n c h : ℕ) (table : List PrtRecord)
    → PendingsWithin n table
    → PendingsWithin n (erase_pending c h table)
unfolding erase_pending
erase_pending-within n c h [] a = tt
erase_pending-within n c h (r ∷ rs) a = ground (arith, a, erase_pending-within n c h rs a.1)

renew_route-within :
    (n c hops : ℕ) (table : List RtRecord)
    → RoutesWithin n table
    → RoutesWithin n (renew_route c hops table)
unfolding renew_route
renew_route-within n c hops [] a = tt
renew_route-within n c hops (r ∷ rs) a = ground (arith, a, renew_route-within n c hops rs a.1)

-- What holds of the shared state and of each thread, under every interleaving.
pub record SharedWithin (n : ℕ) (s : Shared) : Type 0 where
  pub interfaces : s.num_interfaces ≡ n
  pub routes : RoutesWithin n s.routing_table
  pub pendings : PendingsWithin n s.pending_table

abbrev pub StageWithin : ℕ → Stage → Type 0
StageWithin n waiting = Unit {0}
StageWithin n taken = Unit {0}
StageWithin n has_pendings = Unit {0}
StageWithin n has_routes = Unit {0}
StageWithin n (changing c) = ChangeWithin n c

pub record ThreadWithin (n : ℕ) (t : RxThread) : Type 0 where
  pub routes_copied : RoutesWithin n t.rt_local
  pub pendings_copied : PendingsWithin n t.prt_local
  pub stage_within : StageWithin n t.stage

make_change-Within :
    (n : ℕ) (c : Change) (s : Shared)
    → ChangeWithin n c
    → SharedWithin n s
    → SharedWithin n (make_change c s)
unfolding make_change
make_change-Within n (add_pending r) s w v = record {
  interfaces = v.interfaces;
  routes = v.routes;
  pendings =
      All-append (λ (x : PrtRecord). x.interface < n) s.pending_table (r ∷ []) v.pendings (w, tt);
}
make_change-Within n (keep_pending c h) s w v = record {
  interfaces = v.interfaces;
  routes = v.routes;
  pendings = renew_pending-within n c h s.pending_table v.pendings;
}
make_change-Within n (drop_pending c h) s w v = record {
  interfaces = v.interfaces;
  routes = v.routes;
  pendings = erase_pending-within n c h s.pending_table v.pendings;
}
make_change-Within n (add_route r) s w v = record {
  interfaces = v.interfaces;
  routes = All-append (λ (x : RtRecord). x.interface < n) s.routing_table (r ∷ []) v.routes (w, tt);
  pendings = v.pendings;
}
make_change-Within n (keep_route c hops) s w v = record {
  interfaces = v.interfaces;
  routes = renew_route-within n c hops s.routing_table v.routes;
  pendings = v.pendings;
}
make_change-Within n no_change s w v = v

pub record PairWithin (n : ℕ) (s : Shared) (t : RxThread) : Type 0 where
  pub shared_within : SharedWithin n s
  pub thread_within : ThreadWithin n t

taken_or_waiting : (n : ℕ) (b : Bool) → StageWithin n (if b then waiting else taken)
taken_or_waiting n true = tt
taken_or_waiting n false = tt

-- An act that handles a packet, by what handling can come to.
handles-Within :
    (i : ℕ) (unset : PrtRecord) (s : Shared) (t : RxThread) (r : Shared × RxThread)
    → i < s.num_interfaces
    → SharedWithin s.num_interfaces s
    → ThreadWithin s.num_interfaces t
    → handle_packet unset i t s ≡ ok r
    → PairWithin s.num_interfaces r.0 r.1
handles-Within i unset s t r own w x e =
    elim (handle_packet-Handles unset i t s own x.routes_copied x.pendings_copied) [
      | inl f ↦ absurd (cc)
      | inr (out, q, c, f, c_within) ↦
          subst (λ (z : Shared × RxThread). PairWithin s.num_interfaces z.0 z.1)
            (ok-injective (sym f ∙ e))
            (record {
              shared_within = record {
                interfaces = refl;
                routes = w.routes;
                pendings = w.pendings;
              };
              thread_within = record {
                routes_copied = x.routes_copied;
                pendings_copied = x.pendings_copied;
                stage_within = c_within;
              };
            })
    ]

pub Act-Within :
    {n i : ℕ} {s v : Shared} {t u : RxThread}
    → Act i s t v u
    → i < n
    → SharedWithin n s
    → ThreadWithin n t
    → PairWithin n v u
unfolding take_packet copy_pendings copy_routes end_round
Act-Within {n} {i} {s} {v} {t} {u} (takes new dropped datagram at e) own w x =
    let (port, got, made) = >>=-ok _ (receive_packet new datagram t.port) e in
    record {
      shared_within = w;
      thread_within = subst (ThreadWithin n) (ok-injective made) (record {
        routes_copied = x.routes_copied;
        pendings_copied = x.pendings_copied;
        stage_within = taken_or_waiting n dropped;
      });
    }
Act-Within {n} {i} {s} {v} {t} {u} (copies_pendings at) own w x = record {
  shared_within = w;
  thread_within = record {
    routes_copied = x.routes_copied;
    pendings_copied =
        All-append (λ (r : PrtRecord). r.interface < n) t.prt_local s.pending_table
          x.pendings_copied w.pendings;
    stage_within = tt;
  };
}
Act-Within {n} {i} {s} {v} {t} {u} (copies_routes at) own w x = record {
  shared_within = w;
  thread_within = record {
    routes_copied =
        All-append (λ (r : RtRecord). r.interface < n) t.rt_local s.routing_table x.routes_copied
          w.routes;
    pendings_copied = x.pendings_copied;
    stage_within = tt;
  };
}
Act-Within {n} {i} {s} {v} {t} {u} (handles unset at e) own w x =
    subst (λ (m : ℕ). PairWithin m v u) w.interfaces
      (handles-Within i unset s t (v, u) (omega (arith, w.interfaces))
        (subst (λ (m : ℕ). SharedWithin m s) (sym w.interfaces) w)
        (subst (λ (m : ℕ). ThreadWithin m t) (sym w.interfaces) x) e)
Act-Within {n} {i} {s} {v} {t} {u} (changes c at) own w x = record {
  shared_within = make_change-Within n c s (subst (StageWithin n) at x.stage_within) w;
  thread_within = record { routes_copied = tt; pendings_copied = tt; stage_within = tt };
}
