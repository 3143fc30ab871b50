-- ===== src/Locking/Lifetimes.antt =====
-- The timers of the routes of Ambitious Version/Router1.h, and its table beside that of Router.h.
use communication_network.Base.{
  ℕ, zero, suc, ◌≡◌, refl, List, [], ◌∷◌, ◌++◌, Bool, true, false, ◌==◌, if◌then◌else◌, arith, All,
  All-append, Bool-cases, inl, inr,
}
use communication_network.Ambitious.Routing as Plain
use communication_network.Locking.Routing.{
  RoutingTableRecord, start_route_timer, delete_route, reuse_existing_invalid_route, fresh_route,
  insert_into_routing_table, update_routing_table, note_announcement, expire_route,
}

-- A route without its mutex and its timer thread.
abbrev pub plain : RoutingTableRecord → Plain.RoutingTableRecord
plain r = record {
  content_id = r.content_id;
  port_interface = r.port_interface;
  num_of_hops = r.num_of_hops;
  is_valid = r.is_valid;
}

abbrev pub plain_all : List RoutingTableRecord → List Plain.RoutingTableRecord
plain_all [] = []
plain_all (r ∷ rs) = plain r ∷ plain_all rs

abbrev pub has_route : ℕ → List RoutingTableRecord → Bool
has_route c [] = false
has_route c (r ∷ rs) = if r.content_id == c then true else has_route c rs

-- No two routes are for one content.
abbrev pub UniqueRoutes : List RoutingTableRecord → Type 0
UniqueRoutes [] = Unit
UniqueRoutes (r ∷ rs) = (has_route r.content_id rs ≡ false) × UniqueRoutes rs

-- A timer thread runs for a valid route, one, and none for an invalid one.
abbrev pub HasTimer : RoutingTableRecord → Type 0
HasTimer r = r.timers ≡ (if r.is_valid then 1 else 0)

-- What every history keeps.
abbrev pub WellTimed : List RoutingTableRecord → Type 0
WellTimed table = UniqueRoutes table × All HasTimer table

reuse-found :
    (c hops i : ℕ) (table : List RoutingTableRecord)
    → (reuse_existing_invalid_route c hops i table).1 ≡ has_route c table
unfolding reuse_existing_invalid_route
reuse-found c hops i [] = refl
reuse-found c hops i (r ∷ rs) = ground (arith, reuse-found c hops i rs)

reuse-has_route :
    (c hops i d : ℕ) (table : List RoutingTableRecord)
    → has_route d (reuse_existing_invalid_route c hops i table).0 ≡ has_route d table
unfolding reuse_existing_invalid_route
reuse-has_route c hops i d [] = refl
reuse-has_route c hops i d (r ∷ rs) = ground (arith, reuse-has_route c hops i d rs)

update-has_route :
    (c hops i d : ℕ) (table : List RoutingTableRecord)
    → has_route d (update_routing_table c hops i table).0 ≡ has_route d table
unfolding update_routing_table
update-has_route c hops i d [] = refl
update-has_route c hops i d (r ∷ rs) = ground (arith, update-has_route c hops i d rs)

append-has_route :
    (c hops i d : ℕ) (table : List RoutingTableRecord)
    → has_route d (table ++ start_route_timer (fresh_route c hops i) ∷ [])
      ≡ (if c == d then true else has_route d table)
append-has_route c hops i d [] = ground arith
append-has_route c hops i d (r ∷ rs) = ground (arith, append-has_route c hops i d rs)

pub update-same :
    (c hops i : ℕ) (table : List RoutingTableRecord)
    → (update_routing_table c hops i table).1 ≡ false
    → (update_routing_table c hops i table).0 ≡ table
unfolding update_routing_table
update-same c hops i [] e = refl
update-same c hops i (r ∷ rs) e = ground (arith, e, update-same c hops i rs)

update-WellTimed :
    (c hops i : ℕ) (table : List RoutingTableRecord)
    → WellTimed table
    → WellTimed (update_routing_table c hops i table).0
unfolding update_routing_table
update-WellTimed c hops i [] w = w
update-WellTimed c hops i (r ∷ rs) w = ground (
  arith,
  w,
  update-WellTimed c hops i rs (w.0.1, w.1.1),
  update-has_route c hops i r.content_id rs,
)

-- An update that finds no valid route leaves an invalid one or none, so no second timer starts.
reuse-WellTimed :
    (c hops i : ℕ) (table : List RoutingTableRecord)
    → WellTimed table
    → (update_routing_table c hops i table).1 ≡ false
    → WellTimed (reuse_existing_invalid_route c hops i table).0
unfolding update_routing_table reuse_existing_invalid_route
reuse-WellTimed c hops i [] w e = w
reuse-WellTimed c hops i (r ∷ rs) w e = ground (
  arith,
  w,
  e,
  reuse-WellTimed c hops i rs (w.0.1, w.1.1),
  reuse-has_route c hops i r.content_id rs,
)

push-UniqueRoutes :
    (c hops i : ℕ) (table : List RoutingTableRecord)
    → UniqueRoutes table
    → has_route c table ≡ false
    → UniqueRoutes (table ++ start_route_timer (fresh_route c hops i) ∷ [])
push-UniqueRoutes c hops i [] u e = (refl, tt)
push-UniqueRoutes c hops i (r ∷ rs) u e =
    ground
      (arith, u, e, push-UniqueRoutes c hops i rs u.1, append-has_route c hops i r.content_id rs)

pub note-WellTimed :
    (c hops i : ℕ) (table : List RoutingTableRecord)
    → WellTimed table
    → WellTimed (note_announcement c hops i table)
unfolding note_announcement insert_into_routing_table
note-WellTimed c hops i table w = elim (Bool-cases (update_routing_table c hops i table).1) [
  | inl updated ↦ rw updated (update-WellTimed c hops i table w)
  | inr not_there ↦
      rw (not_there, update-same c hops i table not_there)
        (elim (Bool-cases (has_route c table)) [
          | inl has ↦
              rw (reuse-found c hops i table, has) (reuse-WellTimed c hops i table w not_there)
          | inr missing ↦
              rw (reuse-found c hops i table, missing)
                (
                  push-UniqueRoutes c hops i table w.0 missing,
                  All-append HasTimer table (start_route_timer (fresh_route c hops i) ∷ []) w.1
                      (refl, tt),
                )
        ])
]

delete-has_route :
    (c d : ℕ) (table : List RoutingTableRecord)
    → has_route d (delete_route c table) ≡ has_route d table
unfolding delete_route
delete-has_route c d [] = refl
delete-has_route c d (r ∷ rs) = ground (arith, delete-has_route c d rs)

pub delete-WellTimed :
    (c : ℕ) (table : List RoutingTableRecord) → WellTimed table → WellTimed (delete_route c table)
unfolding delete_route
delete-WellTimed c [] w = w
delete-WellTimed c (r ∷ rs) w =
    ground (arith, w, delete-WellTimed c rs (w.0.1, w.1.1), delete-has_route c r.content_id rs)

expire-has_route :
    (k d : ℕ) (table : List RoutingTableRecord)
    → has_route d (expire_route k table) ≡ has_route d table
unfolding expire_route
expire-has_route k d [] = refl
expire-has_route zero d (r ∷ rs) = ground arith
expire-has_route (suc k) d (r ∷ rs) = ground (arith, expire-has_route k d rs)

pub expire-WellTimed :
    (k : ℕ) (table : List RoutingTableRecord) → WellTimed table → WellTimed (expire_route k table)
unfolding expire_route
expire-WellTimed k [] w = w
expire-WellTimed zero (r ∷ rs) w = ground (arith, w)
expire-WellTimed (suc k) (r ∷ rs) w =
    ground (arith, w, expire-WellTimed k rs (w.0.1, w.1.1), expire-has_route k r.content_id rs)
