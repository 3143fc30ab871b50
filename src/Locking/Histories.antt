-- ===== src/Locking/Histories.antt =====
-- Histories of the routing table of Ambitious Version/Router1.h.
use communication_network.Base.{
  ℕ, ◌≡◌, refl, ap, pos, negsuc, List, [], ◌∷◌, ◌++◌, false, ◌==◌, if◌then◌else◌, arith, Bool-cases,
  inl, inr,
}
use communication_network.Ambitious.Routing as Plain
use communication_network.Ambitious.RoutingLaws.{
  route_of, better, route_of-note_announcement, get_interface-route_of,
}
use communication_network.Locking.Routing.{
  RoutingTableRecord, start_route_timer, delete_route, reuse_existing_invalid_route, fresh_route,
  insert_into_routing_table, update_routing_table, get_interface_from_routing_table,
  note_announcement, expire_route,
}
use communication_network.Locking.Lifetimes.{
  plain, plain_all, has_route, UniqueRoutes, WellTimed, update-same, note-WellTimed,
  delete-WellTimed, expire-WellTimed,
}

pub data RouteEvent : Type 0 where
  announced : ℕ → ℕ → ℕ → RouteEvent
  deleted : ℕ → RouteEvent
  timed_out : ℕ → RouteEvent

pub after : List RouteEvent → List RoutingTableRecord → List RoutingTableRecord
after [] table = table
after (announced c hops i ∷ es) table = after es (note_announcement c hops i table)
after (deleted c ∷ es) table = after es (delete_route c table)
after (timed_out k ∷ es) table = after es (expire_route k table)

after-WellTimed_from :
    (es : List RouteEvent) (table : List RoutingTableRecord)
    → WellTimed table
    → WellTimed (after es table)
unfolding after
after-WellTimed_from [] table w = w
after-WellTimed_from (announced c hops i ∷ es) table w =
    after-WellTimed_from es (note_announcement c hops i table) (note-WellTimed c hops i table w)
after-WellTimed_from (deleted c ∷ es) table w =
    after-WellTimed_from es (delete_route c table) (delete-WellTimed c table w)
after-WellTimed_from (timed_out k ∷ es) table w =
    after-WellTimed_from es (expire_route k table) (expire-WellTimed k table w)

-- After any history of announcements, deletions and expired timers, in any order, an initially empty
-- routing table with mutexes has one route at most for a content, one running timer for each valid
-- route, and none for an invalid one.
pub after-WellTimed : (es : List RouteEvent) → WellTimed (after es [])
after-WellTimed es = after-WellTimed_from es [] (tt, tt)

update-plain :
    (c hops i : ℕ) (table : List RoutingTableRecord)
    → (plain_all (update_routing_table c hops i table).0
        ≡ (Plain.update_routing_table c hops i (plain_all table)).0)
      × ((update_routing_table c hops i table).1
          ≡ (Plain.update_routing_table c hops i (plain_all table)).1)
unfolding update_routing_table Plain.update_routing_table
update-plain c hops i [] = (refl, refl)
update-plain c hops i (r ∷ rs) = ground (arith, update-plain c hops i rs)

-- Router.h leaves a valid match as it is; after an update that found none there is no such match.
reuse-plain :
    (c hops i : ℕ) (table : List RoutingTableRecord)
    → (update_routing_table c hops i table).1 ≡ false
    → (plain_all (reuse_existing_invalid_route c hops i table).0
        ≡ (Plain.reuse_existing_invalid_route c hops i (plain_all table)).0)
      × ((reuse_existing_invalid_route c hops i table).1
          ≡ (Plain.reuse_existing_invalid_route c hops i (plain_all table)).1)
unfolding update_routing_table reuse_existing_invalid_route Plain.reuse_existing_invalid_route
reuse-plain c hops i [] e = (refl, refl)
reuse-plain c hops i (r ∷ rs) e = ground (arith, e, reuse-plain c hops i rs)

append-plain :
    (table rear : List RoutingTableRecord)
    → plain_all (table ++ rear) ≡ plain_all table ++ plain_all rear
append-plain [] rear = refl
append-plain (r ∷ rs) rear = ap (◌∷◌ (plain r)) (append-plain rs rear)

note-plain :
    (c hops i : ℕ) (table : List RoutingTableRecord)
    → plain_all (note_announcement c hops i table)
      ≡ Plain.note_announcement c hops i (plain_all table)
unfolding note_announcement insert_into_routing_table Plain.note_announcement
    Plain.insert_into_routing_table
note-plain c hops i table = elim (Bool-cases (update_routing_table c hops i table).1) [
  | inl updated ↦ ground (arith, updated, update-plain c hops i table)
  | inr not_there ↦
      let same = update-same c hops i table not_there in
      let both = update-plain c hops i table in
      rw (not_there, same, ← both.1, ← both.0, not_there, same)
        (ground (
          arith,
          reuse-plain c hops i table not_there,
          append-plain table (start_route_timer (fresh_route c hops i) ∷ []),
        ))
]

get-missing :
    (c : ℕ) (table : List RoutingTableRecord)
    → has_route c table ≡ false
    → get_interface_from_routing_table c table ≡ negsuc 0
unfolding get_interface_from_routing_table
get-missing c [] e = refl
get-missing c (r ∷ rs) e = ground (arith, e, get-missing c rs)

get-plain :
    (c : ℕ) (table : List RoutingTableRecord)
    → UniqueRoutes table
    → get_interface_from_routing_table c table
      ≡ Plain.get_interface_from_routing_table c (plain_all table)
unfolding get_interface_from_routing_table Plain.get_interface_from_routing_table
get-plain c [] u = refl
get-plain c (r ∷ rs) u = ground (arith, u, get-plain c rs u.1, get-missing c rs)

-- In the table with mutexes that any history of announcements, deletions and expired timers leaves,
-- an announcement has the result that it has in the table of Router.h: the same records in the same
-- order, timers aside. So the interface for the announced content is that of the better of its route
-- and the announced one, and the interface for every other content is the one before.
pub announcement_refines :
    (es : List RouteEvent) (c hops i d : ℕ)
    → (plain_all (note_announcement c hops i (after es []))
        ≡ Plain.note_announcement c hops i (plain_all (after es [])))
      × (get_interface_from_routing_table d (note_announcement c hops i (after es [])) ≡ (
          if c == d
          then pos (better hops i (route_of c (plain_all (after es [])))).1
          else get_interface_from_routing_table d (after es [])))
announcement_refines es c hops i d =
    let table = after es [] in
    let w = after-WellTimed es in
    let next = note_announcement c hops i table in
    let same = note-plain c hops i table in
    (
      same,
      ground (
        arith,
        get-plain d next (note-WellTimed c hops i table w).0,
        get-plain d table w.0,
        ap (Plain.get_interface_from_routing_table d) same,
        get_interface-route_of d (Plain.note_announcement c hops i (plain_all table)),
        get_interface-route_of d (plain_all table),
        route_of-note_announcement c hops i d (plain_all table),
      ),
    )
