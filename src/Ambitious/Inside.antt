-- ===== src/Ambitious/Inside.antt =====
-- The interfaces that the records of the tables of Ambitious Version/Router.h name.
use communication_network.Base.{
  ℕ, zero, suc, ◌<◌, refl, List, [], ◌∷◌, inl, inr, arith, Bool-cases, All, All-append,
}
use communication_network.Ambitious.Pending.{
  PendingTableRecord, note_request, delete_record, get_interface_from_pending_table, expire_record,
  update_pending_table_record, insert_into_pending_table, reuse_existing_invalid_record, new_record,
}
use communication_network.Ambitious.Routing.{
  RoutingTableRecord, note_announcement, get_interface_from_routing_table, update_routing_table,
  insert_into_routing_table, reuse_existing_invalid_route, fresh_route,
}
use communication_network.Ambitious.Answers.{IsInterface}

abbrev pub PendingInside : ℕ → PendingTableRecord → Type 0
PendingInside n r = r.port_interface < n

abbrev pub RouteInside : ℕ → RoutingTableRecord → Type 0
RouteInside n r = r.port_interface < n

module _ (n : ℕ) where
  reuse-Inside :
      (c h i : ℕ) (table : List PendingTableRecord)
      → i < n
      → All (PendingInside n) table
      → All (PendingInside n) (reuse_existing_invalid_record c h i table).0
  unfolding reuse_existing_invalid_record
  reuse-Inside c h i [] inside a = tt
  reuse-Inside c h i (r ∷ rs) inside a = ground (arith, reuse-Inside c h i rs inside a.1)

  update-Inside :
      (c h i : ℕ) (table : List PendingTableRecord)
      → i < n
      → All (PendingInside n) table
      → All (PendingInside n) (update_pending_table_record c h i table).0
  unfolding update_pending_table_record
  update-Inside c h i [] inside a = tt
  update-Inside c h i (r ∷ rs) inside a = ground (arith, update-Inside c h i rs inside a.1)

  insert-Inside :
      (c h i : ℕ) (table : List PendingTableRecord)
      → i < n
      → All (PendingInside n) table
      → All (PendingInside n) (insert_into_pending_table c h i table)
  unfolding insert_into_pending_table
  insert-Inside c h i table inside a =
      elim (Bool-cases (reuse_existing_invalid_record c h i table).1) [
        | inl reused ↦ rw reused (reuse-Inside c h i table inside a)
        | inr fresh ↦
            rw fresh (All-append (PendingInside n) table (new_record c h i ∷ []) a (inside, tt))
      ]

  pub note_request-Inside :
      (c h i : ℕ) (table : List PendingTableRecord)
      → i < n
      → All (PendingInside n) table
      → All (PendingInside n) (note_request c h i table)
  unfolding note_request
  note_request-Inside c h i table inside a =
      elim (Bool-cases (update_pending_table_record c h i table).1) [
        | inl updated ↦ rw updated (update-Inside c h i table inside a)
        | inr stays ↦ rw stays (
            insert-Inside c h i (update_pending_table_record c h i table).0 inside
              (update-Inside c h i table inside a))
      ]

  pub delete-Inside :
      (c h : ℕ) (table : List PendingTableRecord)
      → All (PendingInside n) table
      → All (PendingInside n) (delete_record c h table)
  unfolding delete_record
  delete-Inside c h [] a = tt
  delete-Inside c h (r ∷ rs) a = ground (arith, delete-Inside c h rs a.1)

  pub expire-Inside :
      (k : ℕ) (table : List PendingTableRecord)
      → All (PendingInside n) table
      → All (PendingInside n) (expire_record k table)
  unfolding expire_record
  expire-Inside k [] a = tt
  expire-Inside zero (r ∷ rs) a = ground arith
  expire-Inside (suc k) (r ∷ rs) a = (a.0, expire-Inside k rs a.1)

  pub get_pending-Inside :
      (c h : ℕ) (table : List PendingTableRecord)
      → All (PendingInside n) table
      → IsInterface n (get_interface_from_pending_table c h table)
  unfolding get_interface_from_pending_table
  get_pending-Inside c h [] a = refl
  get_pending-Inside c h (r ∷ rs) a = ground (arith, get_pending-Inside c h rs a.1)

  reuse_route-Inside :
      (c hops i : ℕ) (table : List RoutingTableRecord)
      → i < n
      → All (RouteInside n) table
      → All (RouteInside n) (reuse_existing_invalid_route c hops i table).0
  unfolding reuse_existing_invalid_route
  reuse_route-Inside c hops i [] inside a = tt
  reuse_route-Inside c hops i (r ∷ rs) inside a =
      ground (arith, reuse_route-Inside c hops i rs inside a.1)

  update_route-Inside :
      (c hops i : ℕ) (table : List RoutingTableRecord)
      → i < n
      → All (RouteInside n) table
      → All (RouteInside n) (update_routing_table c hops i table).0
  unfolding update_routing_table
  update_route-Inside c hops i [] inside a = tt
  update_route-Inside c hops i (r ∷ rs) inside a =
      ground (arith, update_route-Inside c hops i rs inside a.1)

  pub note_announcement-Inside :
      (c hops i : ℕ) (table : List RoutingTableRecord)
      → i < n
      → All (RouteInside n) table
      → All (RouteInside n) (note_announcement c hops i table)
  unfolding note_announcement insert_into_routing_table
  note_announcement-Inside c hops i table inside a =
      let t = (update_routing_table c hops i table).0 in
      let b = update_route-Inside c hops i table inside a in
      elim (Bool-cases (update_routing_table c hops i table).1) [
        | inl updated ↦ rw updated b
        | inr stays ↦ rw stays (elim (Bool-cases (reuse_existing_invalid_route c hops i t).1) [
          | inl reused ↦ rw reused (reuse_route-Inside c hops i t inside b)
          | inr fresh ↦
              rw fresh (All-append (RouteInside n) t (fresh_route c hops i ∷ []) b (inside, tt))
        ])
      ]

  pub get_route-Inside :
      (c : ℕ) (table : List RoutingTableRecord)
      → All (RouteInside n) table
      → IsInterface n (get_interface_from_routing_table c table)
  unfolding get_interface_from_routing_table
  get_route-Inside c [] a = refl
  get_route-Inside c (r ∷ rs) a = ground (arith, get_route-Inside c rs a.1)
