-- ===== src/Ambitious/RoutingLaws.antt =====
-- RoutingTable as a map from contents to hops and interfaces, and the route that it ends up with.
use communication_network.Base.{
  ℕ, ◌≡◌, refl, ℤ, pos, negsuc, List, [], ◌∷◌, ◌++◌, Option, none, some, Bool, true, false, ◌==◌,
  ltb, if◌then◌else◌, arith, Bool-cases, inl, inr,
}
use communication_network.Ambitious.Routing.{
  RoutingTableRecord, delete_route, reuse_existing_invalid_route, fresh_route,
  insert_into_routing_table, update_routing_table, get_interface_from_routing_table,
  note_announcement,
}

-- What a routing table promises: for a content the hops and the interface of its valid route.
abbrev pub Route : Type 0
Route = ℕ × ℕ

abbrev pub route_of : ℕ → List RoutingTableRecord → Option Route
route_of c [] = none
route_of c (r ∷ rs) =
    if r.content_id == c
    then (if r.is_valid then some (r.num_of_hops, r.port_interface) else none)
    else route_of c rs

abbrev pub has_route : ℕ → List RoutingTableRecord → Bool
has_route c [] = false
has_route c (r ∷ rs) = if r.content_id == c then true else has_route c rs

-- An announcement replaces a route that has more hops, and no other.
abbrev pub better : ℕ → ℕ → Option Route → Route
better hops i none = (hops, i)
better hops i (some r) = if ltb hops r.0 then (hops, i) else r

abbrev pub interface_of : Option Route → ℤ
interface_of none = negsuc 0
interface_of (some r) = pos r.1

reuse-found :
    (c hops i : ℕ) (table : List RoutingTableRecord)
    → (reuse_existing_invalid_route c hops i table).1 ≡ has_route c table
unfolding reuse_existing_invalid_route
reuse-found c hops i [] = refl
reuse-found c hops i (r ∷ rs) = ground (arith, reuse-found c hops i rs)

route_of-reuse :
    (c hops i d : ℕ) (table : List RoutingTableRecord)
    → has_route c table ≡ true
    → (update_routing_table c hops i table).1 ≡ false
    → route_of d (reuse_existing_invalid_route c hops i table).0
      ≡ (if c == d then some (hops, i) else route_of d table)
unfolding reuse_existing_invalid_route update_routing_table
route_of-reuse c hops i d [] e f = absurd (cc)
route_of-reuse c hops i d (r ∷ rs) e f = ground (arith, e, f, route_of-reuse c hops i d rs)

route_of-push :
    (c hops i d : ℕ) (table : List RoutingTableRecord)
    → has_route c table ≡ false
    → route_of d (table ++ fresh_route c hops i ∷ [])
      ≡ (if c == d then some (hops, i) else route_of d table)
route_of-push c hops i d [] e = ground arith
route_of-push c hops i d (r ∷ rs) e = ground (arith, e, route_of-push c hops i d rs)

update-same :
    (c hops i : ℕ) (table : List RoutingTableRecord)
    → (update_routing_table c hops i table).1 ≡ false
    → ((update_routing_table c hops i table).0 ≡ table) × (route_of c table ≡ none)
unfolding update_routing_table
update-same c hops i [] e = (refl, refl)
update-same c hops i (r ∷ rs) e = ground (arith, e, update-same c hops i rs)

route_of-update :
    (c hops i d : ℕ) (table : List RoutingTableRecord)
    → (update_routing_table c hops i table).1 ≡ true
    → route_of d (update_routing_table c hops i table).0
      ≡ (if c == d then some (better hops i (route_of c table)) else route_of d table)
unfolding update_routing_table
route_of-update c hops i d [] e = absurd (cc)
route_of-update c hops i d (r ∷ rs) e = ground (arith, e, route_of-update c hops i d rs)

-- HandleAnnouncementPacket on the map that the routing table stands for: the announced content has
-- the better of its route and the announced one, the older one if they have equally many hops; every
-- other content has the route it had.
pub route_of-note_announcement :
    (c hops i d : ℕ) (table : List RoutingTableRecord)
    → route_of d (note_announcement c hops i table)
      ≡ (if c == d then some (better hops i (route_of c table)) else route_of d table)
unfolding note_announcement insert_into_routing_table
route_of-note_announcement c hops i d table =
    elim (Bool-cases (update_routing_table c hops i table).1) [
      | inl updated ↦ rw updated (route_of-update c hops i d table updated)
      | inr not_there ↦
          let (same, empty) = update-same c hops i table not_there in
          rw (not_there, same, empty)
            (elim (Bool-cases (has_route c table)) [
              | inl has ↦
                  rw (reuse-found c hops i table, has)
                    (route_of-reuse c hops i d table has not_there)
              | inr missing ↦
                  rw (reuse-found c hops i table, missing) (route_of-push c hops i d table missing)
            ])
    ]

-- The interface that a request takes is the one of the route.
pub get_interface-route_of :
    (c : ℕ) (table : List RoutingTableRecord)
    → get_interface_from_routing_table c table ≡ interface_of (route_of c table)
unfolding get_interface_from_routing_table
get_interface-route_of c [] = refl
get_interface-route_of c (r ∷ rs) = ground (arith, get_interface-route_of c rs)

route_of-delete_route :
    (c d : ℕ) (table : List RoutingTableRecord)
    → route_of d (delete_route c table) ≡ (if c == d then none else route_of d table)
unfolding delete_route
route_of-delete_route c d [] = ground arith
route_of-delete_route c d (r ∷ rs) = ground (arith, route_of-delete_route c d rs)
