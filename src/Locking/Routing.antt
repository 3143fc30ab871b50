-- ===== src/Locking/Routing.antt =====
-- RoutingTableRecord and RoutingTable of Ambitious Version/Router1.h. Other than in Router.h the
-- records of routes have timer threads; `timers` counts those that run for a record.
use communication_network.Base.{
  ℕ, zero, suc, ◌+◌, ◌-◌, ℤ, pos, negsuc, List, [], ◌∷◌, ◌++◌, Bool, true, false, ◌&&◌, ◌==◌, ltb,
  if◌then◌else◌,
}

pub record RoutingTableRecord : Type 0 where
  pub content_id : ℕ
  pub port_interface : ℕ
  pub num_of_hops : ℕ
  pub is_valid : Bool
  pub timers : ℕ

abbrev pub start_route_timer : RoutingTableRecord → RoutingTableRecord
start_route_timer r = record r { timers = r.timers + 1 }

abbrev pub stop_route_timer : RoutingTableRecord → RoutingTableRecord
stop_route_timer r = record r { timers = r.timers - 1 }

-- What a timer thread does after its sleep, and that it ends.
abbrev pub route_timer_proc : RoutingTableRecord → RoutingTableRecord
route_timer_proc r = record r { is_valid = false; timers = r.timers - 1 }

-- DeleteRecord, which goes on after a match.
unfoldable pub delete_route : ℕ → List RoutingTableRecord → List RoutingTableRecord
delete_route content_id [] = []
delete_route content_id (r ∷ rs) =
    (if r.content_id == content_id then record (stop_route_timer r) { is_valid = false } else r)
    ∷ delete_route content_id rs

-- ReUseExistingInvalidRecord: the table, and whether it had a record. It does not ask for validity.
unfoldable pub reuse_existing_invalid_route :
    ℕ → ℕ → ℕ → List RoutingTableRecord → List RoutingTableRecord × Bool
reuse_existing_invalid_route content_id hops rx_interface [] = ([], false)
reuse_existing_invalid_route content_id hops rx_interface (r ∷ rs) =
    let rest = reuse_existing_invalid_route content_id hops rx_interface rs in
    if r.content_id == content_id
    then (
      start_route_timer
            (record r { num_of_hops = hops; port_interface = rx_interface; is_valid = true })
          ∷ rs,
      true,
    )
    else (r ∷ rest.0, rest.1)

abbrev pub fresh_route : ℕ → ℕ → ℕ → RoutingTableRecord
fresh_route content_id hops rx_interface = record {
  content_id = content_id;
  port_interface = rx_interface;
  num_of_hops = hops;
  is_valid = true;
  timers = 0;
}

-- InsertIntoRoutingTable. The timer starts on the copy in the table.
unfoldable pub insert_into_routing_table :
    ℕ → ℕ → ℕ → List RoutingTableRecord → List RoutingTableRecord
insert_into_routing_table content_id hops rx_interface table =
    let reused = reuse_existing_invalid_route content_id hops rx_interface table in
    if reused.1
    then reused.0
    else table ++ start_route_timer (fresh_route content_id hops rx_interface) ∷ []

-- UpdateRoutingTable: the table, and whether it had a valid record. It ends at the first match.
unfoldable pub update_routing_table :
    ℕ → ℕ → ℕ → List RoutingTableRecord → List RoutingTableRecord × Bool
update_routing_table content_id hops rx_interface [] = ([], false)
update_routing_table content_id hops rx_interface (r ∷ rs) =
    let rest = update_routing_table content_id hops rx_interface rs in
    if r.content_id == content_id
    then (if r.is_valid
        then (
          (if ltb hops r.num_of_hops
                then start_route_timer (
                    stop_route_timer
                      (record r { num_of_hops = hops; port_interface = rx_interface }))
                else r)
              ∷ rs,
          true,
        )
        else (r ∷ rs, false))
    else (r ∷ rest.0, rest.1)

-- GetInterfaceFromRoutingTable, which passes over an invalid match.
unfoldable pub get_interface_from_routing_table : ℕ → List RoutingTableRecord → ℤ
get_interface_from_routing_table content_id [] = negsuc 0
get_interface_from_routing_table content_id (r ∷ rs) =
    if (r.content_id == content_id) && r.is_valid
    then pos r.port_interface
    else get_interface_from_routing_table content_id rs

-- HandleAnnouncementPacket of Router.cpp on this table.
unfoldable pub note_announcement : ℕ → ℕ → ℕ → List RoutingTableRecord → List RoutingTableRecord
unfolding update_routing_table insert_into_routing_table
note_announcement content_id hops rx_interface table =
    let updated = update_routing_table content_id hops rx_interface table in
    if updated.1
    then updated.0
    else insert_into_routing_table content_id hops rx_interface updated.0

-- The timer thread of the route at a position ends its sleep, if one runs.
unfoldable pub expire_route : ℕ → List RoutingTableRecord → List RoutingTableRecord
expire_route index [] = []
expire_route zero (r ∷ rs) = if r.timers == 0 then r ∷ rs else route_timer_proc r ∷ rs
expire_route (suc index) (r ∷ rs) = r ∷ expire_route index rs
