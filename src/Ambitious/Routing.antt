-- ===== src/Ambitious/Routing.antt =====
-- RoutingTableRecord and RoutingTable of Ambitious Version/Router.h. startTimer of a routing record is
-- empty, so no record expires; stopTimer cancels a thread that was never created, which is taken to
-- change nothing here.
use communication_network.Base.{
  ℕ, ℤ, pos, negsuc, List, [], ◌∷◌, ◌++◌, Bool, true, false, ◌==◌, ltb, if◌then◌else◌,
}

pub record RoutingTableRecord : Type 0 where
  pub content_id : ℕ
  pub port_interface : ℕ
  pub num_of_hops : ℕ
  pub is_valid : Bool

-- DeleteRecord.
unfoldable pub delete_route : ℕ → List RoutingTableRecord → List RoutingTableRecord
delete_route content_id [] = []
delete_route content_id (r ∷ rs) =
    if r.content_id == content_id
    then record r { is_valid = false } ∷ rs
    else r ∷ delete_route content_id rs

-- ReUseExistingInvalidRecord: the table, and whether it had a record, valid or not.
unfoldable pub reuse_existing_invalid_route :
    ℕ → ℕ → ℕ → List RoutingTableRecord → List RoutingTableRecord × Bool
reuse_existing_invalid_route content_id hops rx_interface [] = ([], false)
reuse_existing_invalid_route content_id hops rx_interface (r ∷ rs) =
    let rest = reuse_existing_invalid_route content_id hops rx_interface rs in
    if r.content_id == content_id
    then (
      (if r.is_valid
            then r
            else record r { num_of_hops = hops; port_interface = rx_interface; is_valid = true })
          ∷ rs,
      true,
    )
    else (r ∷ rest.0, rest.1)

abbrev pub fresh_route : ℕ → ℕ → ℕ → RoutingTableRecord
fresh_route content_id hops rx_interface = record {
  content_id = content_id;
  port_interface = rx_interface;
  num_of_hops = hops;
  is_valid = true;
}

-- InsertIntoRoutingTable.
unfoldable pub insert_into_routing_table :
    ℕ → ℕ → ℕ → List RoutingTableRecord → List RoutingTableRecord
insert_into_routing_table content_id hops rx_interface table =
    let reused = reuse_existing_invalid_route content_id hops rx_interface table in
    if reused.1 then reused.0 else table ++ fresh_route content_id hops rx_interface ∷ []

-- UpdateRoutingTable: the table, and whether it had a valid record.
unfoldable pub update_routing_table :
    ℕ → ℕ → ℕ → List RoutingTableRecord → List RoutingTableRecord × Bool
update_routing_table content_id hops rx_interface [] = ([], false)
update_routing_table content_id hops rx_interface (r ∷ rs) =
    let rest = update_routing_table content_id hops rx_interface rs in
    if r.content_id == content_id
    then (if r.is_valid
        then (
          (if ltb hops r.num_of_hops
                then record r { num_of_hops = hops; port_interface = rx_interface }
                else r)
              ∷ rs,
          true,
        )
        else (r ∷ rs, false))
    else (r ∷ rest.0, rest.1)

-- GetInterfaceFromRoutingTable.
unfoldable pub get_interface_from_routing_table : ℕ → List RoutingTableRecord → ℤ
get_interface_from_routing_table content_id [] = negsuc 0
get_interface_from_routing_table content_id (r ∷ rs) =
    if r.content_id == content_id
    then (if r.is_valid then pos r.port_interface else negsuc 0)
    else get_interface_from_routing_table content_id rs

-- HandleAnnouncementPacket, the routing table's part.
unfoldable pub note_announcement : ℕ → ℕ → ℕ → List RoutingTableRecord → List RoutingTableRecord
unfolding update_routing_table insert_into_routing_table
note_announcement content_id hops rx_interface table =
    let updated = update_routing_table content_id hops rx_interface table in
    if updated.1
    then updated.0
    else insert_into_routing_table content_id hops rx_interface updated.0
