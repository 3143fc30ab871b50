-- ===== src/Ambitious/Pending.antt =====
-- PendingTableRecord and PendingTable of Ambitious Version/Router.h. `timers` counts the timer
-- threads that run for a record: startTimer creates one, stopTimer cancels the one created last. A
-- thread keeps the record's address; it is taken to find its record.
use communication_network.Base.{
  ℕ, suc, zero, ◌+◌, ◌-◌, ℤ, pos, negsuc, List, [], ◌∷◌, ◌++◌, Bool, true, false, ◌&&◌, ◌==◌,
  if◌then◌else◌,
}

pub record PendingTableRecord : Type 0 where
  pub requested_content_id : ℕ
  pub content_requesting_host_id : ℕ
  pub port_interface : ℕ
  pub is_valid : Bool
  pub timers : ℕ

abbrev pub start_timer : PendingTableRecord → PendingTableRecord
start_timer r = record r { timers = r.timers + 1 }

abbrev pub stop_timer : PendingTableRecord → PendingTableRecord
stop_timer r = record r { timers = r.timers - 1 }

-- What a timer thread does after its sleep, and that it ends.
abbrev pub timer_proc : PendingTableRecord → PendingTableRecord
timer_proc r = record r { is_valid = false; timers = r.timers - 1 }

abbrev pub is_for : ℕ → ℕ → PendingTableRecord → Bool
is_for content_id host_id r =
    (r.requested_content_id == content_id) && (r.content_requesting_host_id == host_id)

-- DeleteRecord.
unfoldable pub delete_record : ℕ → ℕ → List PendingTableRecord → List PendingTableRecord
delete_record content_id host_id [] = []
delete_record content_id host_id (r ∷ rs) =
    if is_for content_id host_id r
    then record (stop_timer r) { is_valid = false } ∷ rs
    else r ∷ delete_record content_id host_id rs

-- ReUseExistingInvalidRecord: the table, and whether it had a record. It does not ask for validity.
unfoldable pub reuse_existing_invalid_record :
    ℕ → ℕ → ℕ → List PendingTableRecord → List PendingTableRecord × Bool
reuse_existing_invalid_record content_id host_id rx_interface [] = ([], false)
reuse_existing_invalid_record content_id host_id rx_interface (r ∷ rs) =
    let rest = reuse_existing_invalid_record content_id host_id rx_interface rs in
    if is_for content_id host_id r
    then (start_timer (record r { port_interface = rx_interface; is_valid = true }) ∷ rs, true)
    else (r ∷ rest.0, rest.1)

abbrev pub new_record : ℕ → ℕ → ℕ → PendingTableRecord
new_record content_id host_id rx_interface = record {
  requested_content_id = content_id;
  content_requesting_host_id = host_id;
  port_interface = rx_interface;
  is_valid = true;
  timers = 1;
}

-- InsertIntoPendingTable.
unfoldable pub insert_into_pending_table :
    ℕ → ℕ → ℕ → List PendingTableRecord → List PendingTableRecord
insert_into_pending_table content_id host_id rx_interface table =
    let reused = reuse_existing_invalid_record content_id host_id rx_interface table in
    if reused.1 then reused.0 else table ++ new_record content_id host_id rx_interface ∷ []

-- UpdatePendingTableRecord: the table, and whether it had a valid record.
unfoldable pub update_pending_table_record :
    ℕ → ℕ → ℕ → List PendingTableRecord → List PendingTableRecord × Bool
update_pending_table_record content_id host_id rx_interface [] = ([], false)
update_pending_table_record content_id host_id rx_interface (r ∷ rs) =
    let rest = update_pending_table_record content_id host_id rx_interface rs in
    if is_for content_id host_id r
    then (if r.is_valid
        then (start_timer (stop_timer (record r { port_interface = rx_interface })) ∷ rs, true)
        else (r ∷ rs, false))
    else (r ∷ rest.0, rest.1)

-- GetInterfaceFromPendingTable.
unfoldable pub get_interface_from_pending_table : ℕ → ℕ → List PendingTableRecord → ℤ
get_interface_from_pending_table content_id host_id [] = negsuc 0
get_interface_from_pending_table content_id host_id (r ∷ rs) =
    if is_for content_id host_id r
    then (if r.is_valid then pos r.port_interface else negsuc 0)
    else get_interface_from_pending_table content_id host_id rs

-- HandleRequestPackets, the pending table's part.
unfoldable pub note_request : ℕ → ℕ → ℕ → List PendingTableRecord → List PendingTableRecord
unfolding update_pending_table_record insert_into_pending_table
note_request content_id host_id rx_interface table =
    let updated = update_pending_table_record content_id host_id rx_interface table in
    if updated.1
    then updated.0
    else insert_into_pending_table content_id host_id rx_interface updated.0

-- The timer thread of the record at a position ends its sleep, if one runs.
unfoldable pub expire_record : ℕ → List PendingTableRecord → List PendingTableRecord
expire_record index [] = []
expire_record zero (r ∷ rs) = if r.timers == 0 then r ∷ rs else timer_proc r ∷ rs
expire_record (suc index) (r ∷ rs) = r ∷ expire_record index rs
