-- ===== src/Locking/Alike.antt =====
-- The pending table of Ambitious Version/Router1.h beside that of Router.h.
use communication_network.Base.{
  ℕ, zero, suc, ◌≡◌, refl, ap, sym, subst, negsuc, List, [], ◌∷◌, ◌++◌, false, arith, Bool-cases,
  inl, inr,
}
use communication_network.Ambitious.Pending as Plain
use communication_network.Ambitious.PendingLaws.{has_record}
use communication_network.Ambitious.Unique.{
  UniqueRecords, note-Unique, delete-Unique, expire-Unique,
}
use communication_network.Ambitious.Timers.{Event, requested, responded, expired}
use communication_network.Ambitious.Timers as History
use communication_network.Locking.Pending.{
  start_timer, new_record, PendingTableRecord, delete_record, reuse_existing_invalid_record,
  insert_into_pending_table, update_pending_table_record, get_interface_from_pending_table,
  note_request, expire_record,
}

-- A record without its mutex.
abbrev pub plain : PendingTableRecord → Plain.PendingTableRecord
plain r = record {
  requested_content_id = r.requested_content_id;
  content_requesting_host_id = r.content_requesting_host_id;
  port_interface = r.port_interface;
  is_valid = r.is_valid;
  timers = r.timers;
}

abbrev pub plain_all : List PendingTableRecord → List Plain.PendingTableRecord
plain_all [] = []
plain_all (r ∷ rs) = plain r ∷ plain_all rs

delete-missing :
    (c h : ℕ) (table : List PendingTableRecord)
    → has_record c h (plain_all table) ≡ false
    → plain_all (delete_record c h table) ≡ plain_all table
unfolding delete_record
delete-missing c h [] e = refl
delete-missing c h (r ∷ rs) e = ground (arith, e, delete-missing c h rs)

pub delete-plain :
    (c h : ℕ) (table : List PendingTableRecord)
    → UniqueRecords (plain_all table)
    → plain_all (delete_record c h table) ≡ Plain.delete_record c h (plain_all table)
unfolding delete_record Plain.delete_record
delete-plain c h [] u = refl
delete-plain c h (r ∷ rs) u = ground (arith, u, delete-plain c h rs u.1, delete-missing c h rs)

reuse-plain :
    (c h i : ℕ) (table : List PendingTableRecord)
    → (plain_all (reuse_existing_invalid_record c h i table).0
        ≡ (Plain.reuse_existing_invalid_record c h i (plain_all table)).0)
      × ((reuse_existing_invalid_record c h i table).1
          ≡ (Plain.reuse_existing_invalid_record c h i (plain_all table)).1)
unfolding reuse_existing_invalid_record Plain.reuse_existing_invalid_record
reuse-plain c h i [] = (refl, refl)
reuse-plain c h i (r ∷ rs) = ground (arith, reuse-plain c h i rs)

update-missing :
    (c h i : ℕ) (table : List PendingTableRecord)
    → has_record c h (plain_all table) ≡ false
    → ((update_pending_table_record c h i table).0 ≡ table)
      × ((update_pending_table_record c h i table).1 ≡ false)
unfolding update_pending_table_record
update-missing c h i [] e = (refl, refl)
update-missing c h i (r ∷ rs) e = ground (arith, e, update-missing c h i rs)

update-plain :
    (c h i : ℕ) (table : List PendingTableRecord)
    → UniqueRecords (plain_all table)
    → (plain_all (update_pending_table_record c h i table).0
        ≡ (Plain.update_pending_table_record c h i (plain_all table)).0)
      × ((update_pending_table_record c h i table).1
          ≡ (Plain.update_pending_table_record c h i (plain_all table)).1)
unfolding update_pending_table_record Plain.update_pending_table_record
update-plain c h i [] u = (refl, refl)
update-plain c h i (r ∷ rs) u =
    ground (arith, u, update-plain c h i rs u.1, update-missing c h i rs)

append-plain :
    (table rear : List PendingTableRecord)
    → plain_all (table ++ rear) ≡ plain_all table ++ plain_all rear
append-plain [] rear = refl
append-plain (r ∷ rs) rear = ap (◌∷◌ (plain r)) (append-plain rs rear)

insert-plain :
    (c h i : ℕ) (table : List PendingTableRecord)
    → plain_all (insert_into_pending_table c h i table)
      ≡ Plain.insert_into_pending_table c h i (plain_all table)
unfolding insert_into_pending_table Plain.insert_into_pending_table
insert-plain c h i table =
    ground
      (arith, reuse-plain c h i table, append-plain table (start_timer (new_record c h i) ∷ []))

-- An update that finds no valid record leaves the table as it was.
update-same :
    (c h i : ℕ) (table : List PendingTableRecord)
    → (update_pending_table_record c h i table).1 ≡ false
    → (update_pending_table_record c h i table).0 ≡ table
unfolding update_pending_table_record
update-same c h i [] e = refl
update-same c h i (r ∷ rs) e = ground (arith, e, update-same c h i rs)

pub note-plain :
    (c h i : ℕ) (table : List PendingTableRecord)
    → UniqueRecords (plain_all table)
    → plain_all (note_request c h i table) ≡ Plain.note_request c h i (plain_all table)
unfolding note_request Plain.note_request
note-plain c h i table u = elim (Bool-cases (update_pending_table_record c h i table).1) [
  | inl updated ↦ ground (arith, updated, update-plain c h i table u)
  | inr not_there ↦ ground (
    arith,
    not_there,
    update-plain c h i table u,
    insert-plain c h i (update_pending_table_record c h i table).0,
  )
]

expire-plain :
    (k : ℕ) (table : List PendingTableRecord)
    → plain_all (expire_record k table) ≡ Plain.expire_record k (plain_all table)
unfolding expire_record Plain.expire_record
expire-plain k [] = refl
expire-plain zero (r ∷ rs) = ground arith
expire-plain (suc k) (r ∷ rs) = ap (◌∷◌ (plain r)) (expire-plain k rs)

get-missing :
    (c h : ℕ) (table : List PendingTableRecord)
    → has_record c h (plain_all table) ≡ false
    → get_interface_from_pending_table c h table ≡ negsuc 0
unfolding get_interface_from_pending_table
get-missing c h [] e = refl
get-missing c h (r ∷ rs) e = ground (arith, e, get-missing c h rs)

pub get-plain :
    (c h : ℕ) (table : List PendingTableRecord)
    → UniqueRecords (plain_all table)
    → get_interface_from_pending_table c h table
      ≡ Plain.get_interface_from_pending_table c h (plain_all table)
unfolding get_interface_from_pending_table Plain.get_interface_from_pending_table
get-plain c h [] u = refl
get-plain c h (r ∷ rs) u = ground (arith, u, get-plain c h rs u.1, get-missing c h rs)

unfoldable pub after : List Event → List PendingTableRecord → List PendingTableRecord
after [] table = table
after (requested c h i ∷ es) table = after es (note_request c h i table)
after (responded c h ∷ es) table = after es (delete_record c h table)
after (expired k ∷ es) table = after es (expire_record k table)

after-plain_from :
    (es : List Event) (table : List PendingTableRecord)
    → UniqueRecords (plain_all table)
    → (plain_all (after es table) ≡ History.after es (plain_all table))
      × UniqueRecords (plain_all (after es table))
unfolding after History.after
after-plain_from [] table u = (refl, u)
after-plain_from (requested c h i ∷ es) table u =
    let e = note-plain c h i table u in
    rw (← e) (
      after-plain_from es (note_request c h i table)
        (subst UniqueRecords (sym e) (note-Unique c h i (plain_all table) u)))
after-plain_from (responded c h ∷ es) table u =
    let e = delete-plain c h table u in
    rw (← e) (
      after-plain_from es (delete_record c h table)
        (subst UniqueRecords (sym e) (delete-Unique c h (plain_all table) u)))
after-plain_from (expired k ∷ es) table u =
    let e = expire-plain k table in
    rw (← e) (
      after-plain_from es (expire_record k table)
        (subst UniqueRecords (sym e) (expire-Unique k (plain_all table) u)))

-- After any history of requests, responses and expired timers from an empty table, the pending table
-- with a mutex in each record and the one without have the same records, timers included, in the
-- same order, and give the same interface for every content and host: that the one goes on after a
-- match where the other stops makes no difference.
pub after-equals_plain :
    (es : List Event) (c h : ℕ)
    → (plain_all (after es []) ≡ History.after es [])
      × (get_interface_from_pending_table c h (after es [])
          ≡ Plain.get_interface_from_pending_table c h (History.after es []))
after-equals_plain es c h =
    let same = after-plain_from es [] tt in
    (same.0, rw (← same.0) (get-plain c h (after es []) same.1))
