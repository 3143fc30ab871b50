-- ===== src/Ambitious/Timers.antt =====
-- The timers of the records of a PendingTable, and what holds after every history of it.
use communication_network.Base.{
  ℕ, zero, suc, ◌≡◌, refl, List, [], ◌∷◌, false, if◌then◌else◌, arith, All, All-append, Bool-cases,
  inl, inr,
}
use communication_network.Ambitious.Pending.{
  PendingTableRecord, delete_record, reuse_existing_invalid_record, new_record,
  insert_into_pending_table, update_pending_table_record, note_request, expire_record,
}
use communication_network.Ambitious.PendingLaws.{has_record, reuse-found}
use communication_network.Ambitious.Unique.{
  UniqueRecords, note-Unique, delete-Unique, expire-Unique, update-same,
}

-- A timer thread runs for a valid record, one, and none for an invalid one.
abbrev pub HasTimer : PendingTableRecord → Type 0
HasTimer r = r.timers ≡ (if r.is_valid then 1 else 0)

pub data Event : Type 0 where
  requested : ℕ → ℕ → ℕ → Event
  responded : ℕ → ℕ → Event
  expired : ℕ → Event

unfoldable pub after : List Event → List PendingTableRecord → List PendingTableRecord
after [] table = table
after (requested c h i ∷ es) table = after es (note_request c h i table)
after (responded c h ∷ es) table = after es (delete_record c h table)
after (expired k ∷ es) table = after es (expire_record k table)

update-HasTimer :
    (c h i : ℕ) (table : List PendingTableRecord)
    → All HasTimer table
    → All HasTimer (update_pending_table_record c h i table).0
unfolding update_pending_table_record
update-HasTimer c h i [] a = tt
update-HasTimer c h i (r ∷ rs) a = ground (arith, a, update-HasTimer c h i rs a.1)

-- An update that finds no valid record leaves an invalid one or none, so no second timer starts.
reuse-HasTimer :
    (c h i : ℕ) (table : List PendingTableRecord)
    → All HasTimer table
    → (update_pending_table_record c h i table).1 ≡ false
    → All HasTimer (reuse_existing_invalid_record c h i table).0
unfolding update_pending_table_record reuse_existing_invalid_record
reuse-HasTimer c h i [] a e = tt
reuse-HasTimer c h i (r ∷ rs) a e = ground (arith, a, e, reuse-HasTimer c h i rs a.1)

note-HasTimer :
    (c h i : ℕ) (table : List PendingTableRecord)
    → All HasTimer table
    → All HasTimer (note_request c h i table)
unfolding note_request insert_into_pending_table
note-HasTimer c h i table a = elim (Bool-cases (update_pending_table_record c h i table).1) [
  | inl updated ↦ rw updated (update-HasTimer c h i table a)
  | inr not_there ↦
      rw (not_there, update-same c h i table not_there)
        (elim (Bool-cases (has_record c h table)) [
          | inl has ↦ rw (reuse-found c h i table, has) (reuse-HasTimer c h i table a not_there)
          | inr missing ↦
              rw (reuse-found c h i table, missing)
                (All-append HasTimer table (new_record c h i ∷ []) a (refl, tt))
        ])
]

delete-HasTimer :
    (c h : ℕ) (table : List PendingTableRecord)
    → All HasTimer table
    → All HasTimer (delete_record c h table)
unfolding delete_record
delete-HasTimer c h [] a = tt
delete-HasTimer c h (r ∷ rs) a = ground (arith, a, delete-HasTimer c h rs a.1)

expire-HasTimer :
    (n : ℕ) (table : List PendingTableRecord)
    → All HasTimer table
    → All HasTimer (expire_record n table)
unfolding expire_record
expire-HasTimer n [] a = tt
expire-HasTimer zero (r ∷ rs) a = ground (arith, a)
expire-HasTimer (suc n) (r ∷ rs) a = (a.0, expire-HasTimer n rs a.1)

-- One record at most for a content and a host, and the timers as they should be.
abbrev pub WellFormed : List PendingTableRecord → Type 0
WellFormed table = UniqueRecords table × All HasTimer table

pub note-WellFormed :
    (c h i : ℕ) (table : List PendingTableRecord)
    → WellFormed table
    → WellFormed (note_request c h i table)
note-WellFormed c h i table w = (note-Unique c h i table w.0, note-HasTimer c h i table w.1)

pub delete-WellFormed :
    (c h : ℕ) (table : List PendingTableRecord)
    → WellFormed table
    → WellFormed (delete_record c h table)
delete-WellFormed c h table w = (delete-Unique c h table w.0, delete-HasTimer c h table w.1)

pub expire-WellFormed :
    (k : ℕ) (table : List PendingTableRecord)
    → WellFormed table
    → WellFormed (expire_record k table)
expire-WellFormed k table w = (expire-Unique k table w.0, expire-HasTimer k table w.1)

after-WellFormed_from :
    (es : List Event) (table : List PendingTableRecord)
    → WellFormed table
    → WellFormed (after es table)
unfolding after
after-WellFormed_from [] table w = w
after-WellFormed_from (requested c h i ∷ es) table w =
    after-WellFormed_from es (note_request c h i table) (note-WellFormed c h i table w)
after-WellFormed_from (responded c h ∷ es) table w =
    after-WellFormed_from es (delete_record c h table) (delete-WellFormed c h table w)
after-WellFormed_from (expired k ∷ es) table w =
    after-WellFormed_from es (expire_record k table) (expire-WellFormed k table w)

-- After any history of requests, responses and expired timers, in any order, an initially empty
-- pending table has one record at most for a content and a host, one running timer for each valid
-- record, and none for an invalid one.
pub after-UniqueRecords :
    (es : List Event) → UniqueRecords (after es []) × All HasTimer (after es [])
after-UniqueRecords es = after-WellFormed_from es [] (tt, tt)
