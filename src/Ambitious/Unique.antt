-- ===== src/Ambitious/Unique.antt =====
-- How many records a PendingTable has for a content and host.
use communication_network.Base.{
  ℕ, zero, suc, ◌≡◌, refl, List, [], ◌∷◌, ◌++◌, true, false, ◌&&◌, ◌==◌, if◌then◌else◌, arith,
  Bool-cases, inl, inr,
}
use communication_network.Ambitious.Pending.{
  PendingTableRecord, delete_record, reuse_existing_invalid_record, new_record,
  insert_into_pending_table, update_pending_table_record, note_request, expire_record,
}
use communication_network.Ambitious.PendingLaws.{has_record, reuse-found}

-- No two records are for one content and host.
abbrev pub UniqueRecords : List PendingTableRecord → Type 0
UniqueRecords [] = Unit
UniqueRecords (r ∷ rs) =
    (has_record r.requested_content_id r.content_requesting_host_id rs ≡ false) × UniqueRecords rs

has-reuse :
    (c h i d k : ℕ) (table : List PendingTableRecord)
    → has_record d k (reuse_existing_invalid_record c h i table).0 ≡ has_record d k table
unfolding reuse_existing_invalid_record
has-reuse c h i d k [] = refl
has-reuse c h i d k (r ∷ rs) = ground (arith, has-reuse c h i d k rs)

reuse-Unique :
    (c h i : ℕ) (table : List PendingTableRecord)
    → UniqueRecords table
    → UniqueRecords (reuse_existing_invalid_record c h i table).0
unfolding reuse_existing_invalid_record
reuse-Unique c h i [] u = tt
reuse-Unique c h i (r ∷ rs) u = ground (
  arith,
  u,
  reuse-Unique c h i rs u.1,
  has-reuse c h i r.requested_content_id r.content_requesting_host_id rs,
)

push-Unique :
    (c h i : ℕ) (table : List PendingTableRecord)
    → UniqueRecords table
    → has_record c h table ≡ false
    → UniqueRecords (table ++ new_record c h i ∷ [])
push-Unique c h i [] u e = (refl, tt)
push-Unique c h i (r ∷ rs) u e = ground (
  arith,
  u,
  e,
  push-Unique c h i rs u.1,
  has-push c h i r.requested_content_id r.content_requesting_host_id rs,
)
  where
    has-push :
        (c h i d k : ℕ) (table : List PendingTableRecord)
        → has_record d k (table ++ new_record c h i ∷ [])
          ≡ (if (c == d) && (h == k) then true else has_record d k table)
    has-push c h i d k [] = ground arith
    has-push c h i d k (r ∷ rs) = ground (arith, has-push c h i d k rs)

pub update-same :
    (c h i : ℕ) (table : List PendingTableRecord)
    → (update_pending_table_record c h i table).1 ≡ false
    → (update_pending_table_record c h i table).0 ≡ table
unfolding update_pending_table_record
update-same c h i [] e = refl
update-same c h i (r ∷ rs) e = ground (arith, e, update-same c h i rs)

has-update :
    (c h i d k : ℕ) (table : List PendingTableRecord)
    → has_record d k (update_pending_table_record c h i table).0 ≡ has_record d k table
unfolding update_pending_table_record
has-update c h i d k [] = refl
has-update c h i d k (r ∷ rs) = ground (arith, has-update c h i d k rs)

update-Unique :
    (c h i : ℕ) (table : List PendingTableRecord)
    → UniqueRecords table
    → UniqueRecords (update_pending_table_record c h i table).0
unfolding update_pending_table_record
update-Unique c h i [] u = tt
update-Unique c h i (r ∷ rs) u = ground (
  arith,
  u,
  update-Unique c h i rs u.1,
  has-update c h i r.requested_content_id r.content_requesting_host_id rs,
)

pub note-Unique :
    (c h i : ℕ) (table : List PendingTableRecord)
    → UniqueRecords table
    → UniqueRecords (note_request c h i table)
unfolding note_request insert_into_pending_table
note-Unique c h i table u = elim (Bool-cases (update_pending_table_record c h i table).1) [
  | inl updated ↦ rw updated (update-Unique c h i table u)
  | inr not_there ↦
      rw (not_there, update-same c h i table not_there)
        (elim (Bool-cases (has_record c h table)) [
          | inl has ↦ rw (reuse-found c h i table, has) (reuse-Unique c h i table u)
          | inr missing ↦ rw (reuse-found c h i table, missing) (push-Unique c h i table u missing)
        ])
]

has-delete :
    (c h d k : ℕ) (table : List PendingTableRecord)
    → has_record d k (delete_record c h table) ≡ has_record d k table
unfolding delete_record
has-delete c h d k [] = refl
has-delete c h d k (r ∷ rs) = ground (arith, has-delete c h d k rs)

pub delete-Unique :
    (c h : ℕ) (table : List PendingTableRecord)
    → UniqueRecords table
    → UniqueRecords (delete_record c h table)
unfolding delete_record
delete-Unique c h [] u = tt
delete-Unique c h (r ∷ rs) u = ground (
  arith,
  u,
  delete-Unique c h rs u.1,
  has-delete c h r.requested_content_id r.content_requesting_host_id rs,
)

has-expire :
    (n d k : ℕ) (table : List PendingTableRecord)
    → has_record d k (expire_record n table) ≡ has_record d k table
unfolding expire_record
has-expire n d k [] = refl
has-expire zero d k (r ∷ rs) = ground arith
has-expire (suc n) d k (r ∷ rs) = ground (arith, has-expire n d k rs)

pub expire-Unique :
    (n : ℕ) (table : List PendingTableRecord)
    → UniqueRecords table
    → UniqueRecords (expire_record n table)
unfolding expire_record
expire-Unique n [] u = tt
expire-Unique zero (r ∷ rs) u = ground (arith, u)
expire-Unique (suc n) (r ∷ rs) u = ground (
  arith,
  u,
  expire-Unique n rs u.1,
  has-expire n r.requested_content_id r.content_requesting_host_id rs,
)
