-- ===== src/Ambitious/PendingLaws.antt =====
-- PendingTable as a map from contents and hosts to interfaces.
use communication_network.Base.{
  ℕ, ◌≡◌, refl, ℤ, pos, negsuc, List, [], ◌∷◌, ◌++◌, Bool, true, false, ◌&&◌, ◌==◌, if◌then◌else◌,
  arith, Bool-cases, inl, inr,
}
use communication_network.Ambitious.Pending.{
  PendingTableRecord, is_for, delete_record, reuse_existing_invalid_record, new_record,
  insert_into_pending_table, update_pending_table_record, get_interface_from_pending_table,
  note_request,
}

-- The record for a content and a host is in the table, valid or not.
abbrev pub has_record : ℕ → ℕ → List PendingTableRecord → Bool
has_record c h [] = false
has_record c h (r ∷ rs) = if is_for c h r then true else has_record c h rs

pub reuse-found :
    (c h i : ℕ) (table : List PendingTableRecord)
    → (reuse_existing_invalid_record c h i table).1 ≡ has_record c h table
unfolding reuse_existing_invalid_record
reuse-found c h i [] = refl
reuse-found c h i (r ∷ rs) = ground (arith, reuse-found c h i rs)

get-reuse :
    (c h i d k : ℕ) (table : List PendingTableRecord)
    → has_record c h table ≡ true
    → get_interface_from_pending_table d k (reuse_existing_invalid_record c h i table).0
      ≡ (if (c == d) && (h == k) then pos i else get_interface_from_pending_table d k table)
unfolding reuse_existing_invalid_record get_interface_from_pending_table
get-reuse c h i d k [] e = absurd (cc)
get-reuse c h i d k (r ∷ rs) e = ground (arith, get-reuse c h i d k rs)

get-push :
    (c h i d k : ℕ) (table : List PendingTableRecord)
    → has_record c h table ≡ false
    → get_interface_from_pending_table d k (table ++ new_record c h i ∷ [])
      ≡ (if (c == d) && (h == k) then pos i else get_interface_from_pending_table d k table)
unfolding get_interface_from_pending_table
get-push c h i d k [] e = ground arith
get-push c h i d k (r ∷ rs) e = ground (arith, get-push c h i d k rs)

get-insert :
    (c h i d k : ℕ) (table : List PendingTableRecord)
    → get_interface_from_pending_table d k (insert_into_pending_table c h i table)
      ≡ (if (c == d) && (h == k) then pos i else get_interface_from_pending_table d k table)
unfolding insert_into_pending_table
get-insert c h i d k table = elim (Bool-cases (has_record c h table)) [
  | inl has ↦ rw (reuse-found c h i table, has) (get-reuse c h i d k table has)
  | inr none_there ↦ rw (reuse-found c h i table, none_there) (get-push c h i d k table none_there)
]

get-update :
    (c h i d k : ℕ) (table : List PendingTableRecord)
    → get_interface_from_pending_table d k (update_pending_table_record c h i table).0 ≡ (
        if (update_pending_table_record c h i table).1 && ((c == d) && (h == k))
        then pos i
        else get_interface_from_pending_table d k table)
unfolding update_pending_table_record get_interface_from_pending_table
get-update c h i d k [] = refl
get-update c h i d k (r ∷ rs) = ground (arith, get-update c h i d k rs)

pub get-note :
    (c h i d k : ℕ) (table : List PendingTableRecord)
    → get_interface_from_pending_table d k (note_request c h i table)
      ≡ (if (c == d) && (h == k) then pos i else get_interface_from_pending_table d k table)
unfolding note_request
get-note c h i d k table = elim (Bool-cases (update_pending_table_record c h i table).1) [
  | inl updated ↦ rw updated (ground (arith, updated, get-update c h i d k table))
  | inr not_there ↦ rw not_there (
      ground (
        arith,
        not_there,
        get-update c h i d k table,
        get-insert c h i d k (update_pending_table_record c h i table).0,
      ))
]

pub get-delete :
    (c h d k : ℕ) (table : List PendingTableRecord)
    → get_interface_from_pending_table d k (delete_record c h table)
      ≡ (if (c == d) && (h == k) then negsuc 0 else get_interface_from_pending_table d k table)
unfolding delete_record get_interface_from_pending_table
get-delete c h d k [] = ground arith
get-delete c h d k (r ∷ rs) = ground (arith, get-delete c h d k rs)

-- What a pending table promises: for a content and a host the interface that a response takes, or
-- -1. It forgets the order of the records, and the invalid ones.
abbrev pub PendingMap : Type 0
PendingMap = ℕ → ℕ → ℤ

abbrev pub view : List PendingTableRecord → PendingMap
view table d k = get_interface_from_pending_table d k table

abbrev pub assign : ℕ → ℕ → ℤ → PendingMap → PendingMap
assign c h i m d k = if (c == d) && (h == k) then i else m d k

-- A request of host `h` for content `c` from interface `i` assigns `i` to the two in the map that
-- the pending table stands for, and the deletion after a response assigns -1; both leave every other
-- content and host as it was, whatever invalid records the table keeps.
pub note_request-delete_record_refine :
    (c h i : ℕ) (table : List PendingTableRecord)
    → (view (note_request c h i table) ≡ assign c h (pos i) (view table))
      × (view (delete_record c h table) ≡ assign c h (negsuc 0) (view table))
note_request-delete_record_refine c h i table =
    (λ j d k. get-note c h i d k table j, λ j d k. get-delete c h d k table j)
