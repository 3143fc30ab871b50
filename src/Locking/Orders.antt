-- ===== src/Locking/Orders.antt =====
-- The order of requests and responses at the pending tables of Router.h and Router1.h.
use communication_network.Base.{
  ℕ, ◌≡◌, refl, sym, subst, ap, ◌∙◌, pos, negsuc, List, [], ◌∷◌, ◌++◌, false, ◌&&◌, ◌==◌,
  if◌then◌else◌, arith,
}
use mathlib.Core.Quot
use mathlib.Core.Quot.{Quot, Quot-set}
use communication_network.Ambitious.Pending as Plain
use communication_network.Ambitious.PendingLaws.{get-note, get-delete}
use communication_network.Ambitious.Unique.{UniqueRecords, note-Unique, delete-Unique}
use communication_network.Ambitious.Store.{
  PendingStore, Observed, Traffic, handle, run, same_key, get-handle, observe, way,
}
use communication_network.Locking.Pending as Locked
use communication_network.Locking.Alike.{plain_all, note-plain, delete-plain, get-plain}

module _ {T : Type 0} (store : PendingStore T) where
  observe_all : List Traffic → Observed store → Observed store
  observe_all [] q = q
  observe_all (a ∷ rest) q = observe_all rest (observe store a q)

  observe_all-append :
      (xs ys : List Traffic) (q : Observed store)
      → observe_all (xs ++ ys) q ≡ observe_all ys (observe_all xs q)
  unfolding observe_all
  observe_all-append [] ys q = refl
  observe_all-append (x ∷ xs) ys q = observe_all-append xs ys (observe store x q)

  run-observe_all :
      (xs : List Traffic) (t : T)
      → ◌≡◌ {A = Observed store} (Quot.mk (run store xs t)) (observe_all xs (Quot.mk t))
  unfolding run observe_all observe
  run-observe_all [] t = refl
  run-observe_all (x ∷ xs) t = run-observe_all xs (handle store x t)

  -- Messages on different contents or hosts.
  observe_comm :
      (a b : Traffic) (q : Observed store)
      → same_key a b ≡ false
      → observe store b (observe store a q) ≡ observe store a (observe store b q)
  unfolding observe
  observe_comm a b q other =
      Quot.ind {β = λ q. observe store b (observe store a q) ≡ observe store a (observe store b q)}
        (λ q. Quot-set _ _)
        (λ t. Quot.sound (λ d k. ground (
          arith,
          other,
          get-handle store a d k t,
          get-handle store b d k t,
          get-handle store b d k (handle store a t),
          get-handle store a d k (handle store b t),
        )))
        q

  swap_forgotten :
      (xs ys : List Traffic) (a b : Traffic) (t : T)
      → same_key a b ≡ false
      → ◌≡◌ {A = Observed store}
          (Quot.mk (run store (xs ++ a ∷ b ∷ ys) t))
          (Quot.mk (run store (xs ++ b ∷ a ∷ ys) t))
  unfolding observe_all
  swap_forgotten xs ys a b t other =
      run-observe_all (xs ++ a ∷ b ∷ ys) t
      ∙ observe_all-append xs (a ∷ b ∷ ys) (Quot.mk t)
      ∙ ap (observe_all ys) (observe_comm a b (observe_all xs (Quot.mk t)) other)
      ∙ sym (observe_all-append xs (b ∷ a ∷ ys) (Quot.mk t))
      ∙ sym (run-observe_all (xs ++ b ∷ a ∷ ys) t)

-- PendingTable of Router.h.
abbrev pub plain_store : PendingStore (List Plain.PendingTableRecord)
plain_store = record {
  note = Plain.note_request;
  delete = Plain.delete_record;
  get = Plain.get_interface_from_pending_table;
  get-note_lem = get-note;
  get-delete_lem = get-delete;
}

-- PendingTable of Router1.h, with one record at most for a content and a host.
abbrev pub LockedTable : Type 0
LockedTable = (table : List Locked.PendingTableRecord) × UniqueRecords (plain_all table)

abbrev note_locked : ℕ → ℕ → ℕ → LockedTable → LockedTable
note_locked c h i (table, unique) = (
  Locked.note_request c h i table,
  subst UniqueRecords (sym (note-plain c h i table unique))
      (note-Unique c h i (plain_all table) unique),
)

abbrev delete_locked : ℕ → ℕ → LockedTable → LockedTable
delete_locked c h (table, unique) = (
  Locked.delete_record c h table,
  subst UniqueRecords (sym (delete-plain c h table unique))
      (delete-Unique c h (plain_all table) unique),
)

get_locked-plain :
    (c h : ℕ) (t : LockedTable)
    → Locked.get_interface_from_pending_table c h t.0
      ≡ Plain.get_interface_from_pending_table c h (plain_all t.0)
get_locked-plain c h t = get-plain c h t.0 t.1

pub get-note_locked :
    (c h i d k : ℕ) (t : LockedTable)
    → Locked.get_interface_from_pending_table d k (note_locked c h i t).0
      ≡ (if (c == d) && (h == k) then pos i else Locked.get_interface_from_pending_table d k t.0)
get-note_locked c h i d k t =
    let noted = get_locked-plain d k (note_locked c h i t) in
    let stored = note-plain c h i t.0 t.1 in
    rw (get_locked-plain d k t) (
      noted
      ∙ ap (Plain.get_interface_from_pending_table d k) stored
      ∙ get-note c h i d k (plain_all t.0))

pub get-delete_locked :
    (c h d k : ℕ) (t : LockedTable)
    → Locked.get_interface_from_pending_table d k (delete_locked c h t).0
      ≡ (if (c == d) && (h == k) then negsuc 0 else Locked.get_interface_from_pending_table d k t.0)
get-delete_locked c h d k t =
    let deleted = get_locked-plain d k (delete_locked c h t) in
    let stored = delete-plain c h t.0 t.1 in
    rw (get_locked-plain d k t) (
      deleted
      ∙ ap (Plain.get_interface_from_pending_table d k) stored
      ∙ get-delete c h d k (plain_all t.0))

abbrev pub locked_store : PendingStore LockedTable
locked_store = record {
  note = note_locked;
  delete = delete_locked;
  get = λ c h t. Locked.get_interface_from_pending_table c h t.0;
  get-note_lem = get-note_locked;
  get-delete_lem = get-delete_locked;
}

-- Two messages, requests or responses, on different contents or hosts, that reach a pending table one
-- after the other, somewhere in a run of messages: in which order they come makes no difference to
-- the table as its view sees it, without the order of the records, the invalid ones and the timers,
-- so none for the interface that it gives for any content and host. This holds for the table of Router.h and for that of
-- Router1.h.
pub order_forgotten :
    (xs ys : List Traffic) (a b : Traffic) (plain : List Plain.PendingTableRecord)
    (locked : LockedTable) (c h : ℕ)
    → same_key a b ≡ false
    → ◌≡◌ {A = Observed plain_store}
        (Quot.mk (run plain_store (xs ++ a ∷ b ∷ ys) plain))
        (Quot.mk (run plain_store (xs ++ b ∷ a ∷ ys) plain))
      × (◌≡◌ {A = Observed locked_store}
          (Quot.mk (run locked_store (xs ++ a ∷ b ∷ ys) locked))
          (Quot.mk (run locked_store (xs ++ b ∷ a ∷ ys) locked)))
      × (Plain.get_interface_from_pending_table c h (run plain_store (xs ++ a ∷ b ∷ ys) plain)
          ≡ Plain.get_interface_from_pending_table c h (run plain_store (xs ++ b ∷ a ∷ ys) plain))
unfolding way
order_forgotten xs ys a b plain locked c h other =
    let same = swap_forgotten plain_store xs ys a b plain other in
    (same, swap_forgotten locked_store xs ys a b locked other, ap (way plain_store c h) same)
