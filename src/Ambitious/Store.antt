-- ===== src/Ambitious/Store.antt =====
-- What a pending table promises, and the view of one that forgets its records.
use communication_network.Base.{
  ℕ, ◌≡◌, ℤ, pos, negsuc, List, [], ◌∷◌, Bool, ◌&&◌, ◌==◌, if◌then◌else◌, arith,
}
use mathlib.Core.Quot
use mathlib.Core.Quot.{Quot, Quot-set}
use native.Mathlib.Decide.{ℕ_discrete}

ℤ_discrete : Discrete ℤ
ℤ_discrete = hlevel (ℕ_discrete)

pub ℤ_set : IsSet ℤ
ℤ_set = hlevel (ℤ_discrete)

-- The operations that the router calls, and what they promise, for tables of a type.
pub record PendingStore (T : Type 0) : Type 0 where
  pub note : ℕ → ℕ → ℕ → T → T
  pub delete : ℕ → ℕ → T → T
  pub get : ℕ → ℕ → T → ℤ
  pub get-note_lem :
      (c h i d k : ℕ) (t : T)
      → get d k (note c h i t) ≡ (if (c == d) && (h == k) then pos i else get d k t)
  pub get-delete_lem :
      (c h d k : ℕ) (t : T)
      → get d k (delete c h t) ≡ (if (c == d) && (h == k) then negsuc 0 else get d k t)

-- Two tables from which a response takes the same way, whatever its content and host.
abbrev pub SameWays : {T : Type 0} → PendingStore T → T → T → Type 0
SameWays store s t = (c h : ℕ) → store.get c h s ≡ store.get c h t

-- A table without the order of its records, the invalid ones and the timers.
abbrev pub Observed : {T : Type 0} → PendingStore T → Type 0
Observed store = Quot (SameWays store)

-- A request or a response, as the pending table sees them.
pub data Traffic : Type 0 where
  asks : ℕ → ℕ → ℕ → Traffic
  answers : ℕ → ℕ → Traffic

abbrev pub content_of : Traffic → ℕ
content_of (asks c h i) = c
content_of (answers c h) = c

abbrev pub host_of : Traffic → ℕ
host_of (asks c h i) = h
host_of (answers c h) = h

-- What the table gives for the content and host of a message, once it was handled.
abbrev pub way_after : Traffic → ℤ
way_after (asks c h i) = pos i
way_after (answers c h) = negsuc 0

abbrev pub same_key : Traffic → Traffic → Bool
same_key a b = (content_of a == content_of b) && (host_of a == host_of b)

module _ {T : Type 0} (store : PendingStore T) where
  abbrev pub handle : Traffic → T → T
  handle (asks c h i) t = store.note c h i t
  handle (answers c h) t = store.delete c h t

  unfoldable pub run : List Traffic → T → T
  run [] t = t
  run (a ∷ rest) t = run rest (handle a t)

  pub get-handle :
      (a : Traffic) (d k : ℕ) (t : T)
      → store.get d k (handle a t)
        ≡ (if (content_of a == d) && (host_of a == k) then way_after a else store.get d k t)
  get-handle (asks c h i) d k t = store.get-note_lem c h i d k t
  get-handle (answers c h) d k t = store.get-delete_lem c h d k t

  -- Both operations respect the view.
  pub handle_same :
      (a : Traffic) (s t : T) → SameWays store s t → SameWays store (handle a s) (handle a t)
  handle_same a s t same d k = ground (arith, same d k, get-handle a d k s, get-handle a d k t)

  unfoldable pub observe : Traffic → Observed store → Observed store
  observe a =
      Quot.lift Quot-set (λ t. Quot.mk (handle a t))
        (λ s t same. Quot.sound (handle_same a s t same))

  unfoldable pub way : ℕ → ℕ → Observed store → ℤ
  way c h = Quot.lift ℤ_set (store.get c h) (λ s t same. same c h)
