-- ===== src/Ambitious/Placement.antt =====
-- One operation on the pending table of Ambitious Version/Router.h, and the addresses that its timer
-- threads have.
use communication_network.Base.{
  ◌&&◌, ◌||◌, not, ltb, leb, ℕ, zero, suc, ◌+◌, ◌<◌, ◌≡◌, refl, ap, sym, subst, List, [], ◌∷◌, ◌++◌,
  Option, Option-cases, none, some, Bool, true, false, ok, ◌==◌, if◌then◌else◌, length,
  length-append, length-set, lt→ltb, All, All-append, All-imp, arith, Bool-cases, inl, inr,
}
use communication_network.Ambitious.Memory.{
  StoredRecord, TimerThread, Memory, lookup, start_at, cancel, stop, delete_at, push_back,
  new_stored, insert_stored, note_stored, find_thread, invalidate, expire_stored,
}
use communication_network.Ambitious.Dangling.{note_stored-fresh}

-- Every running thread has the address of a record.
abbrev pub IsPlaced : ℕ → ℕ → TimerThread → Type 0
IsPlaced block size t = (t.block ≡ block) × (t.index < size)

abbrev pub InPlace : Memory → Type 0
InPlace m = All (IsPlaced m.block (length m.records)) m.running

cancel-All :
    (P : TimerThread → Type 0) (n : ℕ) (ts : List TimerThread) → All P ts → All P (cancel n ts)
cancel-All P n [] a = tt
cancel-All P n (t ∷ ts) a = elim (Bool-cases (t.number == n)) [
  | inl same ↦ rw same a.1
  | inr other ↦ rw other (a.0, cancel-All P n ts a.1)
]

lookup-within :
    (c h k : ℕ) (rs : List StoredRecord) {x : ℕ × StoredRecord}
    → lookup c h k rs ≡ some x
    → x.0 < k + length rs
lookup-within c h k [] e = absurd (cc)
lookup-within c h k (r ∷ rs) {x} e = ground (arith, e, lookup-within c h (k + 1) rs {x = x})

find_thread-All :
    (P : TimerThread → Type 0) (n : ℕ) (ts : List TimerThread) {t : TimerThread}
    → All P ts
    → find_thread n ts ≡ some t
    → P t
find_thread-All P n [] a e = absurd (cc)
find_thread-All P n (x ∷ xs) {t} a e = elim (Bool-cases (x.number == n)) [
  | inl same ↦ subst P (cc (rw same at e)) a.0
  | inr other ↦ find_thread-All P n xs a.1 (rw other at e)
]

length-invalidate : (k : ℕ) (rs : List StoredRecord) → length (invalidate k rs) ≡ length rs
length-invalidate k [] = refl
length-invalidate zero (r ∷ rs) = refl
length-invalidate (suc k) (r ∷ rs) = ap suc (length-invalidate k rs)

start_at-InPlace :
    (k : ℕ) (r : StoredRecord) (m : Memory)
    → k < length m.records
    → InPlace m
    → InPlace (start_at k r m)
start_at-InPlace k r m inside a =
    let q = record r { timer_thread = suc m.started } in
    let born : TimerThread = record { number = suc m.started; block = m.block; index = k } in
    subst (λ (s : ℕ). All (IsPlaced m.block s) (m.running ++ born ∷ []))
      (sym (length-set m.records k q))
      (All-append (IsPlaced m.block (length m.records)) m.running (born ∷ []) a
        ((refl, inside), tt))

stop-InPlace : (r : StoredRecord) (m : Memory) → InPlace m → InPlace (stop r m)
stop-InPlace r m a = cancel-All (IsPlaced m.block (length m.records)) r.timer_thread m.running a

pub delete_at-InPlace :
    (o : Option (ℕ × StoredRecord)) (m : Memory) → InPlace m → InPlace (delete_at o m)
delete_at-InPlace none m a = a
delete_at-InPlace (some (k, r)) m a =
    subst (λ (s : ℕ). All (IsPlaced m.block s) (cancel r.timer_thread m.running))
      (sym (length-set m.records k (record r { is_valid = false }))) (stop-InPlace r m a)

-- A request for a record that the table has.
note_stored-found :
    (grow : ℕ → ℕ) (c h i k : ℕ) (r : StoredRecord) (m : Memory)
    → lookup c h 0 m.records ≡ some (k, r)
    → note_stored grow c h i m ≡ (
        if r.is_valid
        then start_at k (record r { port_interface = i }) (stop r m)
        else start_at k (record r { port_interface = i; is_valid = true }) m)
unfolding note_stored insert_stored
note_stored-found grow c h i k r m found = elim (Bool-cases r.is_valid) [
  | inl valid ↦ rw found (rw valid refl)
  | inr invalid ↦ rw found (rw invalid (rw found refl))
]

either_InPlace : (b : Bool) (x y : Memory) → InPlace x → InPlace y → InPlace (if b then x else y)
either_InPlace true x y p q = p
either_InPlace false x y p q = q

found-InPlace :
    (k i : ℕ) (r : StoredRecord) (m : Memory)
    → k < length m.records
    → InPlace m
    → InPlace (
        if r.is_valid
        then start_at k (record r { port_interface = i }) (stop r m)
        else start_at k (record r { port_interface = i; is_valid = true }) m)
found-InPlace k i r m inside a =
    either_InPlace r.is_valid _ _
      (start_at-InPlace k (record r { port_interface = i }) (stop r m) inside (stop-InPlace r m a))
      (start_at-InPlace k (record r { port_interface = i; is_valid = true }) m inside a)

-- A new record in a vector with room.
roomy-InPlace :
    (grow : ℕ → ℕ) (r : StoredRecord) (m : Memory)
    → length m.records < m.capacity
    → InPlace m
    → InPlace (start_at (length m.records) r (push_back grow r m))
roomy-InPlace grow r m room a =
    let longer : length (m.records ++ r ∷ []) ≡ length m.records + 1 =
      omega (arith, length-append m.records (r ∷ [])) in
    let wider : All (IsPlaced m.block (length (m.records ++ r ∷ []))) m.running =
      All-imp m.running
        (λ (t : TimerThread) (w : IsPlaced m.block (length m.records) t).
          (w.0, omega (arith, w.1, longer)))
        a in
    rw (lt→ltb (length m.records) m.capacity room) (
      start_at-InPlace (length m.records) r (record m { records = m.records ++ r ∷ [] })
        (omega (arith, longer)) wider)

-- A new record in a full vector, whose records move while no timer thread runs.
moved-InPlace :
    (grow : ℕ → ℕ) (r : StoredRecord) (m : Memory)
    → ltb (length m.records) m.capacity ≡ false
    → m.running ≡ []
    → InPlace (start_at (length m.records) r (push_back grow r m))
moved-InPlace grow r m full quiet =
    let longer : length (m.records ++ r ∷ []) ≡ length m.records + 1 =
      omega (arith, length-append m.records (r ∷ [])) in
    let moved = record m {
      records = m.records ++ r ∷ [];
      block = suc m.block;
      capacity = grow m.capacity;
    } in
    let none_placed : InPlace moved =
      subst (λ (ts : List TimerThread). All (IsPlaced moved.block (length moved.records)) ts)
        (sym quiet) tt in
    rw full (start_at-InPlace (length m.records) r moved (omega (arith, longer)) none_placed)

-- A request for a content and host without a record comes while the vector is full.
abbrev pub is_none : Option (ℕ × StoredRecord) → Bool
is_none none = true
is_none (some x) = false

abbrev pub moves : ℕ → ℕ → Memory → Bool
moves c h m = is_none (lookup c h 0 m.records) && leb m.capacity (length m.records)

abbrev pub no_threads : List TimerThread → Bool
no_threads [] = true
no_threads (t ∷ ts) = false

no_threads-eq : (ts : List TimerThread) → no_threads ts ≡ true → ts ≡ []
no_threads-eq [] e = refl
no_threads-eq (t ∷ ts) e = absurd (cc)

pub note_stored-InPlace :
    (grow : ℕ → ℕ) (c h i : ℕ) (m : Memory)
    → (not (moves c h m) || no_threads m.running) ≡ true
    → InPlace m
    → InPlace (note_stored grow c h i m)
note_stored-InPlace grow c h i m still a = elim (Option-cases (lookup c h 0 m.records)) [
  | inl fresh ↦
      rw (note_stored-fresh grow c h i m fresh)
        (elim (Bool-cases (ltb (length m.records) m.capacity)) [
          | inl room ↦ roomy-InPlace grow (new_stored c h i) m (ground (arith, room)) a
          | inr full ↦
              let grown : leb m.capacity (length m.records) ≡ true = ground (arith, full) in
              moved-InPlace grow (new_stored c h i) m full
                (no_threads-eq m.running (rw grown at (rw fresh at still)))
        ])
  | inr ((k, r), found) ↦
      let inside : k < length m.records = omega (arith, lookup-within c h 0 m.records found) in
      rw (note_stored-found grow c h i k r m found) (found-InPlace k i r m inside a)
]

pub expire_stored-InPlace :
    (n : ℕ) (m : Memory)
    → InPlace m
    → (after : Memory) × (expire_stored n m ≡ ok after) × InPlace after
unfolding expire_stored
expire_stored-InPlace n m a = elim (Option-cases (find_thread n m.running)) [
  | inl gone ↦ (m, rw gone refl, a)
  | inr (t, runs) ↦
      let w = find_thread-All (IsPlaced m.block (length m.records)) n m.running a runs in
      let here : (t.block == m.block) ≡ true = ground (arith, w) in
      (
        record m { records = invalidate t.index m.records; running = cancel n m.running },
        rw runs (rw (here, lt→ltb t.index (length m.records) w.1) refl),
        subst (λ (s : ℕ). All (IsPlaced m.block s) (cancel n m.running))
            (sym (length-invalidate t.index m.records))
            (cancel-All (IsPlaced m.block (length m.records)) n m.running a),
      )
]
