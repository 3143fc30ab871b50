-- ===== src/Ambitious/Addresses.antt =====
-- When the timer threads of Ambitious Version/Router.h find a record.
use communication_network.Base.{
  ℕ, ◌≡◌, refl, List, [], ◌∷◌, Bool, true, false, ◌&&◌, ◌||◌, not, Exec, ok, fault, ◌>>=◌,
}
use communication_network.Ambitious.Timers.{Event, requested, responded, expired}
use communication_network.Ambitious.Memory.{
  Memory, lookup, delete_stored, note_stored, expire_stored, run, empty_table,
}
use communication_network.Ambitious.Placement.{
  InPlace, moves, no_threads, delete_at-InPlace, note_stored-InPlace, expire_stored-InPlace,
}

-- A history in which no timer thread runs whenever a request moves the records.
abbrev pub goes_on_with : (Memory → Bool) → Exec Memory → Bool
goes_on_with rest (ok m) = rest m
goes_on_with rest (fault e) = true

unfoldable pub is_still : (ℕ → ℕ) → List Event → Memory → Bool
is_still grow [] m = true
is_still grow (requested c h i ∷ es) m =
    (not (moves c h m) || no_threads m.running) && is_still grow es (note_stored grow c h i m)
is_still grow (responded c h ∷ es) m = is_still grow es (delete_stored c h m)
is_still grow (expired n ∷ es) m = goes_on_with (is_still grow es) (expire_stored n m)

both-true : (a b : Bool) → (a && b) ≡ true → (a ≡ true) × (b ≡ true)
both-true true b e = (refl, e)
both-true false b e = absurd (cc)

run-InPlace :
    (grow : ℕ → ℕ) (es : List Event) (m : Memory)
    → is_still grow es m ≡ true
    → InPlace m
    → (after : Memory) × (run grow es m ≡ ok after) × InPlace after
unfolding run is_still delete_stored
run-InPlace grow [] m still a = (m, refl, a)
run-InPlace grow (requested c h i ∷ es) m still a =
    let (now, later) =
      both-true (not (moves c h m) || no_threads m.running)
        (is_still grow es (note_stored grow c h i m)) still in
    run-InPlace grow es (note_stored grow c h i m) later (note_stored-InPlace grow c h i m now a)
run-InPlace grow (responded c h ∷ es) m still a =
    run-InPlace grow es (delete_stored c h m) still (delete_at-InPlace (lookup c h 0 m.records) m a)
run-InPlace grow (expired n ∷ es) m still a =
    let (after, runs, placed) = expire_stored-InPlace n m a in
    let (last, goes, all_placed) =
      run-InPlace grow es after (rw (runs, goes_on_with) at still) placed in
    (last, rw (runs, ◌>>=◌) goes, all_placed)

-- From the table that `PendingTable()` makes, a history of requests, responses and timer threads that
-- end their sleep, in any order, in which no timer thread runs whenever a push_back moves the records
-- of the vector: no thread writes through an address that is not a record's. The history runs to
-- its end, and every thread that still runs has the address of a record.
pub timers_find_records :
    (grow : ℕ → ℕ) (es : List Event)
    → is_still grow es empty_table ≡ true
    → (after : Memory) × (run grow es empty_table ≡ ok after) × InPlace after
timers_find_records grow es still = run-InPlace grow es empty_table still tt
