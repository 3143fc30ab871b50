-- ===== src/Ambitious/Dangling.antt =====
-- The timer threads of Ambitious Version/Router.h when a push_back moves the records.
use communication_network.Base.{
  ℕ, suc, ◌≤◌, ◌≡◌, refl, ap, ◌∙◌, List, [], ◌∷◌, ◌++◌, none, some, false, fault, overrun, ◌==◌,
  length, ltb, arith,
}
use communication_network.Ambitious.Memory.{
  TimerThread, Memory, lookup, start_at, push_back, new_stored, insert_stored, note_stored,
  find_thread, expire_stored,
}

find_thread-append :
    (n : ℕ) (ts us : List TimerThread) {t : TimerThread}
    → find_thread n ts ≡ some t
    → find_thread n (ts ++ us) ≡ some t
find_thread-append n [] us e = absurd (cc)
find_thread-append n (x ∷ xs) us {t} e = ground (arith, e, find_thread-append n xs us {t = t})

pub note_stored-fresh :
    (grow : ℕ → ℕ) (c h i : ℕ) (m : Memory)
    → lookup c h 0 m.records ≡ none
    → note_stored grow c h i m
      ≡ start_at (length m.records) (new_stored c h i) (push_back grow (new_stored c h i) m)
unfolding note_stored insert_stored
note_stored-fresh grow c h i m fresh = rw fresh (rw fresh refl)

-- The vector is full, and a request comes for a content and host that it has no record of: a timer
-- thread that ran before then ends its sleep with the address of a record in the block that was given
-- back, and writes there.
pub timer_dangles :
    (grow : ℕ → ℕ) (c h i n : ℕ) (m : Memory) {t : TimerThread}
    → lookup c h 0 m.records ≡ none
    → m.capacity ≤ length m.records
    → find_thread n m.running ≡ some t
    → t.block ≤ m.block
    → expire_stored n (note_stored grow c h i m) ≡ fault overrun
unfolding expire_stored
timer_dangles grow c h i n m {t} fresh full runs old =
    let stuck : ltb (length m.records) m.capacity ≡ false = ground arith in
    let other : (t.block == suc m.block) ≡ false = ground arith in
    let born : TimerThread = record {
      number = suc m.started;
      block = suc m.block;
      index = length m.records;
    } in
    ap (expire_stored n) (note_stored-fresh grow c h i m fresh)
    ∙ rw stuck (rw (find_thread-append n m.running (born ∷ []) runs) (rw other refl))
