-- ===== src/Tests/Addresses.antt =====
-- Timer threads of a pending table whose vector is full, and of one with room.
use communication_network.Base.{
  ℕ, ◌==◌, if◌then◌else◌, ◌≡◌, refl, ◌+◌, ok, fault, overrun, List, [], ◌∷◌, true, arith,
}
use communication_network.Ambitious.Timers.{Event, requested, responded, expired}
use communication_network.Ambitious.Memory.{
  Memory, note_stored, insert_stored, delete_stored, expire_stored, run, empty_table,
}
use communication_network.Ambitious.Dangling.{timer_dangles}
use communication_network.Ambitious.Addresses.{is_still, timers_find_records}
use communication_network.Ambitious.Placement.{InPlace}

-- One record in a block for one.
abbrev full_table : Memory
full_table = record {
  records =
      record {
        requested_content_id = 7;
        content_requesting_host_id = 5;
        port_interface = 0;
        is_valid = true;
        timer_thread = 1;
      }
      ∷ [];
  block = 0;
  capacity = 1;
  running = record { number = 1; block = 0; index = 0 } ∷ [];
  started = 1;
}

timer_dangles_example : expire_stored 1 (note_stored (λ n. n + n) 8 5 1 full_table) ≡ fault overrun
timer_dangles_example =
    timer_dangles (λ n. n + n) 8 5 1 1 full_table refl (omega arith) refl (omega arith)

-- Each request for a new record comes when the timers of those before have ended or were stopped, or
-- while there is room: the blocks are for 1, 2 and 4 records.
abbrev still_history : List Event
still_history =
    requested 7 5 0
    ∷ expired 1
    ∷ requested 8 5 1
    ∷ requested 7 5 2
    ∷ responded 8 5
    ∷ expired 3
    ∷ requested 9 5 0
    ∷ requested 9 6 1
    ∷ expired 5
    ∷ []

twice_or_one : ℕ → ℕ
twice_or_one n = if n == 0 then 1 else n + n

is_still_history : is_still twice_or_one still_history empty_table ≡ true
unfolding is_still note_stored insert_stored delete_stored expire_stored twice_or_one
is_still_history = refl

timers_find_records_example :
    (after : Memory) × (run twice_or_one still_history empty_table ≡ ok after) × InPlace after
timers_find_records_example = timers_find_records twice_or_one still_history is_still_history

-- The second content is asked for while the first one's timer runs.
hurried_history :
    run twice_or_one (requested 7 5 0 ∷ requested 8 5 1 ∷ expired 1 ∷ []) empty_table
    ≡ fault overrun
unfolding run note_stored insert_stored expire_stored twice_or_one
hurried_history = refl
