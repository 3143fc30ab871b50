-- ===== src/Ambitious/Memory.antt =====
-- PendingTable of Ambitious Version/Router.h with the memory of its vector: each timer thread keeps
-- the address of its record, a block and a position in it. A push_back into a full vector moves the
-- records to a new block; `grow` is the capacity that it then has, which the standard leaves open.
use communication_network.Base.{
  ℕ, zero, suc, ◌+◌, List, [], ◌∷◌, ◌++◌, Option, none, some, Bool, true, false, ◌&&◌, Exec, ok,
  fault, overrun, ◌>>=◌, ◌==◌, if◌then◌else◌, length, ltb, set,
}
use communication_network.Ambitious.Timers.{Event, requested, responded, expired}

pub record StoredRecord : Type 0 where
  pub requested_content_id : ℕ
  pub content_requesting_host_id : ℕ
  pub port_interface : ℕ
  pub is_valid : Bool
  pub timer_thread : ℕ

-- A timer thread that runs, and the address that it was given.
pub record TimerThread : Type 0 where
  pub number : ℕ
  pub block : ℕ
  pub index : ℕ

pub record Memory : Type 0 where
  pub records : List StoredRecord
  pub block : ℕ
  pub capacity : ℕ
  pub running : List TimerThread
  pub started : ℕ

-- The loops: the first record for a content and a host, and its position.
abbrev pub lookup : ℕ → ℕ → ℕ → List StoredRecord → Option (ℕ × StoredRecord)
lookup content_id host_id k [] = none
lookup content_id host_id k (r ∷ rs) =
    if (r.requested_content_id == content_id) && (r.content_requesting_host_id == host_id)
    then some (k, r)
    else lookup content_id host_id (k + 1) rs

-- `startTimer` of the record at a position, with the values that the record then has.
abbrev pub start_at : ℕ → StoredRecord → Memory → Memory
start_at k r m = record m {
  records = set m.records k (record r { timer_thread = suc m.started });
  running = m.running ++ record { number = suc m.started; block = m.block; index = k } ∷ [];
  started = suc m.started;
}

-- `pthread_cancel`.
abbrev pub cancel : ℕ → List TimerThread → List TimerThread
cancel n [] = []
cancel n (t ∷ ts) = if t.number == n then ts else t ∷ cancel n ts

abbrev pub stop : StoredRecord → Memory → Memory
stop r m = record m { running = cancel r.timer_thread m.running }

abbrev pub delete_at : Option (ℕ × StoredRecord) → Memory → Memory
delete_at none m = m
delete_at (some (k, r)) m = record (stop r m) {
  records = set m.records k (record r { is_valid = false });
}

unfoldable pub delete_stored : ℕ → ℕ → Memory → Memory
delete_stored content_id host_id m = delete_at (lookup content_id host_id 0 m.records) m

abbrev pub reuse_at : Option (ℕ × StoredRecord) → ℕ → Memory → Memory × Bool
reuse_at none rx_interface m = (m, false)
reuse_at (some (k, r)) rx_interface m =
    (start_at k (record r { port_interface = rx_interface; is_valid = true }) m, true)

abbrev pub update_at : Option (ℕ × StoredRecord) → ℕ → Memory → Memory × Bool
update_at none rx_interface m = (m, false)
update_at (some (k, r)) rx_interface m =
    if r.is_valid
    then (start_at k (record r { port_interface = rx_interface }) (stop r m), true)
    else (m, false)

abbrev pub push_back : (ℕ → ℕ) → StoredRecord → Memory → Memory
push_back grow r m =
    if ltb (length m.records) m.capacity
    then record m { records = m.records ++ r ∷ [] }
    else record m { records = m.records ++ r ∷ []; block = suc m.block; capacity = grow m.capacity }

abbrev pub new_stored : ℕ → ℕ → ℕ → StoredRecord
new_stored content_id host_id rx_interface = record {
  requested_content_id = content_id;
  content_requesting_host_id = host_id;
  port_interface = rx_interface;
  is_valid = true;
  timer_thread = 0;
}

-- InsertIntoPendingTable: the record is pushed, and the timer of `Table.back()` started.
unfoldable pub insert_stored : (ℕ → ℕ) → ℕ → ℕ → ℕ → Memory → Memory
insert_stored grow content_id host_id rx_interface m =
    let reused = reuse_at (lookup content_id host_id 0 m.records) rx_interface m in
    let r = new_stored content_id host_id rx_interface in
    if reused.1 then reused.0 else start_at (length m.records) r (push_back grow r m)

-- HandleRequestPackets on this table.
unfoldable pub note_stored : (ℕ → ℕ) → ℕ → ℕ → ℕ → Memory → Memory
unfolding insert_stored
note_stored grow content_id host_id rx_interface m =
    let updated = update_at (lookup content_id host_id 0 m.records) rx_interface m in
    if updated.1 then updated.0 else insert_stored grow content_id host_id rx_interface updated.0

abbrev pub find_thread : ℕ → List TimerThread → Option TimerThread
find_thread n [] = none
find_thread n (t ∷ ts) = if t.number == n then some t else find_thread n ts

abbrev pub invalidate : ℕ → List StoredRecord → List StoredRecord
invalidate k [] = []
invalidate zero (r ∷ rs) = record r { is_valid = false } ∷ rs
invalidate (suc k) (r ∷ rs) = r ∷ invalidate k rs

-- `timerProc`: makeInValid through the address that the thread has.
abbrev pub wake : ℕ → Option TimerThread → Memory → Exec Memory
wake n none m = ok m
wake n (some t) m =
    if (t.block == m.block) && ltb t.index (length m.records)
    then ok (record m { records = invalidate t.index m.records; running = cancel n m.running })
    else fault overrun

unfoldable pub expire_stored : ℕ → Memory → Exec Memory
expire_stored n m = wake n (find_thread n m.running) m

-- A history; `expired n` is the end of the sleep of thread `n`.
unfoldable pub run : (ℕ → ℕ) → List Event → Memory → Exec Memory
unfolding delete_stored note_stored expire_stored
run grow [] m = ok m
run grow (requested c h i ∷ es) m = run grow es (note_stored grow c h i m)
run grow (responded c h ∷ es) m = run grow es (delete_stored c h m)
run grow (expired n ∷ es) m = expire_stored n m >>= run grow es

-- `PendingTable()`: the vector has no block yet, so no room.
abbrev pub empty_table : Memory
empty_table = record { records = []; block = 0; capacity = 0; running = []; started = 0 }
