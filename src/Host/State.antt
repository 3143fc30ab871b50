-- ===== src/Host/State.antt =====
-- What the threads of a host share: the contents it offers, the request it waits for, and the port
-- with its timer (mySendingPort and TxTimer of common.h and common.cpp).
use communication_network.Base.{
  ℕ, suc, ℤ, pos, negsuc, List, [], ◌∷◌, ◌++◌, Option, none, some, Bool, false, not, Exec, ok,
  fault, overrun, ◌>>=◌, ◌==◌, if◌then◌else◌,
}
use communication_network.Wire.Packet.{Packet, send_packet}

-- `FNgenerator`: "<index>.txt" for a content that is offered, "<index>r.txt" for one received. The
-- function returns a pointer into a string that is gone; the model takes the name it pointed to.
pub record FileName : Type 0 where
  pub index : ℤ
  pub offered : Bool

abbrev pub fn_generator : ℤ → Bool → FileName
fn_generator index flag = record { index = index; offered = flag }

infix 50 ◌==ℤ◌
abbrev pub ◌==ℤ◌ : ℤ → ℤ → Bool
pos a ==ℤ pos b = a == b
pos a ==ℤ negsuc b = false
negsuc a ==ℤ pos b = false
negsuc a ==ℤ negsuc b = a == b

abbrev pub same_file : FileName → FileName → Bool
same_file f g =
    if f.index ==ℤ g.index then (if f.offered then g.offered else not g.offered) else false

-- `timers` are the timer threads that run, by number; `tid` is the one that startTimer created last.
pub record Host : Type 0 where
  pub host_id : ℤ
  pub list1 : List ℤ
  pub files : FileName → Option (List ℕ)
  pub content_number : ℤ
  pub content_resp : Bool
  pub ackflag : Bool
  pub last_pkt : Option Packet
  pub timers : List ℕ
  pub tid : ℕ
  pub sent : List (List ℕ)

-- `sendPacket`: the datagram joins what was handed to `sendto`.
unfoldable pub send : Packet → Host → Exec Host
send p s = do bytes ← send_packet p; ok (record s { sent = s.sent ++ bytes ∷ [] })

-- `startTimer`: a new thread.
abbrev pub start_arq_timer : Host → Host
start_arq_timer s = record s { timers = s.timers ++ suc s.tid ∷ []; tid = suc s.tid }

abbrev pub without : ℕ → List ℕ → List ℕ
without t [] = []
without t (x ∷ xs) = if x == t then xs else x ∷ without t xs

-- `stopTimer`: the thread created last is cancelled, if it still runs.
abbrev pub stop_arq_timer : Host → Host
stop_arq_timer s = record s { timers = without s.tid s.timers }

-- `timerHandler`, the part under the test: the packet kept is sent again, and a timer started.
unfoldable pub resend : Option Packet → Host → Exec Host
unfolding send
resend none s = fault overrun
resend (some p) s = send p s >>= λ t. ok (start_arq_timer t)

unfoldable pub timer_handler : Host → Exec Host
unfolding resend
timer_handler s = if s.ackflag then ok s else resend s.last_pkt s

-- `timerProc` of the thread `t`, after its sleep. The thread ends.
unfoldable pub timer_proc_of : ℕ → Host → Exec Host
unfolding timer_handler
timer_proc_of t s = timer_handler (record s { timers = without t s.timers })
