-- ===== src/Host/Retrying.antt =====
-- The request that a host repeats until it is answered, under every order of its threads' steps.
use communication_network.Base.{
  ℕ, suc, ◌≡◌, refl, ap, ◌∙◌, sym, subst, ℤ, negsuc, List, [], ◌∷◌, ◌++◌, Option, none, some, Bool,
  true, false, Exec, ok, ◌>>=◌, if◌then◌else◌, Bool-cases, Option-cases, >>=-ok, fault, overrun,
  inl, inr,
}
use communication_network.Wire.Packet.{Packet, Allocator, send_packet}
use communication_network.Host.State.{
  Host, FileName, send, start_arq_timer, resend, timer_handler, timer_proc_of, without,
}
use communication_network.Wire.Make.{make_request_packet}
use communication_network.Host.Threads.{put, del, get, arm, rx, bcast, new_packet}
use communication_network.Host.Quiet.{
  runs, Sends, Keeps, Quiet, Quiet-Keeps, runs-push, ok_inj, send-ok, send-Quiet,
  announce_all-Quiet, put-Quiet, rx-Keeps,
}

-- A step of a host: a command of `main`, which is in two steps for GET, a packet that arrives, a round
-- of `bcast`, or a timer thread that ends its sleep. The second part is the packet that `main` has
-- sent and is about to keep for the timer.
pub data HostStep : Host × Option Packet → Host × Option Packet → Type 0 where
  puts : {s : Host} (past_end : List ℤ → ℤ) (c : ℤ) → HostStep (s, none) (put past_end c s, none)
  dels : {s : Host} (c : ℤ) → HostStep (s, none) (del c s, none)
  gets :
      {s t : Host} {p : Packet} (new : Allocator) (c : ℤ)
      → get new c s ≡ ok (p, t)
      → HostStep (s, none) (t, some p)
  arms : {s : Host} {p : Packet} → HostStep (s, some p) (arm p s, none)
  arrives :
      {s t : Host} {w : Option Packet} (new : Allocator) (q : Packet)
      → rx new q s ≡ ok t
      → HostStep (s, w) (t, w)
  announces :
      {s t : Host} {w : Option Packet} (new : Allocator)
      → bcast new s ≡ ok t
      → HostStep (s, w) (t, w)
  fires :
      {s t : Host} {w : Option Packet} (i : ℕ)
      → runs i s.timers ≡ true
      → timer_proc_of i s ≡ ok t
      → HostStep (s, w) (t, w)

pub data HostReach (a : Host × Option Packet) : Host × Option Packet → Type 0 where
  here : HostReach a a
  next : {b c : Host × Option Packet} → HostReach a b → HostStep b c → HostReach a c

abbrev pub AllSend : Option Packet → Type 0
AllSend none = Unit
AllSend (some p) = Sends p

abbrev pub HostInv : Host × Option Packet → Type 0
HostInv c = Keeps c.0.last_pkt c.0.ackflag c.0.tid c.0.timers × AllSend c.1

abbrev HostKeeps : Host → Type 0
HostKeeps s = Keeps s.last_pkt s.ackflag s.tid s.timers

get-Inv :
    (new : Allocator) (c : ℤ) (s t : Host) (p : Packet)
    → get new c s ≡ ok (p, t)
    → Keeps s.last_pkt s.ackflag s.tid s.timers
    → Keeps t.last_pkt t.ackflag t.tid t.timers × Sends p
unfolding get
get-Inv new c s t p e k =
    let asked = record s { content_number = c; content_resp = false } in
    let (q, made, e1) = >>=-ok _ (make_request_packet c s.host_id (new_packet new)) e in
    let (u, went, e2) = >>=-ok (λ v. ok (q, v)) (send q asked) e1 in
    let both = ok_inj e2 in
    let same_packet : q ≡ p = ap (λ (x : Packet × Host). x.0) both in
    let same_host : u ≡ t = ap (λ (x : Packet × Host). x.1) both in
    let (bytes, sends, done) = send-ok q asked u went in
    (
      Quiet-Keeps s t (subst (Quiet s) same_host (send-Quiet q asked u went)) k,
      subst Sends same_packet (bytes, sends),
    )

arm-Keeps :
    (p : Packet) (s : Host)
    → Sends p
    → Keeps (arm p s).last_pkt (arm p s).ackflag (arm p s).tid (arm p s).timers
unfolding arm
arm-Keeps p s sends = (sends, λ f. runs-push (suc s.tid) s.timers)

-- A timer thread that ends its sleep while the request is not acknowledged sends it again and starts
-- another one.
fire_again :
    (i : ℕ) (p : Packet) (s : Host)
    → s.last_pkt ≡ some p
    → s.ackflag ≡ false
    → (sends : Sends p)
    → timer_proc_of i s
      ≡ ok (
          start_arq_timer (record s { timers = without i s.timers; sent = s.sent ++ sends.0 ∷ [] }))
unfolding timer_proc_of timer_handler resend send
fire_again i p s kept waits sends =
    let t = record s { timers = without i s.timers } in
    ap (λ (b : Bool). if b then ok t else resend s.last_pkt t) waits
    ∙ ap (λ (o : Option Packet). resend o t) kept
    ∙ ap
        (λ (m : Exec (List ℕ)).
          (m >>= λ bs. ok (record t { sent = t.sent ++ bs ∷ [] })) >>= λ u. ok (start_arq_timer u))
        sends.1

fire_after_answer :
    (i : ℕ) (s : Host)
    → s.ackflag ≡ true
    → timer_proc_of i s ≡ ok (record s { timers = without i s.timers })
unfolding timer_proc_of timer_handler
fire_after_answer i s answered =
    let t = record s { timers = without i s.timers } in
    ap (λ (b : Bool). if b then ok t else resend s.last_pkt t) answered

fire_without_packet :
    (i : ℕ) (s : Host) → s.last_pkt ≡ none → s.ackflag ≡ false → timer_proc_of i s ≡ fault overrun
unfolding timer_proc_of timer_handler resend
fire_without_packet i s kept waits =
    let t = record s { timers = without i s.timers } in
    ap (λ (b : Bool). if b then ok t else resend s.last_pkt t) waits
    ∙ ap (λ (o : Option Packet). resend o t) kept

fire-Keeps :
    (i : ℕ) (s t : Host)
    → timer_proc_of i s ≡ ok t
    → Keeps s.last_pkt s.ackflag s.tid s.timers
    → Keeps t.last_pkt t.ackflag t.tid t.timers
fire-Keeps i s t e k = elim (Option-cases s.last_pkt) [
  | inl none_kept ↦ elim (Bool-cases s.ackflag) [
    | inl answered ↦
        subst HostKeeps (ok_inj (sym (fire_after_answer i s answered) ∙ e))
          (subst (λ o. Keeps o s.ackflag s.tid (without i s.timers)) (sym none_kept) tt)
    | inr waits ↦ absurd (cc (fire_without_packet i s none_kept waits))
  ]
  | inr (p, kept) ↦
      let (sends, runs_on) : Keeps (some p) s.ackflag s.tid s.timers =
        subst (λ o. Keeps o s.ackflag s.tid s.timers) kept k in
      elim (Bool-cases s.ackflag) [
        | inl answered ↦ subst HostKeeps (ok_inj (sym (fire_after_answer i s answered) ∙ e)) (
            subst (λ o. Keeps o s.ackflag s.tid (without i s.timers)) (sym kept)
              (sends, λ f. absurd (cc)))
        | inr waits ↦ subst HostKeeps (ok_inj (sym (fire_again i p s kept waits sends) ∙ e)) (
            subst (λ o. Keeps o s.ackflag (suc s.tid) (without i s.timers ++ suc s.tid ∷ []))
              (sym kept) (sends, λ f. runs-push (suc s.tid) (without i s.timers)))
      ]
]

step-HostInv : {a b : Host × Option Packet} → HostStep a b → HostInv a → HostInv b
step-HostInv (puts {s} past_end c) v =
    (Quiet-Keeps s (put past_end c s) (put-Quiet past_end c s) v.0, tt)
step-HostInv (dels {s} c) v =
    (Quiet-Keeps s (del c s) (unfold del in (refl, refl, refl, refl)) v.0, tt)
step-HostInv (gets {s} {t} {p} new c e) v = get-Inv new c s t p e v.0
step-HostInv (arms {s} {p}) v = (arm-Keeps p s v.1, tt)
step-HostInv (arrives {s} {t} new q e) v = (rx-Keeps new q s t e v.0, v.1)
step-HostInv (announces {s} {t} new e) v =
    (Quiet-Keeps s t (unfold bcast in announce_all-Quiet s.list1 (new_packet new) s t e) v.0, v.1)
step-HostInv (fires {s} {t} i running e) v = (fire-Keeps i s t e v.0, v.1)

reach-HostInv : {a b : Host × Option Packet} → HostInv a → HostReach a b → HostInv b
reach-HostInv v here = v
reach-HostInv v (next r st) = step-HostInv st (reach-HostInv v r)

-- A host as `main` starts it: no request was made. `ack` is the flag's uninitialised value.
abbrev pub booted : ℤ → (FileName → Option (List ℕ)) → Bool → Host
booted host_id files ack = record {
  host_id = host_id;
  list1 = [];
  files = files;
  content_number = negsuc 0;
  content_resp = false;
  ackflag = ack;
  last_pkt = none;
  timers = [];
  tid = 0;
  sent = [];
}

-- After every order of commands, arriving packets, announcements and timers, as long as the request
-- that the host keeps is not acknowledged: the timer thread created last is running, and when it ends
-- its sleep it sends the packet of that request once more, and starts another timer thread, so that
-- the same holds again.
pub request_is_repeated :
    (host_id : ℤ) (files : FileName → Option (List ℕ)) (ack : Bool) {s : Host} {w : Option Packet}
    (p : Packet)
    → HostReach (booted host_id files ack, none) (s, w)
    → s.last_pkt ≡ some p
    → s.ackflag ≡ false
    → (runs s.tid s.timers ≡ true)
      × ((t : Host) × (bytes : List ℕ) × (timer_proc_of s.tid s ≡ ok t)
          × (send_packet p ≡ ok bytes)
          × (t.sent ≡ s.sent ++ bytes ∷ [])
          × (t.ackflag ≡ false)
          × (runs t.tid t.timers ≡ true))
request_is_repeated host_id files ack {s} {w} p r kept waits =
    let v = reach-HostInv (tt, tt) r in
    let (sends, runs_on) : Keeps (some p) s.ackflag s.tid s.timers =
      subst (λ o. Keeps o s.ackflag s.tid s.timers) kept v.0 in
    (
      runs_on waits,
      (
        start_arq_timer
            (record s { timers = without s.tid s.timers; sent = s.sent ++ sends.0 ∷ [] }),
        sends.0,
        fire_again s.tid p s kept waits sends,
        sends.1,
        refl,
        waits,
        runs-push (suc s.tid) (without s.tid s.timers),
      ),
    )
