-- ===== src/Earlier/Safety.antt =====
-- The interleavings of the receiving threads of simple_router.cpp.
use communication_network.Base.{
  ◌⊎◌, overrun, ok, lt-of_get_elem?, ℕ, zero, suc, ◌<◌, ◌≡◌, ◌≢◌, refl, sym, subst, ap, ◌∙◌, List,
  [], ◌∷◌, some, inl, inr, fault, out_of_range, length, get_elem?, set, map, arith, All, length-set,
}
use communication_network.Wire.Packet.{ReceivingPort}
use communication_network.Earlier.Tables.{PrtRecord}
use communication_network.Earlier.State.{RxThread, Shared}
use communication_network.Earlier.Handlers.{handle_packet}
use communication_network.Earlier.Steps.{
  System, Step, acts, Reach, here, next, ready, system_started,
}
use communication_network.Earlier.Sends.{RoutesWithin, PendingsWithin}
use communication_network.Earlier.Decisions.{handle_packet-Handles}
use communication_network.Earlier.Acts.{SharedWithin, ThreadWithin, Act-Within}

-- Every thread, and their number.
pub record SystemWithin (n : ℕ) (m : System) : Type 0 where
  pub shared_within : SharedWithin n m.shared
  pub threads_within : All (ThreadWithin n) m.threads
  pub all_threads : length m.threads ≡ n

pub All-get_elem? :
    (n : ℕ) (ts : List RxThread) (i : ℕ) {t : RxThread}
    → All (ThreadWithin n) ts
    → get_elem? ts i ≡ some t
    → ThreadWithin n t
All-get_elem? n [] i a e = absurd (cc)
All-get_elem? n (x ∷ xs) zero {t} a e = subst (ThreadWithin n) (cc) a.0
All-get_elem? n (x ∷ xs) (suc i) a e = All-get_elem? n xs i a.1 e

All-set :
    (n : ℕ) (ts : List RxThread) (i : ℕ) (t : RxThread)
    → All (ThreadWithin n) ts
    → ThreadWithin n t
    → All (ThreadWithin n) (set ts i t)
All-set n [] i t a w = tt
All-set n (x ∷ xs) zero t a w = (w, a.1)
All-set n (x ∷ xs) (suc i) t a w = (a.0, All-set n xs i t a.1 w)

pub Step-Within : {n : ℕ} {m o : System} → Step m o → SystemWithin n m → SystemWithin n o
Step-Within {n} {m} (acts {s} {t} {u} i found act) v =
    let inside : i < n = omega (arith, lt-of_get_elem? m.threads i found, v.all_threads) in
    let after =
      Act-Within act inside v.shared_within (All-get_elem? n m.threads i v.threads_within found) in
    record {
      shared_within = after.shared_within;
      threads_within = All-set n m.threads i u v.threads_within after.thread_within;
      all_threads = length-set m.threads i u ∙ v.all_threads;
    }

pub Reach-Within : {n : ℕ} {m o : System} → Reach m o → SystemWithin n m → SystemWithin n o
Reach-Within here v = v
Reach-Within (next r st) v = Step-Within st (Reach-Within r v)

ready-Within : (n : ℕ) (ports : List ReceivingPort) → All (ThreadWithin n) (map ready ports)
ready-Within n [] = tt
ready-Within n (p ∷ ps) =
    (record { routes_copied = tt; pendings_copied = tt; stage_within = tt }, ready-Within n ps)

length-map-ready : (ports : List ReceivingPort) → length (map ready ports) ≡ length ports
length-map-ready [] = refl
length-map-ready (p ∷ ps) = ap suc (length-map-ready ps)

pub system_started-Within :
    (ports : List ReceivingPort) → SystemWithin (length ports) (system_started ports)
unfolding system_started
system_started-Within ports = record {
  shared_within = record { interfaces = refl; routes = tt; pendings = tt };
  threads_within = ready-Within (length ports) ports;
  all_threads = length-map-ready ports;
}

-- In every state that any interleaving of the receiving threads reaches from their start, every
-- record of the two tables names an interface of the router; and a thread that then handles its
-- packet never throws `std::out_of_range` out of `MySendingPorts.at`, whatever stands in an
-- uninitialised record: it runs past a buffer, or comes to the end of the switch.
pub tables_within :
    (ports : List ReceivingPort) {m : System} (i : ℕ) {t : RxThread} (unset : PrtRecord)
    → Reach (system_started ports) m
    → get_elem? m.threads i ≡ some t
    → RoutesWithin (length ports) m.shared.routing_table
      × PendingsWithin (length ports) m.shared.pending_table
      × (handle_packet unset i t m.shared ≢ fault out_of_range)
      × ((handle_packet unset i t m.shared ≡ fault overrun)
          ⊎ ((r : Shared × RxThread) × (handle_packet unset i t m.shared ≡ ok r)))
tables_within ports {m} i {t} unset r found =
    let v = Reach-Within r (system_started-Within ports) in
    let w = v.shared_within in
    let x = All-get_elem? (length ports) m.threads i v.threads_within found in
    let at = sym w.interfaces in
    let own : i < m.shared.num_interfaces =
      omega (arith, lt-of_get_elem? m.threads i found, v.all_threads, w.interfaces) in
    let handled =
      handle_packet-Handles unset i t m.shared own
        (subst (λ (n : ℕ). RoutesWithin n t.rt_local) at x.routes_copied)
        (subst (λ (n : ℕ). PendingsWithin n t.prt_local) at x.pendings_copied) in
    (
      w.routes,
      w.pendings,
      λ e. elim handled [
        | inl f ↦ ground (arith, e, f)
        | inr (out, q, c, f, c_within) ↦ ground (arith, e, f)
      ],
      elim handled [ inl f ↦ inl f | inr (out, q, c, f, c_within) ↦ inr (_, f) ],
    )
