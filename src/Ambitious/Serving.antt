-- ===== src/Ambitious/Serving.antt =====
-- What holds in every state that the threads of Ambitious Version/Router.cpp reach.
use communication_network.Base.{
  lt-of_get_elem?, get_elem?-within, ok-injective, ℕ, ◌<◌, ◌≡◌, ◌≢◌, refl, sym, subst, ◌∙◌, List,
  [], ◌∷◌, ◌⊎◌, inl, inr, Bool, true, false, Exec, ok, fault, overrun, out_of_range, or_fault,
  ◌>>=◌, ◌==◌, Option-cases, Exec-cases, Bool-cases, length, length-set, get_elem?, set, All,
  All-append, arith, if◌then◌else◌, ◌%◌, ◌+◌,
}
use communication_network.Wire.Header.{get_octet-cases, set_octet-cases}
use communication_network.Wire.Packet.{Packet, Allocator, receive_packet}
use communication_network.Wire.Make.{
  packet_type_pos, contentid_pos, hostid_or_hops_pos, announcement,
}
use communication_network.Router.State.{Receiver, message_packet}
use communication_network.Ambitious.Timers.{expire-WellFormed}
use communication_network.Ambitious.Inside.{expire-Inside}
use communication_network.Ambitious.Main.{CdnRouter, handle_announcement_packet}
use communication_network.Ambitious.Survival.{IsInside, process-Survives}
use communication_network.Ambitious.Loop.{
  CdnThreads, rx_thread_func, left_packet, handle_message, pop_from, pop_message, record_expires,
  receives, pops, expires, CdnReach, here, next, cdn_started,
}

-- `n` threads, messages of these threads only, and tables that name their interfaces only.
pub record Serves (n : ℕ) (s : CdnThreads) : Type 0 where
  pub tables : IsInside n s.router
  pub threads : length s.receivers ≡ n
  pub queued : All (λ i. i < n) s.message_queue

abbrev Goes : ℕ → Exec CdnThreads → Type 0
Goes n r = (r ≡ fault overrun) ⊎ ((t : CdnThreads) × (r ≡ ok t) × Serves n t)

left_packet-cases :
    (i : ℕ) (p : Packet) (s : CdnRouter)
    → (left_packet i p s ≡ fault overrun) ⊎ ((q : Packet) × (left_packet i p s ≡ ok q))
unfolding left_packet handle_announcement_packet
left_packet-cases i p s = elim (get_octet-cases packet_type_pos p.header) [
  | inl e ↦ inl (rw e)
  | inr (kind, e) ↦
      rw (e, ◌>>=◌)
        (elim (Bool-cases (kind == announcement)) [
          | inr other ↦ rw other (inr (p, refl))
          | inl same ↦ rw same (elim (get_octet-cases contentid_pos p.header) [
            | inl f ↦ inl (rw f)
            | inr (c, f) ↦
                rw (f, ◌>>=◌)
                  (elim (get_octet-cases hostid_or_hops_pos p.header) [
                    | inl g ↦ inl (rw g)
                    | inr (hops, g) ↦
                        rw (g, ◌>>=◌)
                          (elim (set_octet-cases ((hops + 1) % 256) hostid_or_hops_pos p.header) [
                            | inl k ↦ inl (rw k)
                            | inr (h, k) ↦ inr (record p { header = h }, rw k)
                          ])
                  ])
          ])
        ])
]

handle_message-Goes :
    (n i : ℕ) (r : Receiver) (s : CdnThreads) → i < n → Serves n s → Goes n (handle_message i r s)
unfolding handle_message
handle_message-Goes n i r s inside v =
    elim (process-Survives n i (message_packet r) s.router inside v.tables) [
      | inl e ↦ inl (rw e)
      | inr (router, e, w) ↦
          rw (e, ◌>>=◌)
            (elim (left_packet-cases i (message_packet r) s.router) [
              | inl f ↦ inl (rw f)
              | inr (q, f) ↦
                  let x = record r {
                    port = record r.port { pkt = record r.port.pkt { header = q.header } };
                  } in
                  inr (
                    record s { router = router; receivers = set s.receivers i x },
                    rw f,
                    record {
                      tables = w;
                      threads = length-set s.receivers i x ∙ v.threads;
                      queued = v.queued;
                    },
                  )
            ])
    ]

pop_from-Goes :
    (n : ℕ) (q : List ℕ) (s : CdnThreads) → All (λ i. i < n) q → Serves n s → Goes n (pop_from q s)
unfolding pop_from
pop_from-Goes n [] s a v = inr (s, refl, v)
pop_from-Goes n (i ∷ rest) s a v =
    let (r, found) = get_elem?-within s.receivers i (omega (arith, v.threads, a.0)) in
    rw (found, ◌>>=◌)
      (handle_message-Goes n i r (record s { message_queue = rest }) a.0
        (record { tables = v.tables; threads = v.threads; queued = a.1 }))

pop_message-Goes : (n : ℕ) (s : CdnThreads) → Serves n s → Goes n (pop_message s)
unfolding pop_message
pop_message-Goes n s v = pop_from-Goes n s.message_queue s v.queued v

pop_message-Serves : (n : ℕ) (s t : CdnThreads) → Serves n s → pop_message s ≡ ok t → Serves n t
pop_message-Serves n s t v e = elim (pop_message-Goes n s v) [
  | inl f ↦ absurd (cc)
  | inr (u, f, w) ↦ subst (Serves n) (ok-injective (sym f ∙ e)) w
]

either_Serves :
    (n : ℕ) (b : Bool) (s t : CdnThreads) → Serves n s → Serves n t → Serves n (if b then s else t)
either_Serves n true s t v w = v
either_Serves n false s t v w = w

rx_thread_func-Serves :
    (n : ℕ) (new : Allocator) (i : ℕ) (dropped : Bool) (datagram : List ℕ) (s t : CdnThreads)
    → Serves n s
    → rx_thread_func new i dropped datagram s ≡ ok t
    → Serves n t
unfolding rx_thread_func
rx_thread_func-Serves n new i dropped datagram s t v e =
    elim (Option-cases (get_elem? s.receivers i)) [
      | inl missing ↦ absurd (cc (rw (missing, or_fault) at e))
      | inr (r, found) ↦ elim (Exec-cases (receive_packet new datagram r.port)) [
        | inr (x, bad) ↦ absurd (cc (rw bad at (rw found at e)))
        | inl (port, good) ↦
            let inside : i < n = omega (arith, lt-of_get_elem? s.receivers i found, v.threads) in
            let threads = λ (x : Receiver). length-set s.receivers i x ∙ v.threads in
            subst (Serves n) (ok-injective (rw good at (rw found at e))) (
              either_Serves n dropped _ _
                (record { tables = v.tables; threads = threads _; queued = v.queued })
                (record {
                  tables = v.tables;
                  threads = threads _;
                  queued = All-append (λ j. j < n) s.message_queue (i ∷ []) v.queued (inside, tt);
                }))
      ]
    ]

record_expires-Serves : (n k : ℕ) (s : CdnThreads) → Serves n s → Serves n (record_expires k s)
unfolding record_expires
record_expires-Serves n k s v = record {
  tables = record {
    interfaces = v.tables.interfaces;
    routes = v.tables.routes;
    pendings = expire-Inside n k s.router.pending_table v.tables.pendings;
    well_formed = expire-WellFormed k s.router.pending_table v.tables.well_formed;
  };
  threads = v.threads;
  queued = v.queued;
}

CdnReach-Serves : (n : ℕ) {s t : CdnThreads} → Serves n s → CdnReach s t → Serves n t
CdnReach-Serves n v here = v
CdnReach-Serves n v (next {t} {u} r (receives new i dropped datagram e)) =
    rx_thread_func-Serves n new i dropped datagram t u (CdnReach-Serves n v r) e
CdnReach-Serves n v (next {t} {u} r (pops e)) = pop_message-Serves n t u (CdnReach-Serves n v r) e
CdnReach-Serves n v (next {t} r (expires k)) = record_expires-Serves n k t (CdnReach-Serves n v r)

cdn_started-Serves : (receivers : List Receiver) → Serves (length receivers) (cdn_started receivers)
unfolding cdn_started
cdn_started-Serves receivers = record {
  tables = record { interfaces = refl; routes = tt; pendings = tt; well_formed = (tt, tt) };
  threads = refl;
  queued = tt;
}

-- In every state that a router reaches, whatever its receiving threads read, malformed datagrams
-- included, and in whatever order they, `main` and the timer threads go on: the queue holds messages
-- of its threads only, both tables name its interfaces only, the pending table has one record at most
-- for a content and a host and one running timer for each valid record. The next pass of the loop
-- does not throw `std::out_of_range` out of `MySendingPorts.at`: it runs past a buffer, or reaches
-- the next state.
pub loop_keeps_serving :
    (receivers : List Receiver) {s : CdnThreads}
    → CdnReach (cdn_started receivers) s
    → Serves (length receivers) s
      × (pop_message s ≢ fault out_of_range)
      × ((pop_message s ≡ fault overrun) ⊎ ((t : CdnThreads) × (pop_message s ≡ ok t)))
loop_keeps_serving receivers {s} r =
    let n = length receivers in
    let v = CdnReach-Serves n (cdn_started-Serves receivers) r in
    (
      v,
      λ e. elim (pop_message-Goes n s v) [
        | inl f ↦ ground (arith, e, f)
        | inr (t, f, w) ↦ ground (arith, e, f)
      ],
      elim (pop_message-Goes n s v) [ inl f ↦ inl f | inr (t, f, w) ↦ inr (t, f) ],
    )
