-- ===== src/Host/Quiet.antt =====
-- What the threads of a host do to the timer, the flag and the packet that is kept for it.
use communication_network.Base.{
  ℕ, ◌≡◌, refl, ◌∙◌, subst, ℤ, pos, List, [], ◌∷◌, ◌++◌, Option, none, some, Bool, true, false, ok,
  ◌>>=◌, ◌==◌, if◌then◌else◌, arith, Bool-cases, Option-cases, >>=-ok, ltb_ℤ, guard, out_of_range,
  not, length, inl, inr,
}
use communication_network.Wire.Packet.{Packet, Allocator, send_packet}
use communication_network.Host.State.{Host, fn_generator, ◌==ℤ◌, send, without}
use communication_network.Wire.Header.{get_octet}
use communication_network.Wire.Packet.{fill_payload}
use communication_network.Wire.Make.{
  packet_type_pos, contentid_pos, hostid_or_hops_pos, request, response, make_response_packet,
  make_announcement_packet,
}
use communication_network.Host.Threads.{
  put, rx, announce_all, answer_request, take_response, find_or_end, read_all, set_file_size,
  new_packet, c_string,
}

abbrev pub runs : ℕ → List ℕ → Bool
runs t [] = false
runs t (x ∷ xs) = if x == t then true else runs t xs

-- A packet that `sendPacket` has sent once without a fault.
abbrev pub Sends : Packet → Type 0
Sends p = (bytes : List ℕ) × (send_packet p ≡ ok bytes)

-- The packet kept for the timer can be sent, and until it is acknowledged a thread waits to do so.
abbrev pub Keeps : Option Packet → Bool → ℕ → List ℕ → Type 0
Keeps none ack tid timers = Unit
Keeps (some p) ack tid timers = Sends p × (ack ≡ false → runs tid timers ≡ true)

-- What the other threads do leaves the timer's data alone.
abbrev pub Quiet : Host → Host → Type 0
Quiet s t =
    (t.last_pkt ≡ s.last_pkt) × (t.ackflag ≡ s.ackflag) × (t.tid ≡ s.tid) × (t.timers ≡ s.timers)

pub Quiet-Keeps :
    (s t : Host)
    → Quiet s t
    → Keeps s.last_pkt s.ackflag s.tid s.timers
    → Keeps t.last_pkt t.ackflag t.tid t.timers
Quiet-Keeps s t q k = rw (q.0, q.1, q.2, q.3) k

pub runs-push : (t : ℕ) (xs : List ℕ) → runs t (xs ++ t ∷ []) ≡ true
runs-push t [] = ground arith
runs-push t (x ∷ xs) = ground (arith, runs-push t xs)

pub ok_inj {ℓ} : {A : Type ℓ} {a b : A} → ok a ≡ ok b → a ≡ b
ok_inj h = cc

-- A datagram that `send` sends is what `send_packet` makes of the packet.
pub send-ok :
    (p : Packet) (s t : Host)
    → send p s ≡ ok t
    → (bytes : List ℕ) × (send_packet p ≡ ok bytes) × (record s { sent = s.sent ++ bytes ∷ [] } ≡ t)
unfolding send
send-ok p s t e =
    let (bytes, made, done) =
      >>=-ok (λ bs. ok (record s { sent = s.sent ++ bs ∷ [] })) (send_packet p) e in
    (bytes, made, ok_inj done)

pub send-Quiet : (p : Packet) (s t : Host) → send p s ≡ ok t → Quiet s t
send-Quiet p s t e =
    let (bytes, made, done) = send-ok p s t e in subst (Quiet s) done (refl, refl, refl, refl)

Quiet-trans : (s t u : Host) → Quiet s t → Quiet t u → Quiet s u
Quiet-trans s t u q r = (r.0 ∙ q.0, r.1 ∙ q.1, r.2 ∙ q.2, r.3 ∙ q.3)

pub announce_all-Quiet :
    (cs : List ℤ) (p : Packet) (s t : Host) → announce_all cs p s ≡ ok t → Quiet s t
unfolding announce_all
announce_all-Quiet [] p s t e = subst (Quiet s) (ok_inj e) (refl, refl, refl, refl)
announce_all-Quiet (c ∷ cs) p s t e =
    let (q, made, rest) =
      >>=-ok (λ q. send q s >>= announce_all cs q) (make_announcement_packet c (pos 0) p) e in
    let (u, sent, later) = >>=-ok (announce_all cs q) (send q s) rest in
    Quiet-trans s u t (send-Quiet q s u sent) (announce_all-Quiet cs q u t later)

pub put-Quiet : (past_end : List ℤ → ℤ) (c : ℤ) (s : Host) → Quiet s (put past_end c s)
unfolding put
put-Quiet past_end c s = elim (Option-cases (s.files (fn_generator c true))) [
  | inl closed ↦ rw (closed, put) (refl, refl, refl, refl)
  | inr (bytes, opened) ↦
      rw (opened, put)
        (elim (Bool-cases (ltb_ℤ (pos 0) (find_or_end past_end c s.list1 s.list1))) [
          | inl found ↦ rw found (refl, refl, refl, refl)
          | inr new ↦ rw new (refl, refl, refl, refl)
        ])
]

answer_request-Quiet :
    (new : Allocator) (content host : ℕ) (s t : Host)
    → answer_request new content host s ≡ ok t
    → Quiet s t
unfolding answer_request
answer_request-Quiet new content host s t e =
    let file = s.files (fn_generator (pos content) true) in
    let bytes = read_all file in
    let (p, made, e1) =
      >>=-ok _ (make_response_packet (pos content) (pos host) (new_packet new)) e in
    let (u, some_data, e2) = >>=-ok _ (guard (not (length bytes == 0)) out_of_range) e1 in
    let (q, filled, e3) =
      >>=-ok _ (fill_payload new (length bytes) bytes (set_file_size new file p)) e2 in
    send-Quiet q s t e3

-- A response leaves the timer's data alone, or acknowledges the request.
take_response-Keeps :
    (content : ℕ) (p : Packet) (s t : Host)
    → take_response content p s ≡ ok t
    → Keeps s.last_pkt s.ackflag s.tid s.timers
    → Keeps t.last_pkt t.ackflag t.tid t.timers
unfolding take_response
take_response-Keeps content p s t e k = elim (Bool-cases (pos content ==ℤ s.content_number)) [
  | inr other ↦ subst (λ u. Keeps u.last_pkt u.ackflag u.tid u.timers) (ok_inj (rw other at e)) k
  | inl wanted ↦
      let (written, read, done) = >>=-ok _ (c_string p.payload) (rw wanted at e) in
      subst (λ u. Keeps u.last_pkt u.ackflag u.tid u.timers) (ok_inj done)
        (acknowledged s.last_pkt k)
]
  where
    acknowledged :
        (o : Option Packet)
        → Keeps o s.ackflag s.tid s.timers
        → Keeps o true s.tid (without s.tid s.timers)
    acknowledged none k = tt
    acknowledged (some q) k = (k.0, λ f. absurd (cc))

pub rx-Keeps :
    (new : Allocator) (q : Packet) (s t : Host)
    → rx new q s ≡ ok t
    → Keeps s.last_pkt s.ackflag s.tid s.timers
    → Keeps t.last_pkt t.ackflag t.tid t.timers
unfolding rx
rx-Keeps new q s t e k =
    let (content, e0, e1) = >>=-ok _ (get_octet contentid_pos q.header) e in
    let (host, e2, e3) = >>=-ok _ (get_octet hostid_or_hops_pos q.header) e1 in
    let (kind, e4, e5) = >>=-ok _ (get_octet packet_type_pos q.header) e3 in
    elim (Bool-cases (kind == request)) [
      | inl asks ↦ Quiet-Keeps s t (answer_request-Quiet new content host s t (rw asks at e5)) k
      | inr not_request ↦ elim (Bool-cases (kind == response)) [
        | inl answers ↦ take_response-Keeps content q s t (rw answers at (rw not_request at e5)) k
        | inr neither ↦
            subst (λ u. Keeps u.last_pkt u.ackflag u.tid u.timers)
              (ok_inj (rw neither at (rw not_request at e5))) k
      ]
    ]
