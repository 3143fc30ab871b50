-- ===== src/Host/Answering.antt =====
-- What a host sends for a request, and what a response leaves in the file of the one that asked.
use communication_network.Base.{
  ℕ, ◌+◌, ◌*◌, ◌/◌, ◌%◌, ◌≤◌, ◌<◌, ◌≡◌, ◌≢◌, refl, sym, subst, ap, ◌∙◌, Option, Option-cases, Exec,
  pos, List, [], ◌∷◌, ◌++◌, none, some, true, false, ok, fault, out_of_range, guard, arith, length,
  take, drop, All, ltb, not, ◌==◌, if◌then◌else◌, Bool-cases, inl, inr, length-append, le→leb,
  take_all, take-append,
}
use communication_network.Wire.Header.{PacketHdr, set_octet, four_octets}
use communication_network.Wire.Packet.{
  Packet, Allocator, send_packet, set_payload_size, fill_payload, mtu_size,
}
use communication_network.Wire.Make.{response, make_response_packet, fill_header}
use communication_network.Router.Rounds.{datagram_of, send_packet-eq_datagram}
use communication_network.Host.State.{Host, send, fn_generator, same_file, stop_arq_timer, ◌==ℤ◌}
use communication_network.Host.Threads.{new_packet, answer_request, take_response, c_string}

-- The packet after MakeResponsePacket on a new one.
abbrev response_packet : ℕ → ℕ → ℕ → Packet → Packet
response_packet content host last p = record p {
  header = record { info = response ∷ content ∷ host ∷ last ∷ []; header_length = 3 };
}

make_response_packet-eq :
    (content host : ℕ) (p : Packet) (x y z w : ℕ)
    → content < 256
    → host < 256
    → p.header.info ≡ x ∷ y ∷ z ∷ w ∷ []
    → p.header.header_length ≡ 0
    → make_response_packet (pos content) (pos host) p ≡ ok (response_packet content host w p)
unfolding make_response_packet fill_header set_octet
make_response_packet-eq content host p x y z w small small' e fresh =
    let a : content % 256 ≡ content = omega arith in
    let b : host % 256 ≡ host = omega arith in rw (e, fresh, a, b)

-- Room for a payload is made, and the header stays.
set_payload_size-room :
    (new : Allocator) (n : ℕ) (p : Packet)
    → length p.payload ≡ p.buffer_length
    → let q = set_payload_size new n p in
      (length q.payload ≡ q.buffer_length)
      × (n ≤ q.buffer_length)
      × (q.header ≡ p.header)
      × (q.size ≡ n)
unfolding set_payload_size
set_payload_size-room new n p whole = elim (Bool-cases (ltb p.buffer_length n)) [
  | inl grows ↦ rw grows (new.length-block (n * 3 / 2), ground (arith, grows), refl, refl)
  | inr fits ↦ rw fits (whole, ground (arith, fits), refl, refl)
]

pub fill_payload-datagram :
    (new : Allocator) (bytes : List ℕ) (p : Packet)
    → length p.payload ≡ p.buffer_length
    → (q : Packet) × (fill_payload new (length bytes) bytes p ≡ ok q)
      × (q.header ≡ p.header)
      × (q.size ≡ length bytes)
      × (take q.size q.payload ≡ bytes)
      × (length bytes ≤ length q.payload)
unfolding fill_payload
fill_payload-datagram new bytes p whole =
    let r = set_payload_size new (length bytes) p in
    let (whole', room, same, size) = set_payload_size-room new (length bytes) p whole in
    let all : take (length bytes) bytes ≡ bytes = take_all (length bytes) bytes (omega arith) in
    (
      record r { payload = bytes ++ drop (length bytes) r.payload },
      rw (le→leb (length bytes) (length bytes) (omega arith), guard)
          (rw (le→leb (length bytes) (length r.payload) (omega (arith, whole', room)), all)),
      same,
      size,
      ap (λ n. take n (bytes ++ drop (length bytes) r.payload)) size
          ∙ take-append bytes (drop (length bytes) r.payload),
      omega (arith, length-append bytes (drop (length bytes) r.payload)),
    )

pub send-datagram :
    (p : Packet) (s : Host) (bytes : List ℕ)
    → send_packet p ≡ ok bytes
    → send p s ≡ ok (record s { sent = s.sent ++ bytes ∷ [] })
unfolding send
send-datagram p s bytes e = rw e

answer_closed :
    (new : Allocator) (content host : ℕ) (s : Host)
    → content < 256
    → host < 256
    → s.files (fn_generator (pos content) true) ≡ none
    → answer_request new content host s ≡ fault out_of_range
unfolding answer_request
answer_closed new content host s small small' closed =
    let (x, y, z, w, e) = four_octets (new.block 4) (new.length-block 4) in
    rw closed
      (rw (make_response_packet-eq content host (new_packet new) x y z w small small' e refl) refl)

answer_opened :
    (new : Allocator) (content host : ℕ) (bytes : List ℕ) (s : Host)
    → content < 256
    → host < 256
    → length bytes + 4 ≤ mtu_size
    → s.files (fn_generator (pos content) true) ≡ some bytes
    → answer_request new content host s
      ≡ ok (record s { sent = s.sent ++ (3 ∷ response ∷ content ∷ host ∷ bytes ++ 255 ∷ []) ∷ [] })
unfolding answer_request
answer_opened new content host bytes s small small' fits opened =
    let p = new_packet new in
    let (x, y, z, w, e) = four_octets (new.block 4) (new.length-block 4) in
    let r = response_packet content host w p in
    let made = make_response_packet-eq content host p x y z w small small' e refl in
    let g = set_payload_size new (length bytes) r in
    let (whole, room, same, size) =
      set_payload_size-room new (length bytes) r (new.length-block 512) in
    let (q, filled, header, total, payload, held) =
      fill_payload-datagram new (bytes ++ 255 ∷ []) g whole in
    let n : length (bytes ++ 255 ∷ []) ≡ length bytes + 1 =
      omega (arith, length-append bytes (255 ∷ [])) in
    let three : q.header ≡ r.header = header ∙ same in
    let len : q.header.header_length ≡ 3 = ap (λ (h : PacketHdr). h.header_length) three in
    let info : q.header.info ≡ r.header.info = ap (λ (h : PacketHdr). h.info) three in
    let block : length q.header.info ≡ 4 = ap length info in
    let datagram : datagram_of q ≡ 3 ∷ response ∷ content ∷ host ∷ bytes ++ 255 ∷ [] =
      ap (λ (k : ℕ). (k % 256) ∷ take k q.header.info ++ take q.size q.payload) len
      ∙ ap (λ (i : List ℕ). 3 ∷ take 3 i ++ take q.size q.payload) info
      ∙ ap (λ (b : List ℕ). 3 ∷ response ∷ content ∷ host ∷ b) payload in
    let went : send_packet q ≡ ok (3 ∷ response ∷ content ∷ host ∷ bytes ++ 255 ∷ []) =
      send_packet-eq_datagram q (omega (arith, len, block)) (omega (arith, total, held))
        (omega (arith, total, n, len))
      ∙ ap ok datagram in
    let some_data : not (length (bytes ++ 255 ∷ []) == 0) ≡ true = ground (arith, n) in
    rw opened (rw made (rw (some_data, guard) (rw filled (send-datagram q s _ went))))

-- The file is small enough for the sending buffer.
abbrev pub FitsDatagram : Option (List ℕ) → Type 0
FitsDatagram none = Unit
FitsDatagram (some bytes) = length bytes + 4 ≤ mtu_size

abbrev pub answered : ℕ → ℕ → Option (List ℕ) → Host → Exec Host
answered content host none s = fault out_of_range
answered content host (some bytes) s =
    ok (record s { sent = s.sent ++ (3 ∷ response ∷ content ∷ host ∷ bytes ++ 255 ∷ []) ∷ [] })

-- A request of `host` for `content`, on both branches. If the file cannot be opened, `Data.at(0)`
-- throws. If it can, and it is small enough for the sending buffer, one datagram goes out: the
-- response header of three octets, the bytes of the file, and the octet 255 that reading past the
-- end of the file gave.
pub answer_request_lem :
    (new : Allocator) (content host : ℕ) (s : Host)
    → content < 256
    → host < 256
    → FitsDatagram (s.files (fn_generator (pos content) true))
    → answer_request new content host s
      ≡ answered content host (s.files (fn_generator (pos content) true)) s
answer_request_lem new content host s small small' fits =
    elim (Option-cases (s.files (fn_generator (pos content) true))) [
      | inl closed ↦
          answer_closed new content host s small small' closed
          ∙ ap (λ (o : Option (List ℕ)). answered content host o s) (sym closed)
      | inr (bytes, opened) ↦
          answer_opened new content host bytes s small small' (subst FitsDatagram opened fits)
            opened
          ∙ ap (λ (o : Option (List ℕ)). answered content host o s) (sym opened)
    ]

pub c_string-append :
    (bytes rest stale : List ℕ)
    → All (λ b. b ≢ 0) bytes
    → c_string stale ≡ ok rest
    → c_string (bytes ++ stale) ≡ ok (bytes ++ rest)
c_string-append [] rest stale a e = e
c_string-append (b ∷ bs) rest stale a e = ground (arith, a.0, c_string-append bs rest stale a.1 e)

-- A response with the content that the host has asked for, a text without zero octets, in a buffer
-- that holds `stale` behind it: the file that is written has the text and then whatever stands in
-- the buffer up to the next zero octet, not only the payload. The request is acknowledged.
pub take_response_lem :
    (content : ℕ) (text rest stale : List ℕ) (p : Packet) (s : Host)
    → s.content_number ≡ pos content
    → p.payload ≡ text ++ stale
    → All (λ b. b ≢ 0) text
    → c_string stale ≡ ok rest
    → (t : Host) × (take_response content p s ≡ ok t)
      × (t.files (fn_generator (pos content) false) ≡ some (text ++ rest))
      × (t.content_resp ≡ true)
      × (t.ackflag ≡ true)
      × (t.sent ≡ s.sent)
unfolding take_response
take_response_lem content text rest stale p s wanted held nonzero ends =
    let read : c_string p.payload ≡ ok (text ++ rest) =
      ap c_string held ∙ c_string-append text rest stale nonzero ends in
    let asked : (pos content ==ℤ s.content_number) ≡ true = rw wanted (ground arith) in
    (
      stop_arq_timer (record s {
        files = λ f.
            if same_file f (fn_generator (pos content) false)
            then some (text ++ rest)
            else s.files f;
        content_resp = true;
        ackflag = true;
      }),
      rw asked (rw read refl),
      ground arith,
      refl,
      refl,
      refl,
    )
