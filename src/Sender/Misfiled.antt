-- ===== src/Sender/Misfiled.antt =====
-- A response of Ambitious Version/sender.cpp, and where the program that receives it keeps it.
use communication_network.Base.{
  ◌≢◌, All, All-append, if◌then◌else◌, ℕ, ◌+◌, ◌%◌, ◌≤◌, ◌≡◌, refl, ap, ◌∙◌, pos, List, [], ◌∷◌,
  ◌++◌, some, true, ok, or_fault, guard, arith, length, take, drop, get_elem?, not, ◌==◌,
  length-append,
}
use communication_network.Wire.Header.{PacketHdr, set_octet, get_octet, four_octets}
use communication_network.Wire.Packet.{
  Packet, Allocator, ReceivingPort, send_packet, receive_packet, mtu_size,
}
use communication_network.Wire.Make.{response}
use communication_network.Wire.Received.{IsReady, received, receive_packet-eq}
use communication_network.Router.Rounds.{datagram_of, send_packet-eq_datagram}
use communication_network.Host.State.{FileName, Host, fn_generator, same_file, stop_arq_timer}
use communication_network.Host.Threads.{new_packet, c_string}
use communication_network.Host.Answering.{fill_payload-datagram, send-datagram, c_string-append}
use communication_network.Sender.Threads.{send_data, keep_data, rx_data}

-- The datagram that answers a request: a header of one octet, and no content in it.
abbrev pub data_datagram : List ℕ → List ℕ
data_datagram bytes = 1 ∷ response ∷ bytes ++ 255 ∷ []

send_data-eq :
    (new : Allocator) (content : ℕ) (bytes : List ℕ) (s : Host)
    → s.files (fn_generator (pos content) true) ≡ some bytes
    → length bytes + 2 ≤ mtu_size
    → send_data new content s ≡ ok (record s { sent = s.sent ++ data_datagram bytes ∷ [] })
unfolding send_data set_octet
send_data-eq new content bytes s opened fits =
    let (x, y, z, w, e) = four_octets (new.block 4) (new.length-block 4) in
    let h : PacketHdr = record { info = response ∷ y ∷ z ∷ w ∷ []; header_length = 1 } in
    let p = record (new_packet new) { header = h } in
    let (q, filled, header, total, payload, held) =
      fill_payload-datagram new (bytes ++ 255 ∷ []) p (new.length-block 512) in
    let n : length (bytes ++ 255 ∷ []) ≡ length bytes + 1 =
      omega (arith, length-append bytes (255 ∷ [])) in
    let len : q.header.header_length ≡ 1 = ap (λ (g : PacketHdr). g.header_length) header in
    let info : q.header.info ≡ h.info = ap (λ (g : PacketHdr). g.info) header in
    let block : length q.header.info ≡ 4 = ap length info in
    let datagram : datagram_of q ≡ data_datagram bytes =
      ap (λ (k : ℕ). (k % 256) ∷ take k q.header.info ++ take q.size q.payload) len
      ∙ ap (λ (i : List ℕ). 1 ∷ take 1 i ++ take q.size q.payload) info
      ∙ ap (λ (b : List ℕ). 1 ∷ response ∷ b) payload in
    let went : send_packet q ≡ ok (data_datagram bytes) =
      send_packet-eq_datagram q (omega (arith, len, block)) (omega (arith, total, held))
        (omega (arith, total, n, len))
      ∙ ap ok datagram in
    let some_data : not (length (bytes ++ 255 ∷ []) == 0) ≡ true = ground (arith, n) in
    rw opened (rw e (rw (some_data, guard) (rw filled (send-datagram q s _ went))))

drop-octet :
    (info : List ℕ) {stale : ℕ}
    → get_elem? info 1 ≡ some stale
    → get_elem? (response ∷ drop 1 info) 1 ≡ some stale
drop-octet [] e = absurd (cc)
drop-octet (x ∷ []) e = absurd (cc)
drop-octet (x ∷ y ∷ rest) e = e

keep_data-file :
    (stale : ℕ) (written : List ℕ) (p : Packet) (t : Host) (f : FileName)
    → c_string p.payload ≡ ok written
    → (u : Host) × (keep_data stale p t ≡ ok u)
      × (u.files f ≡ (
          if same_file f (record { index = pos stale; offered = true })
          then some written
          else t.files f))
      × (u.ackflag ≡ true)
      × (u.sent ≡ t.sent)
unfolding keep_data
keep_data-file stale written p t f read =
    let name : FileName = record { index = pos stale; offered = true } in
    (
      stop_arq_timer (record t {
        files = λ g. if same_file g name then some written else t.files g;
        ackflag = true;
      }),
      rw read refl,
      refl,
      refl,
      refl,
    )

-- A request for `content` comes to a program that has its file, a text without zero octets and small
-- enough for a datagram. The response that it sends does not say which content it is. It comes to
-- another program, whose ready port last read a header with `stale` as its content and holds `rest`
-- up to the next zero octet behind the place of the payload. That program writes the text, the octet
-- 255 and `rest` to the file of `stale`, leaves every other file as it was, that of `content` too if
-- it is another one, and takes its request for acknowledged.
pub response_is_misfiled :
    (new new' : Allocator) (content stale : ℕ) (bytes rest : List ℕ) (s t : Host)
    (port : ReceivingPort) (f : FileName)
    → s.files (record { index = pos content; offered = true }) ≡ some bytes
    → length bytes + 2 ≤ mtu_size
    → All (λ b. b ≢ 0) bytes
    → IsReady port
    → get_elem? port.pkt.header.info 1 ≡ some stale
    → c_string (drop (length bytes + 1) port.pkt.payload) ≡ ok rest
    → (got : ReceivingPort) × (u : Host) × (send_data new content s
        ≡ ok (record s { sent = s.sent ++ data_datagram bytes ∷ [] }))
      × (receive_packet new' (data_datagram bytes) port ≡ ok got)
      × (rx_data new' got.pkt t ≡ ok u)
      × (u.files f ≡ (
          if same_file f (record { index = pos stale; offered = true })
          then some ((bytes ++ 255 ∷ []) ++ rest)
          else t.files f))
      × (u.ackflag ≡ true)
      × (u.sent ≡ t.sent)
unfolding rx_data get_octet
response_is_misfiled new new' content stale bytes rest s t port f opened fits text ready old ends =
    let n : length (bytes ++ 255 ∷ []) ≡ length bytes + 1 =
      omega (arith, length-append bytes (255 ∷ [])) in
    let ps = bytes ++ 255 ∷ [] in
    let got = received (response ∷ []) ps port in
    let behind : c_string (drop (length ps) port.pkt.payload) ≡ ok rest =
      ap (λ (k : ℕ). c_string (drop k port.pkt.payload)) n ∙ ends in
    let full : All (λ b. b ≢ 0) ps =
      All-append (λ b. b ≢ 0) bytes (255 ∷ []) text (omega arith, tt) in
    let read = c_string-append ps rest (drop (length ps) port.pkt.payload) full behind in
    let (u, kept, file, acknowledged, quiet) = keep_data-file stale (ps ++ rest) got.pkt t f read in
    (
      got,
      u,
      send_data-eq new content bytes s opened fits,
      receive_packet-eq new' (response ∷ []) ps port (omega arith) (omega (arith, n)) ready,
      rw (drop-octet port.pkt.header.info old, or_fault) kept,
      file,
      acknowledged,
      quiet,
    )
