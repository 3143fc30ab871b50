-- ===== src/Host/Threads.antt =====
-- The three threads of a host: the commands of `main`, the receiving thread `rxthread`, and `bcast`.
use communication_network.Base.{
  ℕ, ℤ, pos, List, [], ◌∷◌, ◌++◌, Option, none, some, true, false, Exec, ok, fault, overrun,
  out_of_range, guard, ◌>>◌, ◌>>=◌, ◌==◌, if◌then◌else◌, length, ltb_ℤ, not,
}
use communication_network.Wire.Header.{get_octet}
use communication_network.Wire.Packet.{
  Packet, Allocator, packet, default_payload_size, set_payload_size, fill_payload,
}
use communication_network.Wire.Header.{max_header_size}
use communication_network.Wire.Make.{
  packet_type_pos, contentid_pos, hostid_or_hops_pos, request, response, make_request_packet,
  make_response_packet, make_announcement_packet,
}
use communication_network.Host.State.{
  fn_generator, ◌==ℤ◌, same_file, Host, send, start_arq_timer, stop_arq_timer,
}

-- `new Packet()`.
abbrev pub new_packet : Allocator → Packet
new_packet new =
    packet default_payload_size (new.block default_payload_size) (new.block max_header_size)

-- `std::find`: the element, or what stands at `end()`, which the code reads as well.
abbrev pub find_or_end : (List ℤ → ℤ) → ℤ → List ℤ → List ℤ → ℤ
find_or_end past_end c all [] = past_end all
find_or_end past_end c all (x ∷ xs) = if x ==ℤ c then x else find_or_end past_end c all xs

-- PUT. `past_end` is what `*list1.end()` gives.
unfoldable pub put : (List ℤ → ℤ) → ℤ → Host → Host
put past_end c_id s = elim (s.files (fn_generator c_id true)) [
  | none ↦ s
  | some bytes ↦
      if ltb_ℤ (pos 0) (find_or_end past_end c_id s.list1 s.list1)
      then s
      else record s { list1 = s.list1 ++ c_id ∷ [] }
]

abbrev pub remove : ℤ → List ℤ → List ℤ
remove c [] = []
remove c (x ∷ xs) = if x ==ℤ c then remove c xs else x ∷ remove c xs

-- DEL.
unfoldable pub del : ℤ → Host → Host
del c_id s = record s { list1 = remove c_id s.list1 }

-- GET up to and with `sendPacket`: the packet is sent before the flag is cleared.
unfoldable pub get : Allocator → ℤ → Host → Exec (Packet × Host)
unfolding send make_request_packet
get new c_id s = do
  p ← make_request_packet c_id s.host_id (new_packet new)
  t ← send p (record s { content_number = c_id; content_resp = false })
  ok (p, t)

-- GET after it: `lastPkt_`, the flag and the timer.
unfoldable pub arm : Packet → Host → Host
arm p s = start_arq_timer (record s { last_pkt = some p; ackflag = false })

-- The loop on `file.good()`: the character that `get` returns at the end of the file is pushed too.
abbrev pub read_all : Option (List ℕ) → List ℕ
read_all none = []
read_all (some bytes) = bytes ++ 255 ∷ []

-- `setPayloadSize(FileSize)`. Without a file `tellg` gives -1, and `Data.at(0)` throws next.
abbrev pub set_file_size : Allocator → Option (List ℕ) → Packet → Packet
set_file_size new none p = p
set_file_size new (some bytes) p = set_payload_size new (length bytes) p

-- A request arrives.
unfoldable pub answer_request : Allocator → ℕ → ℕ → Host → Exec Host
unfolding send make_response_packet fill_payload set_payload_size
answer_request new content host s = do
  let file = s.files (fn_generator (pos content) true)
  let content_data = read_all file
  p ← make_response_packet (pos content) (pos host) (new_packet new)
  guard (not (length content_data == 0)) out_of_range
  q ← fill_payload new (length content_data) content_data (set_file_size new file p)
  send q s

-- `myfile << getPayload()` writes the buffer up to the first zero octet.
abbrev pub c_string : List ℕ → Exec (List ℕ)
c_string [] = fault overrun
c_string (b ∷ bs) = if b == 0 then ok [] else c_string bs >>= λ rest. ok (b ∷ rest)

-- A response arrives.
unfoldable pub take_response : ℕ → Packet → Host → Exec Host
take_response content p s =
    let name = fn_generator (pos content) false in
    if pos content ==ℤ s.content_number
    then c_string p.payload >>= (λ written. ok (
        stop_arq_timer (record s {
          files = λ f. if same_file f name then some written else s.files f;
          content_resp = true;
          ackflag = true;
        })))
    else ok s

-- `rxthread`, on the packet that the port returns.
unfoldable pub rx : Allocator → Packet → Host → Exec Host
unfolding answer_request take_response
rx new p s = do
  content ← get_octet contentid_pos p.header
  host ← get_octet hostid_or_hops_pos p.header
  kind ← get_octet packet_type_pos p.header
  (if kind == request
      then answer_request new content host s
      else (if kind == response then take_response content p s else ok s))

-- `bcast`: one packet for all contents.
unfoldable pub announce_all : List ℤ → Packet → Host → Exec Host
unfolding send make_announcement_packet
announce_all [] p s = ok s
announce_all (c ∷ cs) p s = do
  q ← make_announcement_packet c (pos 0) p
  t ← send q s
  announce_all cs q t

unfoldable pub bcast : Allocator → Host → Exec Host
unfolding announce_all
bcast new s = announce_all s.list1 (new_packet new) s
