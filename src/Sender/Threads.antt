-- ===== src/Sender/Threads.antt =====
-- The threads of Ambitious Version/sender.cpp: rxthread, bcast and the commands of `main`. What they
-- share is that of a Host, with its port and timer (the fields `host_id`, `content_number` and
-- `content_resp` are not variables of this program, and nothing here reads or writes them).
use communication_network.Base.{
  ℕ, ℤ, pos, List, [], ◌∷◌, ◌++◌, some, true, false, Exec, ok, out_of_range, guard, ◌>>◌, ◌>>=◌,
  ◌==◌, if◌then◌else◌, length, not,
}
use communication_network.Wire.Header.{get_octet, set_octet}
use communication_network.Wire.Packet.{Packet, Allocator, fill_payload}
use communication_network.Wire.Make.{request, response, announcement, to_octet}
use communication_network.Host.State.{
  fn_generator, ◌==ℤ◌, same_file, Host, send, start_arq_timer, stop_arq_timer,
}
use communication_network.Host.Threads.{new_packet, find_or_end, remove, read_all, c_string}

-- PUT. What is read of the file is not used; a content whose search gives zero is pushed.
abbrev pub put_cid : (List ℤ → ℤ) → ℤ → Host → Host
put_cid past_end c_id s =
    if find_or_end past_end c_id s.list1 s.list1 ==ℤ pos 0
    then record s { list1 = s.list1 ++ c_id ∷ [] }
    else s

-- DEL.
abbrev pub delete_cid : ℤ → Host → Host
delete_cid c_id s = record s { list1 = remove c_id s.list1 }

-- The packet of GET: its header has the kind and the content, and no host.
unfoldable pub data_req_packet : Allocator → ℤ → Exec Packet
data_req_packet new c_id = do
  let p = new_packet new
  h ← set_octet request 0 p.header
  h ← set_octet (to_octet c_id) 1 h
  ok (record p { header = h })

-- GET.
unfoldable pub get_cid : Allocator → (List ℤ → ℤ) → ℤ → Host → Exec Host
unfolding data_req_packet send
get_cid new past_end c_id s =
    if find_or_end past_end c_id s.list1 s.list1 ==ℤ pos 0
    then (data_req_packet new c_id >>= λ p.
        send p s >>= λ t. ok (start_arq_timer (record t { last_pkt = some p; ackflag = false })))
    else ok s

-- rxthread, a request: only the kind is written to the header of the response.
unfoldable pub send_data : Allocator → ℕ → Host → Exec Host
unfolding fill_payload send
send_data new content s = do
  let data_read = read_all (s.files (fn_generator (pos content) true))
  let p = new_packet new
  h ← set_octet response 0 p.header
  guard (not (length data_read == 0)) out_of_range
  q ← fill_payload new (length data_read) data_read (record p { header = h })
  send q s

-- rxthread, a response: it is kept under the name of an offered content.
unfoldable pub keep_data : ℕ → Packet → Host → Exec Host
keep_data content p s =
    let name = fn_generator (pos content) true in
    c_string p.payload >>= λ written. ok (
      stop_arq_timer (record s {
        files = λ f. if same_file f name then some written else s.files f;
        ackflag = true;
      }))

-- rxthread, on the packet that the port returns.
unfoldable pub rx_data : Allocator → Packet → Host → Exec Host
unfolding send_data keep_data
rx_data new p s = do
  content ← get_octet 1 p.header
  kind ← get_octet 0 p.header
  (if kind == request
      then send_data new content s
      else (if kind == response then keep_data content p s else ok s))

-- The loop of bcast over the contents, on one packet.
unfoldable pub announce_cids : List ℤ → Packet → Host → Exec Host
unfolding send
announce_cids [] p s = ok s
announce_cids (c ∷ cs) p s = set_octet (to_octet c) 1 p.header >>= λ h.
    send (record p { header = h }) s >>= λ t. announce_cids cs (record p { header = h }) t

-- A round of bcast.
unfoldable pub bcast_cids : Allocator → Host → Exec Host
unfolding announce_cids
bcast_cids new s = do
  let p = new_packet new
  h ← set_octet announcement 0 p.header
  announce_cids s.list1 (record p { header = h }) s
