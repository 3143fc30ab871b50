-- ===== src/Ambitious/Hosts.antt =====
-- host.cpp of Ambitious Version. What its threads share is that of the other host (the field
-- `content_resp` is not a variable of this program, and nothing here reads or writes it). The reading
-- and writing of files, the ports and the timer are the same.
use communication_network.Base.{
  ℕ, ℤ, pos, negsuc, List, [], ◌∷◌, ◌++◌, none, some, true, false, Exec, ok, out_of_range, guard,
  ◌>>◌, ◌>>=◌, ◌==◌, if◌then◌else◌, length, ltb_ℤ, not,
}
use communication_network.Wire.Header.{get_octet}
use communication_network.Wire.Packet.{Packet, Allocator, fill_payload}
use communication_network.Wire.Make.{
  packet_type_pos, contentid_pos, request, response, make_request_packet, make_response_packet,
}
use communication_network.Host.State.{
  fn_generator, ◌==ℤ◌, same_file, Host, send, start_arq_timer, stop_arq_timer,
}
use communication_network.Host.Threads.{
  new_packet, find_or_end, remove, read_all, set_file_size, c_string, announce_all,
}

-- PUT. The search stands before the test of the command; `past_end` is what `*list1.end()` gives.
unfoldable pub put_content : (List ℤ → ℤ) → ℤ → Host → Host
put_content past_end c_id s =
    let found = find_or_end past_end c_id s.list1 s.list1 in
    elim (s.files (fn_generator c_id true)) [
      | none ↦ s
      | some bytes ↦ if ltb_ℤ (pos 0) found then s else record s { list1 = s.list1 ++ c_id ∷ [] }
    ]

-- DEL.
unfoldable pub delete_content : ℤ → Host → Host
delete_content c_id s = record s { list1 = remove c_id s.list1 }

-- GET: the packet is sent, then kept, and the timer started.
unfoldable pub request_content : Allocator → ℤ → Host → Exec Host
unfolding send make_request_packet
request_content new c_id s = do
  p ← make_request_packet c_id s.host_id (new_packet new)
  t ← send p (record s { content_number = c_id })
  ok (start_arq_timer (record t { last_pkt = some p; ackflag = false }))

-- A request arrives: the response is made with the host's own number, `hID`.
unfoldable pub answer_as_owner : Allocator → ℕ → Host → Exec Host
unfolding send make_response_packet fill_payload
answer_as_owner new content s = do
  let file = s.files (fn_generator (pos content) true)
  let content_data = read_all file
  p ← make_response_packet (pos content) s.host_id (new_packet new)
  guard (not (length content_data == 0)) out_of_range
  q ← fill_payload new (length content_data) content_data (set_file_size new file p)
  send q s

-- A response arrives: after it the host waits for no content.
unfoldable pub keep_response : ℕ → Packet → Host → Exec Host
keep_response content p s =
    let name = fn_generator (pos content) false in
    if pos content ==ℤ s.content_number
    then c_string p.payload >>= (λ written.
      ok
        (record (stop_arq_timer (record s {
          files = λ f. if same_file f name then some written else s.files f;
          ackflag = true;
        })) { content_number = negsuc 0 }))
    else ok s

-- `rxthread`, on the packet that the port returns.
unfoldable pub rx_packet : Allocator → Packet → Host → Exec Host
unfolding answer_as_owner keep_response
rx_packet new p s = do
  content ← get_octet contentid_pos p.header
  kind ← get_octet packet_type_pos p.header
  (if kind == request
      then answer_as_owner new content s
      else (if kind == response then keep_response content p s else ok s))

-- One round of `bcast`.
unfoldable pub announce_round : Allocator → Host → Exec Host
unfolding announce_all
announce_round new s = announce_all s.list1 (new_packet new) s
