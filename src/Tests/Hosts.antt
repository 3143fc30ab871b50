-- ===== src/Tests/Hosts.antt =====
-- A host on concrete commands, files and packets.
use communication_network.Base.{
  ℕ, ◌≡◌, refl, pos, List, [], ◌∷◌, ◌++◌, Option, none, some, true, false, ok, fault, overrun,
  arith, if◌then◌else◌, ◌&&◌,
}
use communication_network.Wire.Header.{set_octet}
use communication_network.Wire.Packet.{Packet, send_packet, make_packet}
use communication_network.Wire.Make.{
  request, response, announcement, make_request_packet, fill_header,
}
use communication_network.Host.State.{
  FileName, fn_generator, ◌==ℤ◌, same_file, Host, send, timer_proc_of,
}
use communication_network.Host.Threads.{
  new_packet, put, del, get, arm, bcast, answer_request, take_response,
}
use communication_network.Host.Contents.{holds, has_file, put-del_refine}
use communication_network.Host.Announcing.{bcast_round}
use communication_network.Host.Answering.{answered, answer_request_lem, take_response_lem}
use communication_network.Host.Quiet.{runs}
use communication_network.Host.Retrying.{here, next, gets, arms, booted, request_is_repeated}
use communication_network.Tests.Values.{zeros, zeroed}

abbrev file_7 : FileName → Option (List ℕ)
file_7 f = if same_file f (fn_generator (pos 7) true) then some (104 ∷ 105 ∷ []) else none

abbrev idle_host : Host
idle_host = booted (pos 5) file_7 true

abbrev offering : Host
offering = record idle_host { list1 = pos 3 ∷ [] }

put-del_refine_example :
    (holds (pos 7) (put (λ xs. pos 0) (pos 7) offering).list1 ≡ (
      if has_file (file_7 (fn_generator (pos 7) true)) && (pos 7 ==ℤ pos 7)
      then true
      else holds (pos 7) (pos 3 ∷ [])))
    × (holds (pos 7) (del (pos 7) offering).list1
        ≡ (if pos 7 ==ℤ pos 7 then false else holds (pos 7) (pos 3 ∷ [])))
put-del_refine_example = put-del_refine (λ xs. pos 0) (pos 7) (pos 7) offering (omega arith)

bcast_round_example :
    (bcast zeroed (record offering { list1 = [] }) ≡ ok (record offering { list1 = [] }))
    × (bcast zeroed (record offering { list1 = pos 3 ∷ [] })
        ≡ ok (record offering {
          list1 = pos 3 ∷ [];
          sent = [] ++ (3 ∷ announcement ∷ 3 ∷ 0 ∷ []) ∷ [];
        }))
    × (bcast zeroed (record offering { list1 = pos 3 ∷ pos 7 ∷ [] }) ≡ fault overrun)
bcast_round_example = bcast_round zeroed (pos 3) (pos 7) [] offering

answer_request_lem_example :
    answer_request zeroed 7 9 offering ≡ answered 7 9 (file_7 (fn_generator (pos 7) true)) offering
answer_request_lem_example =
    answer_request_lem zeroed 7 9 offering (omega arith) (omega arith) (omega arith)

abbrev waiting : Host
waiting = record offering { content_number = pos 7; ackflag = false; timers = 1 ∷ []; tid = 1 }

abbrev reply : Packet
reply = record {
  size = 2;
  buffer_length = 5;
  payload = 104 ∷ 105 ∷ 9 ∷ 0 ∷ 4 ∷ [];
  header = record { info = response ∷ 7 ∷ 5 ∷ 0 ∷ []; header_length = 3 };
}

take_response_lem_example :
    (t : Host) × (take_response 7 reply waiting ≡ ok t)
    × (t.files (fn_generator (pos 7) false) ≡ some (104 ∷ 105 ∷ 9 ∷ []))
    × (t.content_resp ≡ true)
    × (t.ackflag ≡ true)
    × (t.sent ≡ [])
take_response_lem_example =
    take_response_lem 7 (104 ∷ 105 ∷ []) (9 ∷ []) (9 ∷ 0 ∷ 4 ∷ []) reply waiting refl refl
      (omega arith, (omega arith, tt)) refl

-- GET of content 7.
abbrev asking : Packet
asking = record (new_packet zeroed) {
  header = record { info = request ∷ 7 ∷ 5 ∷ 0 ∷ []; header_length = 3 };
}

abbrev asked : Host
asked = record idle_host { content_number = pos 7; sent = (3 ∷ request ∷ 7 ∷ 5 ∷ []) ∷ [] }

gets_7 : get zeroed (pos 7) idle_host ≡ ok (asking, asked)
unfolding get make_request_packet fill_header set_octet send send_packet make_packet zeros
gets_7 = refl

request_is_repeated_example :
    (runs 1 (1 ∷ []) ≡ true)
    × ((t : Host) × (bytes : List ℕ) × (timer_proc_of 1 (arm asking asked) ≡ ok t)
        × (send_packet asking ≡ ok bytes)
        × (t.sent ≡ (3 ∷ request ∷ 7 ∷ 5 ∷ []) ∷ bytes ∷ [])
        × (t.ackflag ≡ false)
        × (runs t.tid t.timers ≡ true))
unfolding arm
request_is_repeated_example =
    request_is_repeated (pos 5) file_7 true asking
      (next (next here (gets zeroed (pos 7) gets_7)) arms) refl refl
