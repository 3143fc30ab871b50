-- ===== src/Tests/EarlierRouters.antt =====
-- Runs of simple_router.cpp with concrete packets.
use communication_network.Base.{
  ◌⊎◌, overrun, ℕ, ◌≡◌, ◌≢◌, refl, List, [], ◌∷◌, ◌++◌, some, false, ok, fault, out_of_range, arith,
}
use communication_network.Wire.Header.{get_octet, set_octet}
use communication_network.Wire.Packet.{
  ReceivingPort, send_packet, receive_packet, extract_header, receive_from, fill_payload,
  make_packet,
}
use communication_network.Wire.Make.{request, response, announcement}
use communication_network.Earlier.Tables.{RtRecord, PrtRecord, scan_routes}
use communication_network.Earlier.State.{
  Shared, RxThread, add_route, send_at, taken, has_routes, changing,
}
use communication_network.Earlier.Handlers.{
  pending_of, route_to, take_packet, copy_pendings, copy_routes, send_to_others,
  handle_announcement, handle_packet, make_change, end_round, pass,
}
use communication_network.Earlier.Steps.{
  System, takes, copies_pendings, copies_routes, handles, changes, acts, Reach, here, next, ready,
  system_started,
}
use communication_network.Earlier.Sends.{RoutesWithin, PendingsWithin}
use communication_network.Earlier.Safety.{tables_within}
use communication_network.Earlier.FirstRoute.{first_route_stays}
use communication_network.Earlier.Passes.{
  Carries, after_request, unasked_response_erases, request_is_answered,
}
use communication_network.Tests.Values.{thread, zeroed}

abbrev blank : ReceivingPort
blank = (thread 0 0 0 0).port

abbrev carrying : ℕ → ℕ → ℕ → ℕ → RxThread
carrying kind content third len = ready (thread kind content third len).port

abbrev unset : PrtRecord
unset = pending_of 0 0 0

-- Content 7 is announced on interface 1 of two.
abbrev nothing : Shared
nothing = record { num_interfaces = 2; routing_table = []; pending_table = []; sent = [] }

abbrev heard : ℕ → ℕ → RxThread
heard hops len = record (carrying announcement 7 hops len) {
  port = record (thread announcement 7 hops len).port {
    tmp_buffer = 3 ∷ announcement ∷ 7 ∷ 0 ∷ [];
  };
  stage = taken;
}

abbrev told : Shared
told = record nothing { sent = (0, 4 ∷ announcement ∷ 7 ∷ 1 ∷ 0 ∷ []) ∷ [] }

-- The second round of the loop counts a fifth octet.
abbrev decided : RxThread
decided = record (heard 1 5) { stage = changing (add_route (route_to 7 0 1)) }

abbrev copied : RxThread
copied = record (heard 0 3) { stage = has_routes }

abbrev of_two : Shared → RxThread → System
of_two s t = record { shared = s; threads = ready blank ∷ t ∷ [] }

takes_it : take_packet zeroed false (3 ∷ announcement ∷ 7 ∷ 0 ∷ []) (ready blank) ≡ ok (heard 0 3)
unfolding take_packet receive_packet extract_header receive_from fill_payload
takes_it = refl

handles_it : handle_packet unset 1 copied nothing ≡ ok (told, decided)
unfolding handle_packet handle_announcement get_octet set_octet scan_routes send_to_others send_at
    send_packet make_packet
handles_it = refl

two_ports : List ReceivingPort
two_ports = blank ∷ blank ∷ []

ready_to_handle : Reach (system_started two_ports) (of_two nothing copied)
unfolding two_ports system_started copy_pendings copy_routes
ready_to_handle =
    next
      (next (next here (acts {u = heard 0 3} 1 refl (takes zeroed false _ refl takes_it)))
        (acts {u = copy_pendings nothing (heard 0 3)} 1 refl (copies_pendings refl)))
      (acts {u = copied} 1 refl (copies_routes refl))

abbrev with_route : System
with_route = of_two (record told { routing_table = route_to 7 0 1 ∷ [] }) (end_round decided)

stored : Reach (system_started two_ports) with_route
unfolding make_change
stored =
    next (next ready_to_handle (acts {u = decided} 1 refl (handles unset refl handles_it)))
      (acts {u = end_round decided} 1 refl (changes (add_route (route_to 7 0 1)) refl))

-- Then thread 0 takes an announcement as well.
abbrev goes_on : System
goes_on = record with_route { threads = heard 0 3 ∷ end_round decided ∷ [] }

later : Reach with_route goes_on
later = next here (acts {u = heard 0 3} 0 refl (takes zeroed false _ refl takes_it))

tables_within_example :
    RoutesWithin 2 nothing.routing_table
    × PendingsWithin 2 nothing.pending_table
    × (handle_packet unset 1 copied nothing ≢ fault out_of_range)
    × ((handle_packet unset 1 copied nothing ≡ fault overrun)
        ⊎ ((r : Shared × RxThread) × (handle_packet unset 1 copied nothing ≡ ok r)))
tables_within_example = tables_within two_ports 1 unset ready_to_handle refl

has_route_7 : scan_routes 7 with_route.shared.routing_table ≡ some (route_to 7 0 1)
unfolding scan_routes
has_route_7 = refl

first_route_stays_example :
    (x : RtRecord) × (scan_routes 7 goes_on.shared.routing_table ≡ some x) × (x.interface ≡ 1)
first_route_stays_example = first_route_stays two_ports 7 stored has_route_7 later

-- Three interfaces, the announcement comes on the first.
abbrev three : Shared
three = record nothing { num_interfaces = 3 }

octet_of :
    (kind content third len : ℕ)
    → get_octet 0 (thread kind content third len).port.pkt.header ≡ ok kind
unfolding get_octet
octet_of kind content third len = refl

carries : (kind content third : ℕ) → Carries kind content third (carrying kind content third 3)
unfolding get_octet
carries kind content third = record {
  no_routes = refl;
  no_pendings = refl;
  type_octet = refl;
  content_octet = refl;
  third_octet = refl;
}

-- Two hosts wait, one of them in two records, and a response arrives that neither asked for.
abbrev two_wait : Shared
two_wait = record nothing {
  pending_table = pending_of 8 5 1 ∷ pending_of 7 4 0 ∷ pending_of 8 5 0 ∷ [];
}

unasked_response_erases_example :
    pass unset 1 two_wait (carrying response 9 4 3)
    ≡ ok (
      record two_wait { pending_table = pending_of 7 4 0 ∷ pending_of 8 5 0 ∷ [] },
      end_round (carrying response 9 4 3),
    )
unasked_response_erases_example =
    unasked_response_erases unset 1 9 4 (carrying response 9 4 3) two_wait
      (pending_of 8 5 1 ∷ pending_of 7 4 0 ∷ []) [] (pending_of 7 4 0 ∷ pending_of 8 5 0 ∷ [])
      (pending_of 8 5 0) (pending_of 8 5 1) (carries response 9 4) refl refl refl refl refl

sends :
    (kind third : ℕ)
    → send_packet (carrying kind 7 third 3).port.pkt ≡ ok (3 ∷ kind ∷ 7 ∷ third ∷ [])
unfolding send_packet make_packet
sends kind third = refl

-- Host 5 asks on interface 0 for the content announced on interface 1.
abbrev asked_on : Shared
asked_on = with_route.shared

request_is_answered_example :
    let s = after_request 7 5 0 1 (3 ∷ request ∷ 7 ∷ 5 ∷ []) asked_on in
    (pass unset 0 asked_on (carrying request 7 5 3) ≡ ok (s, end_round (carrying request 7 5 3)))
    × (pass unset 1 s (carrying response 7 5 3)
        ≡ ok (
          record asked_on { sent = s.sent ++ (0, 3 ∷ response ∷ 7 ∷ 5 ∷ []) ∷ [] },
          end_round (carrying response 7 5 3),
        ))
request_is_answered_example =
    request_is_answered unset unset 0 1 7 5 (carrying request 7 5 3) (carrying response 7 5 3)
      asked_on (route_to 7 0 1) (3 ∷ request ∷ 7 ∷ 5 ∷ []) (3 ∷ response ∷ 7 ∷ 5 ∷ [])
      (carries request 7 5) (carries response 7 5) refl has_route_7 (omega arith) (omega arith)
      (sends request 5) (sends response 5)
