-- ===== src/Tests/Tables.antt =====
-- The tables of the router of Ambitious Version on concrete histories and packets.
use communication_network.Base.{
  ℕ, ◌≡◌, refl, pos, negsuc, List, [], ◌∷◌, ◌++◌, some, false, ok, arith, ◌>>=◌, All,
}
use communication_network.Wire.Packet.{Packet, send_packet, make_packet}
use communication_network.Wire.Make.{request, response, announcement}
use communication_network.Router.Rounds.{datagram_of}
use communication_network.Router.Broadcast.{to_all}
use communication_network.Ambitious.Pending.{
  PendingTableRecord, note_request, delete_record, get_interface_from_pending_table, new_record,
}
use communication_network.Ambitious.PendingLaws.{view, assign, note_request-delete_record_refine}
use communication_network.Ambitious.Routing.{
  RoutingTableRecord, note_announcement, get_interface_from_routing_table, fresh_route,
}
use communication_network.Ambitious.RoutingLaws.{route_of, better, route_of-note_announcement}
use communication_network.Ambitious.Main.{CdnRouter, process}
use communication_network.Ambitious.Answers.{Sendable, through, one_response_returns}
use communication_network.Ambitious.Spreading.{
  Announced, Reaches, from, note_all, note_all-Reaches_each, process-announcement, spread_packet,
}

abbrev asked : List PendingTableRecord
asked = new_record 7 5 0 ∷ record (new_record 8 5 1) { is_valid = false; timers = 0 } ∷ []

note_request-delete_record_refine_example :
    (view (note_request 8 5 2 asked) ≡ assign 8 5 (pos 2) (view asked))
    × (view (delete_record 8 5 asked) ≡ assign 8 5 (negsuc 0) (view asked))
note_request-delete_record_refine_example = note_request-delete_record_refine 8 5 2 asked

abbrev known : List RoutingTableRecord
known = fresh_route 7 3 0 ∷ fresh_route 8 1 1 ∷ []

route_of-note_announcement_example :
    route_of 7 (note_announcement 7 2 1 known) ≡ some (better 2 1 (route_of 7 known))
route_of-note_announcement_example = route_of-note_announcement 7 2 1 7 known

abbrev packet_with : ℕ → ℕ → ℕ → Packet
packet_with kind content third = record {
  size = 2;
  buffer_length = 3;
  payload = 104 ∷ 105 ∷ 0 ∷ [];
  header = record { info = kind ∷ content ∷ third ∷ 0 ∷ []; header_length = 3 };
}

sendable : (kind content third : ℕ) → Sendable (packet_with kind content third) kind content third
unfolding send_packet make_packet
sendable kind content third = record { last = 0; octets = refl; sends = refl }

abbrev router : CdnRouter
router = record { num_interfaces = 3; routing_table = known; pending_table = []; sent = [] }

one_response_returns_example :
    let p = packet_with request 7 5 in
    let q = packet_with response 7 5 in
    (t : CdnRouter) × ((process 2 p router >>= process 0 q >>= process 0 q) ≡ ok t)
    × (t.sent
        ≡ [] ++ (through (get_interface_from_routing_table 7 known) p ++ (2, datagram_of q) ∷ []))
    × (get_interface_from_pending_table 7 5 t.pending_table ≡ negsuc 0)
unfolding get_interface_from_routing_table
one_response_returns_example =
    one_response_returns 2 0 0 7 5 (packet_with request 7 5) (packet_with response 7 5) router
      (sendable request 7 5) (sendable response 7 5) (omega arith) (omega arith)

process-announcement_example :
    process 1 (packet_with announcement 7 0) router
    ≡ ok (record router {
      routing_table = note_announcement 7 0 1 known;
      sent = [] ++ to_all (from 3 0) (spread_packet 7 0 0 (packet_with announcement 7 0));
    })
unfolding send_packet make_packet
process-announcement_example =
    process-announcement 1 7 0 0 (packet_with announcement 7 0) router refl refl

abbrev heard : List Announced
heard =
    record { content = 7; hops = 2; interface = 0 }
    ∷ record { content = 7; hops = 1; interface = 1 }
    ∷ record { content = 9; hops = 4; interface = 1 }
    ∷ []

note_all-Reaches_each_example :
    All (λ a. Reaches a.hops (route_of a.content (note_all heard known))) heard
note_all-Reaches_each_example = note_all-Reaches_each heard known
