-- ===== src/Tests/Routers.antt =====
-- A run of a router with two interfaces, from a datagram to the stored route.
use communication_network.Base.{
  ◌⊎◌, overrun, ◌≡◌, ◌≢◌, refl, [], ◌∷◌, false, ok, fault, out_of_range, All,
}
use communication_network.Wire.Header.{get_octet, set_octet}
use communication_network.Wire.Packet.{
  send_packet, receive_packet, extract_header, receive_from, fill_payload, make_packet,
}
use communication_network.Wire.Make.{announcement}
use communication_network.Router.Tables.{find_route}
use communication_network.Router.State.{
  Router, push_route, polling, committing, cache_pending, cache_routes, send_on,
}
use communication_network.Router.Loop.{poll, commit, receive, decide}
use communication_network.Router.Handlers.{broadcast}
use communication_network.Router.Steps.{
  Reach, here, next, started, caches_pending, caches_routes, polls, commits, receives,
}
use communication_network.Router.Keys.{UniqueRoutes, UniquePendings}
use communication_network.Router.Ranges.{RouteInRange, PendingInRange}
use communication_network.Router.Safety.{reachable_tables, poll_never_out_of_range}
use communication_network.Tests.Values.{heard_thread, two_threads, thread, route_7, zeroed}

-- Content 7 is announced on interface 1, through the whole of the code.
abbrev base : Router
base = record {
  num_interfaces = 2;
  routing_table = [];
  pending_table = [];
  rt_local = [];
  prt_local = [];
  receivers = two_threads;
  message_queue = [];
  sent = [];
  phase = polling;
}

abbrev arrived : Router
arrived = record base { receivers = thread 0 0 0 0 ∷ heard_thread 0 3 ∷ []; message_queue = 1 ∷ [] }

abbrev decided : Router
decided = record base {
  receivers = thread 0 0 0 0 ∷ heard_thread 1 4 ∷ [];
  sent = (0, 4 ∷ announcement ∷ 7 ∷ 1 ∷ 0 ∷ []) ∷ [];
  phase = committing (push_route route_7);
}

arrives : receive zeroed 1 false (3 ∷ announcement ∷ 7 ∷ 0 ∷ []) base ≡ ok arrived
unfolding receive receive_packet extract_header receive_from fill_payload
arrives = refl

decides : poll (cache_routes (cache_pending arrived)) ≡ ok decided
unfolding poll cache_routes cache_pending decide get_octet set_octet find_route broadcast send_on
    send_packet make_packet
decides = refl

ready_to_poll : Reach (started two_threads) (cache_routes (cache_pending arrived))
unfolding started cache_pending
ready_to_poll =
    next (next (next here (receives zeroed 1 false _ arrives)) (caches_pending refl))
      (caches_routes refl)

stored : Reach (started two_threads) (commit (push_route route_7) decided)
unfolding cache_routes
stored = next (next ready_to_poll (polls refl decides)) (commits (push_route route_7) refl)

reachable_tables_example :
    let t = commit (push_route route_7) decided in
    UniqueRoutes t.routing_table
    × UniquePendings t.pending_table
    × All (RouteInRange t.num_interfaces) t.routing_table
    × All (PendingInRange t.num_interfaces) t.pending_table
reachable_tables_example = reachable_tables two_threads stored

poll_never_out_of_range_example :
    let t = cache_routes (cache_pending arrived) in
    (poll t ≢ fault out_of_range) × ((poll t ≡ fault overrun) ⊎ ((u : Router) × (poll t ≡ ok u)))
unfolding cache_routes
poll_never_out_of_range_example = poll_never_out_of_range two_threads ready_to_poll refl
