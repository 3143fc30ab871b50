-- ===== src/Tests/Passes.antt =====
-- Undisturbed passes of the main loop on concrete messages.
use communication_network.Base.{
  ℕ, ◌<◌, ◌≡◌, refl, List, [], ◌∷◌, ◌++◌, none, ok, fault, overrun, pos, length, arith,
  if◌then◌else◌,
}
use communication_network.Wire.Make.{request, response, announcement}
use communication_network.Router.Tables.{RtRecord, PrtRecord, find_route}
use communication_network.Router.State.{Router, polling}
use communication_network.Router.Handlers.{announced}
use communication_network.Router.Rounds.{round, Carries}
use communication_network.Router.Broadcast.{others, to_all}
use communication_network.Router.Draining.{routes_expire}
use communication_network.Router.Expiry.{ticks_routes, expiry_is_serial}
use communication_network.Router.Announcements.{announcement-round, next_packet}
use communication_network.Router.Learning.{is_news, table_told}
use communication_network.Router.BestRoute.{Heard, Best, learn_all-Best, learn_all}
use communication_network.Router.StaleCache.{announcement_lost}
use communication_network.Router.HopLimit.{announcement_overrun}
use communication_network.Tests.Values.{thread, route_7}

abbrev pending_7 : PrtRecord
pending_7 = record { c_id = 7; h_id = 4; interface = 1; ttl_val = pos 15 }

-- A request of host 5 for content 7 on interface 0 and a response to it on interface 1.
abbrev busy : Router
busy = record {
  num_interfaces = 2;
  routing_table = route_7 ∷ [];
  pending_table = pending_7 ∷ [];
  rt_local = [];
  prt_local = [];
  receivers = thread request 7 5 3 ∷ thread response 7 5 3 ∷ thread announcement 7 0 3 ∷ [];
  message_queue = 0 ∷ 1 ∷ [];
  sent = [];
  phase = polling;
}

abbrev carried :
    (kind third spare : ℕ) → spare < 2 → Carries (thread kind 7 third 3) kind 7 third spare
carried kind third spare small = record {
  last = 0;
  octets = refl;
  header_room = omega arith;
  filled = omega arith;
  fits = omega arith;
}

abbrev answering : Router
answering = record busy {
  pending_table = record pending_7 { h_id = 5; interface = 0 } ∷ [];
  message_queue = 1 ∷ [];
}

-- The announcement of content 7 comes from interface 2 of three.
abbrev announcing : Router
announcing = record busy { num_interfaces = 3; message_queue = 2 ∷ [] }

announcement-round_example :
    (t : Router) × (round announcing ≡ ok t)
    × (t.routing_table ≡ table_told 7 0 2 announcing.routing_table)
    × (t.pending_table ≡ announcing.pending_table)
    × (t.message_queue ≡ [])
    × (t.sent
        ≡ []
          ++ (if is_news (find_route 7 announcing.routing_table) 0
              then to_all (others 3 0 2) (next_packet 7 0 0 (thread announcement 7 0 3))
              else []))
announcement-round_example =
    announcement-round 2 7 0 [] (thread announcement 7 0 3) announcing refl refl refl refl
      (omega arith) (carried announcement 0 1 (omega arith))

-- The cache of an idle pass still has content 7, the table no longer.
abbrev stale : Router
stale = record announcing { routing_table = []; rt_local = route_7 ∷ [] }

announcement_lost_example :
    (t : Router) × (round stale ≡ ok t)
    × (t.routing_table ≡ [])
    × (find_route 7 t.routing_table ≡ none)
unfolding find_route
announcement_lost_example =
    announcement_lost 2 7 0 [] (thread announcement 7 0 3) route_7 stale refl refl (omega arith)
      (carried announcement 0 1 (omega arith)) refl refl

-- The same announcement after one hop more: its header length is four.
abbrev hopped : Router
hopped = record announcing {
  routing_table = [];
  receivers = thread request 7 5 3 ∷ thread response 7 5 3 ∷ thread announcement 7 1 4 ∷ [];
}

announcement_overrun_example : round hopped ≡ fault overrun
announcement_overrun_example =
    announcement_overrun 2 0 7 1 0 [] (thread announcement 7 1 4) hopped refl refl refl refl refl
      (omega arith) (unfold announced find_route in refl) (omega arith) (omega arith)

abbrev three_routes : List RtRecord
three_routes =
    record route_7 { c_id = 1 } ∷ record route_7 { c_id = 2 } ∷ record route_7 { c_id = 3 } ∷ []

expiry_is_serial_example :
    (length (ticks_routes 6 three_routes) ≡ 1) × (ticks_routes 7 three_routes ≡ [])
expiry_is_serial_example = expiry_is_serial three_routes 2 (refl, (refl, (refl, tt))) refl

abbrev heard : List Heard
heard =
    record { content = 7; hops = 2; interface = 0 }
    ∷ record { content = 7; hops = 1; interface = 1 }
    ∷ record { content = 7; hops = 3; interface = 2 }
    ∷ []

learn_all-Best_example : Best 7 heard (find_route 7 (learn_all heard []))
learn_all-Best_example = learn_all-Best heard 7

routes_expire_example : ticks_routes 9 three_routes ≡ []
routes_expire_example =
    routes_expire 2 9 three_routes
      (
        (omega arith, omega arith, omega arith),
        ((omega arith, omega arith, omega arith), ((omega arith, omega arith, omega arith), tt)),
      )
      (omega arith)
