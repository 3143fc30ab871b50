-- ===== src/Tests/Locks.antt =====
-- Histories of the tables of Ambitious Version/Router1.h.
use communication_network.Base.{◌≡◌, refl, pos, List, [], ◌∷◌, ◌++◌}
use mathlib.Core.Quot.{Quot}
use communication_network.Ambitious.Store.{Observed, Traffic, asks, answers, run}
use communication_network.Locking.Orders.{plain_store, locked_store, LockedTable, order_forgotten}
use communication_network.Ambitious.Pending as Plain
use communication_network.Ambitious.Routing as PlainRouting
use communication_network.Ambitious.RoutingLaws.{better, route_of}
use communication_network.Ambitious.Timers.{Event, requested, responded, expired}
use communication_network.Ambitious.Timers as History
use communication_network.Locking.Pending.{get_interface_from_pending_table}
use communication_network.Locking.Routing.{get_interface_from_routing_table, note_announcement}
use communication_network.Locking.Alike.{after, plain_all, after-equals_plain}
use communication_network.Locking.Lifetimes.{WellTimed}
use communication_network.Locking.Lifetimes as Lifetimes
use communication_network.Locking.Histories.{
  RouteEvent, announced, deleted, timed_out, after-WellTimed, announcement_refines,
}
use communication_network.Locking.Histories as Routes

-- Host 5 asks for content 7 twice, gets it, asks again, and its timer ends.
abbrev asked_again : List Event
asked_again =
    requested 7 5 1
    ∷ requested 8 5 0
    ∷ requested 7 5 2
    ∷ responded 7 5
    ∷ requested 7 5 0
    ∷ expired 0
    ∷ []

after-equals_plain_example :
    (plain_all (after asked_again []) ≡ History.after asked_again [])
    × (get_interface_from_pending_table 8 5 (after asked_again [])
        ≡ Plain.get_interface_from_pending_table 8 5 (History.after asked_again []))
after-equals_plain_example = after-equals_plain asked_again 8 5

-- Content 7 comes nearer, times out, and is announced again.
abbrev nearer : List RouteEvent
nearer =
    announced 7 3 1
    ∷ announced 7 2 0
    ∷ announced 9 1 2
    ∷ timed_out 0
    ∷ announced 7 4 1
    ∷ deleted 9
    ∷ []

after-WellTimed_example : WellTimed (Routes.after nearer [])
after-WellTimed_example = after-WellTimed nearer

announcement_refines_example :
    (Lifetimes.plain_all (note_announcement 7 2 0 (Routes.after nearer []))
      ≡ PlainRouting.note_announcement 7 2 0 (Lifetimes.plain_all (Routes.after nearer [])))
    × (get_interface_from_routing_table 7 (note_announcement 7 2 0 (Routes.after nearer []))
        ≡ pos (better 2 0 (route_of 7 (Lifetimes.plain_all (Routes.after nearer [])))).1)
announcement_refines_example = announcement_refines nearer 7 2 0 7

-- Host 6 asks for content 7 before or after host 5 gets it.
abbrev before : List Traffic
before = asks 7 5 1 ∷ []

abbrev behind : List Traffic
behind = answers 7 6 ∷ asks 8 5 0 ∷ []

abbrev no_records : LockedTable
no_records = ([], tt)

order_forgotten_example :
    ◌≡◌ {A = Observed plain_store}
      (Quot.mk (run plain_store (before ++ asks 7 6 2 ∷ answers 7 5 ∷ behind) []))
      (Quot.mk (run plain_store (before ++ answers 7 5 ∷ asks 7 6 2 ∷ behind) []))
    × (◌≡◌ {A = Observed locked_store}
        (Quot.mk (run locked_store (before ++ asks 7 6 2 ∷ answers 7 5 ∷ behind) no_records))
        (Quot.mk (run locked_store (before ++ answers 7 5 ∷ asks 7 6 2 ∷ behind) no_records)))
    × (Plain.get_interface_from_pending_table 8 5
          (run plain_store (before ++ asks 7 6 2 ∷ answers 7 5 ∷ behind) [])
        ≡ Plain.get_interface_from_pending_table 8 5
            (run plain_store (before ++ answers 7 5 ∷ asks 7 6 2 ∷ behind) []))
order_forgotten_example =
    order_forgotten before behind (asks 7 6 2) (answers 7 5) [] no_records 8 5 refl
