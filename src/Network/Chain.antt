-- ===== src/Network/Chain.antt =====
-- A chain of routers between two hosts. A datagram that a router sends through the interface towards
-- its neighbour is the next one that the neighbour receives.
use communication_network.Base.{
  ℕ, ◌+◌, ◌≤◌, ◌<◌, ◌≡◌, ◌≢◌, List, [], ◌∷◌, Option, none, some, false, Exec, ok, fault, ◌>>=◌,
  length, drop, get_elem?, All, ◌==◌, if◌then◌else◌,
}
use communication_network.Wire.Packet.{Packet, Allocator, mtu_size}
use communication_network.Wire.Make.{request, response}
use communication_network.Wire.Received.{IsReady}
use communication_network.Router.Tables.{RtRecord, find_route, find_pending}
use communication_network.Router.State.{Receiver, Router}
use communication_network.Router.Loop.{receive}
use communication_network.Router.Rounds.{round}
use communication_network.Host.State.{Host}
use communication_network.Network.Exchange.{datagram}
use communication_network.Network.Hops.{IsIdle, after_request, after_response}

-- A router, the interface that the requests of the one host come in by, and the one that they leave by.
pub record Link : Type 0 where
  pub router : Router
  pub entry : ℕ
  pub exit : ℕ

-- What a router has sent in one pass, if it is one datagram through this interface.
abbrev pub only_through : ℕ → Router → List (ℕ × List ℕ) → Option (Router × List ℕ)
only_through exit R [] = none
only_through exit R ((k, d) ∷ []) = if k == exit then some (R, d) else none
only_through exit R (x ∷ y ∷ rest) = none

abbrev pub passed : ℕ → ℕ → Exec Router → Option (Router × List ℕ)
passed before exit (fault e) = none
passed before exit (ok R) = only_through exit R (drop before R.sent)

-- A datagram comes in by one interface, and what the router sends goes out by another.
unfoldable pub hop : Allocator → ℕ → ℕ → List ℕ → Router → Option (Router × List ℕ)
hop new entry exit d R = passed (length R.sent) exit (receive new entry false d R >>= round)

abbrev pub and_then {ℓ κ} : {A : Type ℓ} {B : Type κ} → Option A → (A → Option B) → Option B
and_then none f = none
and_then (some a) f = f a

-- From the first router to the last; each router as the datagram left it, and what the last one sent.
unfoldable pub travel : Allocator → List ℕ → List Link → Option (List Link × List ℕ)
unfolding hop
travel new d [] = some ([], d)
travel new d (l ∷ ls) =
    and_then (hop new l.entry l.exit d l.router) (λ r.
      and_then (travel new r.1 ls) (λ rest. some (record l { router = r.0 } ∷ rest.0, rest.1)))

-- And from the last router to the first.
unfoldable pub travel_back : Allocator → List ℕ → List Link → Option (List Link × List ℕ)
unfolding hop
travel_back new d [] = some ([], d)
travel_back new d (l ∷ ls) = and_then (travel_back new d ls) (λ rest.
    and_then (hop new l.exit l.entry rest.1 l.router)
      (λ r. some (record l { router = r.0 } ∷ rest.0, r.1)))

-- The router is idle, hears both neighbours with ready ports, has a route to the content through the
-- exit, and no request of the host for it pending.
pub record IsOpen (content host : ℕ) (l : Link) : Type 0 where
  pub idle : IsIdle l.router
  pub inside : l.entry < l.router.num_interfaces
  pub apart : l.entry ≢ l.exit
  pub way_in : Receiver
  pub way_out : Receiver
  pub found_in : get_elem? l.router.receivers l.entry ≡ some way_in
  pub found_out : get_elem? l.router.receivers l.exit ≡ some way_out
  pub ready_in : IsReady way_in.port
  pub ready_out : IsReady way_out.port
  pub route : RtRecord
  pub routed : find_route content l.router.routing_table ≡ some route
  pub towards : route.interface ≡ l.exit
  pub fresh : find_pending content host l.router.pending_table ≡ none

module _ (new : Allocator) (content host : ℕ) where
  abbrev asked : List ℕ
  asked = datagram request content host []

  -- A link after the request.
  abbrev noted : (l : Link) → IsOpen content host l → Link
  noted l o = record l { router = after_request l.entry content host o.way_in l.router }

  abbrev all_noted : (ls : List Link) → All (IsOpen content host) ls → List Link
  all_noted [] os = []
  all_noted (l ∷ ls) os = noted l os.0 ∷ all_noted ls os.1

  module _ (ps : List ℕ) (small : length ps + 4 ≤ mtu_size) where
    abbrev answer : List ℕ
    answer = datagram response content host ps

    abbrev relieved : (l : Link) → IsOpen content host l → Link
    relieved l o = record l {
      router = after_response l.exit content host ps o.way_out (noted l o).router;
    }

    abbrev all_relieved : (ls : List Link) → All (IsOpen content host) ls → List Link
    all_relieved [] os = []
    all_relieved (l ∷ ls) os = relieved l os.0 ∷ all_relieved ls os.1
