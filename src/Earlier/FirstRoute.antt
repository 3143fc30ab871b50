-- ===== src/Earlier/FirstRoute.antt =====
-- The interface that simple_router.cpp takes for a content, through all that the threads do.
use communication_network.Base.{
  lt-of_get_elem?, ok-injective, ℕ, ◌<◌, ◌≡◌, refl, sym, subst, ap, ◌∙◌, List, [], ◌∷◌, ◌++◌,
  Option, none, some, ok, ◌==◌, if◌then◌else◌, arith, inl, inr, Bool-cases,
}
use communication_network.Wire.Packet.{ReceivingPort}
use communication_network.Earlier.Tables.{RtRecord, PrtRecord, renew_route, scan_routes}
use communication_network.Earlier.State.{
  Change, add_pending, keep_pending, drop_pending, add_route, keep_route, no_change, RxThread,
  Shared,
}
use communication_network.Earlier.Handlers.{handle_packet, make_change}
use communication_network.Earlier.Steps.{
  System, Act, takes, copies_pendings, copies_routes, handles, changes, Step, acts, Reach, here,
  next, system_started,
}
use communication_network.Earlier.Decisions.{handle_packet-Handles}
use communication_network.Earlier.Acts.{SharedWithin, ThreadWithin}
use communication_network.Earlier.Safety.{
  SystemWithin, Reach-Within, system_started-Within, All-get_elem?,
}

-- The interface of the first route for a content.
abbrev next_hop : ℕ → List RtRecord → Option ℕ
next_hop c [] = none
next_hop c (r ∷ rs) = if r.c_id == c then some r.interface else next_hop c rs

next_hop-renew_route :
    (c d hops : ℕ) (table : List RtRecord)
    → next_hop c (renew_route d hops table) ≡ next_hop c table
unfolding renew_route
next_hop-renew_route c d hops [] = refl
next_hop-renew_route c d hops (r ∷ rs) = ground (arith, next_hop-renew_route c d hops rs)

next_hop-append :
    (c : ℕ) (table rear : List RtRecord) {i : ℕ}
    → next_hop c table ≡ some i
    → next_hop c (table ++ rear) ≡ some i
next_hop-append c [] rear e = absurd (cc)
next_hop-append c (r ∷ rs) rear {i} e = ground (arith, e, next_hop-append c rs rear {i = i})

make_change-next_hop :
    (k : Change) (s : Shared) (c : ℕ) {i : ℕ}
    → next_hop c s.routing_table ≡ some i
    → next_hop c (make_change k s).routing_table ≡ some i
unfolding make_change
make_change-next_hop (add_pending r) s c e = e
make_change-next_hop (keep_pending d h) s c e = e
make_change-next_hop (drop_pending d h) s c e = e
make_change-next_hop (add_route r) s c e = next_hop-append c s.routing_table (r ∷ []) e
make_change-next_hop (keep_route d hops) s c e = next_hop-renew_route c d hops s.routing_table ∙ e
make_change-next_hop no_change s c e = e

-- Handling a packet leaves the routing table to the change that follows.
handle_packet-same_routes :
    (i : ℕ) (unset : PrtRecord) (s : Shared) (t : RxThread) (r : Shared × RxThread)
    → i < s.num_interfaces
    → ThreadWithin s.num_interfaces t
    → handle_packet unset i t s ≡ ok r
    → s.routing_table ≡ r.0.routing_table
handle_packet-same_routes i unset s t r own x e =
    elim (handle_packet-Handles unset i t s own x.routes_copied x.pendings_copied) [
      | inl f ↦ absurd (cc)
      | inr (out, q, c, f, c_within) ↦
          ap (λ (z : Shared × RxThread). z.0.routing_table) (ok-injective (sym f ∙ e))
    ]

Act-next_hop :
    {n i : ℕ} {s v : Shared} {t u : RxThread}
    → Act i s t v u
    → (c k : ℕ) → i < n
    → SharedWithin n s
    → ThreadWithin n t
    → next_hop c s.routing_table ≡ some k
    → next_hop c v.routing_table ≡ some k
Act-next_hop (takes new dropped datagram at e) c k own w x f = f
Act-next_hop (copies_pendings at) c k own w x f = f
Act-next_hop (copies_routes at) c k own w x f = f
Act-next_hop {n} {i} {s} {v} {t} {u} (handles unset at e) c k own w x f =
    subst (λ (rs : List RtRecord). next_hop c rs ≡ some k)
      (handle_packet-same_routes i unset s t (v, u) (omega (arith, w.interfaces))
        (subst (λ (m : ℕ). ThreadWithin m t) (sym w.interfaces) x) e)
      f
Act-next_hop {n} {i} {s} {v} {t} {u} (changes d at) c k own w x f = make_change-next_hop d s c f

Step-next_hop :
    {n : ℕ} {m o : System}
    → Step m o
    → (c k : ℕ) → SystemWithin n m
    → next_hop c m.shared.routing_table ≡ some k
    → next_hop c o.shared.routing_table ≡ some k
Step-next_hop {n} {m} (acts {s} {t} {u} i found act) c k v f =
    let inside : i < n = omega (arith, lt-of_get_elem? m.threads i found, v.all_threads) in
    Act-next_hop act c k inside v.shared_within (All-get_elem? n m.threads i v.threads_within found)
      f

Reach-next_hop :
    {n : ℕ} {m o : System}
    → Reach m o
    → (c k : ℕ) → SystemWithin n m
    → next_hop c m.shared.routing_table ≡ some k
    → next_hop c o.shared.routing_table ≡ some k
Reach-next_hop here c k v f = f
Reach-next_hop (next r st) c k v f =
    Step-next_hop st c k (Reach-Within r v) (Reach-next_hop r c k v f)

next_hop-scan_routes :
    (c : ℕ) (table : List RtRecord) {r : RtRecord}
    → scan_routes c table ≡ some r
    → next_hop c table ≡ some r.interface
unfolding scan_routes
next_hop-scan_routes c [] e = absurd (cc)
next_hop-scan_routes c (x ∷ xs) {r} e = ground (arith, e, next_hop-scan_routes c xs {r = r})

route_of_next_hop :
    (c : ℕ) (table : List RtRecord) {k : ℕ}
    → next_hop c table ≡ some k
    → (x : RtRecord) × (scan_routes c table ≡ some x) × (x.interface ≡ k)
unfolding scan_routes
route_of_next_hop c [] e = absurd (cc)
route_of_next_hop c (r ∷ rs) {k} e = elim (Bool-cases (r.c_id == c)) [
  | inl same ↦ rw same (r, refl, ground (arith, e, same))
  | inr other ↦ rw other (route_of_next_hop c rs {k = k} (rw other at e))
]

-- Once the receiving threads have stored a route for a content, requests for it take that route's
-- interface for ever: no interleaving of them, whatever arrives, changes the interface of the first
-- route that the search for the content finds, also if it is announced with fewer hops elsewhere.
pub first_route_stays :
    (ports : List ReceivingPort) {m o : System} (c : ℕ) {r : RtRecord}
    → Reach (system_started ports) m
    → scan_routes c m.shared.routing_table ≡ some r
    → Reach m o
    → (x : RtRecord) × (scan_routes c o.shared.routing_table ≡ some x) × (x.interface ≡ r.interface)
first_route_stays ports {m} {o} c {r} start f later = route_of_next_hop c o.shared.routing_table (
    Reach-next_hop later c r.interface (Reach-Within start (system_started-Within ports))
      (next_hop-scan_routes c m.shared.routing_table f))
