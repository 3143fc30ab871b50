-- ===== src/Router/Requests.antt =====
-- The REQUEST and RESPONSE cases of router.cpp as a whole.
use communication_network.Base.{
  ℕ, ◌<◌, ◌≡◌, refl, List, [], ◌∷◌, ◌++◌, Option, none, some, ok, get_elem?, if◌then◌else◌, arith,
  Option-cases, Bool-cases, inl, inr, All,
}
use mathlib.Core.List.{append-nil}
use communication_network.Wire.Packet.{Packet, send_packet}
use communication_network.Wire.Make.{request, response}
use communication_network.Router.Tables.{
  RtRecord, PrtRecord, find_route, find_pending, touch_pending, is_some, is_content_present_in_rt,
}
use communication_network.Router.State.{Receiver, Router, message_packet, polling, forward}
use communication_network.Router.Handlers.{new_pending, decide_request, decide_response, respond}
use communication_network.Router.Loop.{commit}
use communication_network.Router.Keys.{is_content_present_in_rt-eq}
use communication_network.Router.Ranges.{
  RouteInRange, PendingInRange, find_route-InRange, find_pending-InRange,
}
use communication_network.Router.Rounds.{
  content_octet, third_octet, settle, round, Carries, datagram_of, send_packet-eq_datagram,
  send_on-eq, fresh_caches, round-eq, decide-request, decide-response,
}

-- Where a request goes: to the interface of the route, if there is one.
abbrev pub along_route : Option RtRecord → Packet → List (ℕ × List ℕ)
along_route none p = []
along_route (some x) p = (x.interface, datagram_of p) ∷ []

-- Where a response goes: to the interface that the request came from, if one is pending.
abbrev pub to_requester : Option PrtRecord → Packet → List (ℕ × List ℕ)
to_requester none p = []
to_requester (some x) p = (x.interface, datagram_of p) ∷ []

-- The pending table once a request of `host` for `content` came in on interface `i`.
unfoldable pub await : ℕ → ℕ → ℕ → List PrtRecord → List PrtRecord
await content host i table =
    if is_some (find_pending content host table)
    then touch_pending content host table
    else table ++ new_pending content host i ∷ []

module _ {r : Receiver} {kind content third : ℕ} (m : Carries r kind content third 0) where
  open m use {last, octets, header_room, filled, fits}

  message_sends : send_packet (message_packet r) ≡ ok (datagram_of (message_packet r))
  message_sends =
      send_packet-eq_datagram (message_packet r) (rw octets (omega arith)) filled (omega arith)

forward-eq :
    (content : ℕ) (p : Packet) (s : Router)
    → All (RouteInRange s.num_interfaces) s.rt_local
    → send_packet p ≡ ok (datagram_of p)
    → forward (is_content_present_in_rt content s.rt_local) p s
      ≡ ok (record s { sent = s.sent ++ along_route (find_route content s.rt_local) p })
unfolding forward
forward-eq content p s a sends =
    rw (is_content_present_in_rt-eq content s.rt_local)
      (elim (Option-cases (find_route content s.rt_local)) [
        | inl missing ↦ rw missing (rw append-nil)
        | inr (x, found) ↦ rw found (
            send_on-eq x.interface p s
              (find_route-InRange s.num_interfaces content s.rt_local x a found).0 sends)
      ])

respond-eq :
    (o : Option PrtRecord) (p : Packet) (s : Router)
    → ((x : PrtRecord) → o ≡ some x → x.interface < s.num_interfaces)
    → send_packet p ≡ ok (datagram_of p)
    → respond o p s ≡ ok (record s { sent = s.sent ++ to_requester o p })
respond-eq none p s inside sends = rw append-nil
respond-eq (some x) p s inside sends = send_on-eq x.interface p s (inside x refl) sends

-- A request of `host` for `content` from interface `i`, taken by an undisturbed pass of the loop: it
-- is sent on through the interface of the route to the content, or nowhere if no route is known, and
-- the request is pending for its full time; the routing table stays.
pub request-round :
    (i content host : ℕ) (rest : List ℕ) (r : Receiver) (s : Router)
    → s.rt_local ≡ []
    → s.prt_local ≡ []
    → s.message_queue ≡ i ∷ rest
    → get_elem? s.receivers i ≡ some r
    → All (RouteInRange s.num_interfaces) s.routing_table
    → Carries r request content host 0
    → round s
      ≡ ok (record s {
        pending_table = await content host i s.pending_table;
        rt_local = [];
        prt_local = [];
        message_queue = rest;
        sent = s.sent ++ along_route (find_route content s.routing_table) (message_packet r);
        phase = polling;
      })
unfolding settle decide_request await commit
request-round i content host rest r s no_routes no_pendings queued found routes m =
    let u = fresh_caches rest s in
    rw (round-eq i rest r s no_routes no_pendings queued found) (
      rw (decide-request i rest r u content host m.last m.octets) (
        rw (content_octet m) (
          rw (third_octet m) (
            rw (forward-eq content (message_packet r) u routes (message_sends m))
              (elim (Bool-cases (is_some (find_pending content host s.pending_table))) [
                | inl known ↦ rw known
                | inr unknown ↦ rw unknown
              ])))))

-- A response to `host` with `content`, taken by an undisturbed pass of the loop: it is sent through
-- the interface of the pending request, or nowhere if none is pending. Both tables stay, so the
-- request is still pending.
pub response-round :
    (i content host : ℕ) (rest : List ℕ) (r : Receiver) (s : Router)
    → s.rt_local ≡ []
    → s.prt_local ≡ []
    → s.message_queue ≡ i ∷ rest
    → get_elem? s.receivers i ≡ some r
    → All (PendingInRange s.num_interfaces) s.pending_table
    → Carries r response content host 0
    → round s
      ≡ ok (record s {
        rt_local = [];
        prt_local = [];
        message_queue = rest;
        sent =
            s.sent ++ to_requester (find_pending content host s.pending_table) (message_packet r);
        phase = polling;
      })
unfolding settle decide_response commit
response-round i content host rest r s no_routes no_pendings queued found pendings m =
    let u = fresh_caches rest s in
    let inside = λ (x : PrtRecord) (e : find_pending content host s.pending_table ≡ some x).
      (find_pending-InRange s.num_interfaces content host s.pending_table x pendings e).0 in
    rw (round-eq i rest r s no_routes no_pendings queued found) (
      rw (decide-response i rest r u content host m.last m.octets) (
        rw (content_octet m) (
          rw (third_octet m) (
            rw (
              respond-eq (find_pending content host s.pending_table) (message_packet r) u inside
                (message_sends m))))))
