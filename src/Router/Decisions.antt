-- ===== src/Router/Decisions.antt =====
-- What the main thread has decided when it waits for the lock: an update that its caches justify,
-- with everything else as it was but the trace, the queue and the message's header.
use communication_network.Base.{
  ℕ, ◌+◌, ◌%◌, ◌<◌, ◌≡◌, refl, List, none, Bool, true, false, ◌⊎◌, inl, inr, Exec, overrun, ok,
  fault, length, if◌then◌else◌, arith, Option-cases, All, length-set,
}
use communication_network.Wire.Header.{get_octet-cases, set_octet-cases}
use communication_network.Wire.Packet.{Packet}
use communication_network.Wire.Make.{contentid_pos, hostid_or_hops_pos}
use communication_network.Router.Tables.{
  find_route, find_pending, is_some, is_content_present_in_rt,
}
use communication_network.Router.State.{
  Receiver, Update, Router, message_packet, push_pending, renew_pending, scan_pending, push_route,
  renew_route, committing,
}
use communication_network.Router.Handlers.{
  broadcast, announced, set_header, decide_request, decide_response, decide_announcement,
  new_pending,
}
use communication_network.Router.Keys.{is_content_present_in_rt-eq}
use communication_network.Router.Effects.{
  CanSend, forward-OnlySends, respond-OnlySends, broadcast-OnlySends, OnlySends,
}
use communication_network.Router.Ranges.{
  RouteInRange, PendingInRange, refresh_route-InRange, find_route-InRange, find_pending-InRange,
}

abbrev pub Justified : Router → Update → Type 0
Justified s (push_pending r) =
    (find_pending r.c_id r.h_id s.prt_local ≡ none) × PendingInRange s.num_interfaces r
Justified s (renew_pending c h) = Unit {0}
Justified s scan_pending = Unit {0}
Justified s (push_route r) = (find_route r.c_id s.rt_local ≡ none) × RouteInRange s.num_interfaces r
Justified s (renew_route r) = RouteInRange s.num_interfaces r

pub record Decided (s t : Router) : Type 0 where
  pub update : Update
  pub justified : Justified s update
  pub at_lock : t.phase ≡ committing update
  pub interfaces : t.num_interfaces ≡ s.num_interfaces
  pub routes : t.routing_table ≡ s.routing_table
  pub pendings : t.pending_table ≡ s.pending_table
  pub routes_cached : t.rt_local ≡ s.rt_local
  pub pendings_cached : t.prt_local ≡ s.prt_local
  pub queued : t.message_queue ≡ s.message_queue
  pub threads : length t.receivers ≡ length s.receivers

abbrev pub Decides : Router → Exec Router → Type 0
Decides s r = (r ≡ fault overrun) ⊎ ((t : Router) × (r ≡ ok t) × Decided s t)

-- Where only the trace and the phase differ.
sends_and_waits :
    (s : Router) (out : List (ℕ × List ℕ)) (u : Update)
    → Justified s u
    → Decided s (record s { sent = out; phase = committing u })
sends_and_waits s out u j = record {
  update = u;
  justified = j;
  at_lock = refl;
  interfaces = refl;
  routes = refl;
  pendings = refl;
  routes_cached = refl;
  pendings_cached = refl;
  queued = refl;
  threads = refl;
}

request_update-Justified :
    (i c h : ℕ) (s : Router)
    → i < s.num_interfaces
    → Justified s (
        if is_some (find_pending c h s.prt_local)
        then renew_pending c h
        else push_pending (new_pending c h i))
unfolding new_pending
request_update-Justified i c h s inside = elim (Option-cases (find_pending c h s.prt_local)) [
  | inl missing ↦ rw missing (missing, (inside, omega arith, omega arith))
  | inr (r, found) ↦ rw found tt
]

-- The search for a route gives an interface that exists, or -1.
route-CanSend :
    (c : ℕ) (s : Router)
    → All (RouteInRange s.num_interfaces) s.rt_local
    → CanSend s (is_content_present_in_rt c s.rt_local)
route-CanSend c s a =
    rw (is_content_present_in_rt-eq c s.rt_local) (elim (Option-cases (find_route c s.rt_local)) [
      | inl missing ↦ rw missing tt
      | inr (r, found) ↦ rw found (find_route-InRange s.num_interfaces c s.rt_local r a found).0
    ])

pub decide_request-Decides :
    (i : ℕ) (p : Packet) (s : Router)
    → i < s.num_interfaces
    → All (RouteInRange s.num_interfaces) s.rt_local
    → Decides s (decide_request i p s)
unfolding decide_request
decide_request-Decides i p s inside a = elim (get_octet-cases contentid_pos p.header) [
  | inl e ↦ inl (rw e)
  | inr (c, e) ↦ elim (get_octet-cases hostid_or_hops_pos p.header) [
    | inl f ↦ inl (rw e (rw f))
    | inr (h, f) ↦
        elim (forward-OnlySends (is_content_present_in_rt c s.rt_local) p s (route-CanSend c s a)) [
          | inl g ↦ inl (rw e (rw f (rw g)))
          | inr (out, g) ↦ inr (
            record s { sent = out; phase = committing _ },
            rw e (rw f (rw g)),
            sends_and_waits s out _ (request_update-Justified i c h s inside),
          )
        ]
  ]
]

pub decide_response-Decides :
    (p : Packet) (s : Router)
    → All (PendingInRange s.num_interfaces) s.prt_local
    → Decides s (decide_response p s)
unfolding decide_response
decide_response-Decides p s a = elim (get_octet-cases contentid_pos p.header) [
  | inl e ↦ inl (rw e)
  | inr (c, e) ↦ elim (get_octet-cases hostid_or_hops_pos p.header) [
    | inl f ↦ inl (rw e (rw f))
    | inr (h, f) ↦
        elim (respond-OnlySends (find_pending c h s.prt_local) p s
          λ x found. (find_pending-InRange s.num_interfaces c h s.prt_local x a found).0) [
            | inl g ↦ inl (rw e (rw f (rw g)))
            | inr (out, g) ↦ inr (
              record s { sent = out; phase = committing scan_pending },
              rw e (rw f (rw g)),
              sends_and_waits s out scan_pending tt,
            )
          ]
  ]
]

-- The record that an announcement leads to is in range, and new only if the cache lacks it.
announced-Justified :
    (c hops i : ℕ) (s : Router)
    → i < s.num_interfaces
    → All (RouteInRange s.num_interfaces) s.rt_local
    → Justified s (announced (find_route c s.rt_local) c hops i).0
unfolding announced
announced-Justified c hops i s inside a = elim (Option-cases (find_route c s.rt_local)) [
  | inl missing ↦ rw missing (missing, (inside, omega arith, omega arith))
  | inr (r, found) ↦ rw found (
      refresh_route-InRange s.num_interfaces hops i r inside
        (find_route-InRange s.num_interfaces c s.rt_local r a found))
]

maybe_broadcast-OnlySends :
    (b : Bool) (i : ℕ) (p : Packet) (s : Router)
    → OnlySends s (if b then broadcast s.num_interfaces 0 i p s else ok s)
maybe_broadcast-OnlySends true i p s = broadcast-OnlySends s.num_interfaces 0 i p s (omega arith)
maybe_broadcast-OnlySends false i p s = inr (s.sent, refl)

pub decide_announcement-Decides :
    (i : ℕ) (r : Receiver) (s : Router)
    → i < s.num_interfaces
    → All (RouteInRange s.num_interfaces) s.rt_local
    → Decides s (decide_announcement i r s)
unfolding decide_announcement set_header
decide_announcement-Decides i r s inside a =
    elim (get_octet-cases contentid_pos r.port.pkt.header) [
      | inl e ↦ inl (rw e)
      | inr (c, e) ↦ elim (get_octet-cases hostid_or_hops_pos r.port.pkt.header) [
        | inl f ↦ inl (rw e (rw f))
        | inr (hops, f) ↦
            elim (set_octet-cases ((hops + 1) % 256) hostid_or_hops_pos r.port.pkt.header) [
              | inl g ↦ inl (rw e (rw f (rw g)))
              | inr (h, g) ↦
                  let u = announced (find_route c s.rt_local) c hops i in
                  let t = set_header i r h s in
                  elim (maybe_broadcast-OnlySends u.1 i (record (message_packet r) { header = h })
                    t) [
                      | inl b ↦ inl (rw e (rw f (rw g (rw b))))
                      | inr (out, b) ↦ inr (
                        record t { sent = out; phase = committing u.0 },
                        rw e (rw f (rw g (rw b))),
                        record {
                          update = u.0;
                          justified = announced-Justified c hops i s inside a;
                          at_lock = refl;
                          interfaces = refl;
                          routes = refl;
                          pendings = refl;
                          routes_cached = refl;
                          pendings_cached = refl;
                          queued = refl;
                          threads = length-set s.receivers i _;
                        },
                      )
                    ]
            ]
      ]
    ]
