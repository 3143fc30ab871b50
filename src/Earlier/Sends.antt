-- ===== src/Earlier/Sends.antt =====
-- What a thread of simple_router.cpp leaves alone when it sends and decides.
use communication_network.Base.{
  ℕ, ◌<◌, ◌≡◌, refl, List, [], ◌∷◌, ◌++◌, Option, none, some, Bool, true, false, ◌⊎◌, inl, inr,
  Exec, ok, fault, overrun, ◌>>=◌, if◌then◌else◌, arith, lt→ltb, All,
}
use communication_network.Wire.Header.{PacketHdr, get_octet, get_octet-cases}
use communication_network.Wire.Packet.{Packet}
use communication_network.Wire.Make.{contentid_pos, hostid_or_hops_pos}
use communication_network.Router.Effects.{send_packet-cases}
use communication_network.Earlier.Tables.{RtRecord, PrtRecord, scan_pendings, scan_routes}
use communication_network.Earlier.State.{
  Change, add_pending, keep_pending, drop_pending, add_route, keep_route, no_change, RxThread,
  Shared, send_at,
}
use communication_network.Earlier.Handlers.{
  send_towards, handle_request, requested_change, handle_response,
}

-- Every record names an interface that there is.
abbrev pub RoutesWithin : ℕ → List RtRecord → Type 0
RoutesWithin n table = All (λ (r : RtRecord). r.interface < n) table

abbrev pub PendingsWithin : ℕ → List PrtRecord → Type 0
PendingsWithin n table = All (λ (r : PrtRecord). r.interface < n) table

abbrev pub ChangeWithin : ℕ → Change → Type 0
ChangeWithin n (add_pending r) = r.interface < n
ChangeWithin n (keep_pending c h) = Unit {0}
ChangeWithin n (drop_pending c h) = Unit {0}
ChangeWithin n (add_route r) = r.interface < n
ChangeWithin n (keep_route c hops) = Unit {0}
ChangeWithin n no_change = Unit {0}

-- Sending runs past a buffer, or adds to the trace and no more.
abbrev pub OnlySends : Shared → Exec Shared → Type 0
OnlySends s r =
    (r ≡ fault overrun) ⊎ ((out : List (ℕ × List ℕ)) × (r ≡ ok (record s { sent = out })))

pub send_at-OnlySends :
    (i : ℕ) (p : Packet) (s : Shared) → i < s.num_interfaces → OnlySends s (send_at i p s)
unfolding send_at
send_at-OnlySends i p s h = rw (lt→ltb i s.num_interfaces h) (elim (send_packet-cases p) [
  | inl e ↦ inl (rw e)
  | inr (bytes, e) ↦ inr (s.sent ++ (i, bytes) ∷ [], rw e)
])

scan_routes-within :
    (n c : ℕ) (table : List RtRecord) {r : RtRecord}
    → RoutesWithin n table
    → scan_routes c table ≡ some r
    → r.interface < n
unfolding scan_routes
scan_routes-within n c [] a e = absurd (cc)
scan_routes-within n c (x ∷ xs) {r} a e = ground (arith, a, e, scan_routes-within n c xs {r = r})

scan_pendings-within :
    (n c h : ℕ) (unset : PrtRecord) (table : List PrtRecord)
    → PendingsWithin n table
    → (scan_pendings c h unset table).1 ≡ true
    → (scan_pendings c h unset table).0.interface < n
unfolding scan_pendings
scan_pendings-within n c h unset [] a e = absurd (cc)
scan_pendings-within n c h unset (x ∷ xs) a e =
    ground (arith, a, e, scan_pendings-within n c h x xs)

send_towards-OnlySends :
    (r : Option RtRecord) (p : Packet) (s : Shared)
    → ((x : RtRecord) → r ≡ some x → x.interface < s.num_interfaces)
    → OnlySends s (send_towards r p s)
unfolding send_towards
send_towards-OnlySends none p s h = inr (s.sent, refl)
send_towards-OnlySends (some r) p s h = send_at-OnlySends r.interface p s (h r refl)

-- Deciding on a packet runs past a buffer, or adds to the trace and chooses a change within bounds.
abbrev pub Decides : Shared → Exec (Shared × Change) → Type 0
Decides s r =
    (r ≡ fault overrun)
    ⊎ ((out : List (ℕ × List ℕ)) × (c : Change) × (r ≡ ok (record s { sent = out }, c))
        × ChangeWithin s.num_interfaces c)

-- The two octets that every case reads first.
reads-Decides :
    (hdr : PacketHdr) (s : Shared) (k : ℕ → ℕ → Exec (Shared × Change))
    → ((c h : ℕ) → Decides s (k c h))
    → Decides s
        (get_octet contentid_pos hdr >>= λ c. get_octet hostid_or_hops_pos hdr >>= λ h. k c h)
reads-Decides hdr s k rest = elim (get_octet-cases contentid_pos hdr) [
  | inl e ↦ inl (rw e)
  | inr (c, ec) ↦ elim (get_octet-cases hostid_or_hops_pos hdr) [
    | inl e ↦ inl (rw (ec, ◌>>=◌) (rw e))
    | inr (h, eh) ↦ rw (ec, ◌>>=◌) (rw (eh, ◌>>=◌) (rest c h))
  ]
]

-- A send, and a change chosen beforehand.
sends-Decides :
    (s : Shared) (r : Exec Shared) (c : Change)
    → OnlySends s r
    → ChangeWithin s.num_interfaces c
    → Decides s (r >>= λ u. ok (u, c))
sends-Decides s r c (inl e) w = inl (rw e)
sends-Decides s r c (inr (out, e)) w = inr (out, c, rw e, w)

requested_change-Within :
    (scanned : PrtRecord × Bool) (n c h i : ℕ)
    → i < n
    → ChangeWithin n (requested_change scanned c h i)
requested_change-Within (r, true) n c h i w = tt
requested_change-Within (r, false) n c h i w = w

respond-OnlySends :
    (scanned : PrtRecord × Bool) (p : Packet) (s : Shared)
    → (scanned.1 ≡ true → scanned.0.interface < s.num_interfaces)
    → OnlySends s (if scanned.1 then send_at scanned.0.interface p s else ok s)
respond-OnlySends (r, true) p s w = send_at-OnlySends r.interface p s (w refl)
respond-OnlySends (r, false) p s w = inr (s.sent, refl)

module _ (unset : PrtRecord) (i : ℕ) (p : Packet) (t : RxThread) (s : Shared) where
  pub handle_request-Decides :
      i < s.num_interfaces
      → RoutesWithin s.num_interfaces t.rt_local
      → Decides s (handle_request unset i p t s)
  unfolding handle_request
  handle_request-Decides own routes = reads-Decides p.header s _ (λ c h.
      sends-Decides s (send_towards (scan_routes c t.rt_local) p s)
        (requested_change (scan_pendings c h unset t.prt_local) c h i)
        (send_towards-OnlySends (scan_routes c t.rt_local) p s
          (λ x e. scan_routes-within s.num_interfaces c t.rt_local routes e))
        (requested_change-Within (scan_pendings c h unset t.prt_local) s.num_interfaces c h i own))

module _ (unset : PrtRecord) (p : Packet) (t : RxThread) (s : Shared) where
  pub handle_response-Decides :
      PendingsWithin s.num_interfaces t.prt_local → Decides s (handle_response unset p t s)
  unfolding handle_response
  handle_response-Decides pendings = reads-Decides p.header s _ (λ c h.
      let scanned = scan_pendings c h unset t.prt_local in
      sends-Decides s (if scanned.1 then send_at scanned.0.interface p s else ok s)
        (drop_pending scanned.0.c_id scanned.0.h_id)
        (respond-OnlySends scanned p s
          (scan_pendings-within s.num_interfaces c h unset t.prt_local pendings))
        tt)
