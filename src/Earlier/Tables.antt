-- ===== src/Earlier/Tables.antt =====
-- The tables of simple_router.cpp and the loops of rx_function over them. The code that would count
-- the times to live down is commented out, so a time is one of the two constants.
use communication_network.Base.{
  ℕ, List, [], ◌∷◌, Option, none, some, Bool, true, false, ◌&&◌, ◌==◌, ltb, if◌then◌else◌,
}

pub record RtRecord : Type 0 where
  pub c_id : ℕ
  pub interface : ℕ
  pub num_hops : ℕ
  pub ttl_rt : ℕ

pub record PrtRecord : Type 0 where
  pub c_id : ℕ
  pub h_id : ℕ
  pub interface : ℕ
  pub ttl_val : ℕ

abbrev pub pending_expiry : ℕ
pending_expiry = 25

abbrev pub routing_expiry : ℕ
routing_expiry = 30

abbrev pub pending_for : ℕ → ℕ → PrtRecord → Bool
pending_for content_id host_id r = (r.c_id == content_id) && (r.h_id == host_id)

-- The loop of the REQUEST and RESPONSE cases over the local copy: `record_test_prt` holds each record
-- in turn. The result is what it holds at the end, and whether the loop ended at a match.
unfoldable pub scan_pendings : ℕ → ℕ → PrtRecord → List PrtRecord → PrtRecord × Bool
scan_pendings content_id host_id record_test [] = (record_test, false)
scan_pendings content_id host_id record_test (r ∷ rs) =
    let rest = scan_pendings content_id host_id r rs in
    if pending_for content_id host_id r then (r, true) else rest

-- The loop of the REQUEST case: the first route of the content.
unfoldable pub scan_routes : ℕ → List RtRecord → Option RtRecord
scan_routes content_id [] = none
scan_routes content_id (r ∷ rs) = if r.c_id == content_id then some r else scan_routes content_id rs

-- The locked loop of the REQUEST case.
unfoldable pub renew_pending : ℕ → ℕ → List PrtRecord → List PrtRecord
renew_pending content_id host_id [] = []
renew_pending content_id host_id (r ∷ rs) =
    if pending_for content_id host_id r
    then record r { ttl_val = pending_expiry } ∷ rs
    else r ∷ renew_pending content_id host_id rs

-- The locked loop of the RESPONSE case.
unfoldable pub erase_pending : ℕ → ℕ → List PrtRecord → List PrtRecord
erase_pending content_id host_id [] = []
erase_pending content_id host_id (r ∷ rs) =
    if pending_for content_id host_id r then rs else r ∷ erase_pending content_id host_id rs

-- The locked loop of the ANNOUNCEMENT case: hops and time to live, not the interface.
unfoldable pub renew_route : ℕ → ℕ → List RtRecord → List RtRecord
renew_route content_id hops [] = []
renew_route content_id hops (r ∷ rs) =
    if r.c_id == content_id
    then record r { num_hops = hops; ttl_rt = routing_expiry } ∷ rs
    else r ∷ renew_route content_id hops rs

-- The hops that the ANNOUNCEMENT case keeps for a content that it has.
abbrev pub fewer_hops : ℕ → RtRecord → ℕ
fewer_hops hops r = if ltb hops r.num_hops then hops else r.num_hops
