-- ===== src/Router/Tables.antt =====
-- The two tables of router.cpp: their records, the searches of `main`, and the pass that the timer
-- thread makes. Identifiers, hops and interfaces are octets or loop counters, so numbers; a time to
-- live is an `int`. The field `isvalid` is neither written nor read and is left out.
use communication_network.Base.{
  ℕ, zero, suc, ℤ, pos, negsuc, ◌-ℤ◌, ltb_ℤ, List, [], ◌∷◌, ◌++◌, Option, none, some, Bool, true,
  false, ◌&&◌, length, ◌==◌, leb, if◌then◌else◌,
}

pub record RtRecord : Type 0 where
  pub c_id : ℕ
  pub interface : ℕ
  pub num_hops : ℕ
  pub ttl_rt : ℤ

pub record PrtRecord : Type 0 where
  pub c_id : ℕ
  pub h_id : ℕ
  pub interface : ℕ
  pub ttl_val : ℤ

abbrev pub pending_table_expiry_time : ℤ
pending_table_expiry_time = pos 35

abbrev pub routing_table_expiry_time : ℤ
routing_table_expiry_time = pos 25

-- One `while` of `timer_function`. The `for` inside looks at the first record only: it takes ten
-- seconds off and, if nothing is left, has it erased; otherwise both loops end.
module _ {A : Type 0} (age : A → A) (ttl : A → ℤ) where
  unfoldable pub timer_pass : ℕ → List A → List A
  timer_pass zero table = table
  timer_pass (suc delete_count) [] = []
  timer_pass (suc delete_count) (r ∷ rs) =
      if ltb_ℤ (pos 0) (ttl (age r)) then age r ∷ rs else timer_pass delete_count rs

abbrev pub age_route : RtRecord → RtRecord
age_route r = record r { ttl_rt = r.ttl_rt -ℤ pos 10 }

abbrev pub age_pending : PrtRecord → PrtRecord
age_pending r = record r { ttl_val = r.ttl_val -ℤ pos 10 }

abbrev pub route_ttl : RtRecord → ℤ
route_ttl r = r.ttl_rt

abbrev pub pending_ttl : PrtRecord → ℤ
pending_ttl r = r.ttl_val

unfoldable pub tick_routes : List RtRecord → List RtRecord
tick_routes table = timer_pass age_route route_ttl (length table) table

unfoldable pub tick_pendings : List PrtRecord → List PrtRecord
tick_pendings table = timer_pass age_pending pending_ttl (length table) table

-- `isContentPresentinRT`, and the same loop in the REQUEST case of `main`.
unfoldable pub is_content_present_in_rt : ℕ → List RtRecord → ℤ
is_content_present_in_rt content_id [] = negsuc 0
is_content_present_in_rt content_id (r ∷ rs) =
    if r.c_id == content_id then pos r.interface else is_content_present_in_rt content_id rs

-- The loop of the ANNOUNCEMENT case: the first record of the content.
unfoldable pub find_route : ℕ → List RtRecord → Option RtRecord
find_route content_id [] = none
find_route content_id (r ∷ rs) = if r.c_id == content_id then some r else find_route content_id rs

abbrev pub is_pending : ℕ → ℕ → PrtRecord → Bool
is_pending content_id host_id r = (r.c_id == content_id) && (r.h_id == host_id)

-- The loop of the REQUEST and RESPONSE cases: the first record of the content and the host.
unfoldable pub find_pending : ℕ → ℕ → List PrtRecord → Option PrtRecord
find_pending content_id host_id [] = none
find_pending content_id host_id (r ∷ rs) =
    if is_pending content_id host_id r then some r else find_pending content_id host_id rs

-- The locked loop that gives a pending record its full time again.
unfoldable pub touch_pending : ℕ → ℕ → List PrtRecord → List PrtRecord
touch_pending content_id host_id [] = []
touch_pending content_id host_id (r ∷ rs) =
    if is_pending content_id host_id r
    then record r { ttl_val = pending_table_expiry_time } ∷ rs
    else r ∷ touch_pending content_id host_id rs

-- `RoutingTable.erase` at the first record of the content.
unfoldable pub erase_route : ℕ → List RtRecord → List RtRecord
erase_route content_id [] = []
erase_route content_id (r ∷ rs) = if r.c_id == content_id then rs else r ∷ erase_route content_id rs

abbrev pub is_some {ℓ} : {A : Type ℓ} → Option A → Bool
is_some none = false
is_some (some a) = true

-- The locked update after an announcement of a known content: erase, then push at the back.
unfoldable pub replace_route : RtRecord → List RtRecord → List RtRecord
unfolding erase_route find_route
replace_route r table =
    if is_some (find_route r.c_id table) then erase_route r.c_id table ++ r ∷ [] else table

-- What the ANNOUNCEMENT case does to the record that it found.
unfoldable pub refresh_route : ℕ → ℕ → RtRecord → RtRecord
refresh_route hops rx_interface r =
    if leb hops r.num_hops
    then record r { num_hops = hops; interface = rx_interface; ttl_rt = routing_table_expiry_time }
    else record r { ttl_rt = routing_table_expiry_time }
