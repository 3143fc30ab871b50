-- ===== src/Router/Ranges.antt =====
-- What every record of the tables satisfies: its interface exists, and its time to live has not run
-- out and is at most what the tables give.
use communication_network.Base.{
  ℕ, zero, suc, ◌<◌, ◌≡◌, pos, ◌-ℤ◌, ◌≤ℤ◌, List, [], ◌∷◌, some, length, arith, All, All-append,
}
use communication_network.Router.Tables.{
  RtRecord, PrtRecord, timer_pass, tick_routes, tick_pendings, find_route, find_pending,
  touch_pending, erase_route, replace_route, refresh_route, age_route, route_ttl, age_pending,
  pending_ttl, routing_table_expiry_time, pending_table_expiry_time,
}

abbrev pub RouteInRange : ℕ → RtRecord → Type 0
RouteInRange n r = (r.interface < n) × (pos 1 ≤ℤ r.ttl_rt) × (r.ttl_rt ≤ℤ routing_table_expiry_time)

abbrev pub PendingInRange : ℕ → PrtRecord → Type 0
PendingInRange n r =
    (r.interface < n) × (pos 1 ≤ℤ r.ttl_val) × (r.ttl_val ≤ℤ pending_table_expiry_time)

module _ (n : ℕ) where
  timer_routes-InRange :
      (count : ℕ) (table : List RtRecord)
      → All (RouteInRange n) table
      → All (RouteInRange n) (timer_pass age_route route_ttl count table)
  unfolding timer_pass ◌-ℤ◌
  timer_routes-InRange zero table a = a
  timer_routes-InRange (suc count) [] a = tt
  timer_routes-InRange (suc count) (r ∷ rs) a = ground (arith, timer_routes-InRange count rs a.1)

  timer_pendings-InRange :
      (count : ℕ) (table : List PrtRecord)
      → All (PendingInRange n) table
      → All (PendingInRange n) (timer_pass age_pending pending_ttl count table)
  unfolding timer_pass ◌-ℤ◌
  timer_pendings-InRange zero table a = a
  timer_pendings-InRange (suc count) [] a = tt
  timer_pendings-InRange (suc count) (r ∷ rs) a =
      ground (arith, timer_pendings-InRange count rs a.1)

  pub tick_routes-InRange :
      (table : List RtRecord)
      → All (RouteInRange n) table
      → All (RouteInRange n) (tick_routes table)
  unfolding tick_routes
  tick_routes-InRange table a = timer_routes-InRange (length table) table a

  pub tick_pendings-InRange :
      (table : List PrtRecord)
      → All (PendingInRange n) table
      → All (PendingInRange n) (tick_pendings table)
  unfolding tick_pendings
  tick_pendings-InRange table a = timer_pendings-InRange (length table) table a

  pub touch_pending-InRange :
      (c h : ℕ) (table : List PrtRecord)
      → All (PendingInRange n) table
      → All (PendingInRange n) (touch_pending c h table)
  unfolding touch_pending
  touch_pending-InRange c h [] a = tt
  touch_pending-InRange c h (r ∷ rs) a = ground (arith, touch_pending-InRange c h rs a.1)

  erase_route-InRange :
      (c : ℕ) (table : List RtRecord)
      → All (RouteInRange n) table
      → All (RouteInRange n) (erase_route c table)
  unfolding erase_route
  erase_route-InRange c [] a = tt
  erase_route-InRange c (r ∷ rs) a = ground (arith, erase_route-InRange c rs a.1)

  pub replace_route-InRange :
      (r : RtRecord) (table : List RtRecord)
      → RouteInRange n r
      → All (RouteInRange n) table
      → All (RouteInRange n) (replace_route r table)
  unfolding replace_route
  replace_route-InRange r table ok_r a = ground (
    arith,
    All-append (RouteInRange n) (erase_route r.c_id table) (r ∷ [])
        (erase_route-InRange r.c_id table a) (ok_r, tt),
  )

  pub find_route-InRange :
      (c : ℕ) (table : List RtRecord) (r : RtRecord)
      → All (RouteInRange n) table
      → find_route c table ≡ some r
      → RouteInRange n r
  unfolding find_route
  find_route-InRange c [] r a e = absurd (cc)
  find_route-InRange c (x ∷ xs) r a e = ground (arith, find_route-InRange c xs r a.1)

  pub find_pending-InRange :
      (c h : ℕ) (table : List PrtRecord) (r : PrtRecord)
      → All (PendingInRange n) table
      → find_pending c h table ≡ some r
      → PendingInRange n r
  unfolding find_pending
  find_pending-InRange c h [] r a e = absurd (cc)
  find_pending-InRange c h (x ∷ xs) r a e = ground (arith, find_pending-InRange c h xs r a.1)

  pub refresh_route-InRange :
      (hops i : ℕ) (r : RtRecord)
      → i < n
      → RouteInRange n r
      → RouteInRange n (refresh_route hops i r)
  unfolding refresh_route
  refresh_route-InRange hops i r inside a = ground arith
