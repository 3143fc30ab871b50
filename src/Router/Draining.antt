-- ===== src/Router/Draining.antt =====
-- How many rounds of the timer thread of router.cpp a table outlives.
use communication_network.Base.{
  ℕ, zero, suc, ◌+◌, ◌*◌, ◌≤◌, ◌≡◌, refl, pos, ◌-ℤ◌, ltb_ℤ, List, [], ◌∷◌, length, arith,
  Bool-cases, inl, inr, All, ◌⊎◌, ◌≤ℤ◌,
}
use communication_network.Router.Tables.{RtRecord, timer_pass, tick_routes, age_route, route_ttl}
use communication_network.Router.Ranges.{RouteInRange}
use communication_network.Router.Expiry.{ticks_routes}

-- A round over a first record with at most ten times `suc k` seconds removes it or leaves it with at
-- most ten times `k`.
tick_first :
    (k : ℕ) (r : RtRecord) (rs : List RtRecord)
    → r.ttl_rt ≤ℤ pos (10 * suc k)
    → (tick_routes (r ∷ rs) ≡ tick_routes rs)
      ⊎ ((tick_routes (r ∷ rs) ≡ age_route r ∷ rs)
          × (pos 1 ≤ℤ (age_route r).ttl_rt)
          × ((age_route r).ttl_rt ≤ℤ pos (10 * k)))
unfolding tick_routes timer_pass ◌-ℤ◌
tick_first k r rs small = elim (Bool-cases (ltb_ℤ (pos 0) (route_ttl (age_route r)))) [
  | inl left ↦ inr (rw left refl, ground (arith, left), ground (arith, small))
  | inr over ↦ inl (rw over refl)
]

drain_front :
    (k m : ℕ) (r : RtRecord) (rs : List RtRecord)
    → pos 1 ≤ℤ r.ttl_rt
    → r.ttl_rt ≤ℤ pos (10 * k)
    → ((j : ℕ) → 3 * length rs ≤ j → ticks_routes j rs ≡ [])
    → 3 * length rs + k ≤ m
    → ticks_routes m (r ∷ rs) ≡ []
unfolding ticks_routes
drain_front zero m r rs low small later enough = absurd (ground (arith, low, small))
drain_front (suc k) zero r rs low small later enough = absurd (omega arith)
drain_front (suc k) (suc m) r rs low small later enough = elim (tick_first k r rs small) [
  | inl gone ↦ rw gone (later (suc m) (omega arith))
  | inr (kept, low', small') ↦
      rw kept (drain_front k m (age_route r) rs low' small' later (omega arith))
]

-- Three rounds of the timer thread for each record of a routing table empty it, if nothing is
-- announced meanwhile: no route of a table as the router builds it is held for ever.
pub routes_expire :
    (n m : ℕ) (table : List RtRecord)
    → All (RouteInRange n) table
    → 3 * length table ≤ m
    → ticks_routes m table ≡ []
unfolding ticks_routes tick_routes timer_pass
routes_expire n zero [] a enough = refl
routes_expire n (suc m) [] a enough = routes_expire n m [] tt (omega arith)
routes_expire n m (r ∷ rs) a enough =
    drain_front 3 m r rs a.0.1 (ground (arith, a)) (λ j e. routes_expire n j rs a.1 e) (omega arith)
