-- ===== src/Router/Keys.antt =====
-- A table as a map: which keys it has, and that it has each once, through the operations on it.
use communication_network.Base.{
  ℕ, zero, suc, ◌≡◌, refl, pos, negsuc, List, [], ◌∷◌, ◌++◌, none, some, false, length, ◌==◌, arith,
  if◌then◌else◌, ◌&&◌, Bool-cases, ==_iff, inl, inr,
}
use communication_network.Router.Tables.{
  RtRecord, PrtRecord, timer_pass, tick_routes, tick_pendings, is_content_present_in_rt, find_route,
  find_pending, touch_pending, erase_route, replace_route, is_some, age_route, route_ttl,
  age_pending, pending_ttl,
}

-- At most one record of each content.
abbrev pub UniqueRoutes : List RtRecord → Type 0
UniqueRoutes [] = Unit {0}
UniqueRoutes (r ∷ rs) = (find_route r.c_id rs ≡ none) × UniqueRoutes rs

-- At most one record of each content and host.
abbrev pub UniquePendings : List PrtRecord → Type 0
UniquePendings [] = Unit {0}
UniquePendings (r ∷ rs) = (find_pending r.c_id r.h_id rs ≡ none) × UniquePendings rs

pub find_route-append :
    (c : ℕ) (xs ys : List RtRecord)
    → find_route c (xs ++ ys)
      ≡ (if is_some (find_route c xs) then find_route c xs else find_route c ys)
unfolding find_route
find_route-append c [] ys = refl
find_route-append c (x ∷ xs) ys = ground (arith, find_route-append c xs ys)

pub find_pending-append :
    (c h : ℕ) (xs ys : List PrtRecord)
    → find_pending c h (xs ++ ys)
      ≡ (if is_some (find_pending c h xs) then find_pending c h xs else find_pending c h ys)
unfolding find_pending
find_pending-append c h [] ys = refl
find_pending-append c h (x ∷ xs) ys = ground (arith, find_pending-append c h xs ys)

-- The search that the REQUEST case makes is the search of the ANNOUNCEMENT case.
pub is_content_present_in_rt-eq :
    (c : ℕ) (table : List RtRecord)
    → is_content_present_in_rt c table
      ≡ (elim (find_route c table) [ none ↦ negsuc 0 | some r ↦ pos r.interface ])
unfolding is_content_present_in_rt find_route
is_content_present_in_rt-eq c [] = refl
is_content_present_in_rt-eq c (r ∷ rs) = ground (arith, is_content_present_in_rt-eq c rs)

-- What is found has the key that was looked for.
pub find_route-c_id :
    (c : ℕ) (table : List RtRecord) {r : RtRecord} → find_route c table ≡ some r → r.c_id ≡ c
unfolding find_route
find_route-c_id c [] e = cc
find_route-c_id c (x ∷ xs) {r} e = ground (arith, find_route-c_id c xs {r = r})

-- The timer adds no key.
timer_routes-none :
    (c : ℕ) (n : ℕ) (table : List RtRecord)
    → find_route c table ≡ none
    → find_route c (timer_pass age_route route_ttl n table) ≡ none
unfolding find_route timer_pass
timer_routes-none c zero table e = e
timer_routes-none c (suc n) [] e = e
timer_routes-none c (suc n) (r ∷ rs) e = ground (arith, timer_routes-none c n rs)

timer_pendings-none :
    (c h : ℕ) (n : ℕ) (table : List PrtRecord)
    → find_pending c h table ≡ none
    → find_pending c h (timer_pass age_pending pending_ttl n table) ≡ none
unfolding find_pending timer_pass
timer_pendings-none c h zero table e = e
timer_pendings-none c h (suc n) [] e = e
timer_pendings-none c h (suc n) (r ∷ rs) e = ground (arith, timer_pendings-none c h n rs)

timer_routes-Unique :
    (n : ℕ) (table : List RtRecord)
    → UniqueRoutes table
    → UniqueRoutes (timer_pass age_route route_ttl n table)
unfolding timer_pass
timer_routes-Unique zero table u = u
timer_routes-Unique (suc n) [] u = tt
timer_routes-Unique (suc n) (r ∷ rs) u = ground (arith, timer_routes-Unique n rs u.1)

timer_pendings-Unique :
    (n : ℕ) (table : List PrtRecord)
    → UniquePendings table
    → UniquePendings (timer_pass age_pending pending_ttl n table)
unfolding timer_pass
timer_pendings-Unique zero table u = u
timer_pendings-Unique (suc n) [] u = tt
timer_pendings-Unique (suc n) (r ∷ rs) u = ground (arith, timer_pendings-Unique n rs u.1)

module _ (table : List RtRecord) where
  pub tick_routes-none :
      (c : ℕ) → find_route c table ≡ none → find_route c (tick_routes table) ≡ none
  unfolding tick_routes
  tick_routes-none c e = timer_routes-none c (length table) table e

  pub tick_routes-Unique : UniqueRoutes table → UniqueRoutes (tick_routes table)
  unfolding tick_routes
  tick_routes-Unique u = timer_routes-Unique (length table) table u

module _ (table : List PrtRecord) where
  pub tick_pendings-none :
      (c h : ℕ) → find_pending c h table ≡ none → find_pending c h (tick_pendings table) ≡ none
  unfolding tick_pendings
  tick_pendings-none c h e = timer_pendings-none c h (length table) table e

  pub tick_pendings-Unique : UniquePendings table → UniquePendings (tick_pendings table)
  unfolding tick_pendings
  tick_pendings-Unique u = timer_pendings-Unique (length table) table u

-- A push at the back of a table that lacks the key.
pub push_route-Unique :
    (table : List RtRecord) (r : RtRecord)
    → UniqueRoutes table
    → find_route r.c_id table ≡ none
    → UniqueRoutes (table ++ r ∷ [])
unfolding find_route
push_route-Unique [] r u e = (refl, tt)
push_route-Unique (x ∷ xs) r u e =
    ground (arith, push_route-Unique xs r u.1, find_route-append x.c_id xs (r ∷ []))

pub push_pending-Unique :
    (table : List PrtRecord) (r : PrtRecord)
    → UniquePendings table
    → find_pending r.c_id r.h_id table ≡ none
    → UniquePendings (table ++ r ∷ [])
unfolding find_pending
push_pending-Unique [] r u e = (refl, tt)
push_pending-Unique (x ∷ xs) r u e =
    ground (arith, push_pending-Unique xs r u.1, find_pending-append x.c_id x.h_id xs (r ∷ []))

erase_route-none :
    (c d : ℕ) (table : List RtRecord)
    → find_route c table ≡ none
    → find_route c (erase_route d table) ≡ none
unfolding find_route erase_route
erase_route-none c d [] e = e
erase_route-none c d (x ∷ xs) e = ground (arith, erase_route-none c d xs)

erase_route-gone :
    (c : ℕ) (table : List RtRecord) → UniqueRoutes table → find_route c (erase_route c table) ≡ none
unfolding find_route erase_route
erase_route-gone c [] u = refl
erase_route-gone c (x ∷ xs) u = ground (arith, erase_route-gone c xs u.1)

erase_route-Unique :
    (c : ℕ) (table : List RtRecord) → UniqueRoutes table → UniqueRoutes (erase_route c table)
unfolding erase_route
erase_route-Unique c [] u = tt
erase_route-Unique c (x ∷ xs) u =
    ground (arith, erase_route-Unique c xs u.1, erase_route-none x.c_id c xs u.0)

pub replace_route-Unique :
    (r : RtRecord) (table : List RtRecord)
    → UniqueRoutes table
    → UniqueRoutes (replace_route r table)
unfolding replace_route
replace_route-Unique r table u = ground (
  arith,
  push_route-Unique (erase_route r.c_id table) r (erase_route-Unique r.c_id table u)
      (erase_route-gone r.c_id table u),
)

erase_route-ne :
    (c d : ℕ) (table : List RtRecord)
    → (d == c) ≡ false
    → find_route c (erase_route d table) ≡ find_route c table
unfolding find_route erase_route
erase_route-ne c d [] e = refl
erase_route-ne c d (x ∷ xs) e = ground (arith, erase_route-ne c d xs e)

-- After the replacement the table finds the new record if it had one of the content at all, and
-- finds what it did for every other content.
pub find_route-replace_route :
    (r : RtRecord) (table : List RtRecord) (c : ℕ)
    → UniqueRoutes table
    → find_route c (replace_route r table)
      ≡ (if (r.c_id == c) && is_some (find_route c table) then some r else find_route c table)
unfolding replace_route find_route
find_route-replace_route r table c u = elim (Bool-cases (r.c_id == c)) [
  | inl same ↦
      let e : r.c_id ≡ c = (==_iff _ _).0 same in
      ground (
        arith,
        e,
        find_route-append c (erase_route r.c_id table) (r ∷ []),
        erase_route-gone r.c_id table u,
      )
  | inr other ↦ ground (
    arith,
    other,
    find_route-append c (erase_route r.c_id table) (r ∷ []),
    erase_route-ne c r.c_id table other,
  )
]

touch_pending-none :
    (c h d k : ℕ) (table : List PrtRecord)
    → find_pending c h table ≡ none
    → find_pending c h (touch_pending d k table) ≡ none
unfolding find_pending touch_pending
touch_pending-none c h d k [] e = e
touch_pending-none c h d k (x ∷ xs) e = ground (arith, touch_pending-none c h d k xs)

pub touch_pending-Unique :
    (d k : ℕ) (table : List PrtRecord)
    → UniquePendings table
    → UniquePendings (touch_pending d k table)
unfolding touch_pending
touch_pending-Unique d k [] u = tt
touch_pending-Unique d k (x ∷ xs) u =
    ground (arith, touch_pending-Unique d k xs u.1, touch_pending-none x.c_id x.h_id d k xs u.0)
