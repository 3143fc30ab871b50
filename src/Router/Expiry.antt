-- ===== src/Router/Expiry.antt =====
-- When records expire: what the timer passes do to a table.
use communication_network.Base.{
  ℕ, zero, suc, ◌+◌, ◌*◌, ◌≡◌, refl, ap, ℤ, pos, ◌-ℤ◌, ltb_ℤ, List, [], ◌∷◌, length, if◌then◌else◌,
  arith, ◌∙◌,
}
use communication_network.Router.Tables.{
  RtRecord, PrtRecord, timer_pass, tick_routes, tick_pendings, age_route, age_pending, route_ttl,
  pending_ttl, routing_table_expiry_time,
}

module _ {A : Type 0} (age : A → A) (ttl : A → ℤ) where
  -- The reference, with no count: drop the records from the front that ten seconds use up, age the
  -- first that is left, and leave all behind it as it was.
  pub age_front : List A → List A
  age_front [] = []
  age_front (r ∷ rs) = if ltb_ℤ (pos 0) (ttl (age r)) then age r ∷ rs else age_front rs

  timer_pass-eq-age_front :
      (table : List A) → timer_pass age ttl (length table) table ≡ age_front table
  unfolding timer_pass age_front
  timer_pass-eq-age_front [] = refl
  timer_pass-eq-age_front (r ∷ rs) = ground (arith, timer_pass-eq-age_front rs)

  pub ticks : ℕ → List A → List A
  ticks zero table = table
  ticks (suc n) table = ticks n (timer_pass age ttl (length table) table)

-- The timer thread's loop over a table, `n` rounds of it.
unfoldable pub ticks_routes : ℕ → List RtRecord → List RtRecord
ticks_routes zero table = table
ticks_routes (suc n) table = ticks_routes n (tick_routes table)

-- A pass over the routing table is `age_front`: the count that the code keeps never stops it early.
pub tick_routes-eq-age_front :
    (table : List RtRecord) → tick_routes table ≡ age_front age_route route_ttl table
unfolding tick_routes
tick_routes-eq-age_front table = timer_pass-eq-age_front age_route route_ttl table

pub tick_pendings-eq-age_front :
    (table : List PrtRecord) → tick_pendings table ≡ age_front age_pending pending_ttl table
unfolding tick_pendings
tick_pendings-eq-age_front table = timer_pass-eq-age_front age_pending pending_ttl table

-- Every record of the table has the time to live that an announcement gives.
abbrev pub AllFresh : List RtRecord → Type 0
AllFresh [] = Unit {0}
AllFresh (r ∷ rs) = (r.ttl_rt ≡ routing_table_expiry_time) × AllFresh rs

tick_empty : tick_routes [] ≡ []
unfolding tick_routes timer_pass
tick_empty = refl

tick_fresh :
    (r : RtRecord) (rs : List RtRecord)
    → r.ttl_rt ≡ pos 25
    → (q : RtRecord) × (tick_routes (r ∷ rs) ≡ q ∷ rs) × (q.ttl_rt ≡ pos 15)
unfolding tick_routes timer_pass ◌-ℤ◌
tick_fresh r rs e = (age_route r, ground arith, ground arith)

tick_fifteen :
    (r : RtRecord) (rs : List RtRecord)
    → r.ttl_rt ≡ pos 15
    → (q : RtRecord) × (tick_routes (r ∷ rs) ≡ q ∷ rs) × (q.ttl_rt ≡ pos 5)
unfolding tick_routes timer_pass ◌-ℤ◌
tick_fifteen r rs e = (age_route r, ground arith, ground arith)

tick_five :
    (r : RtRecord) (rs : List RtRecord) → r.ttl_rt ≡ pos 5 → tick_routes (r ∷ rs) ≡ tick_routes rs
unfolding tick_routes timer_pass ◌-ℤ◌
tick_five r rs e = ground arith

abbrev double : ℕ → ℕ
double zero = zero
double (suc n) = suc (suc (double n))

double-eq : (n : ℕ) → double n ≡ 2 * n
double-eq zero = refl
double-eq (suc n) = omega (arith, double-eq n)

-- From a front record with fifteen seconds, two rounds remove it and age the next one.
drain :
    (r : RtRecord) (rs : List RtRecord)
    → r.ttl_rt ≡ pos 15
    → AllFresh rs
    → (length (ticks_routes (suc (double (length rs))) (r ∷ rs)) ≡ 1)
      × (ticks_routes (suc (suc (double (length rs)))) (r ∷ rs) ≡ [])
unfolding ticks_routes
drain r [] e fresh =
    let (q, t, f) = tick_fifteen r [] e in rw t (refl, rw (tick_five q [] f) tick_empty)
drain r (x ∷ rs) e fresh =
    let (q, t, f) = tick_fifteen r (x ∷ rs) e in
    let (y, u, g) = tick_fresh x rs fresh.0 in
    let (one, gone) = drain y rs g fresh.1 in
    let two_rounds = λ (m : ℕ).
      ap (λ table. ticks_routes (suc m) table) t
      ∙ ap (λ table. ticks_routes m table) (tick_five q (x ∷ rs) f ∙ u) in
    (
      ap length (two_rounds (suc (double (length rs)))) ∙ one,
      two_rounds (suc (suc (double (length rs)))) ∙ gone,
    )

-- Records that were all announced at the same moment do not expire together. Of n + 1 such routes
-- one is still held after 2 * n + 2 rounds of ten seconds, and none after one round more, though
-- each was announced for 25 seconds: the pass ages the record at the front alone.
pub expiry_is_serial :
    (table : List RtRecord) (n : ℕ)
    → AllFresh table
    → length table ≡ suc n
    → (length (ticks_routes (2 * n + 2) table) ≡ 1) × (ticks_routes (2 * n + 3) table ≡ [])
unfolding ticks_routes
expiry_is_serial [] n fresh e = absurd (omega arith)
expiry_is_serial (r ∷ rs) n fresh e =
    let (q, t, f) = tick_fresh r rs fresh.0 in
    let two : 2 * n + 2 ≡ suc (suc (double (length rs))) = omega (arith, double-eq (length rs)) in
    let three : 2 * n + 3 ≡ suc (suc (suc (double (length rs)))) =
      omega (arith, double-eq (length rs)) in
    let (one, gone) = drain q rs f fresh.1 in
    rw (two, three)
      (
        ap length (ap (λ table. ticks_routes (suc (double (length rs))) table) t) ∙ one,
        ap (λ table. ticks_routes (suc (suc (double (length rs)))) table) t ∙ gone,
      )
