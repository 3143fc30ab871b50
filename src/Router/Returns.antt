-- ===== src/Router/Returns.antt =====
-- The way of a response back to its requester.
use communication_network.Base.{
  ℕ, ◌<◌, ◌≡◌, refl, List, [], ◌∷◌, ◌++◌, Option, none, some, arith, Option-cases, Bool-cases, inl,
  inr, All, All-append,
}
use communication_network.Router.Tables.{
  PrtRecord, find_pending, touch_pending, is_some, pending_table_expiry_time,
}
use communication_network.Router.State.{Router}
use communication_network.Router.Handlers.{new_pending}
use communication_network.Router.Keys.{find_pending-append}
use communication_network.Router.Ranges.{PendingInRange, touch_pending-InRange}
use communication_network.Router.Requests.{await}

find_pending-touch_pending :
    (content host : ℕ) (table : List PrtRecord) (y : PrtRecord)
    → find_pending content host table ≡ some y
    → find_pending content host (touch_pending content host table)
      ≡ some (record y { ttl_val = pending_table_expiry_time })
unfolding find_pending touch_pending
find_pending-touch_pending content host [] y e = absurd (cc)
find_pending-touch_pending content host (x ∷ xs) y e =
    ground (arith, find_pending-touch_pending content host xs y)

find_pending-push :
    (content host i : ℕ) (table : List PrtRecord)
    → find_pending content host table ≡ none
    → find_pending content host (table ++ new_pending content host i ∷ [])
      ≡ some (new_pending content host i)
unfolding find_pending new_pending
find_pending-push content host i table missing =
    ground
      (arith, missing, find_pending-append content host table (new_pending content host i ∷ []))

-- The interface that a request of `host` for `content` from `i` is answered on: that of the request
-- which is pending already, if there is one.
abbrev pub answered_on : ℕ → Option PrtRecord → ℕ
answered_on i none = i
answered_on i (some y) = y.interface

-- After a request was noted, the first record for it names that interface, with its full time.
pub find_pending-await :
    (content host i : ℕ) (table : List PrtRecord)
    → (x : PrtRecord) × (find_pending content host (await content host i table) ≡ some x)
      × (x.interface ≡ answered_on i (find_pending content host table))
      × (x.ttl_val ≡ pending_table_expiry_time)
unfolding await
find_pending-await content host i table = elim (Option-cases (find_pending content host table)) [
  | inl missing ↦ (
    new_pending content host i,
    rw missing (find_pending-push content host i table missing),
    rw missing (unfold new_pending in refl),
    unfold new_pending in refl,
  )
  | inr (y, found) ↦ (
    record y { ttl_val = pending_table_expiry_time },
    rw found (find_pending-touch_pending content host table y found),
    rw found,
    refl,
  )
]

pub await-InRange :
    (n content host i : ℕ) (table : List PrtRecord)
    → i < n
    → All (PendingInRange n) table
    → All (PendingInRange n) (await content host i table)
unfolding await new_pending
await-InRange n content host i table inside a =
    elim (Bool-cases (is_some (find_pending content host table))) [
      | inl known ↦ rw known (touch_pending-InRange n content host table a)
      | inr unknown ↦ rw unknown (
          All-append (PendingInRange n) table (new_pending content host i ∷ []) a
            ((inside, omega arith, omega arith), tt))
    ]
