-- ===== src/Router/BestRoute.antt =====
-- Which route a router ends up with, when it has heard a list of announcements and none expired.
use communication_network.Base.{
  ℕ, ◌≤◌, ◌<◌, ◌≡◌, refl, sym, subst, ◌≢◌, List, [], ◌∷◌, ◌++◌, Option, none, some, inl, inr, leb,
  ◌==◌, arith, Bool-cases, All, All-append, All-imp,
}
use mathlib.Core.List.{append_assoc, append-nil}
use communication_network.Router.Tables.{RtRecord, find_route, refresh_route}
use communication_network.Router.Handlers.{new_route}
use communication_network.Router.Keys.{UniqueRoutes}
use communication_network.Router.Learning.{learn, find_route-learn, learn-Unique, record_after}

pub record Heard : Type 0 where
  pub content : ℕ
  pub hops : ℕ
  pub interface : ℕ

-- The announcements one after the other.
pub learn_all : List Heard → List RtRecord → List RtRecord
learn_all [] table = table
learn_all (a ∷ rest) table = learn_all rest (learn a.content a.hops a.interface table)

-- The announcement `a` of `c` was the latest of those with the fewest hops.
pub record Wins (c : ℕ) (heard : List Heard) (r : RtRecord) : Type 0 where
  pub before : List Heard
  pub a : Heard
  pub behind : List Heard
  pub split : heard ≡ before ++ a ∷ behind
  pub content : a.content ≡ c
  pub hops : r.num_hops ≡ a.hops
  pub interface : r.interface ≡ a.interface
  pub fewest : All (λ b. b.content ≡ c → a.hops ≤ b.hops) before
  pub latest : All (λ b. b.content ≡ c → a.hops < b.hops) behind

abbrev pub Best : ℕ → List Heard → Option RtRecord → Type 0
Best c heard none = All (λ b. b.content ≢ c) heard
Best c heard (some r) = Wins c heard r

later_other :
    (c : ℕ) (heard : List Heard) (b : Heard) (o : Option RtRecord)
    → b.content ≢ c
    → Best c heard o
    → Best c (heard ++ b ∷ []) o
later_other c heard b none other h = All-append (λ x. x.content ≢ c) heard (b ∷ []) h (other, tt)
later_other c heard b (some r) other w = record {
  before = w.before;
  a = w.a;
  behind = w.behind ++ b ∷ [];
  split = rw w.split (append_assoc w.before (w.a ∷ w.behind) (b ∷ []));
  content = w.content;
  hops = w.hops;
  interface = w.interface;
  fewest = w.fewest;
  latest =
      All-append (λ x. x.content ≡ c → w.a.hops < x.hops) w.behind (b ∷ []) w.latest
        (λ e. absurd (other e), tt);
}

-- A number of hops that the winner has reaches below all announcements of the content.
hops_below :
    (c : ℕ) (heard : List Heard) (hops : ℕ) (r : RtRecord)
    → Wins c heard r
    → hops ≤ r.num_hops
    → All (λ x. x.content ≡ c → hops ≤ x.hops) heard
hops_below c heard hops r w few =
    subst (λ hs. All (λ x. x.content ≡ c → hops ≤ x.hops) hs) (sym w.split)
      (All-append (λ x. x.content ≡ c → hops ≤ x.hops) w.before (w.a ∷ w.behind)
        (All-imp w.before (λ x f e. omega (arith, f e, w.hops, few)) w.fewest)
        (
          λ e. omega (arith, w.hops, few),
          All-imp w.behind (λ x f e. omega (arith, f e, w.hops, few)) w.latest,
        ))

later_same :
    (c k : ℕ) (heard : List Heard) (b : Heard) (o : Option RtRecord)
    → b.content ≡ c
    → Best c heard o
    → Best c (heard ++ b ∷ []) (some (record_after o k b.hops b.interface))
unfolding new_route refresh_route
later_same c k heard b none same h = record {
  before = heard;
  a = b;
  behind = [];
  split = refl;
  content = same;
  hops = refl;
  interface = refl;
  fewest = All-imp heard (λ x other e. absurd (other e)) h;
  latest = tt;
}
later_same c k heard b (some r) same w = elim (Bool-cases (leb b.hops r.num_hops)) [
  | inl fewer ↦ record {
    before = heard;
    a = b;
    behind = [];
    split = refl;
    content = same;
    hops = ground (arith, fewer);
    interface = ground (arith, fewer);
    fewest = hops_below c heard b.hops r w (ground (arith, fewer));
    latest = tt;
  }
  | inr more ↦ record {
    before = w.before;
    a = w.a;
    behind = w.behind ++ b ∷ [];
    split = rw w.split (append_assoc w.before (w.a ∷ w.behind) (b ∷ []));
    content = w.content;
    hops = ground (arith, more, w.hops);
    interface = ground (arith, more, w.interface);
    fewest = w.fewest;
    latest =
        All-append (λ x. x.content ≡ c → w.a.hops < x.hops) w.behind (b ∷ []) w.latest
          (λ e. ground (arith, more, w.hops), tt);
  }
]

learn_all-Best_from :
    (c : ℕ) (rest heard : List Heard) (table : List RtRecord)
    → UniqueRoutes table
    → Best c heard (find_route c table)
    → Best c (heard ++ rest) (find_route c (learn_all rest table))
unfolding learn_all
learn_all-Best_from c [] heard table u h = rw append-nil h
learn_all-Best_from c (b ∷ rest) heard table u h =
    subst
      (λ hs. Best c hs (find_route c (learn_all rest (learn b.content b.hops b.interface table))))
      (append_assoc heard (b ∷ []) rest)
      (learn_all-Best_from c rest (heard ++ b ∷ []) (learn b.content b.hops b.interface table)
        (learn-Unique b.content b.hops b.interface table u)
        (rw (find_route-learn b.content b.hops b.interface c table u)
          (elim (Bool-cases (b.content == c)) [
            | inr other ↦
                rw other
                  (later_other c heard b (find_route c table) (λ e. ground (arith, other, e)) h)
            | inl same ↦
                let e : b.content ≡ c = ground (arith, same) in
                rw same (
                  later_same c b.content heard b (find_route b.content table) e
                    (subst (λ k. Best c heard (find_route k table)) (sym e) h))
          ])))

-- After any list of announcements from an empty table, none having expired, the record of a content
-- names the interface and the hops of the latest of the announcements of it with the fewest hops;
-- there is no record exactly when the content was never announced.
pub learn_all-Best : (heard : List Heard) (c : ℕ) → Best c heard (find_route c (learn_all heard []))
unfolding find_route
learn_all-Best heard c = learn_all-Best_from c heard [] [] tt tt
