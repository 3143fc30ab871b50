-- ===== src/Router/Learning.antt =====
-- What the routing table of router.cpp becomes when a content is announced.
use communication_network.Base.{
  not, ltb, pos, ℕ, ◌≡◌, refl, ◌∙◌, List, [], ◌∷◌, ◌++◌, Option, none, some, Bool, true, ◌&&◌, ◌==◌,
  if◌then◌else◌, arith, Option-cases, inl, inr,
}
use communication_network.Router.Tables.{
  RtRecord, find_route, replace_route, refresh_route, erase_route, is_some,
}
use communication_network.Router.Handlers.{new_route}
use communication_network.Router.Keys.{
  UniqueRoutes, push_route-Unique, replace_route-Unique, find_route-append,
  find_route-replace_route, find_route-c_id,
}

-- The table after the update that a search result leads to.
abbrev pub learned : Option RtRecord → ℕ → ℕ → ℕ → List RtRecord → List RtRecord
learned none content hops i table = table ++ new_route content hops i ∷ []
learned (some r) content hops i table = replace_route (refresh_route hops i r) table

-- What the routing table becomes when a content is announced with a number of hops on an interface.
unfoldable pub learn : ℕ → ℕ → ℕ → List RtRecord → List RtRecord
learn content hops i table = learned (find_route content table) content hops i table

-- An announcement is news to a router that has no route, or none with fewer hops.
abbrev pub is_news : Option RtRecord → ℕ → Bool
is_news none hops = true
is_news (some r) hops = not (ltb r.num_hops hops)

-- The record that an announcement leaves for its content, and the table with it at its end.
abbrev pub record_told : Option RtRecord → ℕ → ℕ → ℕ → RtRecord
record_told none content hops i = record {
  c_id = content;
  interface = i;
  num_hops = hops;
  ttl_rt = pos 25;
}
record_told (some r) content hops i =
    if is_news (some r) hops
    then record { c_id = content; interface = i; num_hops = hops; ttl_rt = pos 25 }
    else record { c_id = content; interface = r.interface; num_hops = r.num_hops; ttl_rt = pos 25 }

abbrev pub drop_first : ℕ → List RtRecord → List RtRecord
drop_first content [] = []
drop_first content (r ∷ rs) = if r.c_id == content then rs else r ∷ drop_first content rs

abbrev pub table_told : ℕ → ℕ → ℕ → List RtRecord → List RtRecord
table_told content hops i table =
    drop_first content table ++ record_told (find_route content table) content hops i ∷ []

erase_route-drop_first :
    (content : ℕ) (table : List RtRecord) → erase_route content table ≡ drop_first content table
unfolding erase_route
erase_route-drop_first content [] = refl
erase_route-drop_first content (r ∷ rs) = ground (arith, erase_route-drop_first content rs)

drop_first-missing :
    (content : ℕ) (table : List RtRecord)
    → find_route content table ≡ none
    → drop_first content table ≡ table
unfolding find_route
drop_first-missing content [] e = refl
drop_first-missing content (r ∷ rs) e = ground (arith, e, drop_first-missing content rs)

refresh_route-record_told :
    (r : RtRecord) (content hops i : ℕ)
    → r.c_id ≡ content
    → refresh_route hops i r ≡ record_told (some r) content hops i
unfolding refresh_route
refresh_route-record_told r content hops i same = ground (arith, same)

replace_route-told :
    (r q : RtRecord) (content : ℕ) (table : List RtRecord)
    → q.c_id ≡ content
    → find_route content table ≡ some r
    → replace_route q table ≡ drop_first content table ++ q ∷ []
unfolding replace_route
replace_route-told r q content table same found =
    rw (same, found, erase_route-drop_first content table) refl

pub learn-table_told :
    (content hops i : ℕ) (table : List RtRecord)
    → learn content hops i table ≡ table_told content hops i table
unfolding learn new_route
learn-table_told content hops i table = elim (Option-cases (find_route content table)) [
  | inl missing ↦ rw (missing, drop_first-missing content table missing) refl
  | inr (r, found) ↦
      let same = find_route-c_id content table found in
      let told = refresh_route-record_told r content hops i same in
      let q = record_told (some r) content hops i in
      let key : q.c_id ≡ content = ground arith in
      rw (found, told) (replace_route-told r q content table key found)
]

find_route-push :
    (content hops i c : ℕ) (table : List RtRecord)
    → find_route content table ≡ none
    → find_route c (table ++ new_route content hops i ∷ [])
      ≡ (if content == c then some (new_route content hops i) else find_route c table)
unfolding find_route new_route
find_route-push content hops i c table missing =
    ground (arith, missing, find_route-append c table (new_route content hops i ∷ []))

find_route-refresh :
    (content hops i c : ℕ) (table : List RtRecord) (r : RtRecord)
    → find_route content table ≡ some r
    → (if ((refresh_route hops i r).c_id == c) && is_some (find_route c table)
        then some (refresh_route hops i r)
        else find_route c table)
      ≡ (if content == c then some (refresh_route hops i r) else find_route c table)
unfolding refresh_route
find_route-refresh content hops i c table r found =
    ground (arith, found, find_route-c_id content table found)

-- The record of the announced content after the announcement.
abbrev pub record_after : Option RtRecord → ℕ → ℕ → ℕ → RtRecord
record_after none content hops i = new_route content hops i
record_after (some r) content hops i = refresh_route hops i r

-- The search after learning: the announced content has the refreshed or the new record, every other
-- content what it had.
pub find_route-learn :
    (content hops i c : ℕ) (table : List RtRecord)
    → UniqueRoutes table
    → find_route c (learn content hops i table) ≡ (
        if content == c
        then some (record_after (find_route content table) content hops i)
        else find_route c table)
unfolding learn
find_route-learn content hops i c table u = elim (Option-cases (find_route content table)) [
  | inl missing ↦ rw missing (find_route-push content hops i c table missing)
  | inr (r, found) ↦ rw found (
      find_route-replace_route (refresh_route hops i r) table c u
      ∙ find_route-refresh content hops i c table r found)
]

-- Learning keeps one record to a content.
pub learn-Unique :
    (content hops i : ℕ) (table : List RtRecord)
    → UniqueRoutes table
    → UniqueRoutes (learn content hops i table)
unfolding learn new_route
learn-Unique content hops i table u = elim (Option-cases (find_route content table)) [
  | inl missing ↦ rw missing (push_route-Unique table (new_route content hops i) u missing)
  | inr (r, found) ↦ rw found (replace_route-Unique (refresh_route hops i r) table u)
]
