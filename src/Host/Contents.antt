-- ===== src/Host/Contents.antt =====
-- The list of contents that a host offers, under PUT and DEL.
use communication_network.Base.{
  ℕ, ◌≡◌, refl, ℤ, pos, negsuc, ltb_ℤ, ◌≤ℤ◌, List, [], ◌∷◌, ◌++◌, Option, none, some, Bool, true,
  false, ◌&&◌, if◌then◌else◌, arith, Option-cases, Bool-cases, inl, inr,
}
use communication_network.Host.State.{fn_generator, ◌==ℤ◌, Host}
use communication_network.Host.Threads.{find_or_end, put, remove, del}

abbrev pub holds : ℤ → List ℤ → Bool
holds c [] = false
holds c (x ∷ xs) = if x ==ℤ c then true else holds c xs

abbrev pub has_file : Option (List ℕ) → Bool
has_file none = false
has_file (some bytes) = true

==ℤ_eq : (a b : ℤ) → (a ==ℤ b) ≡ true → a ≡ b
==ℤ_eq (pos a) (pos b) e = ground (arith, e)
==ℤ_eq (pos a) (negsuc b) e = absurd (cc)
==ℤ_eq (negsuc a) (pos b) e = absurd (cc)
==ℤ_eq (negsuc a) (negsuc b) e = ground (arith, e)

==ℤ_refl : (a : ℤ) → (a ==ℤ a) ≡ true
==ℤ_refl (pos a) = ground arith
==ℤ_refl (negsuc a) = ground arith

holds-push :
    (c d : ℤ) (xs : List ℤ) → holds d (xs ++ c ∷ []) ≡ (if c ==ℤ d then true else holds d xs)
holds-push c d [] = refl
holds-push c d (x ∷ xs) = ground (arith, holds-push c d xs)

holds-remove :
    (c d : ℤ) (xs : List ℤ) → holds d (remove c xs) ≡ (if c ==ℤ d then false else holds d xs)
holds-remove c d [] = ground arith
holds-remove c d (x ∷ xs) = elim (Bool-cases (x ==ℤ c)) [
  | inl same ↦ rw same (ground (arith, holds-remove c d xs, ==ℤ_eq x c same))
  | inr other ↦
      rw other (ground (arith, other, holds-remove c d xs, ==ℤ_eq x d, ==ℤ_eq c d, ==ℤ_refl d))
]

-- What the search reads is positive only for a content that is in the list.
find-holds :
    (past_end : List ℤ → ℤ) (c : ℤ) (all xs : List ℤ)
    → past_end all ≤ℤ pos 0
    → ltb_ℤ (pos 0) (find_or_end past_end c all xs) ≡ true
    → holds c xs ≡ true
find-holds past_end c all [] nothing e = absurd (ground (arith, nothing, e))
find-holds past_end c all (x ∷ xs) nothing e =
    ground (arith, e, find-holds past_end c all xs nothing)

push_if_new :
    (past_end : List ℤ → ℤ) (c d : ℤ) (s : Host)
    → past_end s.list1 ≤ℤ pos 0
    → holds d
        (if ltb_ℤ (pos 0) (find_or_end past_end c s.list1 s.list1)
          then s
          else record s { list1 = s.list1 ++ c ∷ [] }).list1
      ≡ (if c ==ℤ d then true else holds d s.list1)
push_if_new past_end c d s nothing =
    elim (Bool-cases (ltb_ℤ (pos 0) (find_or_end past_end c s.list1 s.list1))) [
      | inl found ↦
          rw found (ground (arith, find-holds past_end c s.list1 s.list1 nothing found, ==ℤ_eq c d))
      | inr missing ↦ rw missing (holds-push c d s.list1)
    ]

-- PUT and DEL on the set of contents that the list stands for, whatever the end of the list reads
-- as, if that is never positive: PUT adds the content if its file can be opened, and nothing else;
-- DEL takes the content out, however often the list has it, and nothing else.
pub put-del_refine :
    (past_end : List ℤ → ℤ) (c d : ℤ) (s : Host)
    → past_end s.list1 ≤ℤ pos 0
    → (holds d (put past_end c s).list1
        ≡ (if has_file (s.files (fn_generator c true)) && (c ==ℤ d) then true else holds d s.list1))
      × (holds d (del c s).list1 ≡ (if c ==ℤ d then false else holds d s.list1))
unfolding put del
put-del_refine past_end c d s nothing = (
  elim (Option-cases (s.files (fn_generator c true))) [
    | inl closed ↦ rw (closed, put) refl
    | inr (bytes, opened) ↦ rw (opened, put) (push_if_new past_end c d s nothing)
  ],
  holds-remove c d s.list1,
)

find-missing :
    (past_end : List ℤ → ℤ) (c : ℤ) (all xs : List ℤ)
    → holds c xs ≡ false
    → find_or_end past_end c all xs ≡ past_end all
find-missing past_end c all [] e = refl
find-missing past_end c all (x ∷ xs) e = ground (arith, e, find-missing past_end c all xs)

-- If the end of the list reads as a positive number, PUT of a content that the host does not offer
-- changes nothing, although its file is there.
pub put_lost :
    (past_end : List ℤ → ℤ) (c : ℤ) (s : Host)
    → pos 1 ≤ℤ past_end s.list1
    → holds c s.list1 ≡ false
    → put past_end c s ≡ s
unfolding put
put_lost past_end c s positive new = elim (Option-cases (s.files (fn_generator c true))) [
  | inl closed ↦ rw (closed, put) refl
  | inr (bytes, opened) ↦
      let seen : ltb_ℤ (pos 0) (find_or_end past_end c s.list1 s.list1) ≡ true =
        ground (arith, positive, find-missing past_end c s.list1 s.list1 new) in
      rw (opened, put) (rw seen refl)
]
