-- ===== src/Utils/Username/Parts.antt =====
-- The parts of a link and the units of a username (frontend/src/utils/username.ts).
use locketgoldhuydev.Prelude.{
  ℕ, ◌≡◌, refl, sym, ap, ◌∙◌, subst, ◌⊎◌, inl, inr, ◌≢◌, true, false, Option, none, some, List, [],
  ◌∷◌, ◌++◌, arith, append-nil, Text, codes, trim, All, and-true, Bool-cases, if◌then◌else◌, ◌==◌,
  is_space, trim_start, trim_end, keep_unit,
}
use locketgoldhuydev.Prelude.TextLaws.{Begins, trim_start-fixed, trim_end-cons}
use locketgoldhuydev.Utils.Username.{
  push_head, split_from, first_part, path_part, is_name_unit, all_name_units, is_valid_username,
}

-- The units before the first `x`.
pub take_until : ℕ → Text → Text
take_until x [] = []
take_until x (c ∷ s) = if c == x then [] else c ∷ take_until x s

pub head_of : List Text → Text
head_of [] = []
head_of (w ∷ ws) = w

head_of-push_head : (c : ℕ) (ws : List Text) → head_of (push_head c ws) ≡ c ∷ head_of ws
unfolding head_of push_head
head_of-push_head c [] = refl
head_of-push_head c (w ∷ ws) = refl

head_of-split_from : (x : ℕ) (s : Text) → head_of (split_from (x ∷ []) 0 s) ≡ take_until x s
unfolding head_of split_from take_until
head_of-split_from x [] = refl
head_of-split_from x (c ∷ s) = elim (Bool-cases (c == x)) [
  | inl hit ↦ rw hit refl
  | inr miss ↦ rw miss (head_of-push_head c _ ∙ ap (λ t. c ∷ t) (head_of-split_from x s))
]

first_part-head_of : (s sep : Text) → first_part s sep ≡ head_of (split_from sep 0 s)
unfolding first_part head_of
first_part-head_of s sep = ground arith

pub first_part_unit : (x : ℕ) (s : Text) → first_part s (x ∷ []) ≡ take_until x s
first_part_unit x s = first_part-head_of s (x ∷ []) ∙ head_of-split_from x s

pub path_part-some : (s : Text) → path_part (some s) ≡ take_until b'/' (take_until b'?' s)
unfolding path_part
path_part-some s = first_part_unit b'/' _ ∙ ap (take_until b'/') (first_part_unit b'?' s)

pub take_until-All : (P : ℕ → Type 0) (x : ℕ) (s : Text) → All P s → All P (take_until x s)
unfolding take_until
take_until-All P x [] h = tt
take_until-All P x (c ∷ s) h = elim (Bool-cases (c == x)) [
  | inl hit ↦ rw hit tt
  | inr miss ↦ rw miss (h.0, take_until-All P x s h.1)
]

pub take_until-ne : (x : ℕ) (s : Text) → All (λ c. c ≢ x) (take_until x s)
unfolding take_until
take_until-ne x [] = tt
take_until-ne x (c ∷ s) = elim (Bool-cases (c == x)) [
  | inl hit ↦ rw hit tt
  | inr miss ↦ rw miss (ground arith, take_until-ne x s)
]

pub path_part-ne : (part : Option Text) → All (λ c. c ≢ b'/') (path_part part)
path_part-ne none = unfold path_part in tt
path_part-ne (some s) = subst (All (λ c. c ≢ b'/')) (sym (path_part-some s)) (take_until-ne b'/' _)

pub trim_start-suffix : (s : Text) → (front : Text) × (s ≡ front ++ trim_start s)
unfolding trim_start
trim_start-suffix [] = ([], refl)
trim_start-suffix (c ∷ s) = elim (Bool-cases (is_space c)) [
  | inl space ↦ let (front, e) = trim_start-suffix s in (c ∷ front, rw space (ap (λ t. c ∷ t) e))
  | inr plain ↦ ([], rw plain refl)
]

pub trim_end-prefix : (s : Text) → (back : Text) × (s ≡ trim_end s ++ back)
unfolding trim_end
trim_end-prefix [] = ([], refl)
trim_end-prefix (c ∷ s) = let (back, e) = trim_end-prefix s in put (trim_end s) back e
  where
    put : (t back : Text) → s ≡ t ++ back → (rest : Text) × (c ∷ s ≡ keep_unit c t ++ rest)
    put (d ∷ t) back e = (back, ap (λ u. c ∷ u) e)
    put [] back e = elim (Bool-cases (is_space c)) [
      | inl space ↦ (c ∷ s, unfold keep_unit in rw space refl)
      | inr plain ↦ (back, unfold keep_unit in rw plain (ap (λ u. c ∷ u) e))
    ]

-- A unit that a username may hold ends no part of a link and is no space.
pub name_unit-plain :
    (c : ℕ) → is_name_unit c ≡ true → (c ≢ b'/') × (c ≢ b'?') × (is_space c ≡ false)
unfolding is_name_unit is_space
name_unit-plain c h = (ground arith, ground arith, ground arith)

abbrev pub IsName : Text → Type 0
IsName = All (λ c. is_name_unit c ≡ true)

-- What may follow the username in a link: nothing, a query or a further path.
abbrev pub IsTail : Text → Type 0
IsTail t = (t ≡ []) ⊎ (Begins (codes "?") t ⊎ Begins (codes "/") t)

pub take_until_name :
    (x : ℕ) (user rest : Text)
    → All (λ c. c ≢ x) user
    → take_until x (user ++ rest) ≡ user ++ take_until x rest
unfolding take_until
take_until_name x [] rest h = refl
take_until_name x (c ∷ user) rest (other, h) = ground (arith, take_until_name x user rest h)

pub name-ne_slash : (user : Text) → IsName user → All (λ c. c ≢ b'/') user
name-ne_slash [] h = tt
name-ne_slash (c ∷ user) h = ((name_unit-plain c h.0).0, name-ne_slash user h.1)

pub name-ne_query : (user : Text) → IsName user → All (λ c. c ≢ b'?') user
name-ne_query [] h = tt
name-ne_query (c ∷ user) h = ((name_unit-plain c h.0).1, name-ne_query user h.1)

pub name-trim_start : (user : Text) → IsName user → trim_start user ≡ user
name-trim_start [] h = unfold trim_start in refl
name-trim_start (c ∷ user) h = trim_start-fixed c user (name_unit-plain c h.0).2

-- A part with no space keeps in front of what is trimmed at its end.
pub trim_end_plain :
    (p s : Text) → All (λ c. is_space c ≡ false) p → trim_end (p ++ s) ≡ p ++ trim_end s
trim_end_plain [] s h = refl
trim_end_plain (c ∷ p) s h = trim_end-cons c (p ++ s) h.0 ∙ ap (λ t. c ∷ t) (trim_end_plain p s h.1)

pub name-plain : (user : Text) → IsName user → All (λ c. is_space c ≡ false) user
name-plain [] h = tt
name-plain (c ∷ user) h = ((name_unit-plain c h.0).2, name-plain user h.1)

pub trim_name : (user : Text) → IsName user → trim user ≡ user
unfolding trim
trim_name user h =
    ap trim_end (name-trim_start user h ∙ sym (append-nil user))
    ∙ trim_end_plain user [] (name-plain user h)
    ∙ (unfold trim_end in append-nil user)

pub path_part_name :
    (user tail : Text) → IsName user → IsTail tail → path_part (some (user ++ tail)) ≡ user
path_part_name user tail h t =
    path_part-some (user ++ tail)
    ∙ ap (take_until b'/') (take_until_name b'?' user tail (name-ne_query user h))
    ∙ take_until_name b'/' user _ (name-ne_slash user h)
    ∙ ap (λ r. user ++ r) (nothing_left tail t)
    ∙ append-nil user
  where
    nothing_left : (tail : Text) → IsTail tail → take_until b'/' (take_until b'?' tail) ≡ []
    nothing_left tail (inl e) = rw e (unfold take_until in refl)
    nothing_left tail (inr (inl (rest, e))) = rw e (unfold take_until in refl)
    nothing_left tail (inr (inr (rest, e))) = rw e (unfold take_until in refl)

pub all_name_units-IsName : (s : Text) → all_name_units s ≡ true → IsName s
unfolding all_name_units
all_name_units-IsName [] h = tt
all_name_units-IsName (c ∷ []) h = (h, tt)
all_name_units-IsName (c ∷ d ∷ s) h =
    let (one, more) = and-true _ _ h in (one, all_name_units-IsName (d ∷ s) more)

pub is_valid_username-IsName : (s : Text) → is_valid_username s ≡ true → IsName s
unfolding is_valid_username
is_valid_username-IsName s h = all_name_units-IsName s (ground arith)
