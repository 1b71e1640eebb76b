-- ===== src/Forms/Addresses.antt =====
-- Which texts the pattern for addresses of frontend/src/pages/RegisterPage.tsx matches.
use locketgoldhuydev.Prelude.{
  ℕ, ◌≡◌, refl, ap, subst, ◌∙◌, ◌↔◌, inl, inr, Bool, true, false, ◌&&◌, Option, none, some, [], ◌∷◌,
  ◌++◌, arith, Text, is_space, All, All-append, ◌==◌, ==_iff, Bool-cases, if-elim,
}
use locketgoldhuydev.Forms.Patterns.{
  is_part_unit, all_units, is_filled, cons_before, split_at_sign, has_dot, has_inner_dot, are_parts,
  is_email,
}

abbrev pub AllParts : Text → Type 0
AllParts = All (λ c. is_part_unit c ≡ true)

-- Some units, none of them a space or `@`.
abbrev pub IsPart : Text → Type 0
IsPart t = (is_filled t ≡ true) × AllParts t

-- `local@name.rest`
abbrev pub IsAddress : Text → Type 0
IsAddress s =
    (local name rest : Text) × (s ≡ local ++ b'@' ∷ (name ++ b'.' ∷ rest))
    × IsPart local
    × IsPart name
    × IsPart rest

pub all_units-All :
    (test : ℕ → Bool) (s : Text) → (all_units test s ≡ true) ↔ All (λ c. test c ≡ true) s
unfolding all_units
all_units-All test [] = (λ h. tt, λ h. refl)
all_units-All test (c ∷ s) = (
  λ h. (ground arith, (all_units-All test s).0 (ground arith)),
  λ h. let this = h.0 in let rest = (all_units-All test s).1 h.1 in ground arith,
)

All-parts {κ} : (P : ℕ → Type κ) (s t : Text) → All P (s ++ t) → All P s × All P t
All-parts P [] t h = (tt, h)
All-parts P (c ∷ s) t h = let (left, right) = All-parts P s t h.1 in ((h.0, left), right)

Split : Text → Option (Text × Text) → Type 0
Split s none = Unit
Split s (some (before, after)) = s ≡ before ++ b'@' ∷ after

split_at_sign-Split : (s : Text) → Split s (split_at_sign s)
unfolding split_at_sign Split
split_at_sign-Split [] = tt
split_at_sign-Split (c ∷ s) =
    if-elim (Split (c ∷ s)) (c == b'@') _ _ (λ sign. ap (λ d. d ∷ s) ((==_iff c b'@').0 sign))
      (λ other. cons-Split (split_at_sign s) (split_at_sign-Split s))
  where
    cons-Split : (o : Option (Text × Text)) → Split s o → Split (c ∷ s) (cons_before c o)
    cons-Split none h = tt
    cons-Split (some (before, after)) h = ap (λ t. c ∷ t) h

split_at_sign-append :
    (local after : Text)
    → AllParts local
    → split_at_sign (local ++ b'@' ∷ after) ≡ some (local, after)
unfolding split_at_sign
split_at_sign-append [] after h = refl
split_at_sign-append (c ∷ local) after h =
    let part = h.0 in
    let no_sign : (c == b'@') ≡ false = ground arith in
    rw (no_sign, split_at_sign-append local after h.1) refl

has_dot-cases :
    (s : Text)
    → has_dot s ≡ true
    → (name rest : Text) × (s ≡ name ++ b'.' ∷ rest) × (is_filled rest ≡ true)
unfolding has_dot
has_dot-cases [] h = absurd cc
has_dot-cases (c ∷ s) h = elim (Bool-cases (c == b'.' && is_filled s)) [
  | inl here ↦ let dot : c ≡ b'.' = ground arith in ([], s, ap (λ d. d ∷ s) dot, ground arith)
  | inr later ↦
      let (name, rest, e, filled) = has_dot-cases s (ground arith) in
      (c ∷ name, rest, ap (λ t. c ∷ t) e, filled)
]

has_dot-append : (name rest : Text) → is_filled rest ≡ true → has_dot (name ++ b'.' ∷ rest) ≡ true
unfolding has_dot
has_dot-append [] rest h = ground arith
has_dot-append (c ∷ name) rest h = let found = has_dot-append name rest h in ground arith

inner_dot-cases :
    (s : Text)
    → has_inner_dot s ≡ true
    → (name rest : Text) × (s ≡ name ++ b'.' ∷ rest)
      × (is_filled name ≡ true)
      × (is_filled rest ≡ true)
unfolding has_inner_dot
inner_dot-cases [] h = absurd cc
inner_dot-cases (c ∷ s) h =
    let (name, rest, e, filled) = has_dot-cases s h in
    (c ∷ name, rest, ap (λ t. c ∷ t) e, refl, filled)

inner_dot-append :
    (name rest : Text)
    → is_filled name ≡ true
    → is_filled rest ≡ true
    → has_inner_dot (name ++ b'.' ∷ rest) ≡ true
unfolding has_inner_dot
inner_dot-append [] rest h k = absurd cc
inner_dot-append (c ∷ name) rest h k = has_dot-append name rest k

dotted-parts :
    (domain name rest : Text)
    → domain ≡ name ++ b'.' ∷ rest
    → AllParts domain
    → AllParts name × AllParts rest
dotted-parts domain name rest e h =
    let (left, right) =
      All-parts (λ c. is_part_unit c ≡ true) name (b'.' ∷ rest) (subst AllParts e h) in
    (left, right.1)

address-whole :
    (s local domain name rest : Text)
    → s ≡ local ++ b'@' ∷ domain
    → domain ≡ name ++ b'.' ∷ rest
    → s ≡ local ++ b'@' ∷ (name ++ b'.' ∷ rest)
address-whole s local domain name rest h e = h ∙ ap (λ d. local ++ b'@' ∷ d) e

parts-IsAddress :
    (s : Text) (o : Option (Text × Text)) → Split s o → are_parts o ≡ true → IsAddress s
unfolding Split
parts-IsAddress s none h k = absurd cc
parts-IsAddress s (some (local, domain)) h k =
    let filled : is_filled local ≡ true = ground arith in
    let plain : all_units is_part_unit local ≡ true = ground arith in
    let plain_domain : all_units is_part_unit domain ≡ true = ground arith in
    let dotted : has_inner_dot domain ≡ true = ground arith in
    let (name, rest, e, some_name, some_rest) = inner_dot-cases domain dotted in
    let all_domain = (all_units-All is_part_unit domain).0 plain_domain in
    let (left, right) = dotted-parts domain name rest e all_domain in
    (
      local,
      name,
      rest,
      address-whole s local domain name rest h e,
      (filled, (all_units-All is_part_unit local).0 plain),
      (some_name, left),
      (some_rest, right),
    )

address-parts :
    (local name rest : Text)
    → IsPart local
    → IsPart name
    → IsPart rest
    → are_parts (some (local, name ++ b'.' ∷ rest)) ≡ true
address-parts local name rest l n r =
    let filled = l.0 in
    let plain = (all_units-All is_part_unit local).1 l.1 in
    let plain_domain = (all_units-All is_part_unit (name ++ b'.' ∷ rest)).1 (
      All-append (λ c. is_part_unit c ≡ true) name (b'.' ∷ rest) n.1
        ((unfold is_space in refl), r.1)) in
    let dotted = inner_dot-append name rest n.0 r.0 in rw (filled, plain, plain_domain, dotted) refl

-- The pattern matches exactly the texts of the form local@name.rest, of three parts that are not empty
-- and have neither a space nor another @ in them.
pub is_email-IsAddress : (s : Text) → (is_email s ≡ true) ↔ IsAddress s
unfolding is_email
is_email-IsAddress s = (
  λ h. parts-IsAddress s (split_at_sign s) (split_at_sign-Split s) h,
  λ (local, name, rest, e, l, n, r).
      ap (λ t. are_parts (split_at_sign t)) e
      ∙ ap are_parts (split_at_sign-append local (name ++ b'.' ∷ rest) l.1)
      ∙ address-parts local name rest l n r,
)
