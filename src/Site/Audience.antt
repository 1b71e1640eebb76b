-- ===== src/Site/Audience.antt =====
-- Which paths the routes of an announcement name: `matchesRoute` of
-- frontend/src/components/common/GlobalAnnouncementPopup.tsx.
use mathlib.Core.List.{reverse-append, reverse-reverse}
use locketgoldhuydev.Prelude.{
  ◌≡◌, refl, sym, ap, ◌∙◌, subst, inl, inr, ◌⊎◌, ◌↔◌, true, Option, none, some, List, [], ◌∷◌, ◌++◌,
  append_assoc, trim_start, trim_end, keep_unit, is_space, reverse, arith, Text, codes, text_eq,
  starts_with, trim, any, Bool-cases,
}
use locketgoldhuydev.Prelude.TextLaws.{Begins, text_eq_iff, starts_with-Begins, starts_with-append}
use locketgoldhuydev.Site.Popup.{
  ends_with, without_last, matches_wildcard, matches_pattern, matches_route,
}

-- A pattern without the space around it: nothing or a path itself, a path and all below it, or
-- whatever begins like this.
abbrev pub Covers : Text → Text → Type 0
Covers p path =
    (p ≡ [])
    ⊎ ((p ≡ path)
        ⊎ (((base : Text) × (p ≡ base ++ codes "/*") × (path ≡ base))
            ⊎ ((base : Text) × (p ≡ base ++ codes "*") × Begins base path)))

-- One of the routes covers the path.
abbrev pub Named : List Text → Text → Type 0
Named [] path = ⊥
Named (r ∷ routes) path = Covers (trim r) path ⊎ Named routes path

ends_with-Ends : (s p : Text) → ends_with s p ≡ true → (base : Text) × (s ≡ base ++ p)
unfolding ends_with
ends_with-Ends s p h =
    let (rest, e) = starts_with-Begins (reverse s) (reverse p) h in
    (
      reverse rest,
      sym (reverse-reverse s)
          ∙ ap reverse e
          ∙ reverse-append (reverse p) rest
          ∙ ap (λ q. reverse rest ++ q) (reverse-reverse p),
    )

ends_with-append : (base p : Text) → ends_with (base ++ p) p ≡ true
unfolding ends_with
ends_with-append base p = rw (reverse-append base p) (starts_with-append (reverse p) (reverse base))

without_last-star : (base : Text) → without_last 1 (base ++ codes "*") ≡ base
unfolding without_last
without_last-star base = rw (reverse-append base (codes "*")) (reverse-reverse base)

without_last-below : (base : Text) → without_last 2 (base ++ codes "/*") ≡ base
unfolding without_last
without_last-below base = rw (reverse-append base (codes "/*")) (reverse-reverse base)

below-star : (base : Text) → base ++ codes "/*" ≡ (base ++ codes "/") ++ codes "*"
below-star base = sym (append_assoc base (codes "/") (codes "*"))

starts_with-rest : (base path : Text) → Begins base path → starts_with path base ≡ true
starts_with-rest base path (rest, e) = rw e (starts_with-append base rest)

matches_wildcard-Covers : (path q : Text) → matches_wildcard path q ≡ true → Covers q path
unfolding matches_wildcard
matches_wildcard-Covers path q h = elim (Bool-cases (ends_with q (codes "/*"))) [
  | inl below ↦
      let (base, e) = ends_with-Ends q (codes "/*") below in
      let cut : without_last 2 q ≡ base = ap (without_last 2) e ∙ without_last-below base in
      elim (Bool-cases (text_eq path base)) [
        | inl same ↦ inr (inr (inl (base, e, (text_eq_iff path base).0 same)))
        | inr other ↦ inr (
            inr (
              inr (
                base ++ codes "/",
                e ∙ below-star base,
                starts_with-Begins path (base ++ codes "/") (rw (below, cut, other) at h),
              )))
      ]
  | inr apart ↦ elim (Bool-cases (ends_with q (codes "*"))) [
    | inl star ↦
        let (base, e) = ends_with-Ends q (codes "*") star in
        let cut : without_last 1 q ≡ base = ap (without_last 1) e ∙ without_last-star base in
        inr (inr (inr (base, e, starts_with-Begins path base (rw (apart, star, cut) at h))))
    | inr plain ↦ inr (inl (sym ((text_eq_iff path q).0 (rw (apart, plain) at h))))
  ]
]

matches_pattern-Covers : (path q : Text) → matches_pattern path q ≡ true → Covers q path
unfolding matches_pattern
matches_pattern-Covers path [] h = inl refl
matches_pattern-Covers path (c ∷ p) h = elim (Bool-cases (text_eq (c ∷ p) (codes "*"))) [
  | inl star ↦ inr (inr (inr ([], (text_eq_iff (c ∷ p) (codes "*")).0 star, (path, refl))))
  | inr plain ↦ elim (Bool-cases (text_eq (c ∷ p) path)) [
    | inl same ↦ inr (inl ((text_eq_iff (c ∷ p) path).0 same))
    | inr other ↦ matches_wildcard-Covers path (c ∷ p) (rw (plain, other) at h)
  ]
]

below-matches : (base : Text) → matches_wildcard base (base ++ codes "/*") ≡ true
unfolding matches_wildcard
below-matches base =
    rw (ends_with-append base (codes "/*"), without_last-below base, (text_eq_iff base base).1 refl)
      refl

star-matches :
    (base path : Text) → Begins base path → matches_wildcard path (base ++ codes "*") ≡ true
unfolding matches_wildcard
star-matches base path h = elim (Bool-cases (ends_with (base ++ codes "*") (codes "/*"))) [
  | inl below ↦
      let (b, e) = ends_with-Ends (base ++ codes "*") (codes "/*") below in
      let same : base ≡ b ++ codes "/" =
        sym (without_last-star base)
        ∙ ap (without_last 1) (e ∙ below-star b)
        ∙ without_last-star (b ++ codes "/") in
      let cut : without_last 2 (base ++ codes "*") ≡ b =
        ap (without_last 2) e ∙ without_last-below b in
      let starts : starts_with path (b ++ codes "/") ≡ true =
        subst (λ t. starts_with path t ≡ true) same (starts_with-rest base path h) in
      rw (below, cut) (ground arith)
  | inr apart ↦
      rw (apart, ends_with-append base (codes "*"), without_last-star base)
        (starts_with-rest base path h)
]

wildcard-matches : (path q : Text) → matches_wildcard path q ≡ true → matches_pattern path q ≡ true
unfolding matches_pattern
wildcard-matches path [] h = refl
wildcard-matches path (c ∷ p) h = ground arith

same-matches : (q : Text) → matches_pattern q q ≡ true
unfolding matches_pattern
same-matches [] = refl
same-matches (c ∷ p) = let same = (text_eq_iff (c ∷ p) (c ∷ p)).1 refl in ground arith

Covers-matches_pattern : (path q : Text) → Covers q path → matches_pattern path q ≡ true
Covers-matches_pattern path q (inl e) = rw e (unfold matches_pattern in refl)
Covers-matches_pattern path q (inr (inl e)) = rw e (same-matches path)
Covers-matches_pattern path q (inr (inr (inl (base, e, f)))) =
    wildcard-matches path q (rw (e, f) (below-matches base))
Covers-matches_pattern path q (inr (inr (inr (base, e, h)))) =
    wildcard-matches path q (rw e (star-matches base path h))

any-Named :
    (routes : List Text) (path : Text)
    → (any (λ r. matches_pattern path (trim r)) routes ≡ true) ↔ Named routes path
any-Named [] path = (λ h. cc, λ h. absurd h)
any-Named (r ∷ routes) path = (
  λ h. elim (Bool-cases (matches_pattern path (trim r))) [
    | inl here ↦ inl (matches_pattern-Covers path (trim r) here)
    | inr there ↦ inr ((any-Named routes path).0 (ground arith))
  ],
  λ n. elim n [
    | inl here ↦ rw (Covers-matches_pattern path (trim r) here) refl
    | inr there ↦ let rest = (any-Named routes path).1 there in ground arith
  ],
)

star-Covers : (r path : Text) → text_eq (codes "*") r ≡ true → Covers (trim r) path
star-Covers r path h =
    let same : trim r ≡ codes "*" =
      rw (sym ((text_eq_iff (codes "*") r).0 h))
        (unfold trim trim_start trim_end keep_unit is_space in refl) in
    inr (inr (inr ([], same, (path, refl))))

star-Named :
    (routes : List Text) (path : Text) → any (text_eq (codes "*")) routes ≡ true → Named routes path
star-Named [] path h = absurd cc
star-Named (r ∷ routes) path h = elim (Bool-cases (text_eq (codes "*") r)) [
  | inl here ↦ inl (star-Covers r path here)
  | inr there ↦ inr (star-Named routes path (ground arith))
]

-- No routes, or one that covers the path.
abbrev pub Admits : Option (List Text) → Text → Type 0
Admits none path = Unit
Admits (some []) path = Unit
Admits (some (r ∷ routes)) path = Named (r ∷ routes) path

-- An announcement matches the path exactly if it has no routes, or one of them, without the space
-- around it, is empty or the path itself, or ends with `*` and the path begins with what precedes it,
-- or ends with `/*` and the path is what precedes that.
pub matches_route-Admits :
    (path : Text) (routes : Option (List Text))
    → (matches_route path routes ≡ true) ↔ Admits routes path
unfolding matches_route
matches_route-Admits path none = (λ h. tt, λ h. refl)
matches_route-Admits path (some []) = (λ h. tt, λ h. refl)
matches_route-Admits path (some (r ∷ routes)) = (
  λ h. elim (Bool-cases (any (text_eq (codes "*")) (r ∷ routes))) [
    | inl star ↦ star-Named (r ∷ routes) path star
    | inr plain ↦ (any-Named (r ∷ routes) path).0 (ground arith)
  ],
  λ n. let found = (any-Named (r ∷ routes) path).1 n in ground arith,
)
