-- ===== src/Utils/Url/Areas.antt =====
-- Where a user lands after logging in, by role (frontend/src/utils/url.ts).
use locketgoldhuydev.Prelude.{
  ℕ, ◌≡◌, refl, sym, subst, ◌⊎◌, inl, inr, true, Option, none, some, ◌++◌, arith, Text, codes,
  text_eq, starts_with, Bool-cases, if◌then◌else◌,
}
use locketgoldhuydev.Prelude.TextLaws.{
  Begins, IsTrimmed, starts_with-Begins, starts_with-append, text_eq_iff,
}
use locketgoldhuydev.Utils.Url.{is_inside, get_dashboard_return_to, get_post_login_return_to}
use locketgoldhuydev.Utils.Url.Safety.{IsInternal, sanitize_return_to-keeps}

-- The page itself, the page with a query, or a page below it.
abbrev pub IsIn : Text → Text → Type 0
IsIn base t = (t ≡ base) ⊎ (Begins (base ++ codes "?") t ⊎ Begins (base ++ codes "/") t)

is_inside-IsIn : (base t : Text) → is_inside base t ≡ true → IsIn base t
unfolding is_inside
is_inside-IsIn base t h = elim (Bool-cases (text_eq t base)) [
  | inl same ↦ inl ((text_eq_iff t base).0 same)
  | inr other ↦ elim (Bool-cases (starts_with t (base ++ codes "?"))) [
    | inl query ↦ inr (inl (starts_with-Begins t _ query))
    | inr plain ↦ inr (inr (starts_with-Begins t _ (ground arith)))
  ]
]

IsIn-is_inside : (base t : Text) → IsIn base t → is_inside base t ≡ true
unfolding is_inside
IsIn-is_inside base t (inl e) = rw ((text_eq_iff t base).1 e) refl
IsIn-is_inside base t (inr (inl (rest, e))) =
    let query : starts_with t (base ++ codes "?") ≡ true =
      subst (λ u. starts_with u (base ++ codes "?") ≡ true) (sym e) (starts_with-append _ rest) in
    ground arith
IsIn-is_inside base t (inr (inr (rest, e))) =
    let below : starts_with t (base ++ codes "/") ≡ true =
      subst (λ u. starts_with u (base ++ codes "/") ≡ true) (sym e) (starts_with-append _ rest) in
    ground arith

choice-IsIn : (base t : Text) → IsIn base (if is_inside base t then t else base)
choice-IsIn base t = elim (Bool-cases (is_inside base t)) [
  | inl inside ↦ rw inside (is_inside-IsIn base t inside)
  | inr outside ↦ rw outside (inl refl)
]

-- The area that belongs to a role.
unfoldable pub home : Option Text → Text
home none = codes "/dashboard"
home (some role) = if text_eq role (codes "admin") then codes "/admin" else codes "/dashboard"

module _ (lower_other : ℕ → Text) where
  get_dashboard_return_to-IsIn :
      (raw : Option Text) → IsIn (codes "/dashboard") (get_dashboard_return_to lower_other raw)
  unfolding get_dashboard_return_to
  get_dashboard_return_to-IsIn raw = choice-IsIn (codes "/dashboard") _

  -- An admin lands in /admin and anybody else in /dashboard, whatever the parameter asks for.
  pub get_post_login_return_to-IsIn :
      (role raw : Option Text) → IsIn (home role) (get_post_login_return_to lower_other role raw)
  unfolding get_post_login_return_to home
  get_post_login_return_to-IsIn none raw = get_dashboard_return_to-IsIn raw
  get_post_login_return_to-IsIn (some role) raw = elim (Bool-cases (text_eq role (codes "admin"))) [
    | inl admin ↦ rw admin (choice-IsIn (codes "/admin") _)
    | inr user ↦ rw user (get_dashboard_return_to-IsIn raw)
  ]

  -- A trimmed internal path inside the area of the role is where the user lands.
  pub get_post_login_return_to-keeps :
      (role : Option Text) (t : Text)
      → IsInternal lower_other t
      → IsTrimmed t
      → IsIn (home role) t
      → get_post_login_return_to lower_other role (some t) ≡ t
  unfolding get_post_login_return_to get_dashboard_return_to home
  get_post_login_return_to-keeps none t v h inside =
      rw (sanitize_return_to-keeps lower_other t v h, IsIn-is_inside _ t inside)
  get_post_login_return_to-keeps (some role) t v h inside =
      elim (Bool-cases (text_eq role (codes "admin"))) [
        | inl admin ↦ rw (
          admin,
          sanitize_return_to-keeps lower_other t v h,
          IsIn-is_inside (codes "/admin") t (rw admin at inside),
        )
        | inr user ↦ rw (
          user,
          sanitize_return_to-keeps lower_other t v h,
          IsIn-is_inside (codes "/dashboard") t (rw user at inside),
        )
      ]
