-- ===== src/Forms/Validation.antt =====
-- What the form of frontend/src/pages/RegisterPage.tsx accepts, and what it sends.
use locketgoldhuydev.Prelude.{
  ℕ, ◌≤◌, ◌≡◌, refl, sym, ap, subst, ◌∙◌, ◌↔◌, Bool, true, false, ◌&&◌, Option, [], ◌∷◌, ◌++◌,
  arith, Text, trim, is_space, length, ltb, leb, is_some, All, All-append,
}
use locketgoldhuydev.Prelude.Pairs.{All-map}
use locketgoldhuydev.Prelude.TextLaws.{text_eq_iff}
use locketgoldhuydev.Utils.Format.Digits.{IsPlain, trim-plain}
use locketgoldhuydev.Forms.Patterns.{is_part_unit, is_filled, is_name_unit, is_user_name}
use locketgoldhuydev.Forms.Addresses.{AllParts, IsAddress, all_units-All, is_email-IsAddress}
use locketgoldhuydev.Forms.Register.{
  Problem, Page, check, errors_of, is_absent, has_no_errors, handle_submit,
}

-- A name that is not blank, an address, a user name of 3 to 20 letters, digits and underscores, a
-- password of 10 to 128 units that is repeated, and the terms accepted.
pub record IsAcceptable (p : Page) : Type 0 where
  pub named : is_filled (trim p.display_name) ≡ true
  pub addressed : IsAddress p.email
  pub short : (3 ≤ length p.username) × (length p.username ≤ 20)
  pub plain : All (λ c. is_name_unit c ≡ true) p.username
  pub secret : (10 ≤ length p.password) × (length p.password ≤ 128)
  pub repeated : p.password ≡ p.confirm_password
  pub agreed : p.agree_terms ≡ true

parts-IsPlain : (s : Text) → AllParts s → IsPlain s
parts-IsPlain s h =
    All-map (λ c. is_part_unit c ≡ true) (λ c. is_space c ≡ false) s (λ c k. ground arith) h

address-IsPlain : (s : Text) → IsAddress s → IsPlain s
address-IsPlain s (local, name, rest, e, l, n, r) = subst IsPlain (sym e) (
    All-append (λ c. is_space c ≡ false) local (b'@' ∷ (name ++ b'.' ∷ rest))
      (parts-IsPlain local l.1)
      (
        (unfold is_space in refl),
        All-append (λ c. is_space c ≡ false) name (b'.' ∷ rest) (parts-IsPlain name n.1)
            ((unfold is_space in refl), parts-IsPlain rest r.1),
      ))

name_unit-plain : (c : ℕ) → is_name_unit c ≡ true → is_space c ≡ false
unfolding is_space
name_unit-plain c h = ground arith

append-filled : (s : Text) (c : ℕ) (t : Text) → is_filled (s ++ c ∷ t) ≡ true
append-filled [] c t = refl
append-filled (d ∷ s) c t = refl

long-filled : (s : Text) → 1 ≤ length s → is_filled s ≡ true
long-filled [] h = absurd (omega arith)
long-filled (c ∷ s) h = refl

trim-filled : (s : Text) → IsPlain s → is_filled s ≡ true → is_filled (trim s) ≡ true
trim-filled s h k = ap is_filled (trim-plain s h) ∙ k

check-passes :
    (ok : Bool) (e : Problem) (rest : Option Problem)
    → is_absent (check ok e rest) ≡ (ok && is_absent rest)
check-passes true e rest = refl
check-passes false e rest = refl

accepted-has_no_errors : (p : Page) → IsAcceptable p → has_no_errors (errors_of p) ≡ true
unfolding errors_of is_user_name
accepted-has_no_errors p v =
    let email = (is_email-IsAddress p.email).1 v.addressed in
    let (local, name, rest, e, l, n, r) = v.addressed in
    let some_email =
      trim-filled p.email (address-IsPlain p.email v.addressed)
        (ap is_filled e ∙ append-filled local b'@' (name ++ b'.' ∷ rest)) in
    let units = (all_units-All is_name_unit p.username).1 v.plain in
    let user_plain =
      All-map (λ c. is_name_unit c ≡ true) (λ c. is_space c ≡ false) p.username name_unit-plain
        v.plain in
    let at_least = v.short.0 in
    let at_most = v.short.1 in
    let some_user = trim-filled p.username user_plain (long-filled p.username (omega arith)) in
    let long = v.secret.0 in
    let not_long = v.secret.1 in
    let some_password = long-filled p.password (omega arith) in
    let some_confirm = ap is_filled (sym v.repeated) ∙ some_password in
    let same = (text_eq_iff p.password p.confirm_password).1 v.repeated in
    let enough : ltb (length p.password) 10 ≡ false = ground arith in
    let bounded : ltb 128 (length p.password) ≡ false = ground arith in
    let three : leb 3 (length p.username) ≡ true = ground arith in
    let twenty : leb (length p.username) 20 ≡ true = ground arith in
    rw
      (
        v.named, some_email, email, some_user, three, twenty, units, some_password, enough, bounded,
        some_confirm, same, v.agreed,
      )
      refl

no_errors-accepted : (p : Page) → has_no_errors (errors_of p) ≡ true → IsAcceptable p
unfolding errors_of is_user_name
no_errors-accepted p h = record {
  named = ground arith;
  addressed = (is_email-IsAddress p.email).0 (ground arith);
  short = (ground arith, ground arith);
  plain = (all_units-All is_name_unit p.username).0 (ground arith);
  secret = (ground arith, ground arith);
  repeated = (text_eq_iff p.password p.confirm_password).0 (ground arith);
  agreed = ground arith;
}

module _ (lower_other : ℕ → Text) where
  -- The form is sent exactly if it is acceptable: the name is not blank, the address has the form
  -- local@name.rest without spaces, the user name has 3 to 20 letters, digits and underscores, the
  -- password has 10 to 128 units and is repeated, and the terms are accepted.
  pub handle_submit-IsAcceptable :
      (p : Page) → (is_some (handle_submit lower_other p).1 ≡ true) ↔ IsAcceptable p
  unfolding handle_submit
  handle_submit-IsAcceptable p = (
    λ h. no_errors-accepted p (ground arith),
    λ v. let ok = accepted-has_no_errors p v in rw ok refl,
  )
