-- ===== src/Admin/Editing.antt =====
-- What the form of frontend/src/pages/admin/AdminCoupons.tsx lets through, and what it makes of a coupon
-- that is edited.
use locketgoldhuydev.Prelude.{
  ℕ, ◌%◌, ◌≤◌, ◌≡◌, ◌≢◌, refl, ap, Bool, true, false, Option, none, some, [], ◌∷◌, arith, Text,
  trim, upper, if-elim,
}
use locketgoldhuydev.Admin.Coupons.{
  Form, Payload, Checked, complains, sends, Num, natural, other, is_thousands, accept_if, value_of,
  is_blank, parse_filled, parse, complaint_of, is_positive, is_discount, payload_of, checked_with,
  handle_save_coupon,
}

-- The rules of a coupon that may be sent.
abbrev pub AtLeastOne : Option ℕ → Type 0
AtLeastOne none = Unit
AtLeastOne (some n) = 1 ≤ n

abbrev pub Thousands : ℕ → Type 0
Thousands n = (1000 ≤ n) × (n % 1000 ≡ 0)

abbrev pub ThousandsIfAny : Option ℕ → Type 0
ThousandsIfAny none = Unit
ThousandsIfAny (some n) = Thousands n

abbrev pub Discount : Bool → ℕ → Type 0
Discount true n = (1 ≤ n) × (n ≤ 99)
Discount false n = Thousands n

pub record IsSound (p : Payload) : Type 0 where
  pub has_code : p.code ≢ []
  pub has_name : p.name ≢ []
  pub discounts : Discount p.is_percent p.discount_value
  pub capped : ThousandsIfAny p.max_discount_vnd
  pub floored : Thousands p.min_order_vnd
  pub total : AtLeastOne p.usage_limit_total
  pub per_user : AtLeastOne p.usage_limit_per_user

abbrev pub Sends : Checked → Type 0
Sends (complains c) = Unit
Sends (sends p) = IsSound p

is_blank-filled : (t : Text) → is_blank t ≡ false → t ≢ []
is_blank-filled t h e = cc (h, ap is_blank e)

is_discount-Discount : (b : Bool) (n : ℕ) → is_discount b n ≡ true → Discount b n
is_discount-Discount true n h = (ground arith, ground arith)
is_discount-Discount false n h = (ground arith, ground arith)

-- A number that was accepted has passed its test.
accepted-passes :
    (Q : Option ℕ → Type 0) (test : ℕ → Bool) (x : Num)
    → ((n : ℕ) → test n ≡ true → Q (some n))
    → Q none
    → Q (value_of (accept_if test x))
accepted-passes Q test other some_passes none_passes = none_passes
accepted-passes Q test (natural n) some_passes none_passes =
    if-elim (λ x. Q (value_of x)) (test n) _ _ (λ ok. some_passes n ok) (λ _. none_passes)

module _ (upper_other : ℕ → Text) (number : Text → Num) (read_date : Text → Option ℕ) where
  parse-passes :
      (Q : Option ℕ → Type 0) (test : ℕ → Bool) (t : Text)
      → ((n : ℕ) → test n ≡ true → Q (some n))
      → Q none
      → Q (value_of (parse number test t))
  parse-passes Q test t f k = elim (trim t) as (λ u. Q (value_of (parse_filled number test u))) [
    | [] ↦ k
    | c ∷ s ↦ accepted-passes Q test (number (c ∷ s)) f k
  ]

  payload_of-IsSound :
      (f : Form)
      → complaint_of upper_other number read_date f ≡ none
      → IsSound (payload_of upper_other number read_date f)
  unfolding complaint_of payload_of
  payload_of-IsSound f h = record {
    has_code = is_blank-filled (upper upper_other (trim f.code)) (ground arith);
    has_name = is_blank-filled (trim f.name) (ground arith);
    discounts = is_discount-Discount f.is_percent f.discount_value (ground arith);
    capped =
        if-elim ThousandsIfAny f.is_percent _ _
          (λ _.
            parse-passes ThousandsIfAny is_thousands f.max_discount_vnd
              (λ n ok. (ground arith, ground arith)) tt)
          (λ _. tt);
    floored = is_discount-Discount false f.min_order_vnd (ground arith);
    total = parse-passes AtLeastOne is_positive f.usage_limit_total (λ n ok. ground arith) tt;
    per_user = parse-passes AtLeastOne is_positive f.usage_limit_per_user (λ n ok. ground arith) tt;
  }

  -- What the form sends keeps the rules: a code, a name, a discount from 1 to 99 percent or in whole
  -- thousands, an upper limit and a least order in whole thousands, and limits of at least 1.
  pub handle_save_coupon-IsSound :
      (f : Form) → Sends (handle_save_coupon upper_other number read_date f)
  unfolding handle_save_coupon
  handle_save_coupon-IsSound f =
      elim (complaint_of upper_other number read_date f)
          as (λ o.
            complaint_of upper_other number read_date f ≡ o
            → Sends (checked_with o (payload_of upper_other number read_date f))) [
              | none ↦ λ passes. payload_of-IsSound f passes
              | some c ↦ λ fails. tt
            ]
        refl
