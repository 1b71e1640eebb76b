-- ===== src/Utils/Format/Digits.antt =====
-- The texts of numbers, `String(n)`, as in frontend/src/utils/format.ts, have no space in them.
use locketgoldhuydev.Prelude.{
  ℕ, zero, suc, ◌+◌, ◌/◌, ◌%◌, ◌<◌, ◌≡◌, refl, ap, ◌∙◌, false, [], ◌∷◌, ◌++◌, arith, Text, trim,
  trim_end, is_space, All, All-append, ltb, if-elim,
}
use locketgoldhuydev.Prelude.TextLaws.{trim-cons, trim_end-cons}
use locketgoldhuydev.Utils.Format.{decimal_from, decimal}

abbrev pub IsPlain : Text → Type 0
IsPlain = All (λ c. is_space c ≡ false)

trim_end-plain : (s : Text) → IsPlain s → trim_end s ≡ s
unfolding trim_end
trim_end-plain [] h = refl
trim_end-plain (c ∷ s) h = trim_end-cons c s h.0 ∙ ap (λ t. c ∷ t) (trim_end-plain s h.1)

pub trim-plain : (s : Text) → IsPlain s → trim s ≡ s
trim-plain [] h = unfold trim trim_end in refl
trim-plain (c ∷ s) h = trim-cons c s h.0 ∙ ap (λ t. c ∷ t) (trim_end-plain s h.1)

digit-plain : (d : ℕ) → d < 10 → is_space (b'0' + d) ≡ false
unfolding is_space
digit-plain d h = ground arith

decimal_from-IsPlain : (fuel n : ℕ) → IsPlain (decimal_from fuel n)
unfolding decimal_from
decimal_from-IsPlain zero n = tt
decimal_from-IsPlain (suc fuel) n =
    if-elim IsPlain (ltb n 10) _ _ (λ small. (digit-plain n (ground arith), tt))
      (λ _.
        All-append (λ c. is_space c ≡ false) (decimal_from fuel (n / 10)) ((b'0' + n % 10) ∷ [])
          (decimal_from-IsPlain fuel (n / 10)) (digit-plain (n % 10) (omega arith), tt))

pub trim-decimal : (n : ℕ) → trim (decimal n) ≡ decimal n
unfolding decimal
trim-decimal n = trim-plain (decimal n) (decimal_from-IsPlain (suc n) n)

append-filled : (s : Text) (c : ℕ) → (d : ℕ) × (t : Text) × (s ++ c ∷ [] ≡ d ∷ t)
append-filled [] c = (c, [], refl)
append-filled (d ∷ s) c = (d, s ++ c ∷ [], refl)

pub decimal-filled : (n : ℕ) → (d : ℕ) × (t : Text) × (decimal n ≡ d ∷ t)
unfolding decimal decimal_from
decimal-filled n =
    if-elim (λ (s : Text). (d : ℕ) × (t : Text) × (s ≡ d ∷ t)) (ltb n 10) _ _
      (λ _. (b'0' + n, [], refl)) (λ _. append-filled (decimal_from n (n / 10)) (b'0' + n % 10))
