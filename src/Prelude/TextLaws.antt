-- ===== src/Prelude/TextLaws.antt =====
-- Laws of the text methods: prefixes, substrings and trimming.
use Prim.Native.Nat.{ℕ}
use mathlib.Core.Path.{◌≡◌, refl, ap, ap₂, ◌∙◌}
use mathlib.Core.Logic.{◌↔◌, ◌⊎◌, inl, inr}
use mathlib.Core.Bool.{true, false}
use mathlib.Core.List.{[], ◌∷◌, ◌++◌}
use native.Mathlib.Omega.{arith}
use locketgoldhuydev.Prelude.Tests.{==_iff, Bool-cases, and-true, ◌==◌}
use locketgoldhuydev.Prelude.Texts.{
  Text, text_eq, starts_with, includes, is_space, trim_start, keep_unit, trim_end, trim,
}

pub text_eq_iff : (s t : Text) → (text_eq s t ≡ true) ↔ (s ≡ t)
unfolding text_eq
text_eq_iff [] [] = (λ _. refl, λ _. refl)
text_eq_iff [] (d ∷ t) = (λ h. cc, λ h. cc)
text_eq_iff (c ∷ s) [] = (λ h. cc, λ h. cc)
text_eq_iff (c ∷ s) (d ∷ t) =
    (λ h. ground (arith, text_eq_iff s t), λ h. ground (arith, text_eq_iff s t))

-- `p` is a prefix of `s`.
abbrev pub Begins : Text → Text → Type 0
Begins p s = (rest : Text) × (s ≡ p ++ rest)

-- `p` stands somewhere in `s`.
abbrev pub Contains : Text → Text → Type 0
Contains p s = (before after : Text) × (s ≡ before ++ (p ++ after))

pub starts_with-Begins : (s p : Text) → starts_with s p ≡ true → Begins p s
unfolding starts_with
starts_with-Begins s [] h = (s, refl)
starts_with-Begins [] (d ∷ p) h = absurd cc
starts_with-Begins (c ∷ s) (d ∷ p) h =
    let (same, more) = and-true (c == d) (starts_with s p) h in
    let (rest, e) = starts_with-Begins s p more in
    (rest, ap₂ (λ x xs. x ∷ xs) ((==_iff c d).0 same) e)

pub starts_with-append : (p rest : Text) → starts_with (p ++ rest) p ≡ true
unfolding starts_with
starts_with-append [] [] = refl
starts_with-append [] (c ∷ rest) = refl
starts_with-append (c ∷ p) rest = ground (arith, starts_with-append p rest)

includes-starts_with : (s p : Text) → starts_with s p ≡ true → includes s p ≡ true
unfolding includes
includes-starts_with [] p h = h
includes-starts_with (c ∷ s) p h = rw h

pub includes-append : (before p after : Text) → includes (before ++ (p ++ after)) p ≡ true
unfolding includes
includes-append [] p after = includes-starts_with _ p (starts_with-append p after)
includes-append (c ∷ before) p after = ground (arith, includes-append before p after)

-- A failed search means that the text does not contain the pattern.
pub not-Contains : (s p : Text) → includes s p ≡ false → ¬ Contains p s
not-Contains s p h (before, after, e) =
    cc (includes-append before p after, h, ap (λ t. includes t p) e)

pub includes-Contains : (s p : Text) → includes s p ≡ true → Contains p s
unfolding includes
includes-Contains [] p h = let (rest, e) = starts_with-Begins [] p h in ([], rest, e)
includes-Contains (c ∷ s) p h = elim (Bool-cases (starts_with (c ∷ s) p)) [
  | inl yes_here ↦ let (rest, e) = starts_with-Begins (c ∷ s) p yes_here in ([], rest, e)
  | inr not_here ↦
      let (before, after, e) = includes-Contains s p (ground arith) in
      (c ∷ before, after, ap (λ t. c ∷ t) e)
]

-- A text that holds no space at its ends.
abbrev pub IsTrimmed : Text → Type 0
IsTrimmed s = trim s ≡ s

pub trim_start-fixed : (c : ℕ) (s : Text) → is_space c ≡ false → trim_start (c ∷ s) ≡ c ∷ s
unfolding trim_start
trim_start-fixed c s h = rw h

keep_unit-cons : (c : ℕ) (s : Text) → is_space c ≡ false → keep_unit c s ≡ c ∷ s
unfolding keep_unit
keep_unit-cons c [] h = rw h
keep_unit-cons c (d ∷ s) h = refl

pub trim_end-cons : (c : ℕ) (s : Text) → is_space c ≡ false → trim_end (c ∷ s) ≡ c ∷ trim_end s
unfolding trim_end
trim_end-cons c s h = keep_unit-cons c (trim_end s) h

trim_end-keep_unit : (c : ℕ) (s : Text) → trim_end s ≡ s → trim_end (keep_unit c s) ≡ keep_unit c s
unfolding trim_end keep_unit
trim_end-keep_unit c [] h = elim (Bool-cases (is_space c)) [
  | inl space ↦ rw space
  | inr plain ↦ rw plain (rw plain)
]
trim_end-keep_unit c (d ∷ s) h = ap (keep_unit c) h

pub trim_end_idem : (s : Text) → trim_end (trim_end s) ≡ trim_end s
unfolding trim_end
trim_end_idem [] = refl
trim_end_idem (c ∷ s) = trim_end-keep_unit c (trim_end s) (trim_end_idem s)

-- What is left at the front after `trim_start` is no space.
pub trim_start-cases :
    (s : Text)
    → (trim_start s ≡ [])
      ⊎ ((c : ℕ) × (rest : Text) × (trim_start s ≡ c ∷ rest) × (is_space c ≡ false))
unfolding trim_start
trim_start-cases [] = inl refl
trim_start-cases (c ∷ s) = elim (Bool-cases (is_space c)) [
  | inl space ↦ rw space (trim_start-cases s)
  | inr plain ↦ inr (c, s, rw plain, plain)
]

pub trim-cons : (c : ℕ) (s : Text) → is_space c ≡ false → trim (c ∷ s) ≡ c ∷ trim_end s
unfolding trim
trim-cons c s h = ap trim_end (trim_start-fixed c s h) ∙ trim_end-cons c s h

-- Trimming twice is trimming once.
pub trim_idem : (s : Text) → trim (trim s) ≡ trim s
unfolding trim
trim_idem s = elim (trim_start-cases s) [
  | inl e ↦ rw e (unfold trim_start trim_end in refl)
  | inr (c, rest, e, plain) ↦
      rw (e, trim_end-cons c rest plain)
        (trim-cons c (trim_end rest) plain ∙ ap (λ t. c ∷ t) (trim_end_idem rest))
]

-- Trimming splits into nothing, or a unit that is no space and an end that is trimmed.
pub trim-cases :
    (s : Text)
    → (trim s ≡ [])
      ⊎ ((c : ℕ) × (rest : Text) × (trim s ≡ c ∷ rest)
          × (is_space c ≡ false)
          × (trim_end rest ≡ rest))
unfolding trim
trim-cases s = elim (trim_start-cases s) [
  | inl e ↦ inl (rw e (unfold trim_end in refl))
  | inr (c, rest, e, plain) ↦
      inr (c, trim_end rest, ap trim_end e ∙ trim_end-cons c rest plain, plain, trim_end_idem rest)
]
