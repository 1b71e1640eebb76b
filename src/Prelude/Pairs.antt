-- ===== src/Prelude/Pairs.antt =====
-- Relations between all pairs of a list's elements, and what filtering, cutting and adding keep.
use Prim.Native.Nat.{ℕ, zero, suc, ◌≤◌}
use mathlib.Core.Path.{◌≡◌, refl, ap}
use mathlib.Core.Logic.{inl, inr}
use mathlib.Core.Bool.{Bool, true, false}
use mathlib.Core.List.{List, [], ◌∷◌, ◌++◌}
use native.Mathlib.Omega.{arith}
use locketgoldhuydev.Prelude.Tests.{Bool-cases}
use locketgoldhuydev.Prelude.Lists.{All, filter, any, drop, length}

module _ {ℓ κ} {A : Type ℓ} where
  -- The relation holds between each element and every later one.
  abbrev pub AllPairs : (A → A → Type κ) → List A → Type κ
  AllPairs R [] = Unit
  AllPairs R (x ∷ xs) = All (R x) xs × AllPairs R xs

  pub All-filter : (P : A → Type κ) (p : A → Bool) (xs : List A) → All P xs → All P (filter p xs)
  All-filter P p [] h = tt
  All-filter P p (x ∷ xs) h = elim (Bool-cases (p x)) [
    | inl in_it ↦ rw in_it (h.0, All-filter P p xs h.1)
    | inr out ↦ rw out (All-filter P p xs h.1)
  ]

  pub AllPairs-filter :
      (R : A → A → Type κ) (p : A → Bool) (xs : List A) → AllPairs R xs → AllPairs R (filter p xs)
  AllPairs-filter R p [] h = tt
  AllPairs-filter R p (x ∷ xs) h = elim (Bool-cases (p x)) [
    | inl in_it ↦ rw in_it (All-filter (R x) p xs h.0, AllPairs-filter R p xs h.1)
    | inr out ↦ rw out (AllPairs-filter R p xs h.1)
  ]

  pub AllPairs-drop :
      (R : A → A → Type κ) (n : ℕ) (xs : List A) → AllPairs R xs → AllPairs R (drop n xs)
  AllPairs-drop R zero xs h = h
  AllPairs-drop R (suc n) [] h = tt
  AllPairs-drop R (suc n) (x ∷ xs) h = AllPairs-drop R n xs h.1

  pub All-snoc : (P : A → Type κ) (xs : List A) (y : A) → All P xs → P y → All P (xs ++ y ∷ [])
  All-snoc P [] y h k = (k, tt)
  All-snoc P (x ∷ xs) y h k = (h.0, All-snoc P xs y h.1 k)

  pub AllPairs-snoc :
      (R : A → A → Type κ) (xs : List A) (y : A)
      → AllPairs R xs
      → All (λ x. R x y) xs
      → AllPairs R (xs ++ y ∷ [])
  AllPairs-snoc R [] y h k = (tt, tt)
  AllPairs-snoc R (x ∷ xs) y h k = (All-snoc (R x) xs y h.0 k.0, AllPairs-snoc R xs y h.1 k.1)

module _ {ℓ} {A : Type ℓ} where
  -- No element passes a test that none of the list passes.
  pub any-false : (p : A → Bool) (xs : List A) → any p xs ≡ false → All (λ x. p x ≡ false) xs
  any-false p [] h = tt
  any-false p (x ∷ xs) h = (ground arith, any-false p xs (ground arith))

  pub All-map {κ} : (P Q : A → Type κ) (xs : List A) → ((x : A) → P x → Q x) → All P xs → All Q xs
  All-map P Q [] f h = tt
  All-map P Q (x ∷ xs) f h = (f x h.0, All-map P Q xs f h.1)

  -- A filter that every element passes, and one that only the last fails.
  pub filter-All : (p : A → Bool) (xs : List A) → All (λ x. p x ≡ true) xs → filter p xs ≡ xs
  filter-All p [] h = refl
  filter-All p (x ∷ xs) h = rw h.0 (ap (λ ys. x ∷ ys) (filter-All p xs h.1))

  pub length-filter-le : (p : A → Bool) (xs : List A) → length (filter p xs) ≤ length xs
  length-filter-le p [] = omega arith
  length-filter-le p (x ∷ xs) = elim (Bool-cases (p x)) [
    | inl in_it ↦ rw in_it (omega (arith, length-filter-le p xs))
    | inr out ↦ rw out (omega (arith, length-filter-le p xs))
  ]

  pub filter-snoc :
      (p : A → Bool) (xs : List A) (y : A)
      → All (λ x. p x ≡ true) xs
      → p y ≡ false
      → filter p (xs ++ y ∷ []) ≡ xs
  filter-snoc p [] y h k = rw k refl
  filter-snoc p (x ∷ xs) y h k = rw h.0 (ap (λ ys. x ∷ ys) (filter-snoc p xs y h.1 k))
