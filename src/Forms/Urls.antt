-- ===== src/Forms/Urls.antt =====
-- The lists of files and object URLs of frontend/src/components/reviews/ReviewFormModal.tsx: taking, removing
-- and revoking by position.
use locketgoldhuydev.Prelude.{
  ◌⊎◌, inl, inr, ℕ, zero, suc, ◌+◌, ◌≤◌, ◌<◌, ◌≡◌, refl, ap, ◌∙◌, Bool, Option, none, some, List,
  [], ◌∷◌, ◌++◌, length, filter, get_elem?, if-elim, All, All-append, arith,
}
use locketgoldhuydev.Forms.Review.{File, take, remove_at, new_urls, revoke, revoke_all, revoke_at}

-- Object URLs in the order in which they were given out, with no repetition.
abbrev pub IsRising : List ℕ → Type 0
IsRising [] = Unit
IsRising (u ∷ us) = All (λ v. u < v) us × IsRising us

pub revoke-absent : (u : ℕ) (us : List ℕ) → All (λ v. u < v) us → revoke u us ≡ us
revoke-absent u [] h = refl
revoke-absent u (v ∷ us) h = ground (arith, revoke-absent u us h.1, h.0)

pub revoke-head : (u : ℕ) (us : List ℕ) → All (λ v. u < v) us → revoke u (u ∷ us) ≡ us
revoke-head u us h = ground (arith, revoke-absent u us h)

pub revoke_all-own : (us : List ℕ) → IsRising us → revoke_all us us ≡ []
revoke_all-own [] h = refl
revoke_all-own (u ∷ us) h = ap (revoke_all us) (revoke-head u us h.0) ∙ revoke_all-own us h.1

module _ {ℓ} {A : Type ℓ} where
  pub All-remove_at {κ} : (P : A → Type κ) (i : ℕ) (xs : List A) → All P xs → All P (remove_at i xs)
  All-remove_at P i [] h = tt
  All-remove_at P zero (x ∷ xs) h = h.1
  All-remove_at P (suc i) (x ∷ xs) h = (h.0, All-remove_at P i xs h.1)

  pub length-remove_at : (i : ℕ) (xs : List A) → length (remove_at i xs) ≤ length xs
  length-remove_at i [] = omega arith
  length-remove_at zero (x ∷ xs) = omega arith
  length-remove_at (suc i) (x ∷ xs) = omega (arith, length-remove_at i xs)

  pub length-filter : (p : A → Bool) (xs : List A) → length (filter p xs) ≤ length xs
  length-filter p [] = omega arith
  length-filter p (x ∷ xs) =
      if-elim (λ (ys : List A). length ys ≤ suc (length xs)) (p x) (x ∷ filter p xs) (filter p xs)
        (λ h. omega (arith, length-filter p xs)) (λ h. omega (arith, length-filter p xs))

  pub length-take : (n : ℕ) (xs : List A) → length (take n xs) ≤ n
  length-take zero xs = omega arith
  length-take (suc n) [] = omega arith
  length-take (suc n) (x ∷ xs) = omega (arith, length-take n xs)

pub remove_at_same {ℓ κ} :
    {A : Type ℓ} {B : Type κ} (i : ℕ) (xs : List A) (ys : List B)
    → length xs ≡ length ys
    → length (remove_at i xs) ≡ length (remove_at i ys)
remove_at_same i [] [] h = refl
remove_at_same i [] (y ∷ ys) h = absurd (omega (arith, h))
remove_at_same i (x ∷ xs) [] h = absurd (omega (arith, h))
remove_at_same zero (x ∷ xs) (y ∷ ys) h = omega (arith, h)
remove_at_same (suc i) (x ∷ xs) (y ∷ ys) h = ap suc (remove_at_same i xs ys (omega (arith, h)))

pub IsRising-remove_at : (i : ℕ) (us : List ℕ) → IsRising us → IsRising (remove_at i us)
IsRising-remove_at i [] h = tt
IsRising-remove_at zero (u ∷ us) h = h.1
IsRising-remove_at (suc i) (u ∷ us) h =
    (All-remove_at (λ v. u < v) i us h.0, IsRising-remove_at i us h.1)

pub All-weaken {ℓ κ} :
    {A : Type ℓ} (P Q : A → Type κ) → ((v : A) → P v → Q v) → (vs : List A) → All P vs → All Q vs
All-weaken P Q f [] h = tt
All-weaken P Q f (v ∷ vs) h = (f v h.0, All-weaken P Q f vs h.1)

pub All-above : (u n : ℕ) (vs : List ℕ) → u < n → All (λ v. n ≤ v) vs → All (λ v. u < v) vs
All-above u n vs l = All-weaken (λ v. n ≤ v) (λ v. u < v) (λ v h. omega (arith, l, h)) vs

-- The first URL stays when a later one is revoked.
pub revoke_at-keeps :
    (u : ℕ) (us : List ℕ) (o : Option ℕ)
    → (o ≡ none) ⊎ ((v : ℕ) × (o ≡ some v) × (u < v))
    → revoke_at o (u ∷ us) ≡ u ∷ revoke_at o us
revoke_at-keeps u us none h = refl
revoke_at-keeps u us (some v) (inl e) = absurd (ground (arith, e))
revoke_at-keeps u us (some v) (inr (w, e, l)) = ground (arith, e, l)

pub later :
    (u : ℕ) (us : List ℕ) (i : ℕ)
    → All (λ v. u < v) us
    → (get_elem? us i ≡ none) ⊎ ((v : ℕ) × (get_elem? us i ≡ some v) × (u < v))
later u [] i h = inl refl
later u (v ∷ us) zero h = inr (v, refl, h.0)
later u (v ∷ us) (suc i) h = later u us i h.1

-- To revoke the URL at a position is to remove that position.
pub revoke_at-remove_at :
    (i : ℕ) (us : List ℕ) → IsRising us → revoke_at (get_elem? us i) us ≡ remove_at i us
revoke_at-remove_at i [] h = refl
revoke_at-remove_at zero (u ∷ us) h = revoke-head u us h.0
revoke_at-remove_at (suc i) (u ∷ us) h =
    revoke_at-keeps u us (get_elem? us i) (later u us i h.0)
    ∙ ap (λ t. u ∷ t) (revoke_at-remove_at i us h.1)

-- URLs that are given out later are greater.
pub IsRising-append :
    (us vs : List ℕ) (n : ℕ)
    → IsRising us
    → All (λ u. u < n) us
    → IsRising vs
    → All (λ v. n ≤ v) vs
    → IsRising (us ++ vs)
IsRising-append [] vs n h k l m = l
IsRising-append (u ∷ us) vs n h k l m = (
  All-append (λ v. u < v) us vs h.0 (All-above u n vs k.0 m),
  IsRising-append us vs n h.1 k.1 l m,
)

pub length-new_urls : (n : ℕ) (files : List File) → length (new_urls n files) ≡ length files
length-new_urls n [] = refl
length-new_urls n (f ∷ files) = ap suc (length-new_urls (suc n) files)

pub new_urls-range :
    (n : ℕ) (files : List File)
    → IsRising (new_urls n files)
      × All (λ v. n ≤ v) (new_urls n files)
      × All (λ v. v < n + length files) (new_urls n files)
new_urls-range n [] = (tt, tt, tt)
new_urls-range n (f ∷ files) =
    let (r, a, b) = new_urls-range (suc n) files in
    (
      (All-above n (suc n) (new_urls (suc n) files) (omega arith) a, r),
      (
        omega arith,
        All-weaken (λ v. suc n ≤ v) (λ v. n ≤ v) (λ v h. omega (arith, h)) (new_urls (suc n) files)
            a,
      ),
      (
        omega arith,
        All-weaken (λ v. v < suc n + length files) (λ v. v < n + suc (length files))
            (λ v h. omega (arith, h)) (new_urls (suc n) files) b,
      ),
    )
