-- ===== src/Utils/Format/Masking.antt =====
-- What a masked username of frontend/src/utils/format.ts gives away.
use locketgoldhuydev.Prelude.{
  ℕ, ◌≡◌, refl, sym, ap, ◌∙◌, min, false, [], ◌∷◌, arith, Text, trim, trim_end, trim_start, length,
  replicate, leb,
}
use locketgoldhuydev.Utils.Format.{mask, mask_username}

mask_long : (c p : ℕ) (s : Text) → mask (c ∷ p ∷ s) ≡ c ∷ replicate (min 4 (length (p ∷ s))) b'*'
unfolding mask
mask_long c p s =
    let long : leb (length (c ∷ p ∷ s)) 1 ≡ false = ground arith in
    rw long (ap (λ n. c ∷ replicate (min 4 n) b'*') (omega arith))

-- Two names that begin alike and are both longer than four units, or equally long, are shown alike.
pub mask_username-hides :
    (a b : Text) (c : ℕ) (s t : Text)
    → trim a ≡ c ∷ s
    → trim b ≡ c ∷ t
    → min 4 (length s) ≡ min 4 (length t)
    → mask_username a ≡ mask_username b
unfolding mask_username
mask_username-hides [] b c s t h k e = absurd (unfold trim trim_start trim_end in cc h)
mask_username-hides (x ∷ a) [] c s t h k e = absurd (unfold trim trim_start trim_end in cc k)
mask_username-hides (x ∷ a) (y ∷ b) c [] [] h k e = rw (h, k) refl
mask_username-hides (x ∷ a) (y ∷ b) c [] (_ ∷ t) h k e = absurd (omega arith)
mask_username-hides (x ∷ a) (y ∷ b) c (_ ∷ s) [] h k e = absurd (omega arith)
mask_username-hides (x ∷ a) (y ∷ b) c (p ∷ s) (q ∷ t) h k e =
    rw (h, k) (mask_long c p s ∙ ap (λ n. c ∷ replicate n b'*') e ∙ sym (mask_long c q t))
