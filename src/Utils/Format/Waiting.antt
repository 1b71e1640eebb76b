-- ===== src/Utils/Format/Waiting.antt =====
-- Waiting times of frontend/src/utils/format.ts, read back.
use locketgoldhuydev.Prelude.{
  ℕ, zero, suc, ◌+◌, ◌-◌, ◌*◌, ◌/◌, ◌%◌, ◌≡◌, ◌≤◌, ◌<◌, refl, ap, ◌∙◌, inl, inr, [], ◌∷◌, ◌++◌,
  append_assoc, arith, Text, codes, Bool-cases, ◌||◌, ltb, ◌==◌, if◌then◌else◌,
}
use mathlib.Core.Path.{ap₂}
use mathlib.Core.Bool.{true, false}
use locketgoldhuydev.Utils.Format.{decimal_from, decimal, round, format_wait_time}

-- The seconds that a text such as "2p 30s" stands for: `acc` is the number being read, `total` what
-- the units before it add up to.
pub read_wait : ℕ → ℕ → Text → ℕ
read_wait acc total [] = total
read_wait acc total (c ∷ s) =
    read_wait (if c == b' ' || c == b'p' || c == b's' then 0 else acc * 10 + (c - b'0'))
      (if c == b'p' then total + 60 * acc else if c == b's' then total + acc else total) s

read_wait_digit :
    (d acc total : ℕ) (s : Text)
    → d < 10
    → read_wait acc total ((b'0' + d) ∷ s) ≡ read_wait (acc * 10 + d) total s
unfolding read_wait
read_wait_digit d acc total s h = ground arith

read_wait-decimal_from :
    (fuel n total : ℕ) (s : Text)
    → n < fuel
    → read_wait 0 total (decimal_from fuel n ++ s) ≡ read_wait n total s
unfolding decimal_from
read_wait-decimal_from zero n total s h = elim h [ ]
read_wait-decimal_from (suc fuel) n total s h = elim (Bool-cases (ltb n 10)) [
  | inl small ↦
      rw small
        (read_wait_digit n 0 total s (ground arith) ∙ ap (λ a. read_wait a total s) (omega arith))
  | inr large ↦ rw large (
      ap (read_wait 0 total) (append_assoc (decimal_from fuel (n / 10)) ((b'0' + n % 10) ∷ []) s)
      ∙ read_wait-decimal_from fuel (n / 10) total _ (ground arith)
      ∙ read_wait_digit (n % 10) (n / 10) total s (omega arith)
      ∙ ap (λ a. read_wait a total s) (omega arith))
]

read_wait-decimal :
    (n total : ℕ) (s : Text) → read_wait 0 total (decimal n ++ s) ≡ read_wait n total s
unfolding decimal
read_wait-decimal n total s = read_wait-decimal_from (suc n) n total s (omega arith)

-- The part of a text from the seconds on, and a whole text of minutes and seconds.
pub read_wait_seconds : (n total : ℕ) → read_wait 0 total (decimal n ++ codes "s") ≡ total + n
read_wait_seconds n total =
    read_wait-decimal n total (codes "s") ∙ (unfold read_wait in ground arith)

read_wait_minutes :
    (m : ℕ) (s : Text) → read_wait 0 0 (decimal m ++ (b'p' ∷ s)) ≡ read_wait 0 (60 * m) s
read_wait_minutes m s = read_wait-decimal m 0 (b'p' ∷ s) ∙ (unfold read_wait in ground arith)

read_wait_space : (total : ℕ) (s : Text) → read_wait 0 total (b' ' ∷ s) ≡ read_wait 0 total s
unfolding read_wait
read_wait_space total s = refl

-- The text stands for the time, rounded to whole seconds.
pub read_wait-format_wait_time : (ms : ℕ) → read_wait 0 0 (format_wait_time ms) ≡ round ms
unfolding format_wait_time
read_wait-format_wait_time ms = elim (Bool-cases (ms == 0)) [
  | inl none_left ↦ rw none_left (unfold read_wait in ground arith)
  | inr some_left ↦ elim (Bool-cases (ltb ms 60000)) [
    | inl short ↦ rw (some_left, short) (read_wait_seconds (round ms) 0 ∙ omega arith)
    | inr long ↦ elim (Bool-cases (ltb 0 (round (ms % 60000)))) [
      | inl with_seconds ↦
          rw (some_left, long, with_seconds)
            (read_wait_minutes (ms / 60000) (b' ' ∷ (decimal (round (ms % 60000)) ++ codes "s"))
              ∙ read_wait_space (60 * (ms / 60000)) _
              ∙ read_wait_seconds (round (ms % 60000)) (60 * (ms / 60000))
              ∙ omega arith)
      | inr whole ↦
          rw (some_left, long, whole)
            (read_wait_minutes (ms / 60000) [] ∙ (unfold read_wait in ground arith))
    ]
  ]
]

decimal_sixty : decimal 60 ≡ codes "60"
unfolding decimal decimal_from
decimal_sixty = refl

-- In the last half second of a minute past the first, the text shows sixty seconds beside the
-- minutes, where a minute more is meant.
pub format_wait_time_sixty :
    (m r : ℕ)
    → 1 ≤ m
    → 59500 ≤ r
    → r < 60000
    → format_wait_time (60000 * m + r) ≡ decimal m ++ codes "p 60s"
unfolding format_wait_time
format_wait_time_sixty m r h lo hi =
    rw (positive, long, some_seconds)
      (ap₂ (λ a b. decimal a ++ (codes "p " ++ (decimal b ++ codes "s"))) (omega arith) sixty
        ∙ ap (λ t. decimal m ++ (codes "p " ++ (t ++ codes "s"))) decimal_sixty)
  where
    positive : (60000 * m + r == 0) ≡ false
    positive = ground arith

    long : ltb (60000 * m + r) 60000 ≡ false
    long = ground arith

    sixty : round ((60000 * m + r) % 60000) ≡ 60
    sixty = omega arith

    some_seconds : ltb 0 (round ((60000 * m + r) % 60000)) ≡ true
    some_seconds = rw sixty refl
