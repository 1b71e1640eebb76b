-- ===== src/Toast/Timer.antt =====
-- The timer of one toast (frontend/src/components/common/ToastViewport.tsx): it is paused while the
-- pointer or the focus is on the toast. Times are milliseconds of one clock.
use locketgoldhuydev.Prelude.{
  ℕ, ◌+◌, ◌-◌, ◌≡◌, ◌≢◌, ◌≤◌, ◌<◌, ap, ◌∙◌, Bool, true, false, not, ◌||◌, Option, none, some, List,
  [], ◌∷◌, arith, leb, is_some, ◌==◌, if◌then◌else◌,
}

pub record ToastItem : Type 0 where
  pub duration : ℕ
  pub remaining_ms : ℕ
  pub started_at : ℕ
  -- The time at which the pending timer dismisses the toast.
  pub timer : Option ℕ
  pub paused : Bool

pub start_timer : ℕ → ToastItem → ToastItem
start_timer now i =
    if i.duration == 0 || i.paused || leb i.remaining_ms 0
    then i
    else record i { started_at = now; timer = some (now + i.remaining_ms) }

pub pause_timer : ℕ → ToastItem → ToastItem
pause_timer now i = if i.duration == 0 || i.paused then i else record i {
  paused = true;
  remaining_ms =
      (if is_some i.timer then i.remaining_ms - (now - i.started_at) else i.remaining_ms);
  timer = none;
}

pub resume_timer : ℕ → ToastItem → ToastItem
unfolding start_timer
resume_timer now i = if not i.paused then i else start_timer now (record i { paused = false })

-- The effect of the first render.
pub mount : ℕ → ℕ → ToastItem
unfolding start_timer
mount now duration = start_timer now (record {
  duration = duration;
  remaining_ms = duration;
  started_at = 0;
  timer = none;
  paused = false;
})

-- Pauses, each with the time of its end.
pub run : List (ℕ × ℕ) → ToastItem → ToastItem
run [] i = i
run ((from, to) ∷ pauses) i = run pauses (resume_timer to (pause_timer from i))

abbrev pub total : List (ℕ × ℕ) → ℕ
total [] = 0
total ((from, to) ∷ pauses) = (to - from) + total pauses

-- The pauses follow one another, and each begins before the timer would fire.
abbrev pub InTime : ℕ → ℕ → List (ℕ × ℕ) → Type 0
InTime start left [] = Unit
InTime start left ((from, to) ∷ pauses) =
    (start ≤ from) × (from < start + left) × (from ≤ to) × InTime to (left - (from - start)) pauses

abbrev running : ℕ → ℕ → ℕ → ToastItem
running duration start left = record {
  duration = duration;
  remaining_ms = left;
  started_at = start;
  timer = some (start + left);
  paused = false;
}

one_pause :
    (duration start left from to : ℕ)
    → duration ≢ 0
    → from < start + left
    → start ≤ from
    → resume_timer to (pause_timer from (running duration start left))
      ≡ running duration to (left - (from - start))
unfolding resume_timer pause_timer
one_pause duration start left from to d h k = ground arith

run-running :
    (duration start left : ℕ) (pauses : List (ℕ × ℕ))
    → duration ≢ 0
    → InTime start left pauses
    → (run pauses (running duration start left)).timer ≡ some (start + left + total pauses)
unfolding run
run-running duration start left [] d h = ap some (omega arith)
run-running duration start left ((from, to) ∷ pauses) d h =
    ap (λ i. (run pauses i).timer) (one_pause duration start left from to d h.1 h.0)
    ∙ run-running duration to (left - (from - start)) pauses d h.3
    ∙ ap some (omega arith)

-- A toast is dismissed when it has been shown for its duration beside all the pauses.
pub run-mount :
    (now duration : ℕ) (pauses : List (ℕ × ℕ))
    → duration ≢ 0
    → InTime now duration pauses
    → (run pauses (mount now duration)).timer ≡ some (now + duration + total pauses)
unfolding mount
run-mount now duration pauses d h =
    ap (λ i. (run pauses i).timer) started ∙ run-running duration now duration pauses d h
  where
    started : mount now duration ≡ running duration now duration
    started = ground arith

-- A pause that begins when the time is up, while the timer has not been served yet, leaves the
-- toast without a timer after every later end of the pause: it stays until it is closed by hand.
pub pause_late :
    (now duration from to : ℕ)
    → duration ≢ 0
    → now + duration ≤ from
    → (resume_timer to (pause_timer from (mount now duration))).timer ≡ none
unfolding resume_timer pause_timer mount
pause_late now duration from to d h = ground arith
