-- ===== src/Payment/Countdown/Ticks.antt =====
-- How often frontend/src/hooks/usePaymentCountdown.ts reports the end, and when.
use locketgoldhuydev.Prelude.{
  ℕ, suc, ◌+◌, ◌*◌, ◌≡◌, ◌≢◌, ◌≤◌, ◌<◌, ◌↔◌, inl, inr, Bool, true, false, Option, none, some, List,
  [], ◌∷◌, arith, ◌==◌, Bool-cases, if◌then◌else◌,
}
use locketgoldhuydev.Payment.Countdown.{
  Countdown, synced, compute_remaining, tick, set_expires_at, run,
}

-- Whether the end has been reported, as a number.
abbrev pub reported : Bool → ℕ
reported true = 1
reported false = 0

abbrev pub Reported : ℕ → Countdown → Type 0
Reported before c = c.expirations ≡ before + reported c.has_triggered_expire

tick-Reported : (before now : ℕ) (c : Countdown) → Reported before c → Reported before (tick now c)
unfolding tick
tick-Reported before now c h = ground arith

run-Reported :
    (before : ℕ) (times : List ℕ) (c : Countdown)
    → Reported before c
    → Reported before (run times c)
unfolding run
run-Reported before [] c h = h
run-Reported before (now ∷ times) c h = run-Reported before times _ either
  where
    either : Reported before (if c.expires_at == 0 then c else tick now c)
    either = elim (Bool-cases (c.expires_at == 0)) [
      | inl nothing ↦ rw nothing h
      | inr timed ↦ rw timed (tick-Reported before now c h)
    ]

-- However often a countdown ticks, by its interval or by the tab coming back, it reports the end
-- once at most after its time was set.
pub run_reports_once :
    (expires_at now : ℕ) (times : List ℕ) (c : Countdown)
    → (run times (set_expires_at expires_at now c)).expirations ≤ suc c.expirations
run_reports_once expires_at now times c =
    let d = run times (set_expires_at expires_at now c) in
    let h : Reported c.expirations d = run-Reported c.expirations times _ (fresh c) in
    bounded d.has_triggered_expire h
  where
    fresh : (c : Countdown) → Reported c.expirations (set_expires_at expires_at now c)
    fresh c =
        unfold set_expires_at in
        elim (Bool-cases (expires_at == 0)) [
          | inl nothing ↦ rw nothing (omega arith)
          | inr timed ↦ rw timed (tick-Reported c.expirations now _ (omega arith))
        ]

    bounded : {n : ℕ} (b : Bool) → n ≡ c.expirations + reported b → n ≤ suc c.expirations
    bounded true h = omega (arith, h)
    bounded false h = omega (arith, h)

-- For a payment with an end, the time that is left never grows, and is over when less than a second is left by the server's
-- clock.
pub compute_remaining_falls :
    (c : Countdown) (now later : ℕ)
    → now ≤ later
    → c.expires_at ≢ 0
    → (compute_remaining c later ≤ compute_remaining c now)
      × ((compute_remaining c later ≡ 0) ↔ (c.expires_at * 1000 < synced c.skew later + 1000))
unfolding compute_remaining
compute_remaining_falls c now later h timed =
    rw (ne_zero c.expires_at timed)
      (omega (arith, synced-later c.skew now later h), ((λ e. omega arith), (λ e. omega arith)))
  where
    ne_zero : (n : ℕ) → n ≢ 0 → (n == 0) ≡ false
    ne_zero n k = ground (arith, k)

    synced-later :
        (skew : Option (ℕ × ℕ)) (now later : ℕ) → now ≤ later → synced skew now ≤ synced skew later
    synced-later none now later k = unfold synced in k
    synced-later (some (server_time, read_at)) now later k = unfold synced in omega arith
