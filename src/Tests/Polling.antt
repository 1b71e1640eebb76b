-- ===== src/Tests/Polling.antt =====
-- Runs of frontend/src/hooks/usePaymentPolling.ts and usePaymentCountdown.ts.
use locketgoldhuydev.Prelude.{◌≡◌, ◌≤◌, refl, true, false, none, some, [], ◌∷◌, codes}
use locketgoldhuydev.Utils.Format.{decimal, decimal_from}
use locketgoldhuydev.Wizard.Types.{pending, paid}
use locketgoldhuydev.Payment.Polling.{
  replied, rejected, Poll, on_answer, set_options, ticks, answers, changes_options,
  changes_visibility,
}
use locketgoldhuydev.Payment.Polling.Effects.{IsPolling, run-IsPolling}
use locketgoldhuydev.Payment.Polling.Late.{on_answer_late}
use locketgoldhuydev.Payment.Countdown.{
  Countdown, synced, compute_remaining, set_expires_at, run, formatted_time,
}
use locketgoldhuydev.Payment.Countdown.Ticks.{run_reports_once}

abbrev asking : Poll
asking = record {
  code = some "P1";
  current_status = pending;
  enabled = true;
  is_visible = true;
  status = pending;
  fetching = some "P1";
  has_interval = true;
  notices = [];
}

run-IsPolling_example : IsPolling (
    locketgoldhuydev.Payment.Polling.run
      (answers rejected
        ∷ ticks
        ∷ changes_visibility false
        ∷ answers (replied paid 9 (some 71))
        ∷ [])
      asking)
run-IsPolling_example =
    run-IsPolling
      (answers rejected
        ∷ ticks
        ∷ changes_visibility false
        ∷ answers (replied paid 9 (some 71))
        ∷ [])
      asking refl

on_answer_late_example :
    let changed = set_options (some "P2") pending true asking in
    let late = on_answer (replied paid 9 none) changed in
    (changed.fetching ≡ some "P1")
    × (late.code ≡ some "P2")
    × (late.status ≡ paid)
    × (late.has_interval ≡ false)
on_answer_late_example = on_answer_late "P1" "P2" 9 none asking refl refl

abbrev ten_minutes : Countdown
ten_minutes = record {
  expires_at = 1600;
  skew = some (1000, 50000);
  seconds_left = 0;
  has_triggered_expire = false;
  expirations = 0;
}

countdown_test : formatted_time (set_expires_at 1600 51500 ten_minutes) ≡ codes "09:58"
unfolding formatted_time set_expires_at compute_remaining synced decimal decimal_from
countdown_test = refl

run_reports_once_example :
    (run (649000 ∷ 650000 ∷ 651000 ∷ []) (set_expires_at 1600 51500 ten_minutes)).expirations ≤ 1
run_reports_once_example = run_reports_once 1600 51500 (649000 ∷ 650000 ∷ 651000 ∷ []) ten_minutes
