-- ===== src/Tests/Orders.antt =====
-- Runs of the coupons, the orders and the last step of
-- frontend/src/pages/dashboard/ActivationWizard.tsx.
use locketgoldhuydev.Prelude.{
  ◌≤◌, ◌≡◌, refl, ◌⊎◌, true, Option, none, some, List, [], ◌∷◌, codes, arith, length, text_eq,
}
use locketgoldhuydev.Utils.Format.{decimal, decimal_from}
use locketgoldhuydev.Queue.{ios}
use locketgoldhuydev.Wizard.Types.{pending, paid, QrOrder}
use locketgoldhuydev.Wizard.{Wizard, qr, payment, completed, handle_reset}
use locketgoldhuydev.Wizard.Payment.{QrResponse}
use locketgoldhuydev.Wizard.Coupons.{CouponResponse, CouponCall}
use locketgoldhuydev.Wizard.Orders.{ActivationOrder, order_paid, on_status_change}
use locketgoldhuydev.Wizard.Once.{
  Event, status_changes, resets, run, count_toasts, run_announces_once,
}
use locketgoldhuydev.Wizard.Watching.{ProviderOrder, start_watch, poll_provider, show_order}
use locketgoldhuydev.Wizard.Patience.{
  Answers, IsTimely, watch, Told, start_watch-length, watch-completed,
}
use locketgoldhuydev.Tests.Wizard.{gold_plan, fresh}

abbrev paying : Wizard
paying = record fresh {
  current_step = payment;
  payment_method = qr;
  selected_plan = some gold_plan;
  selected_platform = some ios;
  username_input = codes "ann";
}

abbrev order : QrOrder
order = record {
  payment_id = 12;
  payment_code = "P12";
  payment_ref = none;
  amount_vnd = 99000;
  expires_at = 900;
  status = pending;
  locket_username = codes "ann";
  platform = some ios;
}

abbrev ordered : Wizard
ordered = record paying { qr_order = some order }

abbrev half : CouponResponse
half = record {
  success = true;
  valid = true;
  code = some (codes "HALF");
  original_vnd = some 99000;
  original_coin = some 99;
  discount_vnd = some 49000;
  discount_coin = some 49;
  final_vnd = some 50000;
  final_coin = some 50;
  message = none;
}

abbrev half_call : Option QrOrder → CouponCall
half_call o = record { clean_code = codes "HALF"; plan = gold_plan; order = o }

abbrev created : QrResponse
created = record {
  success = true;
  activation_order_id = 31;
  payment_id = 12;
  payment_code = "P12";
  payment_ref = none;
  amount_vnd = 99000;
  expires_at = 900;
  status = none;
  msg = none;
}

abbrev bought : ActivationOrder
bought = record { id = 31; status = "queued"; queue_client_id = some "c9" }

abbrev reports : List Event
reports = status_changes paid 12 (some bought) ∷ resets ∷ status_changes paid 12 (some bought) ∷ []

reports_tests : count_toasts (codes "qr-payment-12") (run reports ordered).1 ≡ 1
unfolding run decimal decimal_from text_eq on_status_change order_paid handle_reset
reports_tests = refl

run_announces_once_example : count_toasts (codes "qr-payment-12") (run reports ordered).1 ≤ 1
run_announces_once_example = run_announces_once (codes "qr-payment-12") reports ordered

abbrev done : ProviderOrder
done = record { provider_status = some "completed"; provider_status_label = none }

abbrev working : ProviderOrder
working = record { provider_status = some "processing"; provider_status_label = none }

abbrev answers : Answers
answers = (1000, some working) ∷ (5000, none) ∷ (9500, some done) ∷ []

abbrev last_step : Wizard
last_step = record paying { current_step = completed; activation_order_id = some 31 }

answers-IsTimely : IsTimely answers (start_watch 1000 last_step).0 (start_watch 1000 last_step).1
unfolding start_watch poll_provider show_order
answers-IsTimely =
    ((1000, refl, omega arith), ((4500, refl, omega arith), ((9000, refl, omega arith), tt)))

start_watch-length_example : length answers ≤ 51
start_watch-length_example = start_watch-length 1000 last_step answers answers-IsTimely

ends_completed :
    (watch answers (start_watch 1000 last_step).0 last_step).1.queue_status ≡ "completed"
unfolding start_watch poll_provider show_order
ends_completed = refl

watch-completed_example : (last_step.queue_status ≡ "completed") ⊎ Told answers
watch-completed_example =
    watch-completed answers (start_watch 1000 last_step).0 last_step ends_completed
