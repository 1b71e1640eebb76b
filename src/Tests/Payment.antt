-- ===== src/Tests/Payment.antt =====
-- Runs of the payments of frontend/src/pages/dashboard/ActivationWizard.tsx.
use locketgoldhuydev.Prelude.{
  ◌≡◌, refl, true, none, some, [], codes, trim, trim_start, trim_end, keep_unit, is_space,
}
use locketgoldhuydev.Api.Types.{type_error}
use locketgoldhuydev.Queue.{ios}
use locketgoldhuydev.Wizard.{payment, Wizard}
use locketgoldhuydev.Wizard.Lookup.{rejected}
use locketgoldhuydev.Wizard.Payment.{
  Purchase, CoinResponse, next_attempt, purchase_of, start_coin, start_qr, pay_with_coin,
  create_qr_payment, on_coin,
}
use locketgoldhuydev.Wizard.Idempotency.{pay_with_coin_again}
use locketgoldhuydev.Tests.Wizard.{gold_plan, fresh}

abbrev paying : Wizard
paying = record fresh {
  current_step = payment;
  selected_plan = some gold_plan;
  selected_platform = some ios;
  username_input = codes " ann";
  lunakey_token = some "k1";
}

abbrev pub ann_purchase : Purchase
ann_purchase = record {
  plan_id = 4;
  platform = ios;
  username = codes "ann";
  contact_zalo = [];
  contact_facebook = [];
  idempotency_key = "u1";
  coupon_code = none;
  lookup_token = some "k1";
}

ann_pays : (pay_with_coin "u1" paying).1 ≡ some ann_purchase
unfolding pay_with_coin start_coin next_attempt purchase_of trim trim_start trim_end keep_unit
    is_space
ann_pays = refl

ann_asks : (create_qr_payment "u1" paying).1 ≡ some ann_purchase
unfolding create_qr_payment start_qr next_attempt purchase_of trim trim_start trim_end keep_unit
    is_space
ann_asks = refl

pay_with_coin_again_example :
    (pay_with_coin "u2"
      (on_coin ann_purchase (rejected type_error) (pay_with_coin "u1" paying).0).0).1
    ≡ some ann_purchase
pay_with_coin_again_example =
    pay_with_coin_again "u1" "u2" paying ann_purchase (rejected type_error) ann_pays tt

abbrev accepted : CoinResponse
accepted = record {
  success = true;
  activation_order_id = 71;
  client_id = some "c7";
  status = "queued";
  msg = none;
}
