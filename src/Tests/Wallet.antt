-- ===== src/Tests/Wallet.antt =====
-- Runs of frontend/src/pages/dashboard/WalletView.tsx.
use locketgoldhuydev.Prelude.{
  ◌≡◌, refl, true, false, none, some, List, [], ◌∷◌, codes, trim_start, is_space,
}
use locketgoldhuydev.Wizard.Types.{pending, paid}
use locketgoldhuydev.Wizard.Lookup.{replied}
use locketgoldhuydev.Wallet.{TopupOrder, Payment, TopupAttempt, Wallet, parse_int}
use locketgoldhuydev.Wallet.Retries.{Event, created, status_changed}

abbrev empty_wallet : Wallet
empty_wallet = record {
  selected_coin = 50;
  custom_coin_input = [];
  is_custom = false;
  topup_order = none;
  is_creating_topup = false;
  topup_error = none;
  is_renewing_topup = false;
  renew_error = none;
  topup_attempt = none;
  notified_paid_payments = [];
  transactions = [];
  is_loading_txs = false;
  page = 0;
  total_txs = 0;
}

abbrev first_order : TopupOrder
first_order = record {
  payment_id = 7;
  payment_code = "P7";
  payment_ref = "P7";
  transfer_code = "T7";
  amount_vnd = some 50000;
  coin_amount = some 50;
  qr_url = "https://qr.example.org/7";
  status = pending;
  expires_at = 900;
  server_time = none;
  bank_config = "bank";
}

abbrev first_payment : Payment
first_payment = record {
  id = 7;
  payment_code = "P7";
  payment_ref = none;
  transfer_code = none;
  qr_url = none;
  status = paid;
  coin_amount = 50;
  expires_at = 900;
  server_time = none;
  bank_config = none;
}

-- The order is created and paid, and its panel stays open.
abbrev paid_events : List Event
paid_events =
    created (replied (record { success = true; order = first_order; msg = none }))
    ∷ status_changed paid first_payment
    ∷ []

abbrev first_attempt : TopupAttempt
first_attempt = record { key = "k1"; amount_vnd = 50000 }

parse_tests :
    (parse_int (codes " +75") ≡ 75) × (parse_int (codes "7.9") ≡ 7) × (parse_int (codes "-3") ≡ 0)
unfolding parse_int trim_start is_space
parse_tests = (refl, refl, refl)
