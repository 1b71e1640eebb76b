-- ===== src/Wallet/Retries.antt =====
-- The keys that frontend/src/pages/dashboard/WalletView.tsx sends with its top-ups.
use locketgoldhuydev.Prelude.{
  ℕ, ◌≡◌, refl, false, not, Option, none, some, List, [], ◌∷◌, String, Text, ◌==◌, if◌then◌else◌,
}
use locketgoldhuydev.Wizard.Types.{PaymentStatus}
use locketgoldhuydev.Wizard.Lookup.{Reply}
use locketgoldhuydev.Wallet.{
  TopupResponse, Payment, TopupAttempt, Wallet, topup_key, take_prefilled, on_created,
  on_status_change,
}
use locketgoldhuydev.Wallet.Renewal.{RenewResponse, handle_renew_topup, on_renewed}
use locketgoldhuydev.Wallet.Ledger.{
  TransactionsResponse, load_transactions, on_transactions, previous_page, next_page,
}

-- Everything but creating an order and closing the panel.
pub data Event : Type 0 where
  selected : ℕ → Event
  custom_typed : Text → Event
  custom_toggled previous next : Event
  prefilled : Option ℕ → Event
  created : Reply TopupResponse → Event
  status_changed : PaymentStatus → Payment → Event
  renewal_sent : Event
  renewed : Reply RenewResponse → Event
  loading : ℕ → Event
  loaded : Option TransactionsResponse → Event

-- A page that an exception has taken down stays as it was.
abbrev pub or_lost : Option Wallet → Wallet → Wallet
or_lost none w = w
or_lost (some v) w = v

unfoldable pub step : Event → Wallet → Wallet
step (selected c) w = record w { selected_coin = c; is_custom = false }
step (custom_typed t) w = record w { custom_coin_input = t }
step custom_toggled w = record w { is_custom = not w.is_custom }
step previous w = previous_page w
step next w = next_page w
step (prefilled c) w = take_prefilled c w
step (created reply) w = on_created reply w
step (status_changed status pay) w = (on_status_change status pay w).0
step renewal_sent w = (handle_renew_topup w).0
step (renewed reply) w = or_lost (on_renewed reply w) w
step (loading p) w = (load_transactions p w).0
step (loaded res) w = on_transactions res w

abbrev pub run : List Event → Wallet → Wallet
run [] w = w
run (e ∷ events) w = run events (step e w)

abbrev pub Keeps : (w v : Wallet) → Type 0
Keeps w v = v.topup_attempt ≡ w.topup_attempt

topup_key-known :
    (fresh : String) (amount : ℕ) (a : TopupAttempt)
    → topup_key fresh amount (some a) ≡ (if a.amount_vnd == amount then a.key else fresh)
topup_key-known fresh amount a = refl
