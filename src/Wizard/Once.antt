-- ===== src/Wizard/Once.antt =====
-- The announcements of purchases in frontend/src/pages/dashboard/ActivationWizard.tsx.
use locketgoldhuydev.Prelude.{
  ℕ, suc, ◌+◌, ◌≤◌, ◌≡◌, refl, inl, inr, Bool, false, Option, none, some, List, [], ◌∷◌, ◌++◌,
  arith, Text, text_eq, any, if-elim, ◌==◌, Bool-cases, if◌then◌else◌,
}
use locketgoldhuydev.Prelude.TextLaws.{text_eq_iff}
use locketgoldhuydev.Wizard.Types.{
  PaymentStatus, pending, paid, expired, cancelled, underpaid, review_needed,
}
use locketgoldhuydev.Wizard.{Wizard, handle_reset}
use locketgoldhuydev.Wizard.Lookup.{Reply, replied, null_reply, rejected}
use locketgoldhuydev.Wizard.Payment.{
  Purchase, CoinResponse, Effect, toast, refresh_wallet, clear_gold_check_cache, order_created,
  coin_toast, announce, coin_paid, on_coin,
}
use locketgoldhuydev.Wizard.Orders.{
  ActivationOrder, qr_toast, with_status, with_order, created, paid_order_id, order_paid,
  order_lost, on_status_change,
}

-- The answers and reports that may announce a purchase, and starting over.
pub data Event : Type 0 where
  coin_answers : Purchase → Reply CoinResponse → Event
  status_changes : PaymentStatus → (payment : ℕ) → Option ActivationOrder → Event
  resets : Event

abbrev pub step : Event → Wizard → Wizard × List Effect
step (coin_answers purchase a) w = on_coin purchase a w
step (status_changes status payment order) w = on_status_change status payment order w
step resets w = (handle_reset w, [])

-- Everything that is called, the first call first.
unfoldable pub run : List Event → Wizard → Wizard × List Effect
run [] w = (w, [])
run (e ∷ events) w = ((run events (step e w).0).0, (step e w).1 ++ (run events (step e w).0).1)

abbrev is_toast : Text → Effect → Bool
is_toast key (toast k) = text_eq key k
is_toast key _ = false

-- How often a toast with this key is shown.
abbrev pub count_toasts : Text → List Effect → ℕ
count_toasts key [] = 0
count_toasts key (e ∷ es) =
    let rest = count_toasts key es in if is_toast key e then suc rest else rest

abbrev noted : Text → List Text → ℕ
noted key keys = if any (text_eq key) keys then 1 else 0

-- Calls that show a toast for the first time, with the keys before and after: the key is noted.
abbrev IsNoted : Text → List Text → List Text → List Effect → Type 0
IsNoted key before after effects = noted key before + count_toasts key effects ≤ noted key after

abbrev Notes : Text → Wizard → Wizard × List Effect → Type 0
Notes key w r = IsNoted key w.notified_purchases r.0.notified_purchases r.1

count_toasts-append :
    (key : Text) (es fs : List Effect)
    → count_toasts key (es ++ fs) ≡ count_toasts key es + count_toasts key fs
count_toasts-append key [] fs = omega arith
count_toasts-append key (e ∷ es) fs =
    let rest = count_toasts-append key es fs in
    elim (Bool-cases (is_toast key e)) [
      | inl this ↦ rw this (omega arith)
      | inr other ↦ rw other (omega arith)
    ]

announce-Notes : (key k : Text) (w : Wizard) → Notes key w (announce k w)
announce-Notes key k w =
    if-elim (Notes key w) (any (text_eq k) w.notified_purchases) _ _ (λ _. omega arith)
      (λ fresh. elim (Bool-cases (text_eq key k)) [
        | inl same ↦
            let unseen : any (text_eq key) w.notified_purchases ≡ false =
              rw ((text_eq_iff key k).0 same) fresh in
            ground arith
        | inr other ↦ ground arith
      ])

-- Further calls that show no toast.
append-IsNoted :
    (key : Text) (before after : List Text) (es fs : List Effect)
    → IsNoted key before after es
    → count_toasts key fs ≡ 0
    → IsNoted key before after (es ++ fs)
append-IsNoted key before after es fs h quiet =
    rw (count_toasts-append key es fs, quiet) (omega arith)

none-IsNoted : (key : Text) (keys : List Text) → IsNoted key keys keys []
none-IsNoted key keys = omega arith

on_coin-Notes :
    (key : Text) (purchase : Purchase) (a : Reply CoinResponse) (w : Wizard)
    → Notes key w (on_coin purchase a w)
unfolding on_coin coin_paid
on_coin-Notes key purchase (replied res) w =
    if-elim (Notes key w) res.success _ _
      (λ _.
        append-IsNoted key w.notified_purchases _
          (announce (coin_toast res.activation_order_id) w).1
          (refresh_wallet
            ∷ clear_gold_check_cache purchase.username
            ∷ order_created res.activation_order_id
            ∷ [])
          (announce-Notes key (coin_toast res.activation_order_id) w) refl)
      (λ _. none-IsNoted key w.notified_purchases)
on_coin-Notes key purchase null_reply w = none-IsNoted key w.notified_purchases
on_coin-Notes key purchase (rejected m) w = none-IsNoted key w.notified_purchases

created-quiet : (key : Text) (id : Option ℕ) → count_toasts key (created id) ≡ 0
created-quiet key none = refl
created-quiet key (some id) =
    if-elim (λ es. count_toasts key es ≡ 0) (id == 0) _ _ (λ _. refl) (λ _. refl)

with_order-keys :
    (order : Option ActivationOrder) (w : Wizard)
    → (with_order order w).notified_purchases ≡ w.notified_purchases
with_order-keys none w = refl
with_order-keys (some o) w = refl

order_paid-Notes :
    (key : Text) (payment : ℕ) (order : Option ActivationOrder) (w : Wizard)
    → Notes key w (order_paid payment order w)
unfolding order_paid
order_paid-Notes key payment order w =
    rw (with_order-keys order (announce (qr_toast payment) w).0) (
      append-IsNoted key w.notified_purchases _ (announce (qr_toast payment) w).1
        (refresh_wallet ∷ created (paid_order_id order w.activation_order_id))
        (announce-Notes key (qr_toast payment) w)
        (created-quiet key (paid_order_id order w.activation_order_id)))

on_status_change-Notes :
    (key : Text) (status : PaymentStatus) (payment : ℕ) (order : Option ActivationOrder)
    (w : Wizard)
    → Notes key w (on_status_change status payment order w)
unfolding on_status_change order_lost
on_status_change-Notes key paid payment order w =
    order_paid-Notes key payment order (record w { qr_order = with_status paid w.qr_order })
on_status_change-Notes key expired payment order w = none-IsNoted key w.notified_purchases
on_status_change-Notes key cancelled payment order w = none-IsNoted key w.notified_purchases
on_status_change-Notes key pending payment order w = none-IsNoted key w.notified_purchases
on_status_change-Notes key underpaid payment order w = none-IsNoted key w.notified_purchases
on_status_change-Notes key review_needed payment order w = none-IsNoted key w.notified_purchases

step-Notes : (key : Text) (e : Event) (w : Wizard) → Notes key w (step e w)
unfolding handle_reset
step-Notes key (coin_answers purchase a) w = on_coin-Notes key purchase a w
step-Notes key (status_changes status payment order) w =
    on_status_change-Notes key status payment order w
step-Notes key resets w = none-IsNoted key w.notified_purchases

run-Notes : (key : Text) (events : List Event) (w : Wizard) → Notes key w (run events w)
unfolding run
run-Notes key [] w = none-IsNoted key w.notified_purchases
run-Notes key (e ∷ events) w =
    let first = step-Notes key e w in
    let rest = run-Notes key events (step e w).0 in
    rw (count_toasts-append key (step e w).1 (run events (step e w).0).1) (omega arith)

-- However often the polling reports a paid order or the server answers a payment with coins, and even
-- if the user starts over in between: each purchase is announced by one toast at most.
pub run_announces_once :
    (key : Text) (events : List Event) (w : Wizard) → count_toasts key (run events w).1 ≤ 1
run_announces_once key events w = let h = run-Notes key events w in ground arith
