-- ===== src/Wizard/Idempotency.antt =====
-- Payments of frontend/src/pages/dashboard/ActivationWizard.tsx by coins that are tried again, and
-- answers to them that come late.
use locketgoldhuydev.Prelude.{
  ◌≡◌, refl, ◌∙◌, inl, inr, true, false, Option, none, some, String, Text, text_eq, any, Bool-cases,
}
use locketgoldhuydev.Prelude.TextLaws.{text_eq_iff}
use locketgoldhuydev.Queue.{DevicePlatform}
use locketgoldhuydev.Wizard.Types.{PlanItem, Attempt}
use locketgoldhuydev.Wizard.{Wizard, completed, handle_reset}
use locketgoldhuydev.Wizard.Lookup.{Reply, replied, null_reply, rejected}
use locketgoldhuydev.Wizard.Payment.{
  Purchase, CoinResponse, signature_of, next_attempt, purchase_of, start_coin, pay_with_coin,
  coin_paid, on_coin, announce,
}

text_eq_refl : (s : Text) → text_eq s s ≡ true
text_eq_refl s = (text_eq_iff s s).1 refl

pub next_attempt_again :
    (old : Option Attempt) (signature : Text) (first second : String)
    → next_attempt (some (next_attempt old signature first)) signature second
      ≡ next_attempt old signature first
unfolding next_attempt
next_attempt_again none signature first second = rw (text_eq_refl signature) refl
next_attempt_again (some previous) signature first second = rw (text_eq_refl signature) refl

abbrev pub IsRefusedCoin : Reply CoinResponse → Type 0
IsRefusedCoin (replied res) = res.success ≡ false
IsRefusedCoin null_reply = Unit
IsRefusedCoin (rejected m) = Unit

abbrev pub Selects : Wizard → Wizard → Type 0
Selects w w' = (w'.selected_plan ≡ w.selected_plan) × (w'.selected_platform ≡ w.selected_platform)

start_coin-Selects :
    (p : Option PlanItem) (device : Option DevicePlatform) (fresh : String) (w : Wizard)
    → Selects w (start_coin p device fresh w).0
unfolding start_coin
start_coin-Selects none device fresh w = (refl, refl)
start_coin-Selects (some p) none fresh w = (refl, refl)
start_coin-Selects (some p) (some device) fresh w = (refl, refl)

on_coin-Selects :
    (purchase : Purchase) (a : Reply CoinResponse) (w : Wizard)
    → IsRefusedCoin a
    → Selects w (on_coin purchase a w).0
unfolding on_coin
on_coin-Selects purchase (replied res) w refused = rw (refused, on_coin) (refl, refl)
on_coin-Selects purchase null_reply w refused = (refl, refl)
on_coin-Selects purchase (rejected m) w refused = (refl, refl)

start_coin_again :
    (p : Option PlanItem) (device : Option DevicePlatform) (first second : String) (w : Wizard)
    (purchase : Purchase) (a : Reply CoinResponse)
    → (start_coin p device first w).1 ≡ some purchase
    → IsRefusedCoin a
    → (start_coin p device second (on_coin purchase a (start_coin p device first w).0).0).1
      ≡ some purchase
unfolding start_coin on_coin signature_of purchase_of
start_coin_again none device first second w purchase a sent refused = absurd cc
start_coin_again (some p) none first second w purchase a sent refused = absurd cc
start_coin_again (some p) (some device) first second w purchase null_reply sent refused =
    rw (next_attempt_again w.coin_attempt (signature_of p device w) first second) sent
start_coin_again (some p) (some device) first second w purchase (rejected m) sent refused =
    rw (next_attempt_again w.coin_attempt (signature_of p device w) first second) sent
start_coin_again (some p) (some device) first second w purchase (replied res) sent refused =
    rw (refused, on_coin, next_attempt_again w.coin_attempt (signature_of p device w) first second)
      sent

-- A payment that the server has refused, or that got no answer, is sent again word for word: with
-- the same key, whatever new key is drawn.
pub pay_with_coin_again :
    (first second : String) (w : Wizard) (purchase : Purchase) (a : Reply CoinResponse)
    → (pay_with_coin first w).1 ≡ some purchase
    → IsRefusedCoin a
    → (pay_with_coin second (on_coin purchase a (pay_with_coin first w).0).0).1 ≡ some purchase
unfolding pay_with_coin
pay_with_coin_again first second w purchase a sent refused =
    let w1 = (start_coin w.selected_plan w.selected_platform first w).0 in
    let (e, f) = start_coin-Selects w.selected_plan w.selected_platform first w in
    let (g, h) = on_coin-Selects purchase a w1 refused in
    rw (g ∙ e, h ∙ f)
      (start_coin_again w.selected_plan w.selected_platform first second w purchase a sent refused)

announce-selected_plan :
    (key : Text) (w : Wizard) → ((announce key w).0.selected_plan ≡ w.selected_plan)
announce-selected_plan key w = elim (Bool-cases (any (text_eq key) w.notified_purchases)) [
  | inl known ↦ rw known refl
  | inr new ↦ rw new refl
]

-- A payment that succeeds after the user has started over takes the page to its last step all the
-- same, with the order of the payment and without a plan.
pub on_coin_late :
    (purchase : Purchase) (res : CoinResponse) (w : Wizard)
    → res.success ≡ true
    → let late = (on_coin purchase (replied res) (handle_reset w)).0 in
      (late.current_step ≡ completed)
      × (late.selected_plan ≡ none)
      × (late.activation_order_id ≡ some res.activation_order_id)
unfolding on_coin coin_paid
on_coin_late purchase res w paid =
    rw (paid, on_coin)
      (refl, announce-selected_plan _ (handle_reset w) ∙ (unfold handle_reset in refl), refl)
