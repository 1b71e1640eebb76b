-- ===== src/Wizard.antt =====
-- frontend/src/pages/dashboard/ActivationWizard.tsx: the steps from a plan to a payment. This file
-- has the state of the wizard and what selects, goes back and resets; Wizard/Lookup has the lookup of
-- the account to activate, and Wizard/Events what can happen up to the payment.
pub mod Types
pub mod Lookup
pub mod Contact
pub mod Events
pub mod Stepper
pub mod Frames
pub mod OnTrack
pub mod Confirmed
pub mod Tokens
pub mod Stops
pub mod Ready
pub mod Answers
pub mod Paying
pub mod Payment
pub mod Idempotency
pub mod QrIdempotency
pub mod Coupons
pub mod Pricing
pub mod Orders
pub mod Once
pub mod AutoQr
pub mod Watching
pub mod Patience
pub mod Tickets
use locketgoldhuydev.Prelude.{
  ℕ, suc, Bool, true, false, not, ◌&&◌, ◌||◌, Option, none, some, List, [], ◌∷◌, ◌++◌, String, Text,
  trim, is_some, ◌==◌, if◌then◌else◌,
}
use locketgoldhuydev.Queue.{DevicePlatform, ios, android}
use locketgoldhuydev.Wizard.Types.{
  FulfillmentMode, auto_activation, manual_contact, apk_download, disabled, Support, all, only_ios,
  only_android, Provider, lunakey, PlanItem, LunakeyProfile, UserInfo, GoldCheck, CouponQuote,
  QrOrder, Attempt, Alert,
}

pub data PaymentMethod : Type 0 where
  coin qr : PaymentMethod

pub data WizardStep : Type 0 where
  plan platform username contact payment completed : WizardStep

-- The states and refs of the component.
pub record Wizard : Type 0 where
  pub current_step : WizardStep
  pub selected_plan : Option PlanItem
  pub selected_platform : Option DevicePlatform
  pub username_input : Text
  pub user_info : Option UserInfo
  pub is_verifying_user : Bool
  pub user_verify_error : Option Alert
  pub gold_block_message : Option Alert
  pub contact_zalo : Text
  pub contact_facebook : Text
  pub contact_error : Option Alert
  pub coupon_input : Text
  pub applied_coupon : Option CouponQuote
  pub is_validating_coupon : Bool
  pub coupon_error : Option Alert
  pub payment_method : PaymentMethod
  pub is_processing_payment : Bool
  pub payment_error : Option Alert
  -- `notifiedPurchasesRef`
  pub notified_purchases : List Text
  pub qr_order : Option QrOrder
  pub is_renewing_qr : Bool
  pub renew_qr_error : Option Alert
  pub qr_attempt : Option Attempt
  pub last_auto_qr_signature : Option Text
  pub coin_attempt : Option Attempt
  -- `lookupSeqRef`
  pub lookup_seq : ℕ
  pub activation_order_id : Option ℕ
  pub queue_client_id : Option String
  pub queue_status : String
  pub queue_position : ℕ
  pub queue_error : Option String
  pub lunakey_token : Option String
  pub lunakey_profile : Option LunakeyProfile
  pub legacy_gold : Option GoldCheck
  pub avatar_error : Bool
  pub provider_status : Option String
  pub provider_status_label : Option String
  pub provider_poll_stopped : Bool
  pub dns_acknowledged : Bool
  pub is_creating_ticket : Bool
  pub ticket_error : Option Alert

abbrev pub configured : PlanItem → DevicePlatform → Option FulfillmentMode
configured p ios = p.ios_fulfillment_mode
configured p android = p.android_fulfillment_mode

abbrev pub default_mode : DevicePlatform → FulfillmentMode
default_mode ios = auto_activation
default_mode android = apk_download

-- `if (configured && configured !== 'disabled') return configured`, and else the default.
abbrev pub enabled_mode : Option FulfillmentMode → DevicePlatform → FulfillmentMode
enabled_mode none device = default_mode device
enabled_mode (some disabled) device = default_mode device
enabled_mode (some auto_activation) device = auto_activation
enabled_mode (some manual_contact) device = manual_contact
enabled_mode (some apk_download) device = apk_download

unfoldable pub get_fulfillment_mode : PlanItem → DevicePlatform → FulfillmentMode
get_fulfillment_mode p device = enabled_mode (configured p device) device

-- `fulfillmentMode`
abbrev pub mode_of : Option PlanItem → Option DevicePlatform → Option FulfillmentMode
mode_of none device = none
mode_of (some p) none = none
mode_of (some p) (some device) = some (get_fulfillment_mode p device)

unfoldable pub fulfillment_mode : Wizard → Option FulfillmentMode
fulfillment_mode w = mode_of w.selected_plan w.selected_platform

abbrev pub step_of_mode : FulfillmentMode → WizardStep
step_of_mode auto_activation = username
step_of_mode manual_contact = contact
step_of_mode apk_download = payment
step_of_mode disabled = payment

unfoldable pub step_after_platform : PlanItem → DevicePlatform → WizardStep
step_after_platform p device = step_of_mode (get_fulfillment_mode p device)

-- `activation_provider === 'lunakey'`
abbrev pub is_lunakey : Option Provider → Bool
is_lunakey (some lunakey) = true
is_lunakey _ = false

unfoldable pub is_lunakey_plan : Wizard → Bool
is_lunakey_plan w = elim w.selected_plan [
  | none ↦ false
  | some p ↦ is_lunakey p.activation_provider
]

abbrev pub asks_platform : Option PlanItem → List WizardStep
asks_platform none = platform ∷ []
asks_platform (some p) = elim p.supported_platforms [
  | all ↦ platform ∷ []
  | only_ios ↦ []
  | only_android ↦ []
]

-- The step between the device and the payment: `fulfillmentMode`, or nothing selected at all.
abbrev pub middle :
    Option FulfillmentMode → Option PlanItem → Option DevicePlatform → List WizardStep
middle (some auto_activation) p device = username ∷ []
middle (some manual_contact) p device = contact ∷ []
middle (some apk_download) p device = []
middle (some disabled) p device = []
middle none none none = username ∷ []
middle none none (some device) = []
middle none (some p) device = []

-- `getActiveSteps`, without the labels.
unfoldable pub get_active_steps : Wizard → List WizardStep
unfolding fulfillment_mode
get_active_steps w =
    plan
    ∷ (asks_platform w.selected_plan
        ++ (middle (fulfillment_mode w) w.selected_plan w.selected_platform
            ++ (payment ∷ completed ∷ [])))

abbrev pub same_step : WizardStep → WizardStep → Bool
same_step plan plan = true
same_step platform platform = true
same_step username username = true
same_step contact contact = true
same_step payment payment = true
same_step completed completed = true
same_step _ _ = false

-- The element before the first occurrence, as `steps[idx - 1]` with `idx = findIndex(...)`.
unfoldable pub before : WizardStep → WizardStep → List WizardStep → Option WizardStep
before s previous [] = none
before s previous (t ∷ steps) = if same_step t s then some previous else before s t steps

-- `idx > 0`, so neither the first step nor a step that is not there has one before it.
abbrev pub previous_in : WizardStep → List WizardStep → WizardStep
previous_in s [] = plan
previous_in s (first ∷ steps) =
    if same_step first s
    then plan
    else elim (before s first steps) [ none ↦ plan | some previous ↦ previous ]

unfoldable pub get_previous_step : Wizard → WizardStep
unfolding get_active_steps before
get_previous_step w = previous_in w.current_step (get_active_steps w)

-- What a new plan and a new device both reset.
abbrev pub cleared : Wizard → Wizard
cleared w = record w {
  username_input = [];
  user_info = none;
  user_verify_error = none;
  contact_zalo = [];
  contact_facebook = [];
  contact_error = none;
  qr_order = none;
  qr_attempt = none;
  coin_attempt = none;
  payment_error = none;
  lunakey_token = none;
  lunakey_profile = none;
  legacy_gold = none;
  avatar_error = false;
  provider_status = none;
  provider_status_label = none;
}

-- `lookupSeqRef.current += 1; setIsVerifyingUser(false)`
abbrev pub dropping_lookups : Wizard → Wizard
dropping_lookups w = record w { lookup_seq = suc w.lookup_seq; is_verifying_user = false }

abbrev pub enter : PlanItem → Support → Wizard → Wizard
enter p only_ios w = record w {
  selected_platform = some ios;
  current_step = step_after_platform p ios;
}
enter p only_android w = record w {
  selected_platform = some android;
  current_step = step_after_platform p android;
}
enter p all w = record w { selected_platform = none; current_step = platform }

unfoldable pub handle_select_plan : PlanItem → Wizard → Wizard
handle_select_plan p w = enter p p.supported_platforms (record (cleared (dropping_lookups w)) {
  selected_plan = some p;
  coupon_input = [];
  applied_coupon = none;
  coupon_error = none;
  last_auto_qr_signature = none;
})

abbrev pub supports : Support → DevicePlatform → Bool
supports all device = true
supports only_ios ios = true
supports only_ios android = false
supports only_android ios = false
supports only_android android = true

-- The lookups are dropped also where the device is refused.
unfoldable pub handle_select_platform : DevicePlatform → Wizard → Wizard
handle_select_platform device w = elim w.selected_plan [
  | none ↦ record (cleared (dropping_lookups w)) { selected_platform = some device }
  | some p ↦
      (if supports p.supported_platforms device
        then record (cleared (dropping_lookups w)) {
          selected_platform = some device;
          current_step = step_after_platform p device;
        }
        else dropping_lookups w)
]

unfoldable pub handle_reset : Wizard → Wizard
handle_reset w = record (cleared (dropping_lookups w)) {
  current_step = plan;
  selected_plan = none;
  selected_platform = none;
  gold_block_message = none;
  coupon_input = [];
  applied_coupon = none;
  coupon_error = none;
  activation_order_id = none;
  queue_client_id = none;
  queue_status = "waiting";
  dns_acknowledged = false;
}

unfoldable pub go_back : Wizard → Wizard
go_back w = record w { current_step = get_previous_step w }
