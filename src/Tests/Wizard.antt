-- ===== src/Tests/Wizard.antt =====
-- Runs of frontend/src/pages/dashboard/ActivationWizard.tsx.
use locketgoldhuydev.Prelude.{
  ℕ, ◌≡◌, refl, inl, true, false, Option, none, some, [], ◌∷◌, Text, codes, trim, trim_start,
  trim_end, keep_unit, is_space,
}
use locketgoldhuydev.Wizard.Types.{auto_activation, lunakey, only_ios, PlanItem, LunakeyProfile}
use locketgoldhuydev.Wizard.{
  coin, plan, username, payment, completed, Wizard, handle_select_plan, get_active_steps,
  get_previous_step, step_after_platform, get_fulfillment_mode, fulfillment_mode, before,
}
use locketgoldhuydev.Wizard.Lookup.{
  at_provider, Lookup, LunakeyResponse, Reply, replied, type_username, handle_verify_username,
  on_provider, provider_answered, provider_found, granted, is_blocked, shown_profile,
}
use locketgoldhuydev.Wizard.Contact.{Url}
use locketgoldhuydev.Wizard.Events.{
  Page, on, begin, provider_ends, selects_plan, types_username, verifies, provider_answers, Steps,
  stays, then_step,
}
use locketgoldhuydev.Wizard.Stepper.{IsOnTrack}
use locketgoldhuydev.Wizard.OnTrack.{Steps-IsOnTrack}
use locketgoldhuydev.Wizard.Confirmed.{IsConfirmed}
use locketgoldhuydev.Wizard.Ready.{IsReady}
use locketgoldhuydev.Wizard.Paying.{Steps-IsReady}
use locketgoldhuydev.Wizard.Tokens.{Steps-IsConfirmed}

abbrev pub gold_plan : PlanItem
gold_plan = record {
  id = 4;
  name = "Gold";
  price_vnd = 99000;
  price_coin = 99;
  supported_platforms = only_ios;
  ios_fulfillment_mode = some auto_activation;
  android_fulfillment_mode = none;
  activation_provider = some lunakey;
  existing_gold_supported = false;
}

abbrev pub fresh : Wizard
fresh = record {
  current_step = plan;
  selected_plan = none;
  selected_platform = none;
  username_input = [];
  user_info = none;
  is_verifying_user = false;
  user_verify_error = none;
  gold_block_message = none;
  contact_zalo = [];
  contact_facebook = [];
  contact_error = none;
  coupon_input = [];
  applied_coupon = none;
  is_validating_coupon = false;
  coupon_error = none;
  payment_method = coin;
  is_processing_payment = false;
  payment_error = none;
  notified_purchases = [];
  qr_order = none;
  is_renewing_qr = false;
  renew_qr_error = none;
  qr_attempt = none;
  last_auto_qr_signature = none;
  coin_attempt = none;
  lookup_seq = 0;
  activation_order_id = none;
  queue_client_id = none;
  queue_status = "waiting";
  queue_position = 0;
  queue_error = none;
  lunakey_token = none;
  lunakey_profile = none;
  legacy_gold = none;
  avatar_error = false;
  provider_status = none;
  provider_status_label = none;
  provider_poll_stopped = false;
  dns_acknowledged = false;
  is_creating_ticket = false;
  ticket_error = none;
}

abbrev ann_profile : LunakeyProfile
ann_profile = record {
  username = some (codes "ann");
  name = none;
  avatar = none;
  uid = none;
  has_gold = some false;
  gold_expiry = none;
  gold_days_left = none;
}

abbrev ann_found : LunakeyResponse
ann_found = record {
  success = true;
  lookup_token = some "k1";
  profile = some ann_profile;
  msg = none;
}

-- The provider knows one account.
abbrev Said : PlanItem → Text → Reply LunakeyResponse → Type 0
Said p raw a = (raw ≡ codes "ann") × (a ≡ replied ann_found)

abbrev no_urls : Text → Option Url
no_urls s = none

abbrev same_unit : ℕ → Text
same_unit c = c ∷ []

abbrev start : Page
start = record { wizard = fresh; pending = [] }

abbrev chosen : Page
chosen = on (handle_select_plan gold_plan) start

abbrev typed : Page
typed = on (type_username (codes "ann ")) chosen

abbrev ann_lookup : Lookup
ann_lookup = record { seq = 3; raw = codes "ann"; stage = at_provider gold_plan }

abbrev found : Page
found = provider_ends gold_plan ann_lookup (replied ann_found) (begin typed)

at_username : chosen.wizard.current_step ≡ username
unfolding handle_select_plan step_after_platform get_fulfillment_mode
at_username = refl

typed_idle : (typed.wizard.current_step ≡ username) × (typed.wizard.is_verifying_user ≡ false)
unfolding handle_select_plan step_after_platform get_fulfillment_mode type_username
typed_idle = (refl, refl)

chosen_idle : chosen.wizard.is_verifying_user ≡ false
unfolding handle_select_plan
chosen_idle = refl

ann_pending : (begin typed).pending ≡ ann_lookup ∷ []
unfolding handle_verify_username type_username handle_select_plan trim trim_start trim_end keep_unit
    is_space
ann_pending = refl

visit : Steps no_urls same_unit Said start found
visit =
    then_step
      (then_step
        (then_step (then_step stays (selects_plan gold_plan refl))
          (types_username (codes "ann ") at_username chosen_idle))
        (verifies typed_idle.0 typed_idle.1))
      (provider_answers gold_plan ann_lookup (replied ann_found) (rw ann_pending (inl refl)) refl
        (refl, refl))

fresh-IsOnTrack : IsOnTrack fresh
unfolding get_active_steps
fresh-IsOnTrack = inl refl

fresh-IsConfirmed : IsConfirmed Said start
fresh-IsConfirmed = record { bound = tt; confirmed = λ t got. absurd cc }

stepper_tests :
    (get_active_steps chosen.wizard ≡ plan ∷ username ∷ payment ∷ completed ∷ [])
    × (get_previous_step (record (chosen.wizard) { current_step = payment }) ≡ username)
    × (found.wizard.lunakey_token ≡ some "k1")
unfolding get_active_steps fulfillment_mode get_previous_step before handle_select_plan
    step_after_platform get_fulfillment_mode handle_verify_username type_username trim trim_start
    trim_end keep_unit is_space on_provider provider_answered provider_found granted is_blocked
    shown_profile
stepper_tests = (refl, refl, refl)

Steps-IsOnTrack_example : IsOnTrack found.wizard
Steps-IsOnTrack_example = Steps-IsOnTrack no_urls same_unit Said visit fresh-IsOnTrack

Steps-IsConfirmed_example : IsConfirmed Said found
Steps-IsConfirmed_example = Steps-IsConfirmed Said no_urls same_unit visit fresh-IsConfirmed

fresh-IsReady : IsReady start
fresh-IsReady = record { recent = tt; late = λ idle. tt; ready = λ pays. absurd (cc (pays.0)) }

Steps-IsReady_example : IsReady found
Steps-IsReady_example = Steps-IsReady no_urls same_unit Said visit fresh-IsOnTrack fresh-IsReady
