-- ===== src/Wizard/Events.antt =====
-- What can happen to the wizard of frontend/src/pages/dashboard/ActivationWizard.tsx before an order
-- is placed: clicks and typing, each at the step that shows it and while it is enabled, and the
-- answers to lookups in any order. `Said` tells which answers the provider gives to which lookups;
-- every other service may answer anything.
use locketgoldhuydev.Prelude.{
  ℕ, ◌≡◌, ◌≢◌, ◌⊎◌, true, false, not, Option, none, some, List, [], ◌∷◌, filter, Text, ◌==◌,
}
use locketgoldhuydev.Queue.{DevicePlatform}
use locketgoldhuydev.Wizard.Types.{PlanItem, UserInfo, GoldCheck}
use locketgoldhuydev.Wizard.{
  plan, platform, username, contact, payment, completed, Wizard, handle_select_plan,
  handle_select_platform, handle_reset, go_back,
}
use locketgoldhuydev.Wizard.Lookup.{
  Lookup, at_provider, at_user, at_gold, LunakeyResponse, UserInfoResponse, Reply,
  handle_verify_username, on_provider, on_user, on_gold, type_username, can_proceed_with_gold,
}
use locketgoldhuydev.Wizard.Contact.{Url, handle_continue_contact}

-- The component, and the lookups that it waits for.
pub record Page : Type 0 where
  pub wizard : Wizard
  pub pending : List Lookup

abbrev pub Waits : Lookup → List Lookup → Type 0
Waits l [] = ⊥
Waits l (k ∷ ks) = (k ≡ l) ⊎ Waits l ks

-- Each lookup has a number of its own.
abbrev pub settle : Lookup → List Lookup → List Lookup
settle l = filter (λ k. not (k.seq == l.seq))

abbrev pub add : Option Lookup → List Lookup → List Lookup
add none ks = ks
add (some l) ks = l ∷ ks

abbrev pub on : (Wizard → Wizard) → Page → Page
on f s = record s { wizard = f s.wizard }

abbrev pub begin : Page → Page
begin s = record {
  wizard = (handle_verify_username s.wizard).0;
  pending = add (handle_verify_username s.wizard).1 s.pending;
}

abbrev pub provider_ends : PlanItem → Lookup → Reply LunakeyResponse → Page → Page
provider_ends p l a s = record { wizard = on_provider p l a s.wizard; pending = settle l s.pending }

abbrev pub user_ends : Lookup → Reply UserInfoResponse → Page → Page
user_ends l a s = record {
  wizard = (on_user l a s.wizard).0;
  pending = add (on_user l a s.wizard).1 (settle l s.pending);
}

abbrev pub gold_ends : UserInfo → Lookup → Reply GoldCheck → Page → Page
gold_ends info l a s = record { wizard = on_gold info l a s.wizard; pending = settle l s.pending }

module _ (parse_url : Text → Option Url) (lower_other : ℕ → Text)
    (Said : PlanItem → Text → Reply LunakeyResponse → Type 0) where
  pub data Step (s : Page) : Page → Type 0 where
    selects_plan :
        (p : PlanItem) → s.wizard.current_step ≡ plan → Step s (on (handle_select_plan p) s)
    selects_platform :
        (device : DevicePlatform)
        → s.wizard.current_step ≡ platform
        → Step s (on (handle_select_platform device) s)
    types_username :
        (value : Text)
        → s.wizard.current_step ≡ username
        → s.wizard.is_verifying_user ≡ false
        → Step s (on (type_username value) s)
    verifies :
        s.wizard.current_step ≡ username → s.wizard.is_verifying_user ≡ false → Step s (begin s)
    proceeds :
        s.wizard.current_step ≡ username
        → s.wizard.user_info ≢ none
        → s.wizard.is_verifying_user ≡ false
        → can_proceed_with_gold s.wizard ≡ true
        → Step s (on (λ w. record w { current_step = payment }) s)
    types_contact :
        (zalo facebook : Text)
        → s.wizard.current_step ≡ contact
        → Step s (
            on
              (λ w. record w {
                contact_zalo = zalo;
                contact_facebook = facebook;
                contact_error = none;
              })
              s)
    continues_contact :
        s.wizard.current_step ≡ contact
        → Step s (on (handle_continue_contact parse_url lower_other) s)
    goes_back :
        s.wizard.current_step ≢ plan → s.wizard.current_step ≢ completed → Step s (on go_back s)
    resets : Step s (on handle_reset s)
    dismisses_block : Step s (on (λ w. record w { gold_block_message = none }) s)
    provider_answers :
        (p : PlanItem) (l : Lookup) (a : Reply LunakeyResponse)
        → Waits l s.pending
        → l.stage ≡ at_provider p
        → Said p l.raw a
        → Step s (provider_ends p l a s)
    user_answers :
        (l : Lookup) (a : Reply UserInfoResponse)
        → Waits l s.pending
        → l.stage ≡ at_user
        → Step s (user_ends l a s)
    gold_answers :
        (info : UserInfo) (l : Lookup) (a : Reply GoldCheck)
        → Waits l s.pending
        → l.stage ≡ at_gold info
        → Step s (gold_ends info l a s)

  pub data Steps (s : Page) : Page → Type 0 where
    stays : Steps s s
    then_step : {t u : Page} → Steps s t → Step t u → Steps s u
