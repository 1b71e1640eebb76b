-- ===== src/Wizard/Paying.antt =====
-- The payment step of frontend/src/pages/dashboard/ActivationWizard.tsx along everything that can
-- happen.
use locketgoldhuydev.Prelude.{
  ℕ, suc, ◌≡◌, ◌≢◌, refl, sym, ◌∙◌, inl, inr, true, false, not, Option, none, some, [], ◌∷◌, arith,
  Text, trim, filter, Bool-cases,
}
use locketgoldhuydev.Prelude.Pairs.{All-map}
use locketgoldhuydev.Queue.{DevicePlatform}
use locketgoldhuydev.Wizard.Types.{PlanItem}
use locketgoldhuydev.Wizard.{
  WizardStep, username, contact, payment, Wizard, fulfillment_mode, handle_select_plan,
  handle_select_platform, handle_reset, go_back, supports,
}
use locketgoldhuydev.Wizard.Lookup.{
  LunakeyResponse, Reply, handle_verify_username, type_username, can_proceed_with_gold,
}
use locketgoldhuydev.Wizard.Contact.{
  Url, handle_continue_contact, is_facebook, is_phone, is_separator,
}
use locketgoldhuydev.Wizard.Events.{
  Page, begin, Step, selects_plan, selects_platform, types_username, verifies, proceeds,
  types_contact, continues_contact, goes_back, resets, dismisses_block, provider_answers,
  user_answers, gold_answers, Steps, stays, then_step,
}
use locketgoldhuydev.Wizard.Stepper.{IsOnTrack}
use locketgoldhuydev.Wizard.OnTrack.{Steps-IsOnTrack}
use locketgoldhuydev.Wizard.Stops.{go_back-payment, contact-apart}
use locketgoldhuydev.Wizard.Ready.{
  MayPay, IsPaying, IsReady, renumbered-IsReady, changed-IsReady, handle_select_plan-unpaid,
  handle_select_platform-unpaid,
}
use locketgoldhuydev.Wizard.Answers.{provider_ends-IsReady, user_ends-IsReady, gold_ends-IsReady}

-- Another step is not the payment.
elsewhere : (w : Wizard) (s : WizardStep) → s ≢ payment → w.current_step ≡ s → IsPaying w → MayPay w
elsewhere w s n at pays = absurd (n (sym at ∙ pays.0))

begin-IsReady : (s : Page) → s.wizard.current_step ≡ username → IsReady s → IsReady (begin s)
unfolding handle_verify_username
begin-IsReady s at v =
    elim (trim s.wizard.username_input)
        as (λ raw. (trim s.wizard.username_input ≡ raw) → IsReady (begin s)) [
          | [] ↦ λ e.
              rw (e, handle_verify_username)
                (record {
                  recent = v.recent;
                  late = v.late;
                  ready = λ pays. absurd (cc (at, pays.0));
                })
          | c ∷ raw ↦ λ e.
              rw (e, handle_verify_username)
                (record {
                  recent = (omega arith, All-map _ _ s.pending (λ l b. omega (arith, b)) v.recent);
                  late = λ idle. absurd (cc idle);
                  ready = λ pays. absurd (cc (at, pays.0));
                })
        ]
      refl

select_platform-number :
    (device : DevicePlatform) (w : Wizard)
    → (handle_select_platform device w).lookup_seq ≡ suc w.lookup_seq
unfolding handle_select_platform
select_platform-number device w =
    elim w.selected_plan
        as (λ p.
          (w.selected_plan ≡ p) → (handle_select_platform device w).lookup_seq ≡ suc w.lookup_seq) [
            | none ↦ λ e. rw (e, handle_select_platform) refl
            | some p ↦ λ e. elim (Bool-cases (supports p.supported_platforms device)) [
              | inl fits ↦ rw (e, handle_select_platform, fits) refl
              | inr refused ↦ rw (e, handle_select_platform, refused) refl
            ]
          ]
      refl

select_plan-number :
    (p : PlanItem) (w : Wizard) → (handle_select_plan p w).lookup_seq ≡ suc w.lookup_seq
unfolding handle_select_plan
select_plan-number p w = ground arith

proceed-MayPay :
    (w : Wizard)
    → w.user_info ≢ none
    → w.is_verifying_user ≡ false
    → can_proceed_with_gold w ≡ true
    → MayPay (record w { current_step = payment })
unfolding can_proceed_with_gold
proceed-MayPay w found idle allowed = record { idle = idle; found = found; allowed = allowed }

dismiss-MayPay :
    (w : Wizard)
    → (IsPaying w → MayPay w)
    → IsPaying (record w { gold_block_message = none })
    → MayPay (record w { gold_block_message = none })
unfolding can_proceed_with_gold fulfillment_mode
dismiss-MayPay w ready (at, mode) =
    let m = ready (at, mode) in record { idle = m.idle; found = m.found; allowed = m.allowed }

module _ (parse_url : Text → Option Url) (lower_other : ℕ → Text)
    (Said : PlanItem → Text → Reply LunakeyResponse → Type 0) where
  -- The contact step leads to the payment of plans that are handled by hand.
  continue-IsReady :
      (s : Page)
      → IsOnTrack s.wizard
      → s.wizard.current_step ≡ contact
      → IsReady s
      → IsReady (record s { wizard = handle_continue_contact parse_url lower_other s.wizard })
  unfolding handle_continue_contact fulfillment_mode
  continue-IsReady s on at v =
      elim (Bool-cases (is_phone (filter (λ c. not (is_separator c)) s.wizard.contact_zalo))) [
        | inr odd ↦ rw odd (changed-IsReady s _ refl refl (λ pays. absurd (cc (at, pays.0))) v)
        | inl phone ↦
            elim (Bool-cases (is_facebook parse_url lower_other s.wizard.contact_facebook)) [
              | inr foreign ↦
                  rw (phone, foreign)
                    (changed-IsReady s _ refl refl (λ pays. absurd (cc (at, pays.0))) v)
              | inl link ↦
                  rw (phone, link)
                    (changed-IsReady s _ refl refl
                      (λ pays. absurd (contact-apart s.wizard on at pays.1)) v)
            ]
      ]

  Step-IsReady :
      {s t : Page}
      → Step parse_url lower_other Said s t
      → IsOnTrack s.wizard
      → IsReady s
      → IsReady t
  Step-IsReady {s} (selects_plan p at) on v =
      renumbered-IsReady s (handle_select_plan p s.wizard) (select_plan-number p s.wizard)
        (λ pays. absurd (handle_select_plan-unpaid p s.wizard pays)) v
  Step-IsReady {s} (selects_platform device at) on v =
      renumbered-IsReady s (handle_select_platform device s.wizard)
        (select_platform-number device s.wizard)
        (λ pays. absurd (handle_select_platform-unpaid device s.wizard at pays)) v
  Step-IsReady {s} (types_username value at idle) on v =
      unfold type_username in renumbered-IsReady s _ refl (λ pays. absurd (cc (at, pays.0))) v
  Step-IsReady {s} (verifies at idle) on v = begin-IsReady s at v
  Step-IsReady {s} (proceeds at found idle allowed) on v =
      changed-IsReady s (record (s.wizard) { current_step = payment }) refl refl
        (λ pays. proceed-MayPay s.wizard found idle allowed) v
  Step-IsReady {s} (types_contact zalo facebook at) on v =
      changed-IsReady s _ refl refl (λ pays. absurd (cc (at, pays.0))) v
  Step-IsReady {s} (continues_contact at) on v = continue-IsReady s on at v
  Step-IsReady {s} (goes_back started going) on v =
      unfold go_back in
      changed-IsReady s _ refl refl (λ pays. absurd (going (go_back-payment s.wizard pays.0))) v
  Step-IsReady {s} resets on v =
      unfold handle_reset in renumbered-IsReady s _ refl (λ pays. absurd (cc (pays.0))) v
  Step-IsReady {s} dismisses_block on v =
      changed-IsReady s _ refl refl (dismiss-MayPay s.wizard v.ready) v
  Step-IsReady {s} (provider_answers p l a waits stage answer) on v =
      provider_ends-IsReady p l a s waits v
  Step-IsReady {s} (user_answers l a waits stage) on v = user_ends-IsReady l a s waits v
  Step-IsReady {s} (gold_answers info l a waits stage) on v = gold_ends-IsReady info l a s waits v

  -- From a page that is on track and ready, as a fresh one is, in whatever order of clicks and late
  -- answers: whoever gets to the payment of a plan that is activated by itself has an account that
  -- was found, waits for no lookup, and holds a token if the plan is the provider's.
  pub Steps-IsReady :
      {s t : Page}
      → Steps parse_url lower_other Said s t
      → IsOnTrack s.wizard
      → IsReady s
      → IsReady t
  Steps-IsReady stays on v = v
  Steps-IsReady (then_step steps step) on v =
      Step-IsReady step (Steps-IsOnTrack parse_url lower_other Said steps on)
        (Steps-IsReady steps on v)
