-- ===== src/Wizard/OnTrack.antt =====
-- The stepper of frontend/src/pages/dashboard/ActivationWizard.tsx along everything that can happen.
use locketgoldhuydev.Prelude.{
  ℕ, ◌≡◌, refl, inl, inr, Option, [], ◌∷◌, Text, trim, filter, not, Bool-cases,
}
use locketgoldhuydev.Wizard.Types.{PlanItem}
use locketgoldhuydev.Wizard.{Wizard}
use locketgoldhuydev.Wizard.Lookup.{LunakeyResponse, Reply, handle_verify_username, type_username}
use locketgoldhuydev.Wizard.Contact.{
  Url, handle_continue_contact, is_facebook, is_phone, is_separator,
}
use locketgoldhuydev.Wizard.Events.{
  Page, Step, selects_plan, selects_platform, types_username, verifies, proceeds, types_contact,
  continues_contact, goes_back, resets, dismisses_block, provider_answers, user_answers,
  gold_answers, Steps, stays, then_step,
}
use locketgoldhuydev.Wizard.Frames.{
  Keeps, on_provider-Keeps, on_user-KeepsToken, on_gold-KeepsToken,
}
use locketgoldhuydev.Wizard.Stepper.{
  IsOnTrack, SameSteps-IsOnTrack, go_back-IsOnTrack, handle_select_plan-IsOnTrack,
  handle_select_platform-IsOnTrack, handle_reset-IsOnTrack, to_payment-IsOnTrack,
}

Keeps-IsOnTrack : (w w' : Wizard) → Keeps w w' → IsOnTrack w → IsOnTrack w'
Keeps-IsOnTrack w w' k =
    SameSteps-IsOnTrack w w' (record { same_step_shown = k.0; same_plan = k.1; same_device = k.2 })

handle_verify_username-IsOnTrack :
    (w : Wizard) → IsOnTrack w → IsOnTrack (handle_verify_username w).0
unfolding handle_verify_username
handle_verify_username-IsOnTrack w h =
    elim (trim w.username_input)
        as (λ s. (trim w.username_input ≡ s) → IsOnTrack (handle_verify_username w).0) [
          | [] ↦ λ e.
              SameSteps-IsOnTrack w _
                (rw (e, handle_verify_username)
                  (record { same_step_shown = refl; same_plan = refl; same_device = refl }))
                h
          | c ∷ s ↦ λ e.
              SameSteps-IsOnTrack w _
                (rw (e, handle_verify_username)
                  (record { same_step_shown = refl; same_plan = refl; same_device = refl }))
                h
        ]
      refl

module _ (parse_url : Text → Option Url) (lower_other : ℕ → Text) where
  handle_continue_contact-IsOnTrack :
      (w : Wizard) → IsOnTrack w → IsOnTrack (handle_continue_contact parse_url lower_other w)
  unfolding handle_continue_contact
  handle_continue_contact-IsOnTrack w h =
      elim (Bool-cases (is_phone (filter (λ c. not (is_separator c)) w.contact_zalo))) [
        | inr odd ↦ rw odd (
            SameSteps-IsOnTrack w _
              (record { same_step_shown = refl; same_plan = refl; same_device = refl }) h)
        | inl phone ↦ elim (Bool-cases (is_facebook parse_url lower_other w.contact_facebook)) [
          | inr foreign ↦
              rw (phone, foreign)
                (SameSteps-IsOnTrack w _
                  (record { same_step_shown = refl; same_plan = refl; same_device = refl }) h)
          | inl link ↦ rw (phone, link) (to_payment-IsOnTrack _ refl)
        ]
      ]

  module _ (Said : PlanItem → Text → Reply LunakeyResponse → Type 0) where
    Step-IsOnTrack :
        {s t : Page} → Step parse_url lower_other Said s t → IsOnTrack s.wizard → IsOnTrack t.wizard
    Step-IsOnTrack {s} (selects_plan p at) h = handle_select_plan-IsOnTrack p s.wizard
    Step-IsOnTrack {s} (selects_platform device at) h =
        handle_select_platform-IsOnTrack device s.wizard at h
    Step-IsOnTrack {s} (types_username value at idle) h =
        SameSteps-IsOnTrack s.wizard _
          (unfold type_username in
            (record { same_step_shown = refl; same_plan = refl; same_device = refl }))
          h
    Step-IsOnTrack {s} (verifies at idle) h = handle_verify_username-IsOnTrack s.wizard h
    Step-IsOnTrack (proceeds at found idle allowed) h = to_payment-IsOnTrack _ refl
    Step-IsOnTrack {s} (types_contact zalo facebook at) h =
        SameSteps-IsOnTrack s.wizard _
          (record { same_step_shown = refl; same_plan = refl; same_device = refl }) h
    Step-IsOnTrack {s} (continues_contact at) h = handle_continue_contact-IsOnTrack s.wizard h
    Step-IsOnTrack {s} (goes_back started going) h = go_back-IsOnTrack s.wizard
    Step-IsOnTrack {s} resets h = handle_reset-IsOnTrack s.wizard
    Step-IsOnTrack {s} dismisses_block h =
        SameSteps-IsOnTrack s.wizard _
          (record { same_step_shown = refl; same_plan = refl; same_device = refl }) h
    Step-IsOnTrack {s} (provider_answers p l a waits stage said) h =
        Keeps-IsOnTrack s.wizard _ (on_provider-Keeps p l a s.wizard) h
    Step-IsOnTrack {s} (user_answers l a waits stage) h =
        Keeps-IsOnTrack s.wizard _ (on_user-KeepsToken l a s.wizard).0 h
    Step-IsOnTrack {s} (gold_answers info l a waits stage) h =
        Keeps-IsOnTrack s.wizard _ (on_gold-KeepsToken info l a s.wizard).0 h

    -- From a page that shows a step of its stepper, whatever is clicked and answered before an
    -- order is placed, in any order, the page shows a step that the stepper lists.
    pub Steps-IsOnTrack :
        {s t : Page}
        → Steps parse_url lower_other Said s t
        → IsOnTrack s.wizard
        → IsOnTrack t.wizard
    Steps-IsOnTrack stays h = h
    Steps-IsOnTrack (then_step steps step) h = Step-IsOnTrack step (Steps-IsOnTrack steps h)
