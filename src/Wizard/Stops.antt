-- ===== src/Wizard/Stops.antt =====
-- Where the steps of frontend/src/pages/dashboard/ActivationWizard.tsx lead to and come from.
use locketgoldhuydev.Prelude.{
  ◌≡◌, ◌≢◌, inl, inr, refl, sym, ap, ◌∙◌, subst, true, Option, none, some, List, [], ◌∷◌, ◌++◌,
  append_assoc, All, All-append, Bool-cases, Option-cases,
}
use locketgoldhuydev.Queue.{DevicePlatform}
use locketgoldhuydev.Wizard.Types.{
  FulfillmentMode, auto_activation, manual_contact, apk_download, disabled, all, only_ios,
  only_android, PlanItem,
}
use locketgoldhuydev.Wizard.{
  WizardStep, plan, platform, username, contact, payment, completed, Wizard, mode_of,
  fulfillment_mode, get_fulfillment_mode, step_of_mode, step_after_platform, asks_platform, middle,
  same_step, before, previous_in, get_active_steps, get_previous_step, go_back,
}
use locketgoldhuydev.Wizard.Stepper.{IsOn, IsOnTrack}

-- A choice of the device leads straight to the payment only if nothing has to be looked up.
step_of_mode-apart : (m : FulfillmentMode) → step_of_mode m ≡ payment → m ≢ auto_activation
step_of_mode-apart auto_activation h e = cc h
step_of_mode-apart manual_contact h e = cc e
step_of_mode-apart apk_download h e = cc e
step_of_mode-apart disabled h e = cc e

pub step_after_platform-apart :
    (p : PlanItem) (device : DevicePlatform)
    → step_after_platform p device ≡ payment
    → mode_of (some p) (some device) ≢ some auto_activation
unfolding step_after_platform
step_after_platform-apart p device h e = step_of_mode-apart (get_fulfillment_mode p device) h (cc e)

asks_platform-apart :
    (s : WizardStep) → platform ≢ s → (p : Option PlanItem) → All (λ t. t ≢ s) (asks_platform p)
asks_platform-apart s n none = (n, tt)
asks_platform-apart s n (some p) =
    elim p.supported_platforms
      as (λ support.
        All (λ t. t ≢ s)
          (elim support [ all ↦ platform ∷ [] | only_ios ↦ [] | only_android ↦ [] ])) [
            | all ↦ (n, tt)
            | only_ios ↦ tt
            | only_android ↦ tt
          ]

middle-apart :
    (m : Option FulfillmentMode) (p : Option PlanItem) (device : Option DevicePlatform)
    → All (λ t. t ≢ payment) (middle m p device)
middle-apart (some auto_activation) p device = ((λ e. cc e), tt)
middle-apart (some manual_contact) p device = ((λ e. cc e), tt)
middle-apart (some apk_download) p device = tt
middle-apart (some disabled) p device = tt
middle-apart none none none = ((λ e. cc e), tt)
middle-apart none none (some device) = tt
middle-apart none (some p) device = tt

same_step-completed : (s : WizardStep) → same_step completed s ≡ true → s ≡ completed
same_step-completed completed h = refl
same_step-completed plan h = absurd cc
same_step-completed platform h = absurd cc
same_step-completed username h = absurd cc
same_step-completed contact h = absurd cc
same_step-completed payment h = absurd cc

-- Only the last step has the payment before it.
before-payment :
    (s previous : WizardStep) (front : List WizardStep)
    → previous ≢ payment
    → All (λ t. t ≢ payment) front
    → before s previous (front ++ (payment ∷ completed ∷ [])) ≡ some payment
    → s ≡ completed
unfolding before
before-payment s previous [] n h e = elim (Bool-cases (same_step payment s)) [
  | inl here ↦ absurd (n (cc (rw here at e)))
  | inr later ↦ elim (Bool-cases (same_step completed s)) [
    | inl last ↦ same_step-completed s last
    | inr off ↦ absurd (cc (rw (later, off) at e))
  ]
]
before-payment s previous (t ∷ front) n h e = elim (Bool-cases (same_step t s)) [
  | inl here ↦ absurd (n (cc (rw here at e)))
  | inr later ↦ before-payment s t front h.0 h.1 (rw later at e)
]

previous_in-payment :
    (s : WizardStep) (front : List WizardStep)
    → All (λ t. t ≢ payment) front
    → previous_in s (plan ∷ (front ++ (payment ∷ completed ∷ []))) ≡ payment
    → s ≡ completed
previous_in-payment s front h e = elim (Bool-cases (same_step plan s)) [
  | inl here ↦ absurd (cc (rw here at e))
  | inr later ↦ elim (Option-cases (before s plan (front ++ (payment ∷ completed ∷ [])))) [
    | inl f ↦ absurd (cc (rw (later, f) at e))
    | inr (x, f) ↦
        let same : x ≡ payment = rw (later, f) at e in
        before-payment s plan front (λ g. cc g) h (f ∙ ap (λ y. some y) same)
  ]
]

-- The way back leads to the payment from the last step only.
pub go_back-payment : (w : Wizard) → (go_back w).current_step ≡ payment → w.current_step ≡ completed
unfolding go_back get_previous_step get_active_steps
go_back-payment w h =
    previous_in-payment w.current_step
      (asks_platform w.selected_plan
        ++ middle (fulfillment_mode w) w.selected_plan w.selected_platform)
      (All-append _ (asks_platform w.selected_plan) _
        (asks_platform-apart payment (λ e. cc e) w.selected_plan)
        (middle-apart (fulfillment_mode w) w.selected_plan w.selected_platform))
      (subst (λ steps. previous_in w.current_step (plan ∷ steps) ≡ payment)
        (sym (
          append_assoc (asks_platform w.selected_plan)
            (middle (fulfillment_mode w) w.selected_plan w.selected_platform)
            (payment ∷ completed ∷ [])))
        h)

after_front :
    (s : WizardStep) (front steps : List WizardStep)
    → All (λ t. t ≢ s) front
    → IsOn s (front ++ steps)
    → IsOn s steps
after_front s [] steps h on = on
after_front s (t ∷ front) steps h (inl e) = absurd (h.0 e)
after_front s (t ∷ front) steps h (inr on) = after_front s front steps h.1 on

no_contact :
    (m : Option FulfillmentMode) (p : Option PlanItem) (device : Option DevicePlatform)
    → m ≡ some auto_activation
    → ¬ IsOn contact (middle m p device ++ (payment ∷ completed ∷ []))
no_contact (some auto_activation) p device e (inl f) = cc f
no_contact (some auto_activation) p device e (inr (inl f)) = cc f
no_contact (some auto_activation) p device e (inr (inr (inl f))) = cc f
no_contact (some auto_activation) p device e (inr (inr (inr f))) = f
no_contact (some manual_contact) p device e on = absurd cc
no_contact (some apk_download) p device e on = absurd cc
no_contact (some disabled) p device e on = absurd cc
no_contact none p device e on = absurd cc

-- The contact step is on the way only where nothing has to be looked up.
pub contact-apart :
    (w : Wizard)
    → IsOnTrack w
    → w.current_step ≡ contact
    → fulfillment_mode w ≢ some auto_activation
unfolding get_active_steps
contact-apart w on at e = elim (subst (λ s. IsOn s (get_active_steps w)) at on) [
  | inl f ↦ cc f
  | inr rest ↦ no_contact (fulfillment_mode w) w.selected_plan w.selected_platform e (
      after_front contact (asks_platform w.selected_plan) _
        (asks_platform-apart contact (λ f. cc f) w.selected_plan) rest)
]
