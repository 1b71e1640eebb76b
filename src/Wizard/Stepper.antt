-- ===== src/Wizard/Stepper.antt =====
-- The stepper of frontend/src/pages/dashboard/ActivationWizard.tsx: `getActiveSteps` against
-- `currentStep`.
use locketgoldhuydev.Prelude.{
  ◌≡◌, ◌⊎◌, inl, inr, refl, sym, subst, Option, none, some, List, [], ◌∷◌, ◌++◌, Bool-cases,
  Option-cases,
}
use locketgoldhuydev.Queue.{DevicePlatform, ios, android}
use locketgoldhuydev.Wizard.Types.{
  FulfillmentMode, auto_activation, manual_contact, apk_download, disabled, Support, all, only_ios,
  only_android, PlanItem,
}
use locketgoldhuydev.Wizard.{
  WizardStep, plan, platform, username, contact, payment, completed, Wizard, mode_of,
  fulfillment_mode, get_fulfillment_mode, step_of_mode, step_after_platform, asks_platform, middle,
  same_step, before, previous_in, get_active_steps, get_previous_step, supports, enter,
  handle_select_plan, handle_select_platform, handle_reset, go_back,
}

abbrev pub IsOn : WizardStep → List WizardStep → Type 0
IsOn s [] = ⊥
IsOn s (t ∷ steps) = (t ≡ s) ⊎ IsOn s steps

-- The page shows a step that the stepper lists.
abbrev pub IsOnTrack : Wizard → Type 0
IsOnTrack w = IsOn w.current_step (get_active_steps w)

IsOn-append : (s : WizardStep) (xs ys : List WizardStep) → IsOn s ys → IsOn s (xs ++ ys)
IsOn-append s [] ys h = h
IsOn-append s (x ∷ xs) ys h = inr (IsOn-append s xs ys h)

abbrev steps_of : Option PlanItem → Option DevicePlatform → List WizardStep
steps_of p device =
    plan ∷ (asks_platform p ++ (middle (mode_of p device) p device ++ (payment ∷ completed ∷ [])))

get_active_steps-fields :
    (w : Wizard) → get_active_steps w ≡ steps_of w.selected_plan w.selected_platform
unfolding get_active_steps fulfillment_mode
get_active_steps-fields w = refl

pub IsOnTrack-fields :
    (w : Wizard) → IsOn w.current_step (steps_of w.selected_plan w.selected_platform) → IsOnTrack w
IsOnTrack-fields w h = subst (IsOn w.current_step) (sym (get_active_steps-fields w)) h

IsOnTrack-at :
    (w : Wizard) (s : WizardStep) (p : Option PlanItem) (device : Option DevicePlatform)
    → w.current_step ≡ s
    → w.selected_plan ≡ p
    → w.selected_platform ≡ device
    → IsOn s (steps_of p device)
    → IsOnTrack w
IsOnTrack-at w s p device e f g h = IsOnTrack-fields w (
    subst (λ x. IsOn x (steps_of w.selected_plan w.selected_platform)) (sym e)
      (subst (λ x. IsOn s (steps_of x w.selected_platform)) (sym f)
        (subst (λ x. IsOn s (steps_of p x)) (sym g) h)))

-- The step after the device is one of the plan's.
mode-IsOn :
    (m : FulfillmentMode) (front : List WizardStep) (p : PlanItem) (device : DevicePlatform)
    → IsOn
        (step_of_mode m)
        (plan ∷ (front ++ (middle (some m) (some p) (some device) ++ (payment ∷ completed ∷ []))))
mode-IsOn auto_activation front p device = inr (IsOn-append username front _ (inl refl))
mode-IsOn manual_contact front p device = inr (IsOn-append contact front _ (inl refl))
mode-IsOn apk_download front p device = inr (IsOn-append payment front _ (inl refl))
mode-IsOn disabled front p device = inr (IsOn-append payment front _ (inl refl))

entered-IsOn :
    (p : PlanItem) (device : DevicePlatform)
    → IsOn (step_after_platform p device) (steps_of (some p) (some device))
unfolding step_after_platform
entered-IsOn p device = mode-IsOn (get_fulfillment_mode p device) (asks_platform (some p)) p device

pub payment-IsOn :
    (p : Option PlanItem) (device : Option DevicePlatform) → IsOn payment (steps_of p device)
payment-IsOn p device = inr (
    IsOn-append payment (asks_platform p) _
      (IsOn-append payment (middle (mode_of p device) p device) _ (inl refl)))

before-IsOn :
    (s previous : WizardStep) (steps : List WizardStep) (x : WizardStep)
    → before s previous steps ≡ some x
    → (previous ≡ x) ⊎ IsOn x steps
unfolding before
before-IsOn s previous [] x h = absurd cc
before-IsOn s previous (t ∷ steps) x h = elim (Bool-cases (same_step t s)) [
  | inl here ↦ inl (some-injective (rw here at h))
  | inr later ↦ inr (before-IsOn s t steps x (rw later at h))
]
  where
    some-injective : {a b : WizardStep} → some a ≡ some b → a ≡ b
    some-injective e = cc e

previous_in-IsOn :
    (s : WizardStep) (steps : List WizardStep) → IsOn (previous_in s (plan ∷ steps)) (plan ∷ steps)
previous_in-IsOn s steps = elim (Bool-cases (same_step plan s)) [
  | inl here ↦ rw here (inl refl)
  | inr later ↦ elim (Option-cases (before s plan steps)) [
    | inl e ↦ rw (later, e) (inl refl)
    | inr (x, e) ↦
        let found : previous_in s (plan ∷ steps) ≡ x = rw (later, e) refl in
        subst (λ y. IsOn y (plan ∷ steps)) (sym found) (before-IsOn s plan steps x e)
  ]
]

pub go_back-IsOnTrack : (w : Wizard) → IsOnTrack (go_back w)
unfolding go_back get_previous_step get_active_steps fulfillment_mode
go_back-IsOnTrack w = previous_in-IsOn w.current_step _

enter-IsOnTrack :
    (p : PlanItem) (support : Support) (w : Wizard)
    → p.supported_platforms ≡ support
    → w.selected_plan ≡ some p
    → IsOnTrack (enter p support w)
enter-IsOnTrack p only_ios w e h = IsOnTrack-fields _ (rw h (entered-IsOn p ios))
enter-IsOnTrack p only_android w e h = IsOnTrack-fields _ (rw h (entered-IsOn p android))
enter-IsOnTrack p all w e h = IsOnTrack-fields _ (rw (h, e) (inr (inl refl)))

pub handle_select_plan-IsOnTrack : (p : PlanItem) (w : Wizard) → IsOnTrack (handle_select_plan p w)
unfolding handle_select_plan
handle_select_plan-IsOnTrack p w = enter-IsOnTrack p p.supported_platforms _ refl refl

-- The device can be chosen at the step for it.
pub handle_select_platform-IsOnTrack :
    (device : DevicePlatform) (w : Wizard)
    → w.current_step ≡ platform
    → IsOnTrack w
    → IsOnTrack (handle_select_platform device w)
unfolding handle_select_platform
handle_select_platform-IsOnTrack device w at h = elim (Option-cases w.selected_plan) [
  | inl nothing ↦
      rw nothing (IsOnTrack-at _ platform none (some device) at refl refl (inr (inl refl)))
  | inr (p, e) ↦ elim (Bool-cases (supports p.supported_platforms device)) [
    | inl fits ↦ rw (e, fits) (IsOnTrack-fields _ (entered-IsOn p device))
    | inr refused ↦
        rw (e, refused)
          (IsOnTrack-fields _ (
            subst (λ x. IsOn w.current_step (steps_of x w.selected_platform)) e
              (subst (IsOn w.current_step) (get_active_steps-fields w) h)))
  ]
]

pub handle_reset-IsOnTrack : (w : Wizard) → IsOnTrack (handle_reset w)
unfolding handle_reset
handle_reset-IsOnTrack w = IsOnTrack-fields _ (inl refl)

pub to_payment-IsOnTrack : (w : Wizard) → w.current_step ≡ payment → IsOnTrack w
to_payment-IsOnTrack w at =
    IsOnTrack-at w payment w.selected_plan w.selected_platform at refl refl
      (payment-IsOn w.selected_plan w.selected_platform)

-- What the stepper depends on is the same.
pub record SameSteps (w w' : Wizard) : Type 0 where
  pub same_step_shown : w'.current_step ≡ w.current_step
  pub same_plan : w'.selected_plan ≡ w.selected_plan
  pub same_device : w'.selected_platform ≡ w.selected_platform

pub SameSteps-IsOnTrack : (w w' : Wizard) → SameSteps w w' → IsOnTrack w → IsOnTrack w'
SameSteps-IsOnTrack w w' e h =
    IsOnTrack-at w' w.current_step w.selected_plan w.selected_platform e.same_step_shown e.same_plan
      e.same_device (subst (IsOn w.current_step) (get_active_steps-fields w) h)
