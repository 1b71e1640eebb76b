-- ===== src/Wizard/Ready.antt =====
-- Who gets to the payment step of frontend/src/pages/dashboard/ActivationWizard.tsx.
use locketgoldhuydev.Prelude.{
  suc, ◌≡◌, ◌≢◌, ◌≤◌, refl, sym, ap, ◌∙◌, subst, inl, inr, true, false, none, some, List, [], ◌∷◌,
  arith, All, ◌==◌, Bool-cases, Option-cases,
}
use locketgoldhuydev.Prelude.Pairs.{All-map}
use locketgoldhuydev.Queue.{DevicePlatform, ios, android}
use locketgoldhuydev.Wizard.Types.{auto_activation, PlanItem, Support, all, only_ios, only_android}
use locketgoldhuydev.Wizard.{
  platform, payment, Wizard, mode_of, fulfillment_mode, enter, supports, handle_select_plan,
  handle_select_platform,
}
use locketgoldhuydev.Wizard.Lookup.{Lookup, can_proceed_with_gold}
use locketgoldhuydev.Wizard.Events.{Page, Waits, settle}
use locketgoldhuydev.Wizard.Stops.{step_after_platform-apart}

-- No lookup is under way, an account has been found, and a plan of the provider has its token.
pub record MayPay (w : Wizard) : Type 0 where
  pub idle : w.is_verifying_user ≡ false
  pub found : w.user_info ≢ none
  pub allowed : can_proceed_with_gold w ≡ true

-- At the payment step of a plan that is activated by itself.
abbrev pub IsPaying : Wizard → Type 0
IsPaying w = (w.current_step ≡ payment) × (fulfillment_mode w ≡ some auto_activation)

-- No lookup of these has the latest number.
abbrev pub AreLate : Wizard → List Lookup → Type 0
AreLate w = All (λ l. l.seq ≢ w.lookup_seq)

pub record IsReady (s : Page) : Type 0 where
  pub recent : All (λ l. l.seq ≤ s.wizard.lookup_seq) s.pending
  pub late : s.wizard.is_verifying_user ≡ false → AreLate s.wizard s.pending
  pub ready : IsPaying s.wizard → MayPay s.wizard

pub found-All : (P : Lookup → Type 0) (l : Lookup) (ks : List Lookup) → Waits l ks → All P ks → P l
found-All P l [] h b = elim h [ ]
found-All P l (k ∷ ks) (inl e) b = subst P e b.0
found-All P l (k ∷ ks) (inr h) b = found-All P l ks h b.1

pub settle-apart : (l : Lookup) (ks : List Lookup) → All (λ k. k.seq ≢ l.seq) (settle l ks)
settle-apart l [] = tt
settle-apart l (k ∷ ks) = elim (Bool-cases (k.seq == l.seq)) [
  | inl same ↦ rw same (settle-apart l ks)
  | inr other ↦ rw other (ground (arith, other), settle-apart l ks)
]

-- Everything that starts a new number leaves the older lookups behind.
pub renumbered-IsReady :
    (s : Page) (w : Wizard)
    → w.lookup_seq ≡ suc s.wizard.lookup_seq
    → (IsPaying w → MayPay w)
    → IsReady s
    → IsReady (record s { wizard = w })
renumbered-IsReady s w e pays v = record {
  recent = All-map _ _ s.pending (λ l b. omega (arith, e, b)) v.recent;
  late = λ idle. All-map _ _ s.pending (λ l b. omega (arith, e, b)) v.recent;
  ready = pays;
}

-- A change that touches neither lookups nor their number.
pub changed-IsReady :
    (s : Page) (w : Wizard)
    → w.lookup_seq ≡ s.wizard.lookup_seq
    → w.is_verifying_user ≡ s.wizard.is_verifying_user
    → (IsPaying w → MayPay w)
    → IsReady s
    → IsReady (record s { wizard = w })
changed-IsReady s w e f pays v = record {
  recent = All-map _ _ s.pending (λ l b. omega (arith, e, b)) v.recent;
  late = λ idle. All-map _ _ s.pending (λ l b. omega (arith, e, b)) (v.late (sym f ∙ idle));
  ready = pays;
}

enter-unpaid :
    (p : PlanItem) (support : Support) (w : Wizard)
    → w.selected_plan ≡ some p
    → ¬ IsPaying (enter p support w)
unfolding fulfillment_mode
enter-unpaid p all w e (at, mode) = cc at
enter-unpaid p only_ios w e (at, mode) = step_after_platform-apart p ios at (rw e at mode)
enter-unpaid p only_android w e (at, mode) = step_after_platform-apart p android at (rw e at mode)

pub handle_select_plan-unpaid : (p : PlanItem) (w : Wizard) → ¬ IsPaying (handle_select_plan p w)
unfolding handle_select_plan
handle_select_plan-unpaid p w h = enter-unpaid p p.supported_platforms _ refl h

pub handle_select_platform-unpaid :
    (device : DevicePlatform) (w : Wizard)
    → w.current_step ≡ platform
    → ¬ IsPaying (handle_select_platform device w)
unfolding handle_select_platform fulfillment_mode
handle_select_platform-unpaid device w start h = elim (Option-cases w.selected_plan) [
  | inl nothing ↦ stayed (rw (nothing, handle_select_platform) at h.0)
  | inr (p, e) ↦ elim (Bool-cases (supports p.supported_platforms device)) [
    | inl fits ↦
        step_after_platform-apart p device (rw (e, handle_select_platform, fits) at h.0) (
          ap (λ x. mode_of x (some device)) (sym e) ∙ (rw (e, handle_select_platform, fits) at h.1))
    | inr refused ↦ stayed (rw (e, handle_select_platform, refused) at h.0)
  ]
]
  where
    stayed : ¬ (w.current_step ≡ payment)
    stayed at = cc (start, at)
