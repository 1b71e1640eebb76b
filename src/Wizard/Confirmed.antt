-- ===== src/Wizard/Confirmed.antt =====
-- The confirmation token of frontend/src/pages/dashboard/ActivationWizard.tsx: whose account it is
-- for, in every order of clicks and answers.
use locketgoldhuydev.Prelude.{
  suc, ◌≡◌, ◌≤◌, refl, sym, ap, ◌∙◌, subst, inl, inr, false, Option, none, some, List, [], ◌∷◌,
  arith, All, String, Text, trim, ==_iff, Bool-cases, Option-cases,
}
use locketgoldhuydev.Prelude.Pairs.{All-map}
use locketgoldhuydev.Wizard.Types.{PlanItem, LunakeyProfile}
use locketgoldhuydev.Wizard.{Wizard}
use locketgoldhuydev.Wizard.Lookup.{
  Stage, at_provider, at_user, at_gold, Lookup, LunakeyResponse, Reply, replied, null_reply,
  rejected, is_current, is_blocked, provider_found, provider_lost, granted, provider_answered,
  on_provider,
}
use locketgoldhuydev.Wizard.Events.{Page, Waits}
use locketgoldhuydev.Wizard.Frames.{provider_answered-Keeps}

abbrev pub IsFor : Stage → Option PlanItem → Type 0
IsFor (at_provider p) selected = selected ≡ some p
IsFor at_user selected = Unit
IsFor (at_gold info) selected = Unit

-- A lookup with the latest number asks for what is on the page.
abbrev pub Bound : Wizard → Lookup → Type 0
Bound w l =
    (l.seq ≤ w.lookup_seq)
    × (l.seq ≡ w.lookup_seq → (l.raw ≡ trim w.username_input) × IsFor l.stage w.selected_plan)

pub outdated-Bound :
    (w w' : Wizard) (ks : List Lookup)
    → w'.lookup_seq ≡ suc w.lookup_seq
    → All (Bound w) ks
    → All (Bound w') ks
outdated-Bound w w' ks e =
    All-map (Bound w) (Bound w') ks
      (λ l b. (omega (arith, b.0), λ same. absurd (omega (arith, b.0))))

pub kept-Bound :
    (w w' : Wizard) (ks : List Lookup)
    → w'.selected_plan ≡ w.selected_plan
    → w'.username_input ≡ w.username_input
    → w'.lookup_seq ≡ w.lookup_seq
    → All (Bound w) ks
    → All (Bound w') ks
kept-Bound w w' ks selected input seq = All-map (Bound w) (Bound w') ks (λ l b. (
  omega (arith, b.0),
  λ same. (
    (b.1 (same ∙ seq)).0 ∙ ap trim (sym input),
    subst (IsFor l.stage) (sym selected) (b.1 (same ∙ seq)).1,
  ),
))

pub found-Bound :
    (w : Wizard) (l : Lookup) (ks : List Lookup) → Waits l ks → All (Bound w) ks → Bound w l
found-Bound w l [] h b = elim h [ ]
found-Bound w l (k ∷ ks) (inl e) b = subst (Bound w) e b.0
found-Bound w l (k ∷ ks) (inr h) b = found-Bound w l ks h b.1

module _ (Said : PlanItem → Text → Reply LunakeyResponse → Type 0) where
  -- The provider has given the token for the plan that is selected and the name that is typed in,
  -- with a profile that may buy the plan.
  abbrev pub Confirmed : Wizard → Type 0
  Confirmed w =
      (t : String)
      → w.lunakey_token ≡ some t
      → (p : PlanItem) × (res : LunakeyResponse) × (profile : LunakeyProfile) × (w.selected_plan
          ≡ some p)
        × Said p (trim w.username_input) (replied res)
        × (granted res ≡ some (t, profile))
        × (is_blocked p profile ≡ false)

  pub kept-Confirmed :
      (w w' : Wizard)
      → w'.selected_plan ≡ w.selected_plan
      → w'.username_input ≡ w.username_input
      → w'.lunakey_token ≡ w.lunakey_token
      → Confirmed w
      → Confirmed w'
  kept-Confirmed w w' e f g h t got =
      let (p, res, profile, a, b, c, d) = h t (sym g ∙ got) in
      (p, res, profile, e ∙ a, subst (λ x. Said p (trim x) (replied res)) (sym f) b, c, d)

  pub none-Confirmed : (w : Wizard) → w.lunakey_token ≡ none → Confirmed w
  none-Confirmed w e t got = absurd cc

  pub record IsConfirmed (s : Page) : Type 0 where
    pub bound : All (Bound s.wizard) s.pending
    pub confirmed : Confirmed s.wizard

  provider_answered-Confirmed :
      (p : PlanItem) (raw : Text) (a : Reply LunakeyResponse) (w : Wizard)
      → raw ≡ trim w.username_input
      → w.selected_plan ≡ some p
      → Said p raw a
      → Confirmed (provider_answered p raw a w)
  unfolding provider_answered provider_lost provider_found
  provider_answered-Confirmed p raw null_reply w e f said =
      none-Confirmed (provider_answered p raw null_reply w) refl
  provider_answered-Confirmed p raw (rejected m) w e f said =
      none-Confirmed (provider_answered p raw (rejected m) w) refl
  provider_answered-Confirmed p raw (replied res) w e f said = elim (Option-cases (granted res)) [
    | inl refused ↦
        none-Confirmed (provider_answered p raw (replied res) w)
          (rw (refused, provider_answered) refl)
    | inr ((token, profile), g) ↦ elim (Bool-cases (is_blocked p profile)) [
      | inl blocked ↦
          none-Confirmed (provider_answered p raw (replied res) w)
            (rw (g, provider_answered, blocked, provider_found) refl)
      | inr free ↦ λ t got.
          let stored : some token ≡ some t =
            rw (g, provider_answered, free, provider_found) at got in
          let same_token : token ≡ t = cc stored in
          let k = provider_answered-Keeps p raw (replied res) w in
          (
            p,
            res,
            profile,
            k.1 ∙ f,
            subst (λ x. Said p x (replied res)) (e ∙ ap trim (sym k.3)) said,
            g ∙ ap (λ x. some (x, profile)) same_token,
            free,
          )
    ]
  ]

  pub on_provider-Confirmed :
      (p : PlanItem) (l : Lookup) (a : Reply LunakeyResponse) (w : Wizard)
      → l.stage ≡ at_provider p
      → Said p l.raw a
      → Bound w l
      → Confirmed w
      → Confirmed (on_provider p l a w)
  unfolding on_provider
  on_provider-Confirmed p l a w stage said b h = elim (Bool-cases (is_current l w)) [
    | inr late ↦ rw late h
    | inl current ↦
        let (same, is_for) = b.1 (sym ((==_iff w.lookup_seq l.seq).0 current)) in
        let v = provider_answered p l.raw a w in
        let done = provider_answered-Confirmed p l.raw a w same (rw stage at is_for) said in
        rw current (kept-Confirmed v (record v { is_verifying_user = false }) refl refl refl done)
  ]
