-- ===== src/Wizard/Frames.antt =====
-- What the lookups of frontend/src/pages/dashboard/ActivationWizard.tsx leave alone.
use locketgoldhuydev.Prelude.{
  ◌≡◌, refl, inl, inr, none, String, Text, Bool-cases, Option-cases, if◌then◌else◌,
}
use locketgoldhuydev.Wizard.Types.{PlanItem, UserInfo, GoldCheck, LunakeyProfile}
use locketgoldhuydev.Wizard.{Wizard}
use locketgoldhuydev.Wizard.Lookup.{
  Lookup, LunakeyResponse, UserInfoResponse, Reply, replied, null_reply, rejected, is_current,
  is_blocked, provider_found, provider_lost, granted, provider_answered, user_lost,
  get_gold_block_message, gold_checked, gold_answered, on_provider, user_answered, on_user, on_gold,
  open_check,
}

-- The selection and the number of the latest lookup.
abbrev pub Keeps : Wizard → Wizard → Type 0
Keeps w w' =
    (w'.current_step ≡ w.current_step)
    × (w'.selected_plan ≡ w.selected_plan)
    × (w'.selected_platform ≡ w.selected_platform)
    × (w'.username_input ≡ w.username_input)
    × (w'.lookup_seq ≡ w.lookup_seq)

pub Keeps-self : (w : Wizard) → Keeps w w
Keeps-self w = (refl, refl, refl, refl, refl)

-- And the token.
abbrev pub KeepsToken : Wizard → Wizard → Type 0
KeepsToken w w' = Keeps w w' × (w'.lunakey_token ≡ w.lunakey_token)

pub KeepsToken-self : (w : Wizard) → KeepsToken w w
KeepsToken-self w = (Keeps-self w, refl)

provider_found-Keeps :
    (p : PlanItem) (raw : Text) (token : String) (profile : LunakeyProfile) (w : Wizard)
    → Keeps w (provider_found p raw token profile w)
unfolding provider_found
provider_found-Keeps p raw token profile w = elim (Bool-cases (is_blocked p profile)) [
  | inl blocked ↦ rw blocked (Keeps-self w)
  | inr free ↦ rw free (Keeps-self w)
]

pub provider_answered-Keeps :
    (p : PlanItem) (raw : Text) (a : Reply LunakeyResponse) (w : Wizard)
    → Keeps w (provider_answered p raw a w)
unfolding provider_answered provider_lost
provider_answered-Keeps p raw (replied res) w = elim (Option-cases (granted res)) [
  | inl refused ↦ rw (refused, provider_answered) (Keeps-self w)
  | inr ((token, profile), e) ↦
      rw (e, provider_answered) (provider_found-Keeps p raw token profile w)
]
provider_answered-Keeps p raw null_reply w = Keeps-self w
provider_answered-Keeps p raw (rejected m) w = Keeps-self w

pub on_provider-Keeps :
    (p : PlanItem) (l : Lookup) (a : Reply LunakeyResponse) (w : Wizard)
    → Keeps w (on_provider p l a w)
unfolding on_provider
on_provider-Keeps p l a w = elim (Bool-cases (is_current l w)) [
  | inl current ↦ rw current (provider_answered-Keeps p l.raw a w)
  | inr late ↦ rw late (Keeps-self w)
]

gold_checked-KeepsToken :
    (info : UserInfo) (gold : GoldCheck) (w : Wizard) → KeepsToken w (gold_checked info gold w)
unfolding gold_checked
gold_checked-KeepsToken info gold w = elim (Option-cases (get_gold_block_message gold)) [
  | inl allowed ↦ rw (allowed, gold_checked) (KeepsToken-self w)
  | inr (alert, e) ↦ rw (e, gold_checked) (KeepsToken-self w)
]

gold_answered-KeepsToken :
    (info : UserInfo) (a : Reply GoldCheck) (w : Wizard) → KeepsToken w (gold_answered info a w)
unfolding gold_answered user_lost
gold_answered-KeepsToken info (replied gold) w = gold_checked-KeepsToken info gold w
gold_answered-KeepsToken info null_reply w = KeepsToken-self w
gold_answered-KeepsToken info (rejected m) w = gold_checked-KeepsToken info open_check w

pub on_gold-KeepsToken :
    (info : UserInfo) (l : Lookup) (a : Reply GoldCheck) (w : Wizard)
    → KeepsToken w (on_gold info l a w)
unfolding on_gold
on_gold-KeepsToken info l a w = elim (Bool-cases (is_current l w)) [
  | inl current ↦ rw current (gold_answered-KeepsToken info a w)
  | inr late ↦ rw late (KeepsToken-self w)
]

user_answered-KeepsToken :
    (l : Lookup) (a : Reply UserInfoResponse) (w : Wizard) → KeepsToken w (user_answered l a w).0
unfolding user_answered user_lost
user_answered-KeepsToken l (replied res) w =
    elim (Option-cases (if res.success then res.user_data else none)) [
      | inl missing ↦ rw (missing, user_answered) (KeepsToken-self w)
      | inr (info, e) ↦ rw (e, user_answered) (KeepsToken-self w)
    ]
user_answered-KeepsToken l null_reply w = KeepsToken-self w
user_answered-KeepsToken l (rejected m) w = KeepsToken-self w

pub on_user-KeepsToken :
    (l : Lookup) (a : Reply UserInfoResponse) (w : Wizard) → KeepsToken w (on_user l a w).0
unfolding on_user
on_user-KeepsToken l a w = elim (Bool-cases (is_current l w)) [
  | inl current ↦ rw current (user_answered-KeepsToken l a w)
  | inr late ↦ rw late (KeepsToken-self w)
]
