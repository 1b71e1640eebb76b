-- ===== src/Wizard/Lookup.antt =====
-- `handleVerifyUsername` of frontend/src/pages/dashboard/ActivationWizard.tsx, cut where it waits. A
-- lookup under way keeps what its closure has captured: its number, the trimmed text and the plan.
use locketgoldhuydev.Prelude.{
  ℕ, suc, Bool, true, false, not, ◌&&◌, ◌||◌, Option, none, some, [], ◌∷◌, String, Text, codes,
  trim, truthy, or_text, str_eq, ◌==◌, if◌then◌else◌,
}
use locketgoldhuydev.Api.Types.{Message, text_of, type_error}
use locketgoldhuydev.Wizard.Types.{
  PlanItem, LunakeyProfile, UserInfo, already_gold_live, duplicate_in_progress, GoldCheck, Alert,
  says, gold_until,
}
use locketgoldhuydev.Wizard.{Wizard, is_lunakey}

-- Which call is awaited: the provider's lookup; or the user data and then, with them, the gold check.
pub data Stage : Type 0 where
  at_provider : PlanItem → Stage
  at_user : Stage
  at_gold : UserInfo → Stage

pub record Lookup : Type 0 where
  pub seq : ℕ
  pub raw : Text
  pub stage : Stage

-- `LunakeyLookupResponse`; a call may also resolve to `null` or reject.
pub record LunakeyResponse : Type 0 where
  pub success : Bool
  pub lookup_token : Option String
  pub profile : Option LunakeyProfile
  pub msg : Option String

pub record UserInfoResponse : Type 0 where
  pub success : Bool
  pub user_data : Option UserInfo
  pub msg : Option String

pub data Reply {ℓ} (A : Type ℓ) : Type ℓ where
  replied : A → Reply A
  null_reply : Reply A
  rejected : Message → Reply A

-- `text || fallback`
abbrev pub or_units : Option Text → Text → Text
or_units none d = d
or_units (some []) d = d
or_units (some (c ∷ s)) d = c ∷ s

-- `err.message || fallback`
abbrev pub or_message : Message → String → Alert
or_message (text_of m) d = says (text_of (if str_eq m "" then d else m))
or_message m d = says m

abbrev pub find_stage : Option PlanItem → Stage
find_stage none = at_user
find_stage (some p) = if is_lunakey p.activation_provider then at_provider p else at_user

-- The call up to its first wait; an empty input ends it. Its number makes every other lookup late.
unfoldable pub handle_verify_username : Wizard → Wizard × Option Lookup
handle_verify_username w = elim (trim w.username_input) [
  | [] ↦ (
    record w {
      user_verify_error = some (says (text_of "Vui lòng nhập Username hoặc link lời mời Locket."));
    },
    none,
  )
  | c ∷ s ↦ (
    record w {
      lookup_seq = suc w.lookup_seq;
      is_verifying_user = true;
      user_verify_error = none;
      avatar_error = false;
    },
    some (record { seq = suc w.lookup_seq; raw = c ∷ s; stage = find_stage w.selected_plan }),
  )
]

-- `isCurrent`
abbrev pub is_current : Lookup → Wizard → Bool
is_current l w = w.lookup_seq == l.seq

abbrev pub no_account : String
no_account = "Không tìm thấy tài khoản Locket. Vui lòng kiểm tra lại."

-- `has_gold !== false && !existing_gold_supported`
unfoldable pub is_blocked : PlanItem → LunakeyProfile → Bool
is_blocked p profile =
    elim profile.has_gold [ none ↦ true | some gold ↦ gold ] && not p.existing_gold_supported

unfoldable pub shown_profile : Text → LunakeyProfile → UserInfo
shown_profile raw profile = record {
  uid = or_units profile.uid [];
  username = or_units profile.username raw;
  first_name = or_units profile.name (codes "Locket");
  last_name = [];
  profile_picture_url = or_units profile.avatar [];
}

unfoldable pub provider_found : PlanItem → Text → String → LunakeyProfile → Wizard → Wizard
provider_found p raw token profile w =
    let w1 = record w {
      lunakey_profile = some profile;
      user_info = some (shown_profile raw profile);
    } in
    if is_blocked p profile
    then record w1 {
      lunakey_token = none;
      user_verify_error = some (
          says (
            text_of
              "Tài khoản đang có Gold. Gói này chưa hỗ trợ gia hạn — vui lòng chọn gói gia hạn."));
    }
    else record w1 { lunakey_token = some token }

unfoldable pub provider_lost : Alert → Wizard → Wizard
provider_lost alert w = record w {
  user_verify_error = some alert;
  user_info = none;
  lunakey_token = none;
  lunakey_profile = none;
}

-- `res.success && res.lookup_token && res.profile`
unfoldable pub granted : LunakeyResponse → Option (String × LunakeyProfile)
granted res =
    if res.success && truthy res.lookup_token
    then elim res.lookup_token [
      | none ↦ none
      | some token ↦ elim res.profile [ none ↦ none | some profile ↦ some (token, profile) ]
    ]
    else none

unfoldable pub provider_answered : PlanItem → Text → Reply LunakeyResponse → Wizard → Wizard
provider_answered p raw (replied res) w = elim (granted res) [
  | none ↦ provider_lost (says (text_of (or_text res.msg no_account))) w
  | some (token, profile) ↦ provider_found p raw token profile w
]
provider_answered p raw null_reply w = provider_lost (says type_error) w
provider_answered p raw (rejected m) w =
    provider_lost (or_message m "Lỗi kết nối khi tra cứu tài khoản.") w

unfoldable pub user_lost : Alert → Wizard → Wizard
user_lost alert w = record w { user_verify_error = some alert; user_info = none }

-- The block that a message announces.
unfoldable pub get_gold_block_message : GoldCheck → Option Alert
get_gold_block_message gold = elim gold.block_reason [
  | none ↦ none
  | some already_gold_live ↦ some (gold_until (or_text gold.expires_date "gần đây"))
  | some duplicate_in_progress ↦ some (
      says (
        text_of "Đơn của tài khoản này đang được xử lý. Vui lòng chờ hoàn tất hoặc liên hệ admin."))
]

-- The check that stands for one that failed: the purchase is allowed.
abbrev pub open_check : GoldCheck
open_check = record {
  is_gold = false;
  expires_date = none;
  block_reason = none;
  is_renewal = false;
}

unfoldable pub gold_checked : UserInfo → GoldCheck → Wizard → Wizard
gold_checked info gold w =
    let w1 = record w { legacy_gold = some gold } in
    elim (get_gold_block_message gold) [
      | none ↦ record w1 { user_info = some info }
      | some alert ↦ record w1 {
        user_verify_error = some alert;
        user_info = none;
        gold_block_message = some alert;
      }
    ]

unfoldable pub gold_answered : UserInfo → Reply GoldCheck → Wizard → Wizard
gold_answered info (replied gold) w = gold_checked info gold w
gold_answered info null_reply w = user_lost (says type_error) (record w { legacy_gold = none })
gold_answered info (rejected m) w = gold_checked info open_check w

abbrev pub verified : Wizard → Wizard
verified w = record w { is_verifying_user = false }

-- The answers, each with the test of `isCurrent` that follows its wait.
unfoldable pub on_provider : PlanItem → Lookup → Reply LunakeyResponse → Wizard → Wizard
on_provider p l a w = if is_current l w then verified (provider_answered p l.raw a w) else w

-- User data that were found leave the lookup under way, for the gold check.
unfoldable pub user_answered : Lookup → Reply UserInfoResponse → Wizard → Wizard × Option Lookup
user_answered l (replied res) w = elim (if res.success then res.user_data else none) [
  | none ↦ (verified (user_lost (says (text_of (or_text res.msg no_account))) w), none)
  | some info ↦ (w, some (record l { stage = at_gold info }))
]
user_answered l null_reply w = (verified (user_lost (says type_error) w), none)
user_answered l (rejected m) w =
    (verified (user_lost (or_message m "Lỗi kết nối khi xác thực tài khoản.") w), none)

unfoldable pub on_user : Lookup → Reply UserInfoResponse → Wizard → Wizard × Option Lookup
on_user l a w = if is_current l w then user_answered l a w else (w, none)

unfoldable pub on_gold : UserInfo → Lookup → Reply GoldCheck → Wizard → Wizard
on_gold info l a w = if is_current l w then verified (gold_answered info a w) else w

-- The input field: a change drops the lookups and what they have found.
unfoldable pub type_username : Text → Wizard → Wizard
type_username value w = record w {
  lookup_seq = suc w.lookup_seq;
  username_input = value;
  user_info = none;
  user_verify_error = none;
  lunakey_token = none;
  lunakey_profile = none;
  legacy_gold = none;
  avatar_error = false;
}

-- `canProceedWithGold`
unfoldable pub can_proceed_with_gold : Wizard → Bool
can_proceed_with_gold w =
    not (elim w.selected_plan [ none ↦ false | some p ↦ is_lunakey p.activation_provider ])
    || truthy w.lunakey_token
