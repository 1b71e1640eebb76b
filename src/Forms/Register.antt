-- ===== src/Forms/Register.antt =====
-- frontend/src/pages/RegisterPage.tsx: the form of a registration, its validation, and sending it, cut
-- where it waits. The password is a text of UTF-16 units, as its `length` counts them.
use locketgoldhuydev.Prelude.{
  ℕ, Bool, true, false, not, ◌&&◌, ◌||◌, Option, none, some, Text, trim, text_eq, length, ltb,
  if◌then◌else◌,
}
use locketgoldhuydev.Auth.{Reply}
use locketgoldhuydev.Utils.Url.{lower}
use locketgoldhuydev.Wizard.Types.{Alert}
use locketgoldhuydev.Wizard.Lookup.{or_message}
use locketgoldhuydev.Forms.Patterns.{is_filled, is_email, is_user_name}

-- Why a field is refused.
pub data Problem : Type 0 where
  missing malformed mismatch : Problem

-- `FormErrors`
pub record Errors : Type 0 where
  pub display_name : Option Problem
  pub email : Option Problem
  pub username : Option Problem
  pub password : Option Problem
  pub confirm_password : Option Problem
  pub agree_terms : Option Problem

pub record Page : Type 0 where
  pub display_name : Text
  pub email : Text
  pub username : Text
  pub password : Text
  pub confirm_password : Text
  pub agree_terms : Bool
  pub errors : Errors
  -- `statusNotice`, of the type `error`
  pub notice : Option Alert
  pub is_submitting : Bool

-- What is sent.
pub record Registration : Type 0 where
  pub email : Text
  pub username : Text
  pub display_name : Text
  pub password : Text

abbrev pub check : Bool → Problem → Option Problem → Option Problem
check ok problem rest = if ok then rest else some problem

-- `errs` of `validate`
unfoldable pub errors_of : Page → Errors
errors_of p = record {
  display_name = check (is_filled (trim p.display_name)) missing none;
  email = check (is_filled (trim p.email)) missing (check (is_email p.email) malformed none);
  username =
      check (is_filled (trim p.username)) missing (check (is_user_name p.username) malformed none);
  password =
      check (is_filled p.password) missing
        (check (not (ltb (length p.password) 10 || ltb 128 (length p.password))) malformed none);
  confirm_password =
      check (is_filled p.confirm_password) missing
        (check (text_eq p.password p.confirm_password) mismatch none);
  agree_terms = check p.agree_terms missing none;
}

abbrev pub is_absent : Option Problem → Bool
is_absent none = true
is_absent (some e) = false

-- `Object.keys(errs).length === 0`
abbrev pub has_no_errors : Errors → Bool
has_no_errors e =
    is_absent e.display_name
    && is_absent e.email
    && is_absent e.username
    && is_absent e.password
    && is_absent e.confirm_password
    && is_absent e.agree_terms

module _ (lower_other : ℕ → Text) where
  -- `handleSubmit` up to `register`.
  unfoldable pub handle_submit : Page → Page × Option Registration
  unfolding errors_of
  handle_submit p =
      let checked = record p { notice = none; errors = errors_of p } in
      if has_no_errors (errors_of p)
      then (
        record checked { is_submitting = true },
        some (record {
          email = lower lower_other (trim p.email);
          username = lower lower_other (trim p.username);
          display_name = trim p.display_name;
          password = p.password;
        }),
      )
      else (checked, none)

-- The rest of it, with the answer of the session, which never rejects; the second part says that the success is announced.
unfoldable pub on_registered : Reply → Page → Page × Bool
on_registered res p = if res.success then (record p { is_submitting = false }, true) else (
  record p {
    notice = some (or_message res.msg "Đăng ký thất bại. Vui lòng kiểm tra lại.");
    is_submitting = false;
  },
  false,
)
