-- ===== src/Forms/Login.antt =====
-- frontend/src/pages/LoginPage.tsx: the form of a login, its validation, and sending it, cut where it
-- waits. Where it leads is in Site/Routes.
use locketgoldhuydev.Prelude.{
  Bool, true, false, not, ◌&&◌, Option, none, some, Text, trim, if◌then◌else◌,
}
use locketgoldhuydev.Auth.{Reply}
use locketgoldhuydev.Wizard.Types.{Alert}
use locketgoldhuydev.Wizard.Lookup.{or_message}
use locketgoldhuydev.Forms.Patterns.{is_filled}

pub record Page : Type 0 where
  pub identifier : Text
  pub password : Text
  pub remember_me : Bool
  -- Which fields have an error.
  pub no_identifier : Bool
  pub no_password : Bool
  pub notice : Option Alert
  pub is_submitting : Bool

-- What is sent, as it was typed.
pub record Login : Type 0 where
  pub identifier : Text
  pub password : Text
  pub remember_me : Bool

-- `validate`
unfoldable pub validate : Page → Bool × Page
validate p =
    let blank = not (is_filled (trim p.identifier)) in
    let empty = not (is_filled p.password) in
    (not blank && not empty, record p { no_identifier = blank; no_password = empty })

-- `handleSubmit` up to `login`.
unfoldable pub handle_submit : Page → Page × Option Login
unfolding validate
handle_submit p =
    let (valid, checked) = validate (record p { notice = none }) in
    if valid
    then (
      record checked { is_submitting = true },
      some (record {
        identifier = p.identifier;
        password = p.password;
        remember_me = p.remember_me;
      }),
    )
    else (checked, none)

-- The rest of it, with the answer of the session, which never rejects; the second part says that the
-- success is announced.
unfoldable pub on_login : Reply → Page → Page × Bool
on_login res p = if res.success then (record p { is_submitting = false }, true) else (
  record p {
    notice = some (or_message res.msg "Đăng nhập thất bại. Vui lòng kiểm tra lại thông tin.");
    is_submitting = false;
  },
  false,
)
