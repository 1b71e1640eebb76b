-- ===== src/Wizard/Contact.antt =====
-- `handleContinueContact` of frontend/src/pages/dashboard/ActivationWizard.tsx. The browser's `URL`
-- is an argument, which reads an address into its parts or throws; so is the lower case of letters
-- beyond ASCII.
use locketgoldhuydev.Prelude.{
  ℕ, Bool, true, false, not, ◌&&◌, ◌||◌, Option, none, some, List, [], ◌∷◌, Text, codes, trim,
  text_eq, is_space, filter, any, length, leb, ◌==◌, if◌then◌else◌,
}
use locketgoldhuydev.Api.Types.{text_of}
use locketgoldhuydev.Utils.Url.{lower}
use locketgoldhuydev.Wizard.Types.{says}
use locketgoldhuydev.Wizard.{Wizard, payment}

pub record Url : Type 0 where
  pub protocol : Text
  pub hostname : Text
  pub pathname : Text

-- `/[\s.()\-]/`
unfoldable pub is_separator : ℕ → Bool
is_separator c = is_space c || c == b'.' || c == b'(' || c == b')' || c == b'-'

abbrev pub is_digit : ℕ → Bool
is_digit c = leb b'0' c && leb c b'9'

unfoldable pub all_digits : Text → Bool
all_digits [] = true
all_digits (c ∷ s) = is_digit c && all_digits s

-- `/^\d{9,15}$/`
unfoldable pub is_number : Text → Bool
unfolding all_digits
is_number s = all_digits s && leb 9 (length s) && leb (length s) 15

-- `/^\+?\d{9,15}$/`
unfoldable pub is_phone : Text → Bool
unfolding is_number
is_phone [] = false
is_phone (c ∷ s) = if c == b'+' then is_number s else is_number (c ∷ s)

abbrev pub facebook_hosts : List Text
facebook_hosts = codes "facebook.com" ∷ codes "www.facebook.com" ∷ codes "m.facebook.com" ∷ []

module _ (parse_url : Text → Option Url) (lower_other : ℕ → Text) where
  unfoldable pub is_facebook : Text → Bool
  is_facebook s = elim (parse_url (trim s)) [
    | none ↦ false
    | some parsed ↦
        text_eq parsed.protocol (codes "https:")
        && any (text_eq (lower lower_other parsed.hostname)) facebook_hosts
        && not (text_eq parsed.pathname (codes "/"))
  ]

  unfoldable pub handle_continue_contact : Wizard → Wizard
  unfolding is_facebook is_phone is_separator
  handle_continue_contact w =
      if not (is_phone (filter (λ c. not (is_separator c)) w.contact_zalo))
      then record w {
        contact_error = some (says (text_of "Số điện thoại Zalo phải có từ 9 đến 15 chữ số."));
      }
      else (if not (is_facebook w.contact_facebook)
          then record w {
            contact_error = some (
                says (
                  text_of
                    "Vui lòng nhập link Facebook đầy đủ, bắt đầu bằng https://facebook.com/..."));
          }
          else record w { contact_error = none; current_step = payment })
