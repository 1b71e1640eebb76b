-- ===== src/Tests/Forms.antt =====
-- Runs of the forms of frontend/src/pages/RegisterPage.tsx and
-- frontend/src/components/reviews/ReviewFormModal.tsx.
use locketgoldhuydev.Prelude.{
  ℕ, ◌≡◌, some, List, length, arith, refl, ◌↔◌, true, false, none, [], ◌∷◌, Text, codes, is_some,
  trim, trim_start, trim_end, keep_unit, is_space, text_eq,
}
use locketgoldhuydev.Forms.Patterns.{
  all_units, split_at_sign, has_dot, has_inner_dot, is_email, is_user_name,
}
use locketgoldhuydev.Forms.Register.{Page, errors_of, handle_submit}
use locketgoldhuydev.Forms.Review.{
  Form, File, unmount, is_allowed, handle_file_change, open_form, clear_preview_urls,
  remove_selected_file, remove_existing_image,
}
use locketgoldhuydev.Utils.Url.{lower}
use locketgoldhuydev.Site.Popup.{ends_with}
use locketgoldhuydev.Forms.Pictures.{
  Event, chosen, file_removed, image_removed, opened, step, run, IsTidy, run-unmount,
}
use locketgoldhuydev.Forms.Validation.{IsAcceptable, handle_submit-IsAcceptable}

abbrev same_unit : ℕ → Text
same_unit c = c ∷ []

abbrev filled : Page
filled = record {
  display_name = codes "Ann";
  email = codes "ann@mail.example.org";
  username = codes "ann_01";
  password = codes "long enough";
  confirm_password = codes "long enough";
  agree_terms = true;
  errors = record {
    display_name = none;
    email = none;
    username = none;
    password = none;
    confirm_password = none;
    agree_terms = none;
  };
  notice = none;
  is_submitting = false;
}

pattern_tests :
    (is_email (codes "ann@mail.example.org") ≡ true)
    × (is_email (codes "ann@example") ≡ false)
    × (is_email (codes " ann@example.org") ≡ false)
    × (is_user_name (codes "an") ≡ false)
unfolding is_email split_at_sign all_units has_inner_dot has_dot is_space is_user_name
pattern_tests = (refl, refl, refl, refl)

filled_sends : is_some (handle_submit same_unit filled).1 ≡ true
unfolding handle_submit errors_of is_email split_at_sign all_units has_inner_dot has_dot is_space
    is_user_name trim trim_start trim_end keep_unit text_eq
filled_sends = refl

handle_submit-IsAcceptable_example :
    (is_some (handle_submit same_unit filled).1 ≡ true) ↔ IsAcceptable filled
handle_submit-IsAcceptable_example = handle_submit-IsAcceptable same_unit filled

abbrev empty_form : Form
empty_form = record {
  my_review = none;
  rating = 0;
  content = [];
  existing_images = [];
  selected_files = [];
  preview_urls = [];
  error = none;
  is_submitting = false;
  is_deleting = false;
  live = [];
  next_url = 1;
}

abbrev photo : File
photo = record { name = codes "a.JPG"; type = codes "image/jpeg"; size = 2000000 }

abbrev picture_events : List Event
picture_events =
    opened (some (record { rating = 4; content = codes "good"; images = 11 ∷ 12 ∷ [] }))
    ∷ image_removed 11
    ∷ chosen (photo ∷ photo ∷ photo ∷ [])
    ∷ file_removed 0
    ∷ []

two_pictures : length (run same_unit picture_events empty_form).live ≡ 1
unfolding step handle_file_change is_allowed ends_with lower open_form clear_preview_urls
    remove_selected_file remove_existing_image text_eq
two_pictures = refl

empty_form-IsTidy : IsTidy empty_form
empty_form-IsTidy = record {
  few = omega arith;
  shown = refl;
  kept = refl;
  rising = tt;
  given_out = tt;
}

run-unmount_example :
    IsTidy (run same_unit picture_events empty_form)
    × ((unmount (run same_unit picture_events empty_form)).live ≡ [])
run-unmount_example =
    run-unmount same_unit picture_events empty_form (omega arith, (tt, (tt, (tt, tt))))
      empty_form-IsTidy
