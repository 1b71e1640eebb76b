-- ===== src/Forms/Review.antt =====
-- frontend/src/components/reviews/ReviewFormModal.tsx: the form of a review with its pictures. An object
-- URL is a number that the browser gives out once; `live` are those that are not revoked.
use locketgoldhuydev.Prelude.{
  ℕ, zero, suc, ◌+◌, ◌-◌, Bool, true, false, not, ◌||◌, Option, none, some, List, [], ◌∷◌, ◌++◌,
  Text, codes, trim, text_eq, any, length, filter, get_elem?, ltb, leb, ◌==◌, if◌then◌else◌,
}
use locketgoldhuydev.Utils.Url.{lower}
use locketgoldhuydev.Site.Popup.{ends_with}

pub record File : Type 0 where
  pub name : Text
  pub type : Text
  pub size : ℕ

-- The user's own review, with what the form reads.
pub record UserReview : Type 0 where
  pub rating : ℕ
  pub content : Text
  pub images : List ℕ

pub data Complaint : Type 0 where
  bad_type too_large no_slots no_rating too_long not_sent not_deleted : Complaint
  few_slots : ℕ → Complaint
  refused : Text → Complaint

pub record Form : Type 0 where
  pub my_review : Option UserReview
  pub rating : ℕ
  pub content : Text
  pub existing_images : List ℕ
  pub selected_files : List File
  -- `previewUrls`, which `previewUrlsRef` follows
  pub preview_urls : List ℕ
  pub error : Option Complaint
  pub is_submitting : Bool
  pub is_deleting : Bool
  pub live : List ℕ
  pub next_url : ℕ

abbrev pub max_images : ℕ
max_images = 3

abbrev pub max_size : ℕ
max_size = 8388608

abbrev pub allowed_types : List Text
allowed_types =
    codes "image/jpeg"
    ∷ codes "image/png"
    ∷ codes "image/webp"
    ∷ codes "image/heic"
    ∷ codes "image/heif"
    ∷ []

-- The ends that the pattern for names matches, in any case.
abbrev pub allowed_ends : List Text
allowed_ends =
    codes ".jpg" ∷ codes ".jpeg" ∷ codes ".png" ∷ codes ".webp" ∷ codes ".heic" ∷ codes ".heif" ∷ []

unfoldable pub is_allowed : (lower_other : ℕ → Text) → File → Bool
unfolding ends_with
is_allowed lower_other f =
    any (text_eq (lower lower_other f.type)) allowed_types
    || any (ends_with (lower (λ c. c ∷ []) f.name)) allowed_ends

module _ {ℓ} {A : Type ℓ} where
  -- `slice(0, n)`, and `filter((_, i) => i !== index)`.
  abbrev pub take : ℕ → List A → List A
  take zero xs = []
  take (suc n) [] = []
  take (suc n) (x ∷ xs) = x ∷ take n xs

  abbrev pub remove_at : ℕ → List A → List A
  remove_at i [] = []
  remove_at zero (x ∷ xs) = xs
  remove_at (suc i) (x ∷ xs) = x ∷ remove_at i xs

-- `URL.createObjectURL` for each file.
abbrev pub new_urls : ℕ → List File → List ℕ
new_urls next [] = []
new_urls next (f ∷ files) = next ∷ new_urls (suc next) files

-- `URL.revokeObjectURL`
abbrev pub revoke : ℕ → List ℕ → List ℕ
revoke url live = filter (λ u. not (u == url)) live

abbrev pub revoke_all : List ℕ → List ℕ → List ℕ
revoke_all [] live = live
revoke_all (url ∷ urls) live = revoke_all urls (revoke url live)

unfoldable pub clear_preview_urls : Form → Form
clear_preview_urls f = record f { live = revoke_all f.preview_urls f.live; preview_urls = [] }

abbrev pub available_slots : Form → ℕ
available_slots f = max_images - length f.existing_images - length f.selected_files

abbrev pub add_files : List File → Form → Form
add_files added f = record f {
  selected_files = f.selected_files ++ added;
  preview_urls = f.preview_urls ++ new_urls f.next_url added;
  live = f.live ++ new_urls f.next_url added;
  next_url = f.next_url + length added;
}

unfoldable pub handle_file_change : (lower_other : ℕ → Text) → List File → Form → Form
unfolding is_allowed
handle_file_change lower_other [] f = f
handle_file_change lower_other (file ∷ more) f =
    let files = file ∷ more in
    let slots = available_slots f in
    if any (λ g. not (is_allowed lower_other g)) files
    then record f { error = some bad_type }
    else (if any (λ g. ltb max_size g.size) files
        then record f { error = some too_large }
        else (if leb slots 0
            then record f { error = some no_slots }
            else add_files (take slots files) (record f {
              error = if ltb slots (length files) then some (few_slots slots) else none;
            })))

abbrev pub revoke_at : Option ℕ → List ℕ → List ℕ
revoke_at none live = live
revoke_at (some url) live = revoke url live

unfoldable pub remove_selected_file : ℕ → Form → Form
remove_selected_file index f = record f {
  selected_files = remove_at index f.selected_files;
  live = revoke_at (get_elem? f.preview_urls index) f.live;
  preview_urls = remove_at index f.preview_urls;
}

unfoldable pub remove_existing_image : ℕ → Form → Form
remove_existing_image id f = record f {
  existing_images = filter (λ i. not (i == id)) f.existing_images;
}

-- The effect: the dialog opens, or the user's review changes while it is open.
unfoldable pub open_form : Option UserReview → Form → Form
unfolding clear_preview_urls
open_form review f =
    let cleared = record (clear_preview_urls f) {
      my_review = review;
      selected_files = [];
      error = none;
    } in
    elim review [
      | none ↦ record cleared { rating = 0; content = []; existing_images = [] }
      | some r ↦ record cleared {
        rating = r.rating;
        content = r.content;
        existing_images = r.images;
      }
    ]

-- The effect: the dialog closes.
unfoldable pub close_form : Form → Form
unfolding clear_preview_urls
close_form f = record (clear_preview_urls f) { selected_files = [] }

-- What is sent; the images to keep only with a review that is there already.
pub record Submission : Type 0 where
  pub rating : ℕ
  pub content : Text
  pub files : List File
  pub keep_ids : Option (List ℕ)

abbrev pub keep_ids_of : Form → Option (List ℕ)
keep_ids_of f = elim f.my_review [ none ↦ none | some r ↦ some f.existing_images ]

unfoldable pub handle_submit : Form → Form × Option Submission
handle_submit f =
    if ltb f.rating 1 || ltb 5 f.rating
    then (record f { error = some no_rating }, none)
    else (if ltb 1000 (length (trim f.content))
        then (record f { error = some too_long }, none)
        else (
          record f { error = none; is_submitting = true },
          some (record {
            rating = f.rating;
            content = trim f.content;
            files = f.selected_files;
            keep_ids = keep_ids_of f;
          }),
        ))

-- The call to the hook follows.
unfoldable pub handle_delete : Form → Form
handle_delete f = record f { error = none; is_deleting = true }

-- What the hook answers: success, a refusal with its text, or an exception.
pub data Outcome : Type 0 where
  succeeded thrown : Outcome
  failed : Text → Outcome

-- A success closes the dialog, which runs the effect.
unfoldable pub on_submitted : Outcome → Form → Form
unfolding close_form
on_submitted succeeded f = record (close_form f) { is_submitting = false }
on_submitted (failed m) f = record f { error = some (refused m); is_submitting = false }
on_submitted thrown f = record f { error = some not_sent; is_submitting = false }

unfoldable pub on_deleted : Outcome → Form → Form
unfolding close_form
on_deleted succeeded f = record (close_form f) { is_deleting = false; error = none }
on_deleted (failed m) f = record f { error = some (refused m); is_deleting = false }
on_deleted thrown f = record f { error = some not_deleted; is_deleting = false }

-- The effect's cleanup, when the dialog is taken out of the page.
unfoldable pub unmount : Form → Form
unmount f = record f { live = revoke_all f.preview_urls f.live }
