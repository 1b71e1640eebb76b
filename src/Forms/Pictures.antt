-- ===== src/Forms/Pictures.antt =====
-- The pictures of the form of frontend/src/components/reviews/ReviewFormModal.tsx, over all its events.
use locketgoldhuydev.Prelude.{
  trim, ℕ, ◌+◌, ◌≤◌, ◌<◌, ◌≡◌, refl, ap, ◌∙◌, Bool, true, false, not, ◌||◌, Option, none, some,
  List, [], ◌∷◌, ◌++◌, Text, length, get_elem?, any, ltb, leb, ◌==◌, if◌then◌else◌, if-elim, All,
  All-append, length-append, arith,
}
use locketgoldhuydev.Forms.Review.{
  File, UserReview, Complaint, bad_type, too_large, no_slots, few_slots, Form, Submission, Outcome,
  succeeded, failed, thrown, max_size, is_allowed, no_rating, too_long, not_sent, not_deleted,
  refused, keep_ids_of, unmount, take, new_urls, revoke_all, clear_preview_urls, available_slots,
  add_files, handle_file_change, revoke_at, remove_selected_file, remove_existing_image, open_form,
  close_form, handle_submit, on_submitted, on_deleted, handle_delete,
}
use locketgoldhuydev.Forms.Urls.{
  IsRising, revoke_all-own, All-remove_at, length-remove_at, length-filter, length-take,
  remove_at_same, IsRising-remove_at, All-weaken, revoke_at-remove_at, IsRising-append,
  length-new_urls, new_urls-range,
}

-- What the browser reports to the form, and what the hook answers.
pub data Event : Type 0 where
  chosen : List File → Event
  file_removed image_removed : ℕ → Event
  opened : Option UserReview → Event
  closed submitted delete_confirmed : Event
  answered delete_answered : Outcome → Event

unfoldable pub step : (lower_other : ℕ → Text) → Event → Form → Form
step lower_other (chosen files) f = handle_file_change lower_other files f
step lower_other (file_removed index) f = remove_selected_file index f
step lower_other (image_removed id) f = remove_existing_image id f
step lower_other (opened review) f = open_form review f
step lower_other closed f = close_form f
step lower_other submitted f = (handle_submit f).0
step lower_other delete_confirmed f = handle_delete f
step lower_other (answered o) f = on_submitted o f
step lower_other (delete_answered o) f = on_deleted o f

abbrev pub run : (lower_other : ℕ → Text) → List Event → Form → Form
run lower_other [] f = f
run lower_other (e ∷ events) f = run lower_other events (step lower_other e f)

-- A review of the server has three images at most.
abbrev pub IsServed : Event → Type 0
IsServed (opened (some r)) = length r.images ≤ 3
IsServed e = Unit

-- At most three pictures; one preview for each selected file; the object URLs that are not revoked are those shown.
pub record IsTidy (f : Form) : Type 0 where
  pub few : length f.existing_images + length f.selected_files ≤ 3
  pub shown : length f.preview_urls ≡ length f.selected_files
  pub kept : f.live ≡ f.preview_urls
  pub rising : IsRising f.preview_urls
  pub given_out : All (λ v. v < f.next_url) f.preview_urls

cleared : (f : Form) → IsTidy f → revoke_all f.preview_urls f.live ≡ []
cleared f t = ap (revoke_all f.preview_urls) t.kept ∙ revoke_all-own f.preview_urls t.rising

pub close_form-IsTidy : (f : Form) → IsTidy f → IsTidy (close_form f)
unfolding close_form clear_preview_urls
close_form-IsTidy f t = record {
  few = omega (arith, t.few);
  shown = refl;
  kept = cleared f t;
  rising = tt;
  given_out = tt;
}

pub open_form-IsTidy :
    (review : Option UserReview) (f : Form)
    → IsServed (opened review)
    → IsTidy f
    → IsTidy (open_form review f)
unfolding open_form clear_preview_urls
open_form-IsTidy none f h t = record {
  few = omega arith;
  shown = refl;
  kept = cleared f t;
  rising = tt;
  given_out = tt;
}
open_form-IsTidy (some r) f h t = record {
  few = omega (arith, h);
  shown = refl;
  kept = cleared f t;
  rising = tt;
  given_out = tt;
}

pub remove_selected_file-IsTidy :
    (index : ℕ) (f : Form) → IsTidy f → IsTidy (remove_selected_file index f)
unfolding remove_selected_file
remove_selected_file-IsTidy index f t = record {
  few = omega (arith, t.few, length-remove_at index f.selected_files);
  shown = remove_at_same index f.preview_urls f.selected_files t.shown;
  kept =
      ap (revoke_at (get_elem? f.preview_urls index)) t.kept
      ∙ revoke_at-remove_at index f.preview_urls t.rising;
  rising = IsRising-remove_at index f.preview_urls t.rising;
  given_out = All-remove_at (λ v. v < f.next_url) index f.preview_urls t.given_out;
}

pub remove_existing_image-IsTidy :
    (id : ℕ) (f : Form) → IsTidy f → IsTidy (remove_existing_image id f)
unfolding remove_existing_image
remove_existing_image-IsTidy id f t = record {
  few = omega (arith, t.few, length-filter (λ i. not (i == id)) f.existing_images);
  shown = t.shown;
  kept = t.kept;
  rising = t.rising;
  given_out = t.given_out;
}

-- Only the fields that the pictures do not read change.
pub complaint-IsTidy :
    (f : Form) (e : Option Complaint) (s d : Bool)
    → IsTidy f
    → IsTidy (record f { error = e; is_submitting = s; is_deleting = d })
complaint-IsTidy f e s d t = record {
  few = t.few;
  shown = t.shown;
  kept = t.kept;
  rising = t.rising;
  given_out = t.given_out;
}

pub add_files-IsTidy :
    (added : List File) (f : Form)
    → length added ≤ available_slots f
    → IsTidy f
    → IsTidy (add_files added f)
add_files-IsTidy added f l t =
    let (r, a, b) = new_urls-range f.next_url added in
    record {
      few = omega (arith, l, t.few, length-append f.selected_files added);
      shown = omega (
        arith,
        t.shown,
        length-append f.selected_files added,
        length-append f.preview_urls (new_urls f.next_url added),
        length-new_urls f.next_url added,
      );
      kept = ap (λ us. us ++ new_urls f.next_url added) t.kept;
      rising =
          IsRising-append f.preview_urls (new_urls f.next_url added) f.next_url t.rising t.given_out
            r a;
      given_out =
          All-append (λ v. v < f.next_url + length added) f.preview_urls (new_urls f.next_url added)
            (All-weaken (λ v. v < f.next_url) (λ v. v < f.next_url + length added)
              (λ v h. omega (arith, h)) f.preview_urls t.given_out)
            b;
    }

pub handle_file_change-IsTidy :
    (lower_other : ℕ → Text) (files : List File) (f : Form)
    → IsTidy f
    → IsTidy (handle_file_change lower_other files f)
unfolding handle_file_change
handle_file_change-IsTidy lower_other [] f t = t
handle_file_change-IsTidy lower_other (file ∷ more) f t =
    let files = file ∷ more in
    let slots = available_slots f in
    let told = λ (e : Option Complaint). complaint-IsTidy f e f.is_submitting f.is_deleting t in
    let added =
      add_files (take slots files)
        (record f { error = if ltb slots (length files) then some (few_slots slots) else none }) in
    if-elim IsTidy (any (λ g. not (is_allowed lower_other g)) files)
      (record f { error = some bad_type })
      (if any (λ g. ltb max_size g.size) files
        then record f { error = some too_large }
        else (if leb slots 0 then record f { error = some no_slots } else added))
      (λ h. told (some bad_type))
      (λ h.
        if-elim IsTidy (any (λ g. ltb max_size g.size) files) (record f { error = some too_large })
          (if leb slots 0 then record f { error = some no_slots } else added)
          (λ k. told (some too_large))
          (λ k.
            if-elim IsTidy (leb slots 0) (record f { error = some no_slots }) added
              (λ l. told (some no_slots))
              (λ l.
                add_files-IsTidy (take slots files)
                  (record f {
                    error = if ltb slots (length files) then some (few_slots slots) else none;
                  })
                  (length-take slots files)
                  (told (if ltb slots (length files) then some (few_slots slots) else none)))))

pub handle_submit-IsTidy : (f : Form) → IsTidy f → IsTidy (handle_submit f).0
unfolding handle_submit
handle_submit-IsTidy f t =
    let P = λ (r : Form × Option Submission). IsTidy r.0 in
    let told = λ (e : Option Complaint) (s : Bool). complaint-IsTidy f e s f.is_deleting t in
    let sent : Form × Option Submission = (
      record f { error = none; is_submitting = true },
      some (record {
        rating = f.rating;
        content = trim f.content;
        files = f.selected_files;
        keep_ids = keep_ids_of f;
      }),
    ) in
    if-elim P (ltb f.rating 1 || ltb 5 f.rating) (record f { error = some no_rating }, none)
      (if ltb 1000 (length (trim f.content))
        then (record f { error = some too_long }, none)
        else sent)
      (λ h. told (some no_rating) f.is_submitting)
      (λ h.
        if-elim P (ltb 1000 (length (trim f.content))) (record f { error = some too_long }, none)
          sent (λ k. told (some too_long) f.is_submitting) (λ k. told none true))

pub on_submitted-IsTidy : (o : Outcome) (f : Form) → IsTidy f → IsTidy (on_submitted o f)
unfolding on_submitted
on_submitted-IsTidy succeeded f t =
    complaint-IsTidy (close_form f) (close_form f).error false (close_form f).is_deleting
      (close_form-IsTidy f t)
on_submitted-IsTidy (failed m) f t = complaint-IsTidy f (some (refused m)) false f.is_deleting t
on_submitted-IsTidy thrown f t = complaint-IsTidy f (some not_sent) false f.is_deleting t

pub handle_delete-IsTidy : (f : Form) → IsTidy f → IsTidy (handle_delete f)
unfolding handle_delete
handle_delete-IsTidy f t = complaint-IsTidy f none f.is_submitting true t

pub on_deleted-IsTidy : (o : Outcome) (f : Form) → IsTidy f → IsTidy (on_deleted o f)
unfolding on_deleted
on_deleted-IsTidy succeeded f t =
    complaint-IsTidy (close_form f) none (close_form f).is_submitting false (close_form-IsTidy f t)
on_deleted-IsTidy (failed m) f t = complaint-IsTidy f (some (refused m)) f.is_submitting false t
on_deleted-IsTidy thrown f t = complaint-IsTidy f (some not_deleted) f.is_submitting false t

pub step-IsTidy :
    (lower_other : ℕ → Text) (e : Event) (f : Form)
    → IsServed e
    → IsTidy f
    → IsTidy (step lower_other e f)
unfolding step
step-IsTidy lower_other (chosen files) f h t = handle_file_change-IsTidy lower_other files f t
step-IsTidy lower_other (file_removed index) f h t = remove_selected_file-IsTidy index f t
step-IsTidy lower_other (image_removed id) f h t = remove_existing_image-IsTidy id f t
step-IsTidy lower_other (opened review) f h t = open_form-IsTidy review f h t
step-IsTidy lower_other closed f h t = close_form-IsTidy f t
step-IsTidy lower_other submitted f h t = handle_submit-IsTidy f t
step-IsTidy lower_other delete_confirmed f h t = handle_delete-IsTidy f t
step-IsTidy lower_other (answered o) f h t = on_submitted-IsTidy o f t
step-IsTidy lower_other (delete_answered o) f h t = on_deleted-IsTidy o f t

run-IsTidy :
    (lower_other : ℕ → Text) (events : List Event) (f : Form)
    → All IsServed events
    → IsTidy f
    → IsTidy (run lower_other events f)
run-IsTidy lower_other [] f h t = t
run-IsTidy lower_other (e ∷ events) f h t =
    run-IsTidy lower_other events (step lower_other e f) h.1 (step-IsTidy lower_other e f h.0 t)

-- The form starts with at most three pictures, one preview for each file that is selected, and
-- with the object URLs that are not revoked being those of its previews, given out in order.
-- Then so it is after any list of its events in which each review of the server has three images
-- at most, and when the dialog is taken out of the page after them, no object URL is left.
pub run-unmount :
    (lower_other : ℕ → Text) (events : List Event) (f : Form)
    → All IsServed events
    → IsTidy f
    → IsTidy (run lower_other events f) × ((unmount (run lower_other events f)).live ≡ [])
unfolding unmount
run-unmount lower_other events f h t =
    let after = run-IsTidy lower_other events f h t in
    (after, cleared (run lower_other events f) after)
