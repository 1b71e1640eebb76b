-- ===== src/Hooks/Reviews.antt =====
-- frontend/src/hooks/useReviews.ts: the public reviews and the user's own one. Calls are cut where they
-- wait. Reviews and images are opaque; an average is in the server's unit.
use locketgoldhuydev.Prelude.{
  ℕ, ◌≡◌, refl, Bool, true, false, Option, none, some, List, [], ◌∷◌, ◌++◌, map, Text, trim,
  or_else, if◌then◌else◌,
}
use locketgoldhuydev.Utils.Format.{decimal}
use locketgoldhuydev.Wizard.Lookup.{Reply, replied, null_reply, rejected, or_message}
use locketgoldhuydev.Wizard.Types.{Alert}

pub record ReviewStats : Type 0 where
  pub total : ℕ
  pub average_rating : ℕ
  pub distribution : List ℕ

abbrev pub default_stats : ReviewStats
default_stats = record { total = 0; average_rating = 0; distribution = 0 ∷ 0 ∷ 0 ∷ 0 ∷ 0 ∷ [] }

module _ (Review Mine Image : Type 0) where
  pub record PublicResponse : Type 0 where
    pub success : Bool
    pub reviews : Option (List Review)
    pub stats : Option ReviewStats

  pub record MineResponse : Type 0 where
    pub success : Bool
    pub eligible : Bool
    pub has_review : Bool
    pub review : Option Mine

  -- The states of the hook, and whether there is a session.
  pub record Reviews : Type 0 where
    pub is_authenticated : Bool
    pub reviews : List Review
    pub stats : ReviewStats
    pub loading : Bool
    pub error : Option Alert
    pub my_review : Option Mine
    pub is_eligible : Bool
    pub has_review : Bool
    pub my_review_loading : Bool

  -- `refreshPublicReviews` up to its call, and from the answer on.
  unfoldable pub refresh_public_reviews : (silent : Bool) → Reviews → Reviews
  refresh_public_reviews silent h = record h {
    loading = if silent then h.loading else true;
    error = none;
  }

  unfoldable pub on_public_reviews : (silent : Bool) → Reply PublicResponse → Reviews → Reviews
  on_public_reviews silent a h =
      let settled = record h { loading = if silent then h.loading else false } in
      elim a [
        | replied res ↦
            if res.success
            then record settled {
              reviews = or_else res.reviews [];
              stats = or_else res.stats default_stats;
            }
            else settled
        | null_reply ↦ settled
        | rejected m ↦
            if silent
            then settled
            else record settled { error = some (or_message m "Không thể tải danh sách đánh giá.") }
      ]

  -- `refreshMyReview` up to its call; without a session there is none.
  unfoldable pub refresh_my_review : Reviews → Reviews × Bool
  refresh_my_review h =
      if h.is_authenticated
      then (record h { my_review_loading = true }, true)
      else (record h { my_review = none; is_eligible = false; has_review = false }, false)

  unfoldable pub on_my_review : Reply MineResponse → Reviews → Reviews
  on_my_review (replied res) h =
      if res.success
      then record h {
        is_eligible = res.eligible;
        has_review = res.has_review;
        my_review = res.review;
        my_review_loading = false;
      }
      else record h { my_review_loading = false }
  on_my_review null_reply h = record h { my_review_loading = false }
  on_my_review (rejected m) h = record h { my_review_loading = false }

  -- The session begins or ends, and the effect on it runs.
  unfoldable pub set_authenticated : Bool → Reviews → Reviews × Bool
  unfolding refresh_my_review
  set_authenticated b h = refresh_my_review (record h { is_authenticated = b })

  -- The fields of the form that `submitReview` and `updateReview` send.
  pub data Field : Type 0 where
    rating content : Text → Field
    image : Image → Field
    keep_image_id : Text → Field

  unfoldable pub submit_review : (stars : ℕ) → (text : Text) → List Image → List Field
  submit_review stars text images = rating (decimal stars) ∷ content (trim text) ∷ map image images

  unfoldable pub update_review :
      (stars : ℕ) → (text : Text) → List Image → Option (List ℕ) → List Field
  unfolding submit_review
  update_review stars text images keep_image_ids =
      submit_review stars text images
      ++ map (λ id. keep_image_id (decimal id)) (or_else keep_image_ids [])

  -- An answer about the user's own review that was asked for before the session ended is still taken:
  -- although the end of the session clears what is shown, the review of the user who has left comes back.
  pub on_my_review_late :
      (h : Reviews) (res : MineResponse) (mine : Mine)
      → res.success ≡ true
      → res.review ≡ some mine
      → let signed_out = (set_authenticated false (refresh_my_review h).0).0 in
        (signed_out.my_review ≡ none)
        × ((on_my_review (replied res) signed_out).is_authenticated ≡ false)
        × ((on_my_review (replied res) signed_out).my_review ≡ some mine)
  unfolding set_authenticated refresh_my_review on_my_review
  on_my_review_late h res mine success e = rw (success, e) (refl, refl, refl)
