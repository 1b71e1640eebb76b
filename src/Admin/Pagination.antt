-- ===== src/Admin/Pagination.antt =====
-- frontend/src/components/admin/AdminPagination.tsx: the range of rows on a page of a table, and the two
-- buttons. A page number below 1, which counts as 1, is 0 here.
use native.Mathlib.Nat.{mul-le-mul_right}
use locketgoldhuydev.Prelude.{
  ℕ, zero, suc, ◌+◌, ◌-◌, ◌*◌, ◌≤◌, ◌<◌, min, max, ◌≡◌, refl, ◌∙◌, Bool, true, false, Option, none,
  some, List, [], ◌∷◌, arith, length, drop, length-drop, leb, ◌==◌, if-elim, if◌then◌else◌,
}

abbrev pub admin_page_size : ℕ
admin_page_size = 10

abbrev pub safe_pages : ℕ → ℕ
safe_pages pages = max 1 pages

unfoldable pub safe_page : (page pages : ℕ) → ℕ
safe_page page pages = min (max 1 page) (safe_pages pages)

unfoldable pub from_row : (page pages total page_size : ℕ) → ℕ
unfolding safe_page
from_row page pages total page_size =
    if total == 0 then 0 else (safe_page page pages - 1) * page_size + 1

unfoldable pub to_row : (page pages total page_size : ℕ) → ℕ
unfolding safe_page
to_row page pages total page_size = min total (safe_page page pages * page_size)

-- The buttons: the page they ask for, unless they are disabled.
unfoldable pub previous_page : (page pages : ℕ) → Option ℕ
unfolding safe_page
previous_page page pages =
    if leb (safe_page page pages) 1 then none else some (safe_page page pages - 1)

unfoldable pub next_page : (page pages : ℕ) → Option ℕ
unfolding safe_page
next_page page pages =
    if leb (safe_pages pages) (safe_page page pages) then none else some (safe_page page pages + 1)

module _ {ℓ} {A : Type ℓ} where
  -- The first rows.
  abbrev pub take : ℕ → List A → List A
  take zero xs = []
  take (suc n) [] = []
  take (suc n) (x ∷ xs) = x ∷ take n xs

  length-take : (n : ℕ) (xs : List A) → length (take n xs) ≡ min n (length xs)
  length-take zero xs = omega arith
  length-take (suc n) [] = omega arith
  length-take (suc n) (x ∷ xs) = omega (arith, length-take n xs)

  -- The rows of a page: all rows cut into pages of the same size.
  abbrev pub rows_of : (page page_size : ℕ) → List A → List A
  rows_of page page_size rows = take page_size (drop ((page - 1) * page_size) rows)

  -- The range that is shown is that of the rows of the page: for a table that is cut into pages, of at
  -- least one row each, and a page of it, as many rows are counted from the first to the last as the
  -- page has, and the first one stands right after those of the earlier pages.
  pub rows_of-range :
      (rows : List A) (page pages page_size : ℕ)
      → 1 ≤ page
      → page ≤ pages
      → 1 ≤ page_size
      → length rows ≤ pages * page_size
      → (pages - 1) * page_size < length rows
      → let total = length rows in
        (length (rows_of page page_size rows) + from_row page pages total page_size
          ≡ to_row page pages total page_size + 1)
        × (from_row page pages total page_size ≡ (page - 1) * page_size + 1)
        × (from_row page pages total page_size ≤ to_row page pages total page_size)
  unfolding from_row to_row safe_page
  rows_of-range rows zero pages page_size one last filled enough needed = absurd (omega arith)
  rows_of-range rows (suc p) pages page_size one last filled enough needed =
      let before : p * page_size ≤ (pages - 1) * page_size =
        mul-le-mul_right page_size (omega arith) in
      let same : min (max 1 (suc p)) (max 1 pages) ≡ suc p = omega arith in
      let pred : suc p - 1 ≡ p = omega arith in
      let cut = length-take page_size (drop (p * page_size) rows) in
      let rest = length-drop (p * page_size) rows in
      let some_rows : (length rows == 0) ≡ false = ground arith in
      rw (same, pred, some_rows, cut, rest) (omega arith, refl, omega arith)

-- The table is at one of its pages, and one of the buttons is pressed if it can be.
abbrev pub pressed : Option ℕ → ℕ → ℕ
pressed none page = page
pressed (some p) page = p

abbrev pub press : (forward : Bool) → (pages page : ℕ) → ℕ
press true pages page = pressed (next_page page pages) page
press false pages page = pressed (previous_page page pages) page

abbrev pub IsPage : (pages page : ℕ) → Type 0
IsPage pages page = (1 ≤ page) × (page ≤ pages)

safe_page-same : (pages page : ℕ) → IsPage pages page → safe_page page pages ≡ page
unfolding safe_page
safe_page-same pages page h = let one = h.0 in let last = h.1 in omega arith

press-forward : (pages page : ℕ) → IsPage pages page → press true pages page ≡ min (page + 1) pages
unfolding next_page
press-forward pages page h =
    let one = h.0 in
    let last = h.1 in
    rw (safe_page-same pages page h) (
      if-elim (λ o. pressed o page ≡ min (page + 1) pages) (leb (safe_pages pages) page) none _
        (λ end. ground arith) (λ more. ground arith))

press-backward : (pages page : ℕ) → IsPage pages page → press false pages page ≡ max (page - 1) 1
unfolding previous_page
press-backward pages page h =
    let one = h.0 in
    let last = h.1 in
    rw (safe_page-same pages page h) (
      if-elim (λ o. pressed o page ≡ max (page - 1) 1) (leb page 1) none _ (λ start. ground arith)
        (λ later. ground arith))

-- The buttons never leave the pages, neither at the ends nor elsewhere, and between the ends they
-- undo each other: forward and back leads to the same page.
pub press-IsPage :
    (pages page : ℕ)
    → IsPage pages page
    → ((forward : Bool) → IsPage pages (press forward pages page))
      × (page < pages → press false pages (press true pages page) ≡ page)
press-IsPage pages page h =
    let one = h.0 in
    let last = h.1 in
    (
      λ forward. elim forward as (λ f. IsPage pages (press f pages page)) [
        | true ↦ rw (press-forward pages page h) (omega arith, omega arith)
        | false ↦ rw (press-backward pages page h) (omega arith, omega arith)
      ],
      λ more.
          let next : press true pages page ≡ suc page = press-forward pages page h ∙ omega arith in
          rw next (press-backward pages (suc page) (omega arith, omega arith) ∙ omega arith),
    )
