-- ===== src/Admin/Users.antt =====
-- frontend/src/pages/admin/AdminUsers.tsx: the list of the users, and the dialogs that change a user's state,
-- role and wallet, cut where they wait. The time in milliseconds, which is part of a key, is an argument.
use locketgoldhuydev.Prelude.{
  ℕ, ◌+◌, ◌-◌, ◌≡◌, refl, min, max, Bool, true, false, not, ◌||◌, Option, none, some, List, [], ◌∷◌,
  ◌++◌, Text, codes, trim, String, leb, ltb, ◌==◌, if◌then◌else◌,
}
use locketgoldhuydev.Utils.Format.{decimal}

-- A change of a wallet: `pos n` is n, `negsuc n` is -n - 1.
pub data ℤ : Type 0 where
  pos negsuc : ℕ → ℤ

pub data Role : Type 0 where
  user admin : Role

pub record AdminUser : Type 0 where
  pub id : ℕ
  pub role : Role
  pub is_active : Bool

pub data Problem : Type 0 where
  no_delta no_reason not_loaded no_detail not_updated not_adjusted no_role : Problem
  told : Text → Problem

pub record Page : Type 0 where
  pub users : List AdminUser
  pub total : ℕ
  pub page : ℕ
  pub pages : ℕ
  pub search_query : Text
  pub role_filter : String
  pub status_filter : String
  pub is_loading : Bool
  pub error : Option Problem
  -- the detail that is shown, by the id of its user
  pub selected_user_detail : Option ℕ
  pub status_modal_user : Option AdminUser
  pub status_reason : Text
  pub is_updating_status : Bool
  pub wallet_modal_user : Option AdminUser
  pub wallet_delta : ℤ
  pub wallet_reason : Text
  pub is_adjusting_wallet : Bool
  pub wallet_error : Option Problem
  pub role_modal_user : Option AdminUser
  pub target_role : Role
  pub is_updating_role : Bool

-- `err.message || fallback`; an exception is its message.
abbrev pub or_problem : Text → Problem → Problem
or_problem [] e = e
or_problem (c ∷ s) e = told (c ∷ s)

abbrev pub limit : ℕ
limit = 10

pub record Query : Type 0 where
  pub q : Text
  pub role : String
  pub status : String
  pub page : ℕ
  pub limit : ℕ

-- `loadUsers` of a render, up to the request.
unfoldable pub load_users : (render p : Page) → Page × Query
load_users render p = (
  record p { is_loading = true; error = none },
  record {
    q = render.search_query;
    role = render.role_filter;
    status = render.status_filter;
    page = render.page;
    limit = limit;
  },
)

pub record Listing : Type 0 where
  pub success : Bool
  pub items : List AdminUser
  pub total : ℕ
  pub pages : ℕ

pub data Reply {ℓ} (A : Type ℓ) : Type ℓ where
  replied : A → Reply A
  rejected : Text → Reply A

abbrev pub listed : (render : Page) → Listing → Page → Page
listed render res p = record p {
  users = res.items;
  total = res.total;
  pages = max 1 res.pages;
  page = if ltb (max 1 res.pages) render.page then max 1 res.pages else p.page;
  is_loading = false;
}

-- The rest of it; the closure has the page number of its render.
unfoldable pub on_users : (render : Page) → Reply Listing → Page → Page
on_users render (replied res) p =
    if res.success then listed render res p else record p { is_loading = false }
on_users render (rejected m) p = record p {
  error = some (or_problem m not_loaded);
  is_loading = false;
}

-- `setPage(1)` and `loadUsers()`, which is that of the render.
unfoldable pub handle_search_submit : Page → Page × Query
unfolding load_users
handle_search_submit p = load_users p (record p { page = 1 })

unfoldable pub set_role_filter : String → Page → Page
set_role_filter s p = record p { role_filter = s; page = 1 }

unfoldable pub set_status_filter : String → Page → Page
set_status_filter s p = record p { status_filter = s; page = 1 }

unfoldable pub previous_page : Page → Page
previous_page p = if leb p.page 1 || p.is_loading then p else record p { page = max (p.page - 1) 1 }

unfoldable pub next_page : Page → Page
next_page p =
    if leb p.pages p.page || p.is_loading then p else record p { page = min (p.page + 1) p.pages }

-- `handleOpenDetail` with its answer: whether it succeeded.
unfoldable pub on_detail : (user_id : ℕ) → Reply Bool → Page → Page
on_detail user_id (replied success) p =
    if success then record p { selected_user_detail = some user_id } else p
on_detail user_id (rejected m) p = record p { error = some (or_problem m no_detail) }

-- The buttons in the row of a user.
unfoldable pub open_role : AdminUser → Page → Page
open_role u p = record p {
  role_modal_user = some u;
  target_role = elim u.role [ admin ↦ user | user ↦ admin ];
}

unfoldable pub open_status : AdminUser → Page → Page
open_status u p = record p { status_modal_user = some u; status_reason = [] }

unfoldable pub open_wallet : AdminUser → Page → Page
open_wallet u p = record p {
  wallet_modal_user = some u;
  wallet_delta = pos 0;
  wallet_reason = [];
  wallet_error = none;
}

-- What the dialogs send.
pub data Request : Type 0 where
  update_status : (id : ℕ) → (is_active : Bool) → (reason : Text) → Request
  adjust_wallet : (id : ℕ) → (delta : ℤ) → (reason key : Text) → Request
  update_role : (id : ℕ) → (role : Role) → (reason : Text) → Request

abbrev pub confirm_status : Option AdminUser → Page → Page × Option Request
confirm_status none p = (p, none)
confirm_status (some u) p = (
  record p { is_updating_status = true },
  some (update_status u.id (not u.is_active) p.status_reason),
)

unfoldable pub handle_confirm_status_change : Page → Page × Option Request
handle_confirm_status_change p = confirm_status p.status_modal_user p

-- After a success the users are loaded.
unfoldable pub on_status_changed : Option Text → Page → Page
on_status_changed none p = record p {
  status_modal_user = none;
  status_reason = [];
  is_updating_status = false;
}
on_status_changed (some m) p = record p {
  error = some (or_problem m not_updated);
  is_updating_status = false;
}

abbrev pub is_zero : ℤ → Bool
is_zero (pos n) = n == 0
is_zero (negsuc n) = false

abbrev pub is_empty : Text → Bool
is_empty [] = true
is_empty (c ∷ s) = false

abbrev pub adjust_key : ℕ → (now : ℕ) → Text
adjust_key id now = codes "adj_" ++ (decimal id ++ (codes "_" ++ decimal now))

abbrev pub confirm_adjust : (now : ℕ) → Option AdminUser → Page → Page × Option Request
confirm_adjust now none p = (p, none)
confirm_adjust now (some u) p =
    if is_zero p.wallet_delta
    then (record p { wallet_error = some no_delta }, none)
    else (if is_empty (trim p.wallet_reason)
        then (record p { wallet_error = some no_reason }, none)
        else (
          record p { is_adjusting_wallet = true; wallet_error = none },
          some (adjust_wallet u.id p.wallet_delta p.wallet_reason (adjust_key u.id now)),
        ))

unfoldable pub handle_confirm_wallet_adjust : (now : ℕ) → Page → Page × Option Request
handle_confirm_wallet_adjust now p = confirm_adjust now p.wallet_modal_user p

unfoldable pub on_adjusted : Option Text → Page → Page
on_adjusted none p = record p {
  wallet_modal_user = none;
  wallet_delta = pos 0;
  wallet_reason = [];
  is_adjusting_wallet = false;
}
on_adjusted (some m) p = record p {
  wallet_error = some (or_problem m not_adjusted);
  is_adjusting_wallet = false;
}

abbrev pub confirm_role : Option AdminUser → Page → Page × Option Request
confirm_role none p = (p, none)
confirm_role (some u) p = (
  record p { is_updating_role = true },
  some (update_role u.id p.target_role (codes "Admin UI update")),
)

unfoldable pub handle_confirm_role_change : Page → Page × Option Request
handle_confirm_role_change p = confirm_role p.role_modal_user p

unfoldable pub on_role_changed : Option Text → Page → Page
on_role_changed none p = record p { role_modal_user = none; is_updating_role = false }
on_role_changed (some m) p = record p {
  error = some (or_problem m no_role);
  is_updating_role = false;
}

-- Where the answer to a change of a wallet fails and the dialog is confirmed again, the same change of the
-- same wallet is sent, with a key that holds the later time in place of the first.
pub adjust_again :
    (m : Text) (first second : ℕ) (u : AdminUser) (p : Page)
    → p.wallet_modal_user ≡ some u
    → is_zero p.wallet_delta ≡ false
    → is_empty (trim p.wallet_reason) ≡ false
    → let sent = handle_confirm_wallet_adjust first p in
      (sent.1 ≡ some (adjust_wallet u.id p.wallet_delta p.wallet_reason (adjust_key u.id first)))
      × ((handle_confirm_wallet_adjust second (on_adjusted (some m) sent.0)).1
          ≡ some (adjust_wallet u.id p.wallet_delta p.wallet_reason (adjust_key u.id second)))
unfolding handle_confirm_wallet_adjust on_adjusted
adjust_again m first second u p shown delta reason =
    (rw (shown, delta, reason) refl, rw (shown, delta, reason) (rw (delta, reason) refl))
