-- ===== src/Admin/CouponTable.antt =====
-- The table of frontend/src/pages/admin/AdminCoupons.tsx: its filters and pages, and the switch, the statistics
-- and the deletion of a coupon, cut where they wait. An exception is its message.
use locketgoldhuydev.Prelude.{
  ℕ, ◌+◌, ◌-◌, ◌≡◌, refl, min, max, Bool, true, false, not, Option, none, some, List, [], ◌∷◌, map,
  Text, trim, String, str_eq, or_else, or_ℕ, leb, ltb, ◌==◌, if◌then◌else◌,
}
use locketgoldhuydev.Admin.Coupons.{Coupon}

pub data Problem : Type 0 where
  not_loaded not_toggled no_stats not_deleted : Problem
  told : Text → Problem

pub data Notice : Type 0 where
  switched_on switched_off deleted : (code : Text) → Notice

-- The statistics, with the coupon that they are about.
pub record Stats : Type 0 where
  pub coupon : ℕ
  pub redeemed_count : ℕ
  pub total_discount_vnd : ℕ

pub record Table : Type 0 where
  pub coupons : List Coupon
  pub is_loading : Bool
  pub error : Option Problem
  pub notice : Option Notice
  pub search_query : Text
  pub status_filter : String
  pub current_page : ℕ
  pub total_pages : ℕ
  pub total_coupons : ℕ
  pub stats_modal_coupon : Option Coupon
  pub coupon_stats : Option Stats
  pub is_loading_stats : Bool
  pub delete_target : Option Coupon
  pub is_deleting : Bool

-- `err.message || fallback`
abbrev pub or_problem : Text → Problem → Problem
or_problem [] e = e
or_problem (c ∷ s) e = told (c ∷ s)

-- `text || undefined`
abbrev pub or_undefined : Text → Option Text
or_undefined [] = none
or_undefined (c ∷ s) = some (c ∷ s)

pub record Query : Type 0 where
  pub search : Option Text
  pub status : Option String
  pub page : ℕ
  pub limit : ℕ

unfoldable pub load_coupons : (render t : Table) → Table × Query
load_coupons render t = (
  record t { is_loading = true; error = none },
  record {
    search = or_undefined (trim render.search_query);
    status = if str_eq render.status_filter "all" then none else some render.status_filter;
    page = render.current_page;
    limit = 10;
  },
)

-- The numbers of the answer, of which the first that is there and not 0 counts.
pub record Listing : Type 0 where
  pub success : Bool
  pub items : Option (List Coupon)
  pub coupons : Option (List Coupon)
  pub pagination_pages : Option ℕ
  pub pages : Option ℕ
  pub pagination_total : Option ℕ
  pub total : Option ℕ

abbrev pub next_pages : Listing → ℕ
next_pages res = max 1 (or_ℕ res.pagination_pages (or_ℕ res.pages 1))

abbrev pub listed : (render : Table) → Listing → Table → Table
listed render res t = record t {
  coupons = or_else res.items (or_else res.coupons []);
  total_pages = next_pages res;
  current_page =
      if ltb (next_pages res) render.current_page then next_pages res else t.current_page;
  total_coupons = or_ℕ res.pagination_total (or_ℕ res.total 0);
  is_loading = false;
}

-- What a call of the server gives: a value, or an exception.
pub data Reply {ℓ} (A : Type ℓ) : Type ℓ where
  replied : A → Reply A
  rejected : Text → Reply A

unfoldable pub on_coupons : (render : Table) → Reply Listing → Table → Table
on_coupons render (replied res) t =
    if res.success then listed render res t else record t { is_loading = false }
on_coupons render (rejected m) t = record t {
  error = some (or_problem m not_loaded);
  is_loading = false;
}

unfoldable pub set_status_filter : String → Table → Table
set_status_filter s t = record t { status_filter = s; current_page = 1 }

unfoldable pub set_search_query : Text → Table → Table
set_search_query s t = record t { search_query = s; current_page = 1 }

unfoldable pub previous_page : Table → Table
previous_page t =
    if leb t.current_page 1 then t else record t { current_page = max 1 (t.current_page - 1) }

unfoldable pub next_page : Table → Table
next_page t =
    if leb t.total_pages t.current_page
    then t
    else record t { current_page = min t.total_pages (t.current_page + 1) }

abbrev pub switch : (id : ℕ) → Bool → Coupon → Coupon
switch id status c = if c.id == id then record c { is_active = status } else c

-- `handleToggleActive` asks for the other state; its answer, `none` for a success.
abbrev pub new_status : Coupon → Bool
new_status coupon = not coupon.is_active

unfoldable pub on_toggled : Coupon → Option Text → Table → Table
on_toggled coupon none t = record t {
  coupons = map (switch coupon.id (new_status coupon)) t.coupons;
  notice = some (if new_status coupon then switched_on coupon.code else switched_off coupon.code);
}
on_toggled coupon (some m) t = record t { error = some (or_problem m not_toggled) }

-- The timers.
unfoldable pub clear_notice : Table → Table
clear_notice t = record t { notice = none }

unfoldable pub handle_open_stats : Coupon → Table → Table
handle_open_stats coupon t = record t {
  stats_modal_coupon = some coupon;
  coupon_stats = none;
  is_loading_stats = true;
}

-- The rest of it, with the statistics if the answer has them.
abbrev pub with_stats : Option Stats → Table → Table
with_stats none t = t
with_stats (some s) t = record t { coupon_stats = some s }

unfoldable pub on_stats : Reply (Option Stats) → Table → Table
on_stats (replied stats) t = record (with_stats stats t) { is_loading_stats = false }
on_stats (rejected m) t = record t {
  error = some (or_problem m no_stats);
  is_loading_stats = false;
}

abbrev pub delete : Option Coupon → Table → Table × Option ℕ
delete none t = (t, none)
delete (some c) t = (record t { is_deleting = true }, some c.id)

unfoldable pub handle_confirm_delete : Table → Table × Option ℕ
handle_confirm_delete t = delete t.delete_target t

-- The rest of it for the coupon of the closure.
unfoldable pub on_deleted : Coupon → Option Text → Table → Table
on_deleted c none t = record t {
  delete_target = none;
  notice = some (deleted c.code);
  is_deleting = false;
}
on_deleted c (some m) t = record t { error = some (or_problem m not_deleted); is_deleting = false }

-- Where the statistics of a second coupon are opened while those of a first one are under way, and the
-- answers come in the order of the calls reversed, the first coupon's are shown under the second.
pub on_stats_late :
    (a b : Coupon) (s r : Stats) (t : Table)
    → let end =
        on_stats
          (replied (some s))
          (on_stats (replied (some r)) (handle_open_stats b (handle_open_stats a t))) in
      (end.stats_modal_coupon ≡ some b) × (end.coupon_stats ≡ some s)
unfolding on_stats handle_open_stats
on_stats_late a b s r t = (refl, refl)
