-- ===== src/Admin/Listing.antt =====
-- The rest of frontend/src/pages/admin/AdminOrders.tsx: the list with its filters and pages, the state of the
-- provider, and the two actions on the provider's job.
use locketgoldhuydev.Prelude.{
  ℕ, ◌+◌, ◌-◌, ◌≤◌, ◌≡◌, min, max, Bool, true, false, ◌||◌, Option, none, some, List, [], ◌∷◌, Text,
  trim, length, String, or_null, or_else, leb, ltb, arith, if-elim, if◌then◌else◌,
}
use locketgoldhuydev.Admin.Orders.{
  Order, Page, Problem, short_note, not_retried, not_reconciled, told,
}

abbrev pub limit : ℕ
limit = 10

-- What `fetchAdminOrders` is asked for.
pub record Query : Type 0 where
  pub q : Text
  pub status : String
  pub platform : String
  pub fulfillment_mode : String
  pub page : ℕ
  pub limit : ℕ

pub record Listing : Type 0 where
  pub success : Bool
  pub items : List Order
  pub total : ℕ
  pub pages : ℕ
  pub manual_pending_count : Option ℕ

pub data ListReply : Type 0 where
  replied : Listing → ListReply
  rejected : Option Text → ListReply

abbrev pub query_of : Page → Query
query_of p = record {
  q = p.search_query;
  status = p.status_filter;
  platform = p.platform_filter;
  fulfillment_mode = p.fulfillment_filter;
  page = p.page;
  limit = limit;
}

-- `loadOrders` of a render, up to the request.
unfoldable pub load_orders : (silent : Bool) → (render p : Page) → Page × Query
load_orders silent render p =
    (if silent then p else record p { is_loading = true; error = none }, query_of render)

abbrev pub listed : (render : Page) → Listing → Page → Page
listed render res p = record p {
  orders = res.items;
  total = res.total;
  pages = max 1 res.pages;
  page = if ltb (max 1 res.pages) render.page then max 1 res.pages else p.page;
  manual_pending_count = or_else res.manual_pending_count p.manual_pending_count;
}

abbrev pub on_reply : (silent : Bool) → (render : Page) → ListReply → Page → Page
on_reply silent render (replied res) p = if res.success then listed render res p else p
on_reply silent render (rejected m) p = if silent then p else record p { error = some m }

-- The rest of it; the closure has the page number of its render.
unfoldable pub on_orders : (silent : Bool) → (render : Page) → ListReply → Page → Page
on_orders silent render reply p =
    let q = on_reply silent render reply p in if silent then q else record q { is_loading = false }

-- `setPage(1)` and `loadOrders()`, which is that of the render.
unfoldable pub handle_search_submit : Page → Page × Query
unfolding load_orders
handle_search_submit p = load_orders false p (record p { page = 1 })

unfoldable pub handle_quick_filter_manual_pending : Page → Page
handle_quick_filter_manual_pending p = record p {
  fulfillment_filter = "manual_contact";
  status_filter = "paid";
  page = 1;
}

unfoldable pub set_status_filter : String → Page → Page
set_status_filter s p = record p { status_filter = s; page = 1 }

unfoldable pub set_fulfillment_filter : String → Page → Page
set_fulfillment_filter s p = record p { fulfillment_filter = s; page = 1 }

unfoldable pub set_platform_filter : String → Page → Page
set_platform_filter s p = record p { platform_filter = s; page = 1 }

-- The two buttons under the table, which do nothing where they are disabled.
unfoldable pub previous_page : Page → Page
previous_page p = if leb p.page 1 || p.is_loading then p else record p { page = max (p.page - 1) 1 }

unfoldable pub next_page : Page → Page
next_page p =
    if leb p.pages p.page || p.is_loading then p else record p { page = min (p.page + 1) p.pages }

-- `fetchAdminProviderStatus` with its answer.
pub record ProviderStatus : Type 0 where
  pub success : Bool
  pub paused : Option Bool
  pub paused_reason : Option String

unfoldable pub load_provider_status : Option ProviderStatus → Page → Page
load_provider_status none p = p
load_provider_status (some res) p =
    if res.success
    then record p {
      provider_paused = or_else res.paused false;
      provider_paused_reason = or_null res.paused_reason;
    }
    else p

-- `handleResumeProvider`: whether the call succeeds, and the status that is loaded then.
unfoldable pub handle_resume_provider : Page → Page
handle_resume_provider p = record p { is_resuming_provider = true }

unfoldable pub on_resumed : (succeeded : Bool) → Option ProviderStatus → Page → Page
unfolding load_provider_status
on_resumed succeeded status p = record (if succeeded then load_provider_status status p else p) {
  is_resuming_provider = false;
}

-- `handleProviderRetry` and `handleProviderReconcile`, up to the request.
pub data JobRequest : Type 0 where
  retry_job : (id : ℕ) → JobRequest
  reconcile_job : (id : ℕ) → (completed : Bool) → (note : Text) → JobRequest

abbrev pub acts : JobRequest → Page → Page × Option JobRequest
acts r p = (record p { is_provider_acting = true; provider_action_error = none }, some r)

abbrev pub retry : Option Order → Page → Page × Option JobRequest
retry none p = (p, none)
retry (some order) p = acts (retry_job order.id) p

unfoldable pub handle_provider_retry : Page → Page × Option JobRequest
handle_provider_retry p = retry p.detail_order p

abbrev pub reconcile : Option Order → Page → Page × Option JobRequest
reconcile none p = (p, none)
reconcile (some order) p =
    if ltb (length (trim p.reconcile_note)) 5
    then (record p { provider_action_error = some short_note }, none)
    else acts (reconcile_job order.id p.reconcile_completed (trim p.reconcile_note)) p

unfoldable pub handle_provider_reconcile : Page → Page × Option JobRequest
handle_provider_reconcile p = reconcile p.detail_order p

-- What follows the answer; the text of an exception is empty where it has none.
abbrev pub or_problem : Text → Problem → Problem
or_problem [] e = e
or_problem (c ∷ s) e = told (c ∷ s)

unfoldable pub on_retried : Option Text → Page → Page
on_retried none p = record p { is_provider_acting = false }
on_retried (some msg) p = record p {
  provider_action_error = some (or_problem msg not_retried);
  is_provider_acting = false;
}

unfoldable pub on_reconciled : Option Text → Page → Page
on_reconciled none p = record p { reconcile_note = []; is_provider_acting = false }
on_reconciled (some msg) p = record p {
  provider_action_error = some (or_problem msg not_reconciled);
  is_provider_acting = false;
}

-- The page number and the number of pages are those of a table.
abbrev pub IsPaged : Page → Type 0
IsPaged p = (1 ≤ p.page) × (p.page ≤ p.pages)

-- After a list that the server sends for the page that is shown, the page is one of the table,
-- also when the table has become shorter in the meantime or is empty.
pub on_orders-IsPaged :
    (silent : Bool) (p : Page) (res : Listing)
    → res.success ≡ true
    → 1 ≤ p.page
    → IsPaged (on_orders silent p (replied res) p)
unfolding on_orders
on_orders-IsPaged silent p res h one = rw h (
    if-elim IsPaged silent (listed p res p) (record (listed p res p) { is_loading = false })
      (λ s. ground (arith, one)) (λ s. ground (arith, one)))
