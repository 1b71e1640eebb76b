-- ===== src/Tests/Refunds.antt =====
-- Runs of the dialogs of frontend/src/pages/admin/AdminOrders.tsx.
use locketgoldhuydev.Prelude.{
  ◌≡◌, refl, true, false, not, none, some, is_some, All, trim, trim_start, trim_end, keep_unit,
  is_space, List, [], ◌∷◌, codes,
}
use locketgoldhuydev.Admin.Orders.{
  Order, Page, auto_activation, qr, refund, refund_manual, open_action_modal, handle_submit_action,
  submit_action, offers, is_disabled,
}
use locketgoldhuydev.Admin.History.{Event, opened, ticked, reasoned, referred, step, after}
use locketgoldhuydev.Admin.Refunds.{
  IsOffered, IsRightful, handle_submit_action-IsRightful, handle_submit_action-is_disabled,
}

abbrev failed_order : Order
failed_order = record {
  id = 31;
  status = "failed";
  payment_method = qr;
  fulfillment_mode = auto_activation;
}

abbrev mounted : Page
mounted = record {
  orders = failed_order ∷ [];
  total = 1;
  page = 1;
  pages = 1;
  manual_pending_count = 0;
  search_query = [];
  status_filter = "";
  platform_filter = "";
  fulfillment_filter = "";
  is_loading = false;
  error = none;
  detail_order = none;
  provider_paused = false;
  provider_paused_reason = none;
  is_resuming_provider = false;
  action_type = none;
  target_order = none;
  action_note = [];
  action_reason = [];
  confirmed_external = false;
  refund_ref = [];
  is_submitting_action = false;
  action_error = none;
  is_provider_acting = false;
  provider_action_error = none;
  reconcile_note = [];
  reconcile_completed = true;
}

-- The newest event stands first.
abbrev filled_in : List Event
filled_in =
    ticked true
    ∷ referred (codes " FT12 ")
    ∷ reasoned (codes "broken")
    ∷ opened failed_order refund
    ∷ []

refused_first : is_some (handle_submit_action (after (ticked false ∷ filled_in) mounted)).1 ≡ false
unfolding handle_submit_action submit_action after step open_action_modal trim trim_start trim_end
    keep_unit is_space
refused_first = refl

refund_sent :
    (handle_submit_action (after filled_in mounted)).1
    ≡ some (refund_manual 31 (codes "broken") true (some (codes "FT12")))
unfolding handle_submit_action submit_action after step open_action_modal trim trim_start trim_end
    keep_unit is_space
refund_sent = refl

filled_in-IsOffered : All IsOffered filled_in
unfolding offers
filled_in-IsOffered = (tt, (tt, (tt, (refl, tt))))

handle_submit_action-IsRightful_example :
    IsRightful filled_in (refund_manual 31 (codes "broken") true (some (codes "FT12")))
handle_submit_action-IsRightful_example =
    handle_submit_action-IsRightful filled_in mounted
      (refund_manual 31 (codes "broken") true (some (codes "FT12"))) filled_in-IsOffered
      (record { target = refl; type = refl; confirmed = refl; reason = refl; reference = refl })
      refund_sent

handle_submit_action-is_disabled_example :
    is_some (handle_submit_action (open_action_modal failed_order refund mounted)).1
    ≡ not (is_disabled failed_order refund (open_action_modal failed_order refund mounted))
unfolding open_action_modal
handle_submit_action-is_disabled_example =
    handle_submit_action-is_disabled failed_order refund
      (open_action_modal failed_order refund mounted) refl refl refl
