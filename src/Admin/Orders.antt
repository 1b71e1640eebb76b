-- ===== src/Admin/Orders.antt =====
-- frontend/src/pages/admin/AdminOrders.tsx: the table of the activation orders, the actions on an order, and
-- those on the provider's job, cut where they wait. An exception is its message, or none where it
-- is no Error.
use locketgoldhuydev.Prelude.{
  ℕ, Bool, true, false, not, ◌&&◌, ◌||◌, Option, none, some, List, [], ◌∷◌, Text, codes, trim,
  includes, length, String, str_eq, ltb, if◌then◌else◌,
}

pub data FulfillmentMode : Type 0 where
  auto_activation manual_contact apk_download : FulfillmentMode

pub data PaymentMethod : Type 0 where
  coin qr : PaymentMethod

-- `AdminActivationOrder`, with the fields that the actions read.
pub record Order : Type 0 where
  pub id : ℕ
  pub status : String
  pub payment_method : PaymentMethod
  pub fulfillment_mode : FulfillmentMode

pub data ActionType : Type 0 where
  start complete cancel refund : ActionType

-- What the page tells about an action; `told` has the message of an exception.
pub data Problem : Type 0 where
  short_cancel_reason short_refund_reason unconfirmed short_reference : Problem
  short_note conflict not_retried not_reconciled not_done : Problem
  told : Text → Problem

pub record Page : Type 0 where
  pub orders : List Order
  pub total : ℕ
  pub page : ℕ
  pub pages : ℕ
  pub manual_pending_count : ℕ
  pub search_query : Text
  pub status_filter : String
  pub platform_filter : String
  pub fulfillment_filter : String
  pub is_loading : Bool
  -- whether the last load failed, with its message
  pub error : Option (Option Text)
  pub detail_order : Option Order
  pub provider_paused : Bool
  pub provider_paused_reason : Option String
  pub is_resuming_provider : Bool
  pub action_type : Option ActionType
  pub target_order : Option Order
  pub action_note : Text
  pub action_reason : Text
  pub confirmed_external : Bool
  pub refund_ref : Text
  pub is_submitting_action : Bool
  pub action_error : Option Problem
  pub is_provider_acting : Bool
  pub provider_action_error : Option Problem
  pub reconcile_note : Text
  -- whether the outcome is 'completed', else 'failed'
  pub reconcile_completed : Bool

-- What is sent to the server.
pub data Request : Type 0 where
  start_manual complete_manual : (id : ℕ) → (note : Option Text) → Request
  cancel_manual : (id : ℕ) → (reason : Text) → Request
  refund_manual :
      (id : ℕ) → (reason : Text) → (confirmed : Bool) → (reference : Option Text) → Request

-- `text || undefined`
abbrev pub or_undefined : Text → Option Text
or_undefined [] = none
or_undefined (c ∷ s) = some (c ∷ s)

abbrev pub is_empty : Text → Bool
is_empty [] = true
is_empty (c ∷ s) = false

abbrev pub is_manual : FulfillmentMode → Bool
is_manual manual_contact = true
is_manual auto_activation = false
is_manual apk_download = false

abbrev pub is_qr : PaymentMethod → Bool
is_qr qr = true
is_qr coin = false

-- Which buttons stand in the row of an order.
unfoldable pub offers : ActionType → Order → Bool
offers start o = is_manual o.fulfillment_mode && str_eq o.status "paid"
offers complete o = is_manual o.fulfillment_mode && str_eq o.status "processing"
offers cancel o =
    is_manual o.fulfillment_mode && (str_eq o.status "paid" || str_eq o.status "processing")
offers refund o =
    str_eq o.status "paid"
    || str_eq o.status "processing"
    || str_eq o.status "failed"
    || str_eq o.status "cancelled"

unfoldable pub open_action_modal : Order → ActionType → Page → Page
open_action_modal order type p = record p {
  target_order = some order;
  action_type = some type;
  action_note = [];
  action_reason = [];
  confirmed_external = false;
  refund_ref = [];
  action_error = none;
}

unfoldable pub close_action_modal : Page → Page
close_action_modal p = record p {
  action_type = none;
  target_order = none;
  action_error = none;
  is_submitting_action = false;
}

-- Whether the button that sends the action is disabled.
unfoldable pub is_disabled : Order → ActionType → Page → Bool
is_disabled order start p = p.is_submitting_action
is_disabled order complete p = p.is_submitting_action
is_disabled order cancel p = p.is_submitting_action || ltb (length (trim p.action_reason)) 5
is_disabled order refund p =
    p.is_submitting_action
    || ltb (length (trim p.action_reason)) 5
    || (is_qr order.payment_method
        && (not p.confirmed_external || ltb (length (trim p.refund_ref)) 3))

abbrev pub sends : Request → Page → Page × Option Request
sends r p = (record p { is_submitting_action = true; action_error = none }, some r)

abbrev pub complains : Problem → Page → Page × Option Request
complains e p = (record p { is_submitting_action = false; action_error = some e }, none)

abbrev pub is_short_reason : Page → Bool
is_short_reason p = is_empty (trim p.action_reason) || ltb (length (trim p.action_reason)) 5

-- `handleSubmitAction` for one kind of action, up to the request.
unfoldable pub submit_action : Order → ActionType → Page → Page × Option Request
submit_action order start p = sends (start_manual order.id (or_undefined (trim p.action_note))) p
submit_action order complete p =
    sends (complete_manual order.id (or_undefined (trim p.action_note))) p
submit_action order cancel p =
    if is_short_reason p
    then complains short_cancel_reason p
    else sends (cancel_manual order.id (trim p.action_reason)) p
submit_action order refund p =
    if is_short_reason p
    then complains short_refund_reason p
    else (if is_qr order.payment_method && not p.confirmed_external
        then complains unconfirmed p
        else (if is_qr order.payment_method && ltb (length (trim p.refund_ref)) 3
            then complains short_reference p
            else sends
                (refund_manual order.id (trim p.action_reason) p.confirmed_external
                  (or_undefined (trim p.refund_ref)))
                p))

abbrev pub submit_with : Option Order → Option ActionType → Page → Page × Option Request
submit_with none type p = (p, none)
submit_with (some order) none p = (p, none)
submit_with (some order) (some type) p = submit_action order type p

unfoldable pub handle_submit_action : Page → Page × Option Request
unfolding submit_action
handle_submit_action p = submit_with p.target_order p.action_type p

-- The answer to the request: success, or an exception.
pub data Reply : Type 0 where
  replied : Reply
  rejected : Option Text → Reply

abbrev pub is_conflict : Text → Bool
is_conflict msg =
    includes msg (codes "invalid_state_transition")
    || includes msg (codes "409")
    || includes msg (codes "Conflict")

-- What follows: the orders are loaded, or a timer of two seconds starts.
pub data Next : Type 0 where
  load wait nothing : Next

abbrev pub fails : Problem → Page → Page
fails e p = record p { action_error = some e; is_submitting_action = false }

-- The rest of `handleSubmitAction`.
unfoldable pub on_action : Reply → Page → Page × Next
unfolding close_action_modal
on_action replied p = (record (close_action_modal p) { is_submitting_action = false }, load)
on_action (rejected none) p = (fails not_done p, nothing)
on_action (rejected (some msg)) p =
    if is_conflict msg then (fails conflict p, wait) else (fails (told msg) p, nothing)

-- The timer after a conflict; the orders are loaded then.
unfoldable pub on_conflict_timer : Page → Page
unfolding close_action_modal
on_conflict_timer p = close_action_modal p
