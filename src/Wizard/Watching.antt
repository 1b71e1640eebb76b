-- ===== src/Wizard/Watching.antt =====
-- What the last step of frontend/src/pages/dashboard/ActivationWizard.tsx asks for while it is open: the
-- place in the queue, and the state of an order at the provider.
use locketgoldhuydev.Prelude.{
  ℕ, suc, ◌+◌, ◌-◌, ◌*◌, min, Bool, true, false, not, ◌&&◌, ◌||◌, Option, none, some, String,
  or_null, or_text, truthy, truthy_ℕ, str_eq, leb, if◌then◌else◌,
}
use locketgoldhuydev.Wizard.Types.{FulfillmentMode, auto_activation}
use locketgoldhuydev.Wizard.{Wizard, completed, same_step, fulfillment_mode, is_lunakey_plan}

-- `QueueStatusResponse`, with what the wizard reads.
pub record QueueResponse : Type 0 where
  pub success : Bool
  pub status : String
  pub position : ℕ
  pub error : Option String

abbrev pub is_auto : Option FulfillmentMode → Bool
is_auto (some auto_activation) = true
is_auto _ = false

-- The condition of the effect that polls the queue.
unfoldable pub wants_queue : Wizard → Bool
unfolding fulfillment_mode
wants_queue w =
    same_step w.current_step completed
    && is_auto (fulfillment_mode w)
    && truthy w.queue_client_id
    && not (str_eq w.queue_status "completed")

-- `pollQueue` with its answer; `none` stands for `null` and for a rejection, which changes nothing.
unfoldable pub on_queue : Option QueueResponse → Wizard → Wizard
on_queue none w = w
on_queue (some res) w =
    if res.success
    then record w {
      queue_status = res.status;
      queue_position = res.position;
      queue_error = if truthy res.error then res.error else w.queue_error;
    }
    else w

-- Whether `pollQueue` asks again in three seconds, by the status of its own render.
abbrev pub asks_again : (render : Wizard) → Bool
asks_again render =
    not (str_eq render.queue_status "completed") && not (str_eq render.queue_status "error")

-- The order of an answer of `fetchOrderDetail`.
pub record ProviderOrder : Type 0 where
  pub provider_status : Option String
  pub provider_status_label : Option String

-- The closure of the provider's effect; `timer` is when `pollProvider` runs next.
pub record Watch : Type 0 where
  pub cancelled : Bool
  pub attempt : ℕ
  pub started_at : ℕ
  pub timer : Option ℕ

abbrev pub max_poll_ms : ℕ
max_poll_ms = 600000

abbrev pub delay : ℕ → ℕ
delay attempt = min (3000 + attempt * 500) 15000

-- The condition of the effect, and its start; the first call is at once.
unfoldable pub wants_provider : Wizard → Bool
unfolding is_lunakey_plan
wants_provider w =
    same_step w.current_step completed && is_lunakey_plan w && truthy_ℕ w.activation_order_id

unfoldable pub start_watch : ℕ → Wizard → Watch × Wizard
start_watch now w = (
  record { cancelled = false; attempt = 0; started_at = now; timer = some now },
  record w { provider_poll_stopped = false },
)

unfoldable pub stop_watch : Watch → Watch
stop_watch v = record v { cancelled = true; timer = none }

-- `['completed', 'failed', 'refunded', 'cancelled'].includes(ps || '')`
abbrev pub is_terminal : String → Bool
is_terminal ps =
    str_eq ps "completed" || str_eq ps "failed" || str_eq ps "refunded" || str_eq ps "cancelled"

abbrev pub status_for : String → String
status_for ps =
    if str_eq ps "completed"
    then "completed"
    else (if is_terminal ps then "error" else "processing")

abbrev pub error_for : String → Option String → Option String
error_for ps old =
    if str_eq ps "failed"
    then some "Kích hoạt không thành công. Vui lòng liên hệ hỗ trợ để được xử lý."
    else (if str_eq ps "refunded"
        then some "Đơn đã được hoàn Coin. Bạn không cần thanh toán lại."
        else (if str_eq ps "cancelled" then some "Đơn đã bị hủy." else old))

-- The setters of an answer with an order.
unfoldable pub show_order : ProviderOrder → Wizard → Wizard
show_order o w =
    let ps = or_text o.provider_status "" in
    record w {
      provider_status = or_null o.provider_status;
      provider_status_label = or_null o.provider_status_label;
      queue_status = status_for ps;
      queue_error = error_for ps w.queue_error;
    }

abbrev pub ends_with_order : Option ProviderOrder → Bool
ends_with_order none = false
ends_with_order (some o) = is_terminal (or_text o.provider_status "")

abbrev pub shown : Bool → Option ProviderOrder → Wizard → Wizard
shown cancelled none w = w
shown cancelled (some o) w = if cancelled then w else show_order o w

-- `pollProvider` with its answer at a time: an order of an answer that succeeded, or nothing to use.
unfoldable pub poll_provider : (now : ℕ) → Option ProviderOrder → Watch → Wizard → Watch × Wizard
unfolding show_order
poll_provider now answer v w =
    let w1 = shown v.cancelled answer w in
    if v.cancelled || ends_with_order answer
    then (record v { timer = none }, w1)
    else (if leb max_poll_ms (now - v.started_at)
        then (record v { timer = none }, record w1 { provider_poll_stopped = true })
        else (record v { attempt = suc v.attempt; timer = some (now + delay (suc v.attempt)) }, w1))
