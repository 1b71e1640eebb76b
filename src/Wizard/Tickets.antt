-- ===== src/Wizard/Tickets.antt =====
-- `handleRequestDownloadTicket` and `goldDaysLeft` of
-- frontend/src/pages/dashboard/ActivationWizard.tsx.
use locketgoldhuydev.Prelude.{
  ℕ, ◌+◌, ◌-◌, ◌/◌, Bool, true, false, not, ◌&&◌, Option, none, some, String, or_null, or_text,
  truthy, truthy_ℕ, if◌then◌else◌, ◌==◌,
}
use locketgoldhuydev.Api.Types.{text_of, type_error}
use locketgoldhuydev.Queue.{DevicePlatform, ios, android}
use locketgoldhuydev.Wizard.Types.{says}
use locketgoldhuydev.Wizard.{Wizard}
use locketgoldhuydev.Wizard.Lookup.{Reply, replied, null_reply, rejected, or_message}

-- Which ticket is asked for, and for which order.
pub data Ticket : Type 0 where
  mobileconfig apk : Ticket

pub record TicketCall : Type 0 where
  pub ticket : Ticket
  pub activation_order_id : Option ℕ
  pub client_id : Option String

pub record TicketResponse : Type 0 where
  pub success : Bool
  pub download_url : Option String
  pub msg : Option String

abbrev pub ticket_for : Option DevicePlatform → Ticket
ticket_for (some ios) = mobileconfig
ticket_for (some android) = apk
ticket_for none = apk

-- `activationOrderId || undefined`
abbrev pub id_or_undefined : Option ℕ → Option ℕ
id_or_undefined none = none
id_or_undefined (some id) = if id == 0 then none else some id

unfoldable pub request_download_ticket : Wizard → Wizard × Option TicketCall
request_download_ticket w =
    if not (truthy_ℕ w.activation_order_id) && not (truthy w.queue_client_id) then (w, none) else (
      record w { is_creating_ticket = true; ticket_error = none },
      some (record {
        ticket = ticket_for w.selected_platform;
        activation_order_id = id_or_undefined w.activation_order_id;
        client_id = or_null w.queue_client_id;
      }),
    )

-- The second part is where the browser goes.
unfoldable pub on_ticket : Reply TicketResponse → Wizard → Wizard × Option String
on_ticket (replied res) w =
    if res.success && truthy res.download_url
    then (record w { is_creating_ticket = false }, res.download_url)
    else (
      record w {
        ticket_error = some (says (text_of (or_text res.msg "Không thể tạo vé tải xuống.")));
        is_creating_ticket = false;
      },
      none,
    )
on_ticket null_reply w =
    (record w { ticket_error = some (says type_error); is_creating_ticket = false }, none)
on_ticket (rejected m) w = (
  record w {
    ticket_error = some (or_message m "Lỗi khi yêu cầu vé tải.");
    is_creating_ticket = false;
  },
  none,
)

-- `Math.ceil((ms - Date.now()) / 86_400_000)`, at least 0, of a date that is one.
abbrev pub days_until : (now : ℕ) → ℕ → ℕ
days_until now ms = ((ms - now) + 86399999) / 86400000

-- `goldDaysLeft`, of the days that the provider tells and of the end as its milliseconds; a text that
-- is no date counts as no end.
unfoldable pub gold_days_left : (now : ℕ) → Option ℕ → Option ℕ → Option ℕ
gold_days_left now (some days) expiry = some days
gold_days_left now none none = none
gold_days_left now none (some ms) = some (days_until now ms)
