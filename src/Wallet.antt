-- ===== src/Wallet.antt =====
-- frontend/src/pages/dashboard/WalletView.tsx: topping up the wallet, cut where it waits. The key that
-- `crypto.randomUUID` would give is an argument, and bank details, which are only passed on, a text.
pub mod Ledger
pub mod Renewal
pub mod Retries
use locketgoldhuydev.Prelude.{
  ℕ, zero, suc, ◌+◌, ◌-◌, ◌*◌, Bool, true, false, not, ◌&&◌, ◌||◌, Option, none, some, List, [],
  ◌∷◌, ◌++◌, String, Text, codes, trim_start, any, or_null, or_text, or_else, truthy, truthy_ℕ, leb,
  ltb, ◌==◌, if◌then◌else◌,
}
use locketgoldhuydev.Api.Types.{text_of, type_error}
use locketgoldhuydev.Utils.Format.{decimal}
use locketgoldhuydev.Wizard.Types.{
  PaymentStatus, pending, paid, expired, cancelled, underpaid, review_needed, Alert, says,
}
use locketgoldhuydev.Wizard.Lookup.{Reply, replied, null_reply, rejected, or_message}

-- The order on the page; the amounts are missing where it was spread from `null`.
pub record TopupOrder : Type 0 where
  pub payment_id : ℕ
  pub payment_code : String
  pub payment_ref : String
  pub transfer_code : String
  pub amount_vnd : Option ℕ
  pub coin_amount : Option ℕ
  pub qr_url : String
  pub status : PaymentStatus
  pub expires_at : ℕ
  pub server_time : Option ℕ
  pub bank_config : String

pub record TopupResponse : Type 0 where
  pub success : Bool
  pub order : TopupOrder
  pub msg : Option String

-- `PaymentOrder`, as the polling and a renewal give it.
pub record Payment : Type 0 where
  pub id : ℕ
  pub payment_code : String
  pub payment_ref : Option String
  pub transfer_code : Option String
  pub qr_url : Option String
  pub status : PaymentStatus
  pub coin_amount : ℕ
  pub expires_at : ℕ
  pub server_time : Option ℕ
  pub bank_config : Option String

pub record TopupAttempt : Type 0 where
  pub key : String
  pub amount_vnd : ℕ

pub record Wallet : Type 0 where
  pub selected_coin : ℕ
  pub custom_coin_input : Text
  pub is_custom : Bool
  pub topup_order : Option TopupOrder
  pub is_creating_topup : Bool
  pub topup_error : Option Alert
  pub is_renewing_topup : Bool
  pub renew_error : Option Alert
  pub topup_attempt : Option TopupAttempt
  pub notified_paid_payments : List ℕ
  pub transactions : List ℕ
  pub is_loading_txs : Bool
  pub page : ℕ
  pub total_txs : ℕ

abbrev pub is_quick_option : ℕ → Bool
is_quick_option c = c == 20 || c == 50 || c == 100 || c == 200

-- The effect that takes over the amount the page was opened with.
unfoldable pub take_prefilled : Option ℕ → Wallet → Wallet
take_prefilled none w = w
take_prefilled (some c) w =
    if c == 0
    then w
    else (if is_quick_option c
        then record w { selected_coin = c; is_custom = false }
        else record w { is_custom = true; selected_coin = c; custom_coin_input = decimal c })

abbrev pub digits_value : ℕ → Text → ℕ
digits_value n [] = n
digits_value n (c ∷ s) =
    let rest = digits_value (n * 10 + (c - b'0')) s in if leb b'0' c && leb c b'9' then rest else n

abbrev pub signed_value : Text → ℕ
signed_value [] = 0
signed_value (c ∷ s) = if c == b'+' then digits_value 0 s else digits_value 0 (c ∷ s)

-- `parseInt(text) || 0` for what an input of numbers holds; a negative number is 0, which is refused as it is.
unfoldable pub parse_int : Text → ℕ
parse_int s = signed_value (trim_start s)

unfoldable pub active_coin_amount : Wallet → ℕ
unfolding parse_int
active_coin_amount w = if w.is_custom then parse_int w.custom_coin_input else w.selected_coin

unfoldable pub active_vnd_amount : Wallet → ℕ
active_vnd_amount w = active_coin_amount w * 1000

-- The key of the attempt before, if it was for the same amount.
abbrev pub topup_key : (fresh : String) → ℕ → Option TopupAttempt → String
topup_key fresh amount none = fresh
topup_key fresh amount (some a) = if a.amount_vnd == amount then a.key else fresh

-- `handleCreateTopup` up to the request.
unfoldable pub handle_create_topup : (fresh : String) → Wallet → Wallet × Option TopupAttempt
handle_create_topup fresh w =
    if leb (active_coin_amount w) 0
    then (record w { topup_error = some (says (text_of "Số lượng Coin phải lớn hơn 0.")) }, none)
    else (let attempt : TopupAttempt = record {
      key = topup_key fresh (active_vnd_amount w) w.topup_attempt;
      amount_vnd = active_vnd_amount w;
    } in
        (
          record w {
            is_creating_topup = true;
            topup_error = none;
            renew_error = none;
            topup_attempt = some attempt;
          },
          some attempt,
        ))

-- The rest of it: the status of the answer is overwritten.
unfoldable pub on_created : Reply TopupResponse → Wallet → Wallet
on_created (replied res) w =
    if res.success
    then record w {
      topup_order = some (record (res.order) { status = pending });
      is_creating_topup = false;
    }
    else record w {
      topup_error = some (says (text_of (or_text res.msg "Không thể tạo đơn nạp Coin.")));
      is_creating_topup = false;
    }
on_created null_reply w = record w {
  topup_error = some (says type_error);
  is_creating_topup = false;
}
on_created (rejected m) w = record w {
  topup_error = some (or_message m "Lỗi máy chủ khi tạo mã thanh toán.");
  is_creating_topup = false;
}

-- `onClose` of the panel.
unfoldable pub close_topup : Wallet → Wallet
close_topup w = record w { topup_order = none; topup_attempt = none }

-- What `onStatusChange` calls besides the setters; the toast has its key.
pub data Effect : Type 0 where
  toast : (key : Text) → Effect
  refresh_balance : Effect
  load_transactions : (page : ℕ) → Effect

abbrev pub with_payment : PaymentStatus → Payment → Option TopupOrder → Option TopupOrder
with_payment status pay none = none
with_payment status pay (some o) = some (record o {
  status = status;
  payment_id = pay.id;
  payment_code = pay.payment_code;
  payment_ref = or_text pay.payment_ref pay.payment_code;
  transfer_code = or_text pay.transfer_code o.transfer_code;
  qr_url = or_text pay.qr_url o.qr_url;
  expires_at = pay.expires_at;
  server_time = pay.server_time;
})

abbrev pub topup_toast : ℕ → Text
topup_toast id = codes "wallet-topup-" ++ decimal id

abbrev pub thank : ℕ → Wallet → Wallet × List Effect
thank id w = if any (λ n. n == id) w.notified_paid_payments then (w, []) else (
  record w { notified_paid_payments = id ∷ w.notified_paid_payments },
  toast (topup_toast id) ∷ [],
)

unfoldable pub topup_paid : Payment → Wallet → Wallet × List Effect
topup_paid pay w =
    let (w1, effects) = thank pay.id w in
    (w1, effects ++ (refresh_balance ∷ load_transactions 0 ∷ []))

unfoldable pub on_status_change : PaymentStatus → Payment → Wallet → Wallet × List Effect
on_status_change status pay w =
    let w1 = record w { topup_order = with_payment status pay w.topup_order } in
    elim status [
      | paid ↦ topup_paid pay w1
      | expired ↦ (w1, [])
      | cancelled ↦ (w1, [])
      | pending ↦ (w1, [])
      | underpaid ↦ (w1, [])
      | review_needed ↦ (w1, [])
    ]
