-- ===== src/Wallet/Renewal.antt =====
-- handleRenewTopup of frontend/src/pages/dashboard/WalletView.tsx, cut where it waits.
use locketgoldhuydev.Prelude.{
  ◌≡◌, refl, arith, ℕ, Bool, true, false, Option, none, some, String, or_text, or_else, truthy,
  truthy_ℕ, if◌then◌else◌,
}
use locketgoldhuydev.Api.Types.{text_of, type_error}
use locketgoldhuydev.Wizard.Types.{says}
use locketgoldhuydev.Wizard.Lookup.{Reply, replied, null_reply, rejected, or_message}
use locketgoldhuydev.Wallet.{TopupOrder, Payment, Wallet}

-- `handleRenewTopup` up to the request, which is for the code of the order.
abbrev pub renew : Option TopupOrder → Wallet → Wallet × Option String
renew none w = (w, none)
renew (some o) w = (
  record w { is_renewing_topup = true; renew_error = none },
  some (or_text (some o.payment_ref) o.payment_code),
)

unfoldable pub handle_renew_topup : Wallet → Wallet × Option String
handle_renew_topup w = renew w.topup_order w

pub record RenewResponse : Type 0 where
  pub success : Bool
  pub payment : Option Payment
  pub server_time : Option ℕ
  pub msg : Option String

-- `value || fallback` for times.
abbrev pub or_time : Option ℕ → Option ℕ → Option ℕ
or_time a b = if truthy_ℕ a then a else b

-- `text || prev!.field`, which throws without a `prev`.
abbrev pub or_previous : Option String → Option String → Option String
or_previous a b = if truthy a then a else b

abbrev pub qr_url_of : Option TopupOrder → Option String
qr_url_of none = none
qr_url_of (some o) = some o.qr_url

abbrev pub bank_config_of : Option TopupOrder → Option String
bank_config_of none = none
bank_config_of (some o) = some o.bank_config

abbrev pub amounts_of : Option TopupOrder → Option ℕ × Option ℕ
amounts_of none = (none, none)
amounts_of (some o) = (o.amount_vnd, o.coin_amount)

-- Both values, or none where one is missing.
abbrev pub with_both :
    Option String → Option String → (String → String → TopupOrder) → Option TopupOrder
with_both none b f = none
with_both (some a) none f = none
with_both (some a) (some b) f = some (f a b)

-- The order that a renewal leaves, from the one on the page when the answer comes; none where an
-- exception is thrown while React computes it. A transfer code that is missing is empty.
unfoldable pub renewed : Payment → (server_time : Option ℕ) → Option TopupOrder → Option TopupOrder
renewed p server_time prev =
    with_both (or_previous p.qr_url (qr_url_of prev))
      (or_previous p.bank_config (bank_config_of prev))
      (λ qr_url bank_config. record {
        payment_id = p.id;
        payment_code = p.payment_code;
        payment_ref = or_text p.payment_ref p.payment_code;
        transfer_code = or_else p.transfer_code "";
        amount_vnd = (amounts_of prev).0;
        coin_amount = (amounts_of prev).1;
        qr_url = qr_url;
        status = p.status;
        expires_at = p.expires_at;
        server_time = server_time;
        bank_config = bank_config;
      })

abbrev pub put_order : Option TopupOrder → Wallet → Option Wallet
put_order none w = none
put_order (some o) w = some (record w { topup_order = some o; is_renewing_topup = false })

abbrev pub not_renewed : RenewResponse → Wallet → Wallet
not_renewed res w = record w {
  renew_error = some (says (text_of (or_text res.msg "Không thể tạo lại mã thanh toán mới.")));
  is_renewing_topup = false;
}

abbrev pub take_renewal : RenewResponse → Option Payment → Wallet → Option Wallet
take_renewal res none w = some (not_renewed res w)
take_renewal res (some p) w =
    put_order (renewed p (or_time res.server_time p.server_time) w.topup_order) w

-- The rest of `handleRenewTopup`; none where the page is lost by the exception.
unfoldable pub on_renewed : Reply RenewResponse → Wallet → Option Wallet
unfolding renewed
on_renewed (replied res) w =
    if res.success then take_renewal res res.payment w else some (not_renewed res w)
on_renewed null_reply w =
    some (record w { renew_error = some (says type_error); is_renewing_topup = false })
on_renewed (rejected m) w = some (record w {
  renew_error = some (or_message m "Lỗi kết nối khi làm mới mã thanh toán.");
  is_renewing_topup = false;
})

or_previous-some : (a : Option String) (b : String) → or_previous a (some b) ≡ some (or_text a b)
or_previous-some none b = refl
or_previous-some (some s) b = ground arith

-- A renewal never loses the page while its order is shown, and leaves the amounts of the order as
-- they are: with an answer that gives a payment, the order shows the new payment's codes.
pub on_renewed-kept :
    (res : RenewResponse) (p : Payment) (o : TopupOrder) (w : Wallet)
    → res.success ≡ true
    → res.payment ≡ some p
    → w.topup_order ≡ some o
    → (q : TopupOrder) × (on_renewed (replied res) w
        ≡ some (record w { topup_order = some q; is_renewing_topup = false }))
      × (q.amount_vnd ≡ o.amount_vnd)
      × (q.coin_amount ≡ o.coin_amount)
      × (q.payment_id ≡ p.id)
      × (q.payment_code ≡ p.payment_code)
      × (q.status ≡ p.status)
unfolding on_renewed renewed
on_renewed-kept res p o w h k l =
    let q : TopupOrder = record {
      payment_id = p.id;
      payment_code = p.payment_code;
      payment_ref = or_text p.payment_ref p.payment_code;
      transfer_code = or_else p.transfer_code "";
      amount_vnd = o.amount_vnd;
      coin_amount = o.coin_amount;
      qr_url = or_text p.qr_url o.qr_url;
      status = p.status;
      expires_at = p.expires_at;
      server_time = or_time res.server_time p.server_time;
      bank_config = or_text p.bank_config o.bank_config;
    } in
    (
      q,
      rw (h, k, l, or_previous-some p.qr_url o.qr_url, or_previous-some p.bank_config o.bank_config)
          refl,
      refl,
      refl,
      refl,
      refl,
      refl,
    )
