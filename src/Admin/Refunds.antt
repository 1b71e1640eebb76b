-- ===== src/Admin/Refunds.antt =====
-- What the dialogs of frontend/src/pages/admin/AdminOrders.tsx send, against the history of the page.
use locketgoldhuydev.Prelude.{
  ℕ, ◌≤◌, ◌≡◌, ◌⊎◌, inl, inr, Bool-cases, refl, sym, ap, ◌∙◌, subst, true, false, not, ◌&&◌, ◌||◌,
  Option, none, some, List, [], ◌∷◌, All, is_some, Text, trim, length, ltb, arith, if-elim,
  if◌then◌else◌,
}
use locketgoldhuydev.Admin.Orders.{
  Order, ActionType, start, complete, cancel, refund, Page, Request, start_manual, complete_manual,
  cancel_manual, refund_manual, sends, complains, short_cancel_reason, short_refund_reason,
  unconfirmed, short_reference, replied, rejected, offers, is_disabled, submit_action, submit_with,
  handle_submit_action, is_short_reason, is_qr, or_undefined, is_empty,
}
use locketgoldhuydev.Admin.History.{
  Event, opened, closed, submitted, timed, answered, ticked, noted, reasoned, referred, after,
  dialog, is_ticked, reason_of, reference_of, order_of, type_of, Follows, after-Follows,
}

-- A dialog for the order is shown for the action, which the order's row offers.
abbrev pub IsOpen : List Event → ActionType → (id : ℕ) → (qr_rule : Order → Type 0) → Type 0
IsOpen h type id rule =
    (o : Order) × (dialog h ≡ some (o, type)) × (offers type o ≡ true) × (o.id ≡ id) × rule o

-- What a request must rest on.
abbrev pub IsRightful : List Event → Request → Type 0
IsRightful h (start_manual id _) = IsOpen h start id (λ o. Unit)
IsRightful h (complete_manual id _) = IsOpen h complete id (λ o. Unit)
IsRightful h (cancel_manual id reason) =
    IsOpen h cancel id (λ o. (reason ≡ trim (reason_of h)) × (5 ≤ length reason))
IsRightful h (refund_manual id reason confirmed reference) = IsOpen h refund id (λ o.
    (reason ≡ trim (reason_of h))
    × (5 ≤ length reason)
    × ((is_qr o.payment_method ≡ false)
        ⊎ ((is_ticked h ≡ true)
            × (reference ≡ some (trim (reference_of h)))
            × (3 ≤ length (trim (reference_of h))))))

-- The rows offer what is opened.
abbrev pub IsOffered : Event → Type 0
IsOffered (opened order type) = offers type order ≡ true
IsOffered _ = Unit

pub dialog-offered :
    (h : List Event) (o : Order) (type : ActionType)
    → All IsOffered h
    → dialog h ≡ some (o, type)
    → offers type o ≡ true
dialog-offered [] o type offered e = absurd (ground (arith, e))
dialog-offered (opened p t ∷ h) o type offered e = cc (offered.0, e)
dialog-offered (closed ∷ h) o type offered e = absurd (ground (arith, e))
dialog-offered (timed ∷ h) o type offered e = absurd (ground (arith, e))
dialog-offered (answered replied ∷ h) o type offered e = absurd (ground (arith, e))
dialog-offered (answered (rejected m) ∷ h) o type offered e = dialog-offered h o type offered.1 e
dialog-offered (submitted ∷ h) o type offered e = dialog-offered h o type offered.1 e
dialog-offered (ticked b ∷ h) o type offered e = dialog-offered h o type offered.1 e
dialog-offered (noted t ∷ h) o type offered e = dialog-offered h o type offered.1 e
dialog-offered (reasoned t ∷ h) o type offered e = dialog-offered h o type offered.1 e
dialog-offered (referred t ∷ h) o type offered e = dialog-offered h o type offered.1 e

some_same : (s r : Request) → some s ≡ some r → s ≡ r
some_same s r e = cc (e)

or_undefined-some : (t : Text) → 1 ≤ length t → or_undefined t ≡ some t
or_undefined-some [] l = absurd (omega (arith, l))
or_undefined-some (c ∷ t) l = refl

long_reason : (t : Text) → (is_empty t || ltb (length t) 5) ≡ false → 5 ≤ length t
long_reason t h = ground arith

refund-IsRightful :
    (h : List Event) (o : Order) (p : Page)
    → Follows h p
    → dialog h ≡ some (o, refund)
    → offers refund o ≡ true
    → is_short_reason p ≡ false
    → (is_qr o.payment_method && not p.confirmed_external) ≡ false
    → (is_qr o.payment_method && ltb (length (trim p.refund_ref)) 3) ≡ false
    → IsRightful h (
        refund_manual o.id
          (trim p.action_reason)
          p.confirmed_external
          (or_undefined (trim p.refund_ref)))
refund-IsRightful h o p f shown offered reason confirmed long =
    let same : trim p.refund_ref ≡ trim (reference_of h) = ap trim f.reference in
    (
      o,
      shown,
      offered,
      refl,
      (
        ap trim f.reason,
        long_reason (trim p.action_reason) reason,
        elim (Bool-cases (is_qr o.payment_method)) [
          | inr c ↦ inl c
          | inl q ↦
              let enough : 3 ≤ length (trim p.refund_ref) = ground (arith, q, long) in
              inr (
                sym f.confirmed ∙ ground (arith, q, confirmed),
                or_undefined-some (trim p.refund_ref) (omega (arith, enough)) ∙ ap some same,
                subst (λ (t : Text). 3 ≤ length t) same enough,
              )
        ],
      ),
    )

submit_action-IsRightful :
    (h : List Event) (o : Order) (type : ActionType) (p : Page) (r : Request)
    → Follows h p
    → dialog h ≡ some (o, type)
    → offers type o ≡ true
    → (submit_action o type p).1 ≡ some r
    → IsRightful h r
unfolding submit_action
submit_action-IsRightful h o start p r f shown offered sent =
    subst (IsRightful h) (some_same _ r sent) (o, shown, offered, refl, tt)
submit_action-IsRightful h o complete p r f shown offered sent =
    subst (IsRightful h) (some_same _ r sent) (o, shown, offered, refl, tt)
submit_action-IsRightful h o cancel p r f shown offered sent =
    if-elim (λ (s : Page × Option Request). s.1 ≡ some r → IsRightful h r) (is_short_reason p)
      (complains short_cancel_reason p) (sends (cancel_manual o.id (trim p.action_reason)) p)
      (λ c e. absurd (ground (arith, e)))
      (λ c e.
        subst (IsRightful h) (some_same (cancel_manual o.id (trim p.action_reason)) r e)
          (o, shown, offered, refl, (ap trim f.reason, long_reason (trim p.action_reason) c)))
      sent
submit_action-IsRightful h o refund p r f shown offered sent =
    let P = λ (s : Page × Option Request). s.1 ≡ some r → IsRightful h r in
    let request =
      refund_manual o.id (trim p.action_reason) p.confirmed_external
        (or_undefined (trim p.refund_ref)) in
    if-elim P (is_short_reason p) (complains short_refund_reason p)
      (if is_qr o.payment_method && not p.confirmed_external
        then complains unconfirmed p
        else (if is_qr o.payment_method && ltb (length (trim p.refund_ref)) 3
            then complains short_reference p
            else sends request p))
      (λ c e. absurd (ground (arith, e)))
      (λ c.
        if-elim P (is_qr o.payment_method && not p.confirmed_external) (complains unconfirmed p)
          (if is_qr o.payment_method && ltb (length (trim p.refund_ref)) 3
            then complains short_reference p
            else sends request p)
          (λ k e. absurd (ground (arith, e)))
          (λ k.
            if-elim P (is_qr o.payment_method && ltb (length (trim p.refund_ref)) 3)
              (complains short_reference p) (sends request p) (λ l e. absurd (ground (arith, e)))
              (λ l e.
                subst (IsRightful h) (some_same request r e)
                  (refund-IsRightful h o p f shown offered c k l))))
      sent

submit_with-IsRightful :
    (h : List Event) (d : Option (Order × ActionType)) (p : Page) (r : Request)
    → All IsOffered h
    → Follows h p
    → dialog h ≡ d
    → (submit_with (order_of d) (type_of d) p).1 ≡ some r
    → IsRightful h r
submit_with-IsRightful h none p r offered f shown sent = absurd (ground (arith, sent))
submit_with-IsRightful h (some (o, type)) p r offered f shown sent =
    submit_action-IsRightful h o type p r f shown (dialog-offered h o type offered shown) sent

-- From a page with no dialog and nothing entered, after any history in which the dialogs are those that the
-- rows of their orders offer, what the button sends is for the order and the action of the dialog
-- that is shown; a cancellation and a refund carry the reason that was entered since, trimmed and of
-- five units at least; and a refund of a bank transfer is sent only when the box was ticked last and a
-- reference of three units at least was entered, both since this dialog was opened.
pub handle_submit_action-IsRightful :
    (h : List Event) (p : Page) (r : Request)
    → All IsOffered h
    → Follows [] p
    → (handle_submit_action (after h p)).1 ≡ some r
    → IsRightful h r
unfolding handle_submit_action
handle_submit_action-IsRightful h p r offered fresh sent =
    let f = after-Follows h p fresh in
    submit_with-IsRightful h (dialog h) (after h p) r offered f refl (
      subst
        (λ (t : Option ActionType). (submit_with (order_of (dialog h)) t (after h p)).1 ≡ some r)
        f.type
        (subst
          (λ (o : Option Order). (submit_with o (after h p).action_type (after h p)).1 ≡ some r)
          f.target sent))

-- The button of a dialog is enabled exactly when its handler sends a request, so that no complaint is left
-- for the user to meet: for the action and the order that are shown while none is under way.
pub handle_submit_action-is_disabled :
    (o : Order) (type : ActionType) (p : Page)
    → p.target_order ≡ some o
    → p.action_type ≡ some type
    → p.is_submitting_action ≡ false
    → is_some (handle_submit_action p).1 ≡ not (is_disabled o type p)
unfolding handle_submit_action is_disabled submit_action
handle_submit_action-is_disabled o start p a b c = rw (a, b) (ground (arith, c))
handle_submit_action-is_disabled o complete p a b c = rw (a, b) (ground (arith, c))
handle_submit_action-is_disabled o cancel p a b c = rw (a, b) (ground (arith, c))
handle_submit_action-is_disabled o refund p a b c = rw (a, b) (ground (arith, c))
