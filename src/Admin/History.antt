-- ===== src/Admin/History.antt =====
-- The page of frontend/src/pages/admin/AdminOrders.tsx after a history of what was done with its dialogs.
use locketgoldhuydev.Prelude.{
  ◌≡◌, refl, ◌∙◌, Bool, false, not, ◌&&◌, Option, none, some, List, [], ◌∷◌, Text, trim, length,
  ltb, if-elim, if◌then◌else◌,
}
use locketgoldhuydev.Admin.Orders.{
  Order, ActionType, start, complete, cancel, refund, Page, Request, refund_manual, Next, wait,
  nothing, fails, sends, complains, short_refund_reason, unconfirmed, short_reference, not_done,
  conflict, told, Reply, replied, rejected, open_action_modal, close_action_modal, submit_action,
  submit_with, handle_submit_action, on_action, on_conflict_timer, is_short_reason, is_qr,
  is_conflict, or_undefined,
}

-- What the administrator does, what the server answers, and the timer after a conflict.
pub data Event : Type 0 where
  opened : Order → ActionType → Event
  closed submitted timed : Event
  answered : Reply → Event
  ticked : Bool → Event
  noted reasoned referred : Text → Event

unfoldable pub step : Event → Page → Page
step (opened order type) p = open_action_modal order type p
step closed p = close_action_modal p
step submitted p = (handle_submit_action p).0
step timed p = on_conflict_timer p
step (answered reply) p = (on_action reply p).0
step (ticked b) p = record p { confirmed_external = b }
step (noted t) p = record p { action_note = t }
step (reasoned t) p = record p { action_reason = t }
step (referred t) p = record p { refund_ref = t }

-- The page after a history, whose newest event stands first.
unfoldable pub after : List Event → Page → Page
after [] p = p
after (e ∷ history) p = step e (after history p)

-- What the history says: the dialog that is shown, and what was entered since it was opened.
abbrev pub dialog : List Event → Option (Order × ActionType)
dialog [] = none
dialog (opened order type ∷ h) = some (order, type)
dialog (closed ∷ h) = none
dialog (timed ∷ h) = none
dialog (answered replied ∷ h) = none
dialog (answered (rejected m) ∷ h) = dialog h
dialog (submitted ∷ h) = dialog h
dialog (ticked b ∷ h) = dialog h
dialog (noted t ∷ h) = dialog h
dialog (reasoned t ∷ h) = dialog h
dialog (referred t ∷ h) = dialog h

abbrev pub is_ticked : List Event → Bool
is_ticked [] = false
is_ticked (opened order type ∷ h) = false
is_ticked (ticked b ∷ h) = b
is_ticked (closed ∷ h) = is_ticked h
is_ticked (timed ∷ h) = is_ticked h
is_ticked (answered reply ∷ h) = is_ticked h
is_ticked (submitted ∷ h) = is_ticked h
is_ticked (noted t ∷ h) = is_ticked h
is_ticked (reasoned t ∷ h) = is_ticked h
is_ticked (referred t ∷ h) = is_ticked h

abbrev pub reason_of : List Event → Text
reason_of [] = []
reason_of (opened order type ∷ h) = []
reason_of (reasoned t ∷ h) = t
reason_of (ticked b ∷ h) = reason_of h
reason_of (closed ∷ h) = reason_of h
reason_of (timed ∷ h) = reason_of h
reason_of (answered reply ∷ h) = reason_of h
reason_of (submitted ∷ h) = reason_of h
reason_of (noted t ∷ h) = reason_of h
reason_of (referred t ∷ h) = reason_of h

abbrev pub reference_of : List Event → Text
reference_of [] = []
reference_of (opened order type ∷ h) = []
reference_of (referred t ∷ h) = t
reference_of (reasoned t ∷ h) = reference_of h
reference_of (ticked b ∷ h) = reference_of h
reference_of (closed ∷ h) = reference_of h
reference_of (timed ∷ h) = reference_of h
reference_of (answered reply ∷ h) = reference_of h
reference_of (submitted ∷ h) = reference_of h
reference_of (noted t ∷ h) = reference_of h

abbrev pub order_of : Option (Order × ActionType) → Option Order
order_of none = none
order_of (some (o, t)) = some o

abbrev pub type_of : Option (Order × ActionType) → Option ActionType
type_of none = none
type_of (some (o, t)) = some t

-- The page follows what the history says.
pub record Follows (h : List Event) (p : Page) : Type 0 where
  pub target : p.target_order ≡ order_of (dialog h)
  pub type : p.action_type ≡ type_of (dialog h)
  pub confirmed : p.confirmed_external ≡ is_ticked h
  pub reason : p.action_reason ≡ reason_of h
  pub reference : p.refund_ref ≡ reference_of h

-- What the handler of the button leaves alone.
abbrev pub IsKept : (p q : Page) → Type 0
IsKept p q =
    (q.target_order ≡ p.target_order)
    × (q.action_type ≡ p.action_type)
    × (q.confirmed_external ≡ p.confirmed_external)
    × (q.action_reason ≡ p.action_reason)
    × (q.refund_ref ≡ p.refund_ref)

submit_action-IsKept :
    (order : Order) (type : ActionType) (p : Page) → IsKept p (submit_action order type p).0
unfolding submit_action
submit_action-IsKept order start p = (refl, refl, refl, refl, refl)
submit_action-IsKept order complete p = (refl, refl, refl, refl, refl)
submit_action-IsKept order cancel p =
    if-elim (λ (r : Page × Option Request). IsKept p r.0) (is_short_reason p) _ _
      (λ h. (refl, refl, refl, refl, refl)) (λ h. (refl, refl, refl, refl, refl))
submit_action-IsKept order refund p =
    let P = λ (r : Page × Option Request). IsKept p r.0 in
    let request =
      refund_manual order.id (trim p.action_reason) p.confirmed_external
        (or_undefined (trim p.refund_ref)) in
    let last =
      if is_qr order.payment_method && ltb (length (trim p.refund_ref)) 3
      then complains short_reference p
      else sends request p in
    if-elim P (is_short_reason p) (complains short_refund_reason p)
      (if is_qr order.payment_method && not p.confirmed_external
        then complains unconfirmed p
        else last)
      (λ h. (refl, refl, refl, refl, refl))
      (λ h.
        if-elim P (is_qr order.payment_method && not p.confirmed_external) (complains unconfirmed p)
          last (λ k. (refl, refl, refl, refl, refl))
          (λ k.
            if-elim P (is_qr order.payment_method && ltb (length (trim p.refund_ref)) 3)
              (complains short_reference p) (sends request p) (λ l. (refl, refl, refl, refl, refl))
              (λ l. (refl, refl, refl, refl, refl))))

submit_with-IsKept :
    (order : Option Order) (type : Option ActionType) (p : Page)
    → IsKept p (submit_with order type p).0
submit_with-IsKept none type p = (refl, refl, refl, refl, refl)
submit_with-IsKept (some order) none p = (refl, refl, refl, refl, refl)
submit_with-IsKept (some order) (some type) p = submit_action-IsKept order type p

kept-Follows : (h : List Event) (p q : Page) → IsKept p q → Follows h p → Follows h q
kept-Follows h p q (a, b, c, d, e) f = record {
  target = a ∙ f.target;
  type = b ∙ f.type;
  confirmed = c ∙ f.confirmed;
  reason = d ∙ f.reason;
  reference = e ∙ f.reference;
}

rejected-Follows :
    (h : List Event) (m : Option Text) (p : Page)
    → Follows h p
    → Follows h (on_action (rejected m) p).0
unfolding on_action
rejected-Follows h none p f = kept-Follows h p (fails not_done p) (refl, refl, refl, refl, refl) f
rejected-Follows h (some msg) p f =
    if-elim (λ (r : Page × Next). Follows h r.0) (is_conflict msg) (fails conflict p, wait)
      (fails (told msg) p, nothing)
      (λ c. kept-Follows h p (fails conflict p) (refl, refl, refl, refl, refl) f)
      (λ c. kept-Follows h p (fails (told msg) p) (refl, refl, refl, refl, refl) f)

step-Follows : (e : Event) (h : List Event) (p : Page) → Follows h p → Follows (e ∷ h) (step e p)
unfolding step open_action_modal close_action_modal on_conflict_timer on_action handle_submit_action
step-Follows (opened order type) h p f = record {
  target = refl;
  type = refl;
  confirmed = refl;
  reason = refl;
  reference = refl;
}
step-Follows closed h p f = record {
  target = refl;
  type = refl;
  confirmed = f.confirmed;
  reason = f.reason;
  reference = f.reference;
}
step-Follows timed h p f = record {
  target = refl;
  type = refl;
  confirmed = f.confirmed;
  reason = f.reason;
  reference = f.reference;
}
step-Follows (answered replied) h p f = record {
  target = refl;
  type = refl;
  confirmed = f.confirmed;
  reason = f.reason;
  reference = f.reference;
}
step-Follows (answered (rejected m)) h p f =
    let g = rejected-Follows h m p f in
    record {
      target = g.target;
      type = g.type;
      confirmed = g.confirmed;
      reason = g.reason;
      reference = g.reference;
    }
step-Follows submitted h p f =
    let g =
      kept-Follows h p (handle_submit_action p).0
        (submit_with-IsKept p.target_order p.action_type p) f in
    record {
      target = g.target;
      type = g.type;
      confirmed = g.confirmed;
      reason = g.reason;
      reference = g.reference;
    }
step-Follows (ticked b) h p f = record {
  target = f.target;
  type = f.type;
  confirmed = refl;
  reason = f.reason;
  reference = f.reference;
}
step-Follows (noted t) h p f = record {
  target = f.target;
  type = f.type;
  confirmed = f.confirmed;
  reason = f.reason;
  reference = f.reference;
}
step-Follows (reasoned t) h p f = record {
  target = f.target;
  type = f.type;
  confirmed = f.confirmed;
  reason = refl;
  reference = f.reference;
}
step-Follows (referred t) h p f = record {
  target = f.target;
  type = f.type;
  confirmed = f.confirmed;
  reason = f.reason;
  reference = refl;
}

pub after-Follows : (h : List Event) (p : Page) → Follows [] p → Follows h (after h p)
unfolding after
after-Follows [] p f = f
after-Follows (e ∷ h) p f = step-Follows e h (after h p) (after-Follows h p f)
