-- ===== src/Payment/Polling.antt =====
-- frontend/src/hooks/usePaymentPolling.ts: the status of a payment, asked for every three seconds
-- while it is pending and the tab is visible.
pub mod Effects
pub mod Late
use locketgoldhuydev.Prelude.{
  ℕ, Bool, true, false, not, ◌&&◌, Option, none, some, List, [], ◌∷◌, ◌++◌, String, truthy, is_some,
  str_eq, if◌then◌else◌,
}
use locketgoldhuydev.Wizard.Types.{
  PaymentStatus, pending, paid, expired, cancelled, underpaid, review_needed,
}

-- The calls of `onStatusChange`, `onSuccess` and `onError`, with the ids of payment and order.
pub data Notice : Type 0 where
  status_changed : PaymentStatus → (payment : ℕ) → (order : Option ℕ) → Notice
  succeeded : (payment : ℕ) → (order : Option ℕ) → Notice
  failed : Notice

-- `fetchPaymentStatus` gives a payment, or something else, or rejects.
pub data Answer : Type 0 where
  replied : PaymentStatus → (payment : ℕ) → (order : Option ℕ) → Answer
  unusable rejected : Answer

pub record Poll : Type 0 where
  pub code : Option String
  pub current_status : PaymentStatus
  pub enabled : Bool
  pub is_visible : Bool
  pub status : PaymentStatus
  -- The code of the request under way: `isFetchingRef` is true while there is one.
  pub fetching : Option String
  -- The interval and the listener of the polling effect are set up and cleared together.
  pub has_interval : Bool
  pub notices : List Notice

abbrev pub is_pending : PaymentStatus → Bool
is_pending pending = true
is_pending _ = false

abbrev pub same_status : PaymentStatus → PaymentStatus → Bool
same_status pending pending = true
same_status paid paid = true
same_status expired expired = true
same_status cancelled cancelled = true
same_status underpaid underpaid = true
same_status review_needed review_needed = true
same_status _ _ = false

abbrev pub same_code : Option String → Option String → Bool
same_code none none = true
same_code none (some c) = false
same_code (some c) none = false
same_code (some c) (some d) = str_eq c d

abbrev pub same_flag : Bool → Bool → Bool
same_flag true b = b
same_flag false b = not b

abbrev pub wants : Poll → Bool
wants h = h.enabled && truthy h.code && is_pending h.status

-- `checkStatus` up to its request.
unfoldable pub check_status : Poll → Poll
check_status h =
    if truthy h.code && not (is_some h.fetching) then record h { fetching = h.code } else h

unfoldable pub start_effect : Poll → Poll
start_effect h =
    if wants h
    then (let h1 = record h { has_interval = true } in if h.is_visible then check_status h1 else h1)
    else record h { has_interval = false }

-- React runs the effect again if `enabled`, `code` or `status` has changed.
unfoldable pub react : Poll → Poll → Poll
react before h =
    if same_flag before.enabled h.enabled
      && same_code before.code h.code
      && same_status before.status h.status
    then h
    else start_effect h

abbrev pub success : PaymentStatus → ℕ → Option ℕ → List Notice
success paid payment order = succeeded payment order ∷ []
success _ payment order = []

-- The rest of `checkStatus`; whichever code is asked for now, the answer is taken.
unfoldable pub on_answer : Answer → Poll → Poll
on_answer (replied status payment order) h = react h (record h {
  status = status;
  fetching = none;
  notices = h.notices ++ (status_changed status payment order ∷ success status payment order);
})
on_answer unusable h = record h { fetching = none }
on_answer rejected h = record h { fetching = none; notices = h.notices ++ (failed ∷ []) }

-- The effect that resets the status comes first, but its status is there in the next render only.
unfoldable pub set_options : Option String → PaymentStatus → (enabled : Bool) → Poll → Poll
set_options code current enabled h =
    let h1 = react h (record h { code = code; current_status = current; enabled = enabled }) in
    if same_code h.code code && same_status h.current_status current
    then h1
    else react h1 (record h1 { status = current })

unfoldable pub on_visibility : (is_visible : Bool) → Poll → Poll
on_visibility is_visible h =
    let h1 = record h { is_visible = is_visible } in
    if is_visible && h.has_interval then check_status h1 else h1

unfoldable pub on_interval : Poll → Poll
on_interval h = if h.has_interval && h.is_visible then check_status h else h

-- Answers come to requests.
pub data Event : Type 0 where
  ticks refetches : Event
  answers : Answer → Event
  changes_options : Option String → PaymentStatus → (enabled : Bool) → Event
  changes_visibility : (is_visible : Bool) → Event

unfoldable pub step : Event → Poll → Poll
step ticks h = on_interval h
step refetches h = check_status h
step (answers a) h = if is_some h.fetching then on_answer a h else h
step (changes_options code current enabled) h = set_options code current enabled h
step (changes_visibility is_visible) h = on_visibility is_visible h

unfoldable pub run : List Event → Poll → Poll
run [] h = h
run (e ∷ events) h = run events (step e h)
