-- ===== src/Payment/Polling/Effects.antt =====
-- When frontend/src/hooks/usePaymentPolling.ts polls, in every order of events.
use locketgoldhuydev.Prelude.{
  ◌≡◌, refl, sym, ap, ◌∙◌, inl, inr, Bool, true, false, not, ◌&&◌, Option, none, some, List, [],
  ◌∷◌, arith, String, truthy, is_some, eq_iff, and-true, Bool-cases,
}
use locketgoldhuydev.Wizard.Types.{PaymentStatus}
use locketgoldhuydev.Payment.Polling.{
  Answer, replied, unusable, rejected, Poll, is_pending, same_status, same_code, same_flag, wants,
  check_status, start_effect, react, on_answer, set_options, on_visibility, on_interval, Event,
  ticks, refetches, answers, changes_options, changes_visibility, step, run,
}

-- The interval runs exactly for an enabled, pending payment with a code.
abbrev pub IsPolling : Poll → Type 0
IsPolling h = h.has_interval ≡ wants h

check_status-IsPolling : (h : Poll) → IsPolling h → IsPolling (check_status h)
unfolding check_status
check_status-IsPolling h v = elim (Bool-cases (truthy h.code && not (is_some h.fetching))) [
  | inl free ↦ rw free v
  | inr busy ↦ rw busy v
]

start_effect-IsPolling : (h : Poll) → IsPolling (start_effect h)
unfolding start_effect
start_effect-IsPolling h = elim (Bool-cases (wants h)) [
  | inr off ↦ rw off (sym off)
  | inl on ↦ elim (Bool-cases h.is_visible) [
    | inl shown ↦
        rw (on, shown)
          (check_status-IsPolling (record h { is_visible = true; has_interval = true }) (sym on))
    | inr hidden ↦ rw (on, hidden) (sym on)
  ]
]

same_status-eq : (s t : PaymentStatus) → same_status s t ≡ true → is_pending s ≡ is_pending t
same_status-eq s t h = ground arith

same_code-eq : (c d : Option String) → same_code c d ≡ true → c ≡ d
same_code-eq none none h = refl
same_code-eq none (some d) h = absurd cc
same_code-eq (some c) none h = absurd cc
same_code-eq (some c) (some d) h = ap (λ x. some x) ((eq_iff c d).0 h)

same_flag-eq : (a b : Bool) → same_flag a b ≡ true → a ≡ b
same_flag-eq true b h = sym h
same_flag-eq false true h = absurd cc
same_flag-eq false false h = refl

wants-same :
    (h h' : Poll)
    → (same_flag h.enabled h'.enabled && same_code h.code h'.code && same_status h.status h'.status)
      ≡ true
    → wants h ≡ wants h'
wants-same h h' same =
    let (first, c) =
      and-true (same_flag h.enabled h'.enabled && same_code h.code h'.code)
        (same_status h.status h'.status) same in
    let (a, b) = and-true (same_flag h.enabled h'.enabled) (same_code h.code h'.code) first in
    rw
      (
        same_flag-eq h.enabled h'.enabled a,
        same_code-eq h.code h'.code b,
        same_status-eq h.status h'.status c,
      )
      refl

react-IsPolling :
    (h h' : Poll) → h'.has_interval ≡ h.has_interval → IsPolling h → IsPolling (react h h')
unfolding react
react-IsPolling h h' e v =
    elim (Bool-cases (
      same_flag h.enabled h'.enabled
      && same_code h.code h'.code
      && same_status h.status h'.status)) [
        | inr changed ↦ rw changed (start_effect-IsPolling h')
        | inl same ↦ rw same (e ∙ v ∙ wants-same h h' same)
      ]

pub on_answer-IsPolling : (a : Answer) (h : Poll) → IsPolling h → IsPolling (on_answer a h)
unfolding on_answer
on_answer-IsPolling (replied status payment order) h v = react-IsPolling h _ refl v
on_answer-IsPolling unusable h v = v
on_answer-IsPolling rejected h v = v

pub set_options-IsPolling :
    (code : Option String) (current : PaymentStatus) (enabled : Bool) (h : Poll)
    → IsPolling h
    → IsPolling (set_options code current enabled h)
unfolding set_options
set_options-IsPolling code current enabled h v =
    let h1 = react h (record h { code = code; current_status = current; enabled = enabled }) in
    let w : IsPolling h1 = react-IsPolling h _ refl v in
    elim (Bool-cases (same_code h.code code && same_status h.current_status current)) [
      | inl same ↦ rw same w
      | inr changed ↦ rw changed (react-IsPolling h1 _ refl w)
    ]

on_visibility-IsPolling : (b : Bool) (h : Poll) → IsPolling h → IsPolling (on_visibility b h)
unfolding on_visibility
on_visibility-IsPolling b h v = elim (Bool-cases (b && h.has_interval)) [
  | inl back ↦ rw back (check_status-IsPolling (record h { is_visible = b }) v)
  | inr other ↦ rw other v
]

on_interval-IsPolling : (h : Poll) → IsPolling h → IsPolling (on_interval h)
unfolding on_interval
on_interval-IsPolling h v = elim (Bool-cases (h.has_interval && h.is_visible)) [
  | inl on ↦ rw on (check_status-IsPolling h v)
  | inr off ↦ rw off v
]

step-IsPolling : (e : Event) (h : Poll) → IsPolling h → IsPolling (step e h)
unfolding step
step-IsPolling ticks h v = on_interval-IsPolling h v
step-IsPolling refetches h v = check_status-IsPolling h v
step-IsPolling (answers a) h v = elim (Bool-cases (is_some h.fetching)) [
  | inl asked ↦ rw asked (on_answer-IsPolling a h v)
  | inr free ↦ rw free v
]
step-IsPolling (changes_options code current enabled) h v =
    set_options-IsPolling code current enabled h v
step-IsPolling (changes_visibility b) h v = on_visibility-IsPolling b h v

-- From a hook where this holds, it holds after every sequence of ticks, answers, and changes of the
-- order and the tab: the interval runs exactly while the hook is enabled and has a code whose
-- payment is pending.
pub run-IsPolling : (events : List Event) (h : Poll) → IsPolling h → IsPolling (run events h)
unfolding run
run-IsPolling [] h v = v
run-IsPolling (e ∷ events) h v = run-IsPolling events (step e h) (step-IsPolling e h v)
