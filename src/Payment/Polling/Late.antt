-- ===== src/Payment/Polling/Late.antt =====
-- An answer to frontend/src/hooks/usePaymentPolling.ts that comes when another order is shown.
use locketgoldhuydev.Prelude.{
  ℕ, ◌≡◌, refl, ◌∙◌, inl, inr, true, false, not, ◌&&◌, Option, none, some, [], ◌∷◌, ◌++◌, arith,
  String, truthy, is_some, Bool-cases,
}
use locketgoldhuydev.Wizard.Types.{pending, paid}
use locketgoldhuydev.Payment.Polling.{
  status_changed, succeeded, replied, Poll, same_status, same_code, same_flag, wants, check_status,
  start_effect, react, on_answer, set_options,
}
use locketgoldhuydev.Payment.Polling.Effects.{IsPolling, on_answer-IsPolling, set_options-IsPolling}

-- The order and its status stay, and so does a request under way.
abbrev Keeps : Poll → Poll → Type 0
Keeps h h' =
    (h'.code ≡ h.code)
    × (h'.status ≡ h.status)
    × ((c : String) → h.fetching ≡ some c → h'.fetching ≡ some c)

check_status-Keeps : (h : Poll) → Keeps h (check_status h)
unfolding check_status
check_status-Keeps h = elim (Bool-cases (truthy h.code && not (is_some h.fetching))) [
  | inr busy ↦ rw busy (refl, refl, λ c asked. asked)
  | inl free ↦ rw free (refl, refl, λ c asked. absurd (idle c asked free))
]
  where
    idle :
        (c : String) → h.fetching ≡ some c → ¬ ((truthy h.code && not (is_some h.fetching)) ≡ true)
    idle c asked free = ground arith

start_effect-Keeps : (h : Poll) → Keeps h (start_effect h)
unfolding start_effect
start_effect-Keeps h = elim (Bool-cases (wants h)) [
  | inr off ↦ rw off (refl, refl, λ c asked. asked)
  | inl on ↦ elim (Bool-cases h.is_visible) [
    | inl shown ↦
        rw (on, shown) (check_status-Keeps (record h { is_visible = true; has_interval = true }))
    | inr hidden ↦ rw (on, hidden) (refl, refl, λ c asked. asked)
  ]
]

react-Keeps : (h h' : Poll) → Keeps h' (react h h')
unfolding react
react-Keeps h h' =
    elim (Bool-cases (
      same_flag h.enabled h'.enabled
      && same_code h.code h'.code
      && same_status h.status h'.status)) [
        | inl same ↦ rw same (refl, refl, λ c asked. asked)
        | inr changed ↦ rw changed (start_effect-Keeps h')
      ]

set_options-code :
    (old new : String) (h : Poll)
    → h.fetching ≡ some old
    → ((set_options (some new) pending true h).code ≡ some new)
      × ((set_options (some new) pending true h).fetching ≡ some old)
unfolding set_options
set_options-code old new h asked =
    let h0 = record h { code = some new; current_status = pending; enabled = true } in
    let k = react-Keeps h h0 in
    elim (Bool-cases (same_code h.code (some new) && same_status h.current_status pending)) [
      | inl same ↦ rw same (k.0, k.2 old asked)
      | inr changed ↦
          let k1 = react-Keeps (react h h0) (record (react h h0) { status = pending }) in
          rw changed (k1.0 ∙ k.0, k1.2 old (k.2 old asked))
    ]

-- While a request for one order is under way, another order comes. The request stays the only one,
-- and its answer is taken for the new order: the old payment's status ends the new one's polling.
pub on_answer_late :
    (old new : String) (payment : ℕ) (order : Option ℕ) (h : Poll)
    → IsPolling h
    → h.fetching ≡ some old
    → let changed = set_options (some new) pending true h in
      let late = on_answer (replied paid payment order) changed in
      (changed.fetching ≡ some old)
      × (late.code ≡ some new)
      × (late.status ≡ paid)
      × (late.has_interval ≡ false)
on_answer_late old new payment order h v asked =
    let changed = set_options (some new) pending true h in
    let (same_code, same_request) = set_options-code old new h asked in
    let k = answered changed in
    let polls =
      on_answer-IsPolling (replied paid payment order) changed
        (set_options-IsPolling (some new) pending true h v) in
    (
      same_request,
      k.0 ∙ same_code,
      k.1,
      polls ∙ decided (on_answer (replied paid payment order) changed) k.1,
    )
  where
    answered :
        (g : Poll)
        → ((on_answer (replied paid payment order) g).code ≡ g.code)
          × ((on_answer (replied paid payment order) g).status ≡ paid)
    answered g =
        unfold on_answer in
        let answer = record g {
          status = paid;
          fetching = none;
          notices = g.notices ++ (status_changed paid payment order ∷ succeeded payment order ∷ []);
        } in
        let k = react-Keeps g answer in (k.0, k.1)

    decided : (g : Poll) → g.status ≡ paid → wants g ≡ false
    decided g e = ground arith
