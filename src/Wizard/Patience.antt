-- ===== src/Wizard/Patience.antt =====
-- How long, and how truly, frontend/src/pages/dashboard/ActivationWizard.tsx follows an order at the
-- provider.
use locketgoldhuydev.Prelude.{
  ℕ, zero, suc, ◌+◌, ◌-◌, ◌≤◌, ◌≡◌, refl, sym, ◌∙◌, ◌⊎◌, inl, inr, Bool, true, false, ◌||◌, Option,
  none, some, List, [], ◌∷◌, arith, String, length, leb, or_text, eq_iff, str_eq, Bool-cases,
  if-elim, if◌then◌else◌,
}
use locketgoldhuydev.Wizard.{Wizard}
use locketgoldhuydev.Wizard.Watching.{
  ProviderOrder, Watch, max_poll_ms, delay, start_watch, is_terminal, status_for, show_order, shown,
  ends_with_order, poll_provider,
}

-- The answers of one effect, each with the time at which it is taken.
abbrev pub Answers : Type 0
Answers = List (ℕ × Option ProviderOrder)

-- Each answer belongs to a call, which a timer has made: it comes when the timer is over or later.
abbrev pub IsTimely : Answers → Watch → Wizard → Type 0
IsTimely [] v w = Unit
IsTimely ((now, answer) ∷ rest) v w =
    ((due : ℕ) × (v.timer ≡ some due) × (due ≤ now))
    × IsTimely rest (poll_provider now answer v w).0 (poll_provider now answer v w).1

abbrev pub watch : Answers → Watch → Wizard → Watch × Wizard
watch [] v w = (v, w)
watch ((now, answer) ∷ rest) v w =
    watch rest (poll_provider now answer v w).0 (poll_provider now answer v w).1

-- The sum of the first delays.
abbrev total : ℕ → ℕ
total zero = 0
total (suc n) = total n + delay (suc n)

-- After fifty delays the limit is over.
total-late : (n : ℕ) → 50 ≤ n → max_poll_ms ≤ total n
total-late zero h = omega arith
total-late (suc n) h = elim (Bool-cases (leb 50 n)) [
  | inl late ↦ let rest = total-late n (ground arith) in omega arith
  | inr last ↦ let fifty : n ≡ 49 = ground arith in rw fifty (omega arith)
]

-- The timer has waited for all delays so far, which are few.
record IsOnTime (v : Watch) : Type 0 where
  few : v.attempt ≤ 50
  waited : (due : ℕ) → v.timer ≡ some due → v.started_at + total v.attempt ≤ due

-- A run ends where no timer is left.
ends :
    (answers : Answers) (v : Watch) (w : Wizard)
    → v.timer ≡ none
    → IsTimely answers v w
    → length answers ≡ 0
ends [] v w over h = refl
ends ((now, answer) ∷ rest) v w over h = let (due, e, late) = h.0 in absurd (cc (over, e))

watch-length :
    (answers : Answers) (v : Watch) (w : Wizard)
    → IsOnTime v
    → IsTimely answers v w
    → length answers + v.attempt ≤ 51
unfolding poll_provider
watch-length [] v w h t = let few = h.few in omega arith
watch-length ((now, answer) ∷ rest) v w h ((due, e, late), t) =
    let few = h.few in
    let waited = h.waited due e in
    if-elim (λ (r : Watch × Wizard). IsTimely rest r.0 r.1 → suc (length rest) + v.attempt ≤ 51)
      (v.cancelled || ends_with_order answer) _ _
      (λ _ rest_timely. let over = ends rest _ _ refl rest_timely in omega arith)
      (λ _.
        if-elim (λ (r : Watch × Wizard). IsTimely rest r.0 r.1 → suc (length rest) + v.attempt ≤ 51)
          (leb max_poll_ms (now - v.started_at)) _ _
          (λ _ rest_timely. let over = ends rest _ _ refl rest_timely in omega arith)
          (λ early rest_timely.
            let young : v.attempt ≤ 49 = elim (Bool-cases (leb 50 v.attempt)) [
              | inl old ↦ let long = total-late v.attempt (ground arith) in absurd (ground arith)
              | inr new ↦ ground arith
            ] in
            let next = record v {
              attempt = suc v.attempt;
              timer = some (now + delay (suc v.attempt));
            } in
            let on_time : IsOnTime next = record {
              few = omega arith;
              waited = λ d f. let same : now + delay (suc v.attempt) ≡ d = cc f in omega arith;
            } in
            let left = watch-length rest next (shown v.cancelled answer w) on_time rest_timely in
            omega arith))
      t

-- An order is asked for at most 51 times while the last step is open: whatever the provider answers
-- and however late, the polling has stopped by then, since its growing delays exceed ten minutes.
pub start_watch-length :
    (now : ℕ) (w : Wizard) (answers : Answers)
    → IsTimely answers (start_watch now w).0 (start_watch now w).1
    → length answers ≤ 51
unfolding start_watch
start_watch-length now w answers t =
    let v = (start_watch now w).0 in
    let on_time : IsOnTime v = record {
      few = omega arith;
      waited = λ d f. let same : now ≡ d = cc f in omega arith;
    } in
    let all = watch-length answers v (start_watch now w).1 on_time t in omega arith

-- An answer says that the order is completed.
abbrev pub Told : Answers → Type 0
Told [] = ⊥
Told ((now, none) ∷ rest) = Told rest
Told ((now, some o) ∷ rest) = (str_eq (or_text o.provider_status "") "completed" ≡ true) ⊎ Told rest

not-completed : (s : String) → str_eq s "completed" ≡ false → ¬ (s ≡ "completed")
not-completed s n e = cc (n, (eq_iff s "completed").1 e)

status_for-completed : (ps : String) → status_for ps ≡ "completed" → str_eq ps "completed" ≡ true
status_for-completed ps =
    if-elim (λ (s : String). s ≡ "completed" → str_eq ps "completed" ≡ true) (str_eq ps "completed")
      "completed" (if is_terminal ps then "error" else "processing") (λ done _. done)
      (λ _.
        if-elim (λ (s : String). s ≡ "completed" → str_eq ps "completed" ≡ true) (is_terminal ps)
          "error" "processing" (λ _ e. absurd (not-completed "error" refl e))
          (λ _ e. absurd (not-completed "processing" refl e)))

poll_provider-status :
    (now : ℕ) (answer : Option ProviderOrder) (v : Watch) (w : Wizard)
    → (poll_provider now answer v w).1.queue_status ≡ (shown v.cancelled answer w).queue_status
unfolding poll_provider
poll_provider-status now answer v w =
    let u = shown v.cancelled answer w in
    if-elim (λ (r : Watch × Wizard). r.1.queue_status ≡ u.queue_status)
      (v.cancelled || ends_with_order answer) _ _ (λ _. refl)
      (λ _.
        if-elim (λ (r : Watch × Wizard). r.1.queue_status ≡ u.queue_status)
          (leb max_poll_ms (now - v.started_at)) _ _ (λ _. refl) (λ _. refl))

shown-completed :
    (cancelled : Bool) (o : ProviderOrder) (w : Wizard)
    → (shown cancelled (some o) w).queue_status ≡ "completed"
    → (w.queue_status ≡ "completed") ⊎ (str_eq (or_text o.provider_status "") "completed" ≡ true)
unfolding show_order
shown-completed true o w h = inl h
shown-completed false o w h = inr (status_for-completed (or_text o.provider_status "") h)

-- The page shows an order as completed only if it did so before or an answer of the provider says so:
-- giving up after the time limit, errors and other states never do.
pub watch-completed :
    (answers : Answers) (v : Watch) (w : Wizard)
    → (watch answers v w).1.queue_status ≡ "completed"
    → (w.queue_status ≡ "completed") ⊎ Told answers
watch-completed [] v w h = inl h
watch-completed ((now, none) ∷ rest) v w h =
    elim (watch-completed rest (poll_provider now none v w).0 (poll_provider now none v w).1 h) [
      | inl before ↦ inl (sym (poll_provider-status now none v w) ∙ before)
      | inr told ↦ inr told
    ]
watch-completed ((now, some o) ∷ rest) v w h =
    elim (watch-completed rest (poll_provider now (some o) v w).0 (poll_provider now (some o) v w).1
      h) [
        | inl before ↦
            elim (shown-completed v.cancelled o w
              (sym (poll_provider-status now (some o) v w) ∙ before)) [
                | inl earlier ↦ inl earlier
                | inr told ↦ inr (inl told)
              ]
        | inr told ↦ inr (inr told)
      ]
