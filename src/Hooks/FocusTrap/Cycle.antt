-- ===== src/Hooks/FocusTrap/Cycle.antt =====
-- The Tab key in a dialog with the trap of frontend/src/hooks/useFocusTrap.ts: a cycle.
use locketgoldhuydev.Prelude.{
  ℕ, zero, suc, ◌-◌, ◌<◌, ◌≡◌, ◌≢◌, refl, sym, ap, subst, ◌∙◌, inl, inr, Bool, true, false, some,
  List, [], ◌∷◌, arith, length, get_elem?, ◌==◌, ==_iff, Bool-cases, if◌then◌else◌,
}
use locketgoldhuydev.Prelude.Pairs.{AllPairs}
use locketgoldhuydev.Prelude.{All}
use locketgoldhuydev.Hooks.FocusTrap.{
  Dialog, first_of, last_of, is_element, handle_key_down, press_tab, FollowsOrder,
}

-- The place after, or before, in a cycle of `n` places.
abbrev pub turn : Bool → (n i : ℕ) → ℕ
turn false n i = if suc i == n then 0 else suc i
turn true n i = if i == 0 then n - 1 else i - 1

module _ {ℓ} {A : Type ℓ} where
  pub get_elem?-some : (xs : List A) (i : ℕ) (a : A) → get_elem? xs i ≡ some a → i < length xs
  get_elem?-some [] i a h = absurd cc
  get_elem?-some (x ∷ xs) zero a h = omega arith
  get_elem?-some (x ∷ xs) (suc i) a h = omega (arith, get_elem?-some xs i a h)

  pub get_elem?-below : (xs : List A) (i : ℕ) → i < length xs → (a : A) × (get_elem? xs i ≡ some a)
  get_elem?-below [] i h = absurd (omega arith)
  get_elem?-below (x ∷ xs) zero h = (x, refl)
  get_elem?-below (x ∷ xs) (suc i) h = get_elem?-below xs i (omega arith)

get_elem?-All : (P : ℕ → Type 0) (xs : List ℕ) (i a : ℕ) → All P xs → get_elem? xs i ≡ some a → P a
get_elem?-All P [] i a h e = absurd cc
get_elem?-All P (x ∷ xs) zero a h e = subst P (cc e) h.0
get_elem?-All P (x ∷ xs) (suc i) a h e = get_elem?-All P xs i a h.1 e

-- In a list without repetitions an element has one place.
distinct-place :
    (xs : List ℕ) (i j a : ℕ)
    → AllPairs (λ x y. x ≢ y) xs
    → get_elem? xs i ≡ some a
    → get_elem? xs j ≡ some a
    → i ≡ j
distinct-place [] i j a d e f = absurd cc
distinct-place (x ∷ xs) zero zero a d e f = refl
distinct-place (x ∷ xs) zero (suc j) a d e f =
    absurd (get_elem?-All (λ y. x ≢ y) xs j a d.0 f (cc e))
distinct-place (x ∷ xs) (suc i) zero a d e f =
    absurd (get_elem?-All (λ y. x ≢ y) xs i a d.0 e (cc f))
distinct-place (x ∷ xs) (suc i) (suc j) a d e f = omega (arith, distinct-place xs i j a d.1 e f)

has-first : (xs : List ℕ) (i a : ℕ) → get_elem? xs i ≡ some a → (f : ℕ) × (first_of xs ≡ some f)
has-first [] i a h = absurd cc
has-first (x ∷ xs) i a h = (x, refl)

starts-with : (xs : List ℕ) (f : ℕ) → first_of xs ≡ some f → get_elem? xs 0 ≡ some f
starts-with [] f h = h
starts-with (x ∷ xs) f h = h

last_of-place :
    (xs : List ℕ) (i a : ℕ)
    → AllPairs (λ x y. x ≢ y) xs
    → get_elem? xs i ≡ some a
    → is_element (last_of xs) a ≡ (suc i == length xs)
last_of-place xs i a distinct here =
    let below = get_elem?-some xs i a here in
    elim (Bool-cases (suc i == length xs)) [
      | inl end ↦
          let at_end : length xs - 1 ≡ i = ground arith in
          rw (at_end, here, end) ((==_iff a a).1 refl)
      | inr middle ↦
          let (b, there) = get_elem?-below xs (length xs - 1) (omega arith) in
          elim (Bool-cases (b == a)) [
            | inl same ↦
                let place =
                  distinct-place xs i (length xs - 1) a distinct here
                    (there ∙ ap some ((==_iff b a).0 same)) in
                absurd (ground arith)
            | inr other ↦ rw (there, other, middle) refl
          ]
    ]

first_of-place :
    (xs : List ℕ) (i a f : ℕ)
    → AllPairs (λ x y. x ≢ y) xs
    → get_elem? xs i ≡ some a
    → first_of xs ≡ some f
    → (f == a) ≡ (i == 0)
first_of-place [] i a f distinct here first = absurd cc
first_of-place (x ∷ xs) i a f distinct here first = elim (Bool-cases (i == 0)) [
  | inl start ↦
      let zeroth : i ≡ 0 = (==_iff i 0).0 start in
      let same : x ≡ a = cc (rw zeroth at here) in rw start ((==_iff f a).1 (sym (cc first) ∙ same))
  | inr later ↦ elim (Bool-cases (f == a)) [
    | inl same ↦
        let place =
          distinct-place (x ∷ xs) i 0 a distinct here (first ∙ ap some ((==_iff f a).0 same)) in
        absurd (ground arith)
    | inr other ↦ rw (other, later) refl
  ]
]

module _ (browser : (shift : Bool) → (active : ℕ) → ℕ) where
  press-forward :
      (d : Dialog) (i a f : ℕ)
      → AllPairs (λ x y. x ≢ y) d.focusable
      → FollowsOrder browser d
      → first_of d.focusable ≡ some f
      → get_elem? d.focusable i ≡ some a
      → get_elem? d.focusable (turn false (length d.focusable) i)
        ≡ some (press_tab browser false d a)
  unfolding press_tab handle_key_down
  press-forward d i a f distinct follows first here =
      let below = get_elem?-some d.focusable i a here in
      elim (Bool-cases (suc i == length d.focusable)) [
        | inl end ↦
            rw (first, last_of-place d.focusable i a distinct here, end)
              (starts-with d.focusable f first)
        | inr middle ↦
            let (b, there) = get_elem?-below d.focusable (suc i) (ground arith) in
            rw (first, last_of-place d.focusable i a distinct here, middle)
              (there ∙ ap some (sym (follows.forward i a b here there)))
      ]

  press-backward :
      (d : Dialog) (i a f : ℕ)
      → AllPairs (λ x y. x ≢ y) d.focusable
      → FollowsOrder browser d
      → first_of d.focusable ≡ some f
      → get_elem? d.focusable i ≡ some a
      → get_elem? d.focusable (turn true (length d.focusable) i) ≡ some (press_tab browser true d a)
  unfolding press_tab handle_key_down
  press-backward d i a f distinct follows first here =
      let below = get_elem?-some d.focusable i a here in
      let start = first_of-place d.focusable i a f distinct here first in
      elim (Bool-cases (i == 0)) [
        | inl zeroth ↦
            let (b, there) = get_elem?-below d.focusable (length d.focusable - 1) (omega arith) in
            rw (first, start, zeroth, there) refl
        | inr later ↦
            let (b, there) = get_elem?-below d.focusable (i - 1) (omega arith) in
            let again : get_elem? d.focusable (suc (i - 1)) ≡ some a =
              subst (λ k. get_elem? d.focusable k ≡ some a) (ground arith) here in
            rw (first, start, later)
              (there ∙ ap some (sym (follows.backward (i - 1) b a there again)))
      ]

  -- Where the browser moves the focus along the order of the page, the Tab key in a trapped dialog is a
  -- step around a cycle, forward and with Shift backward: from the element at a place it leads to the
  -- next place, from the last to the first, and never out of the dialog.
  pub press_tab-turn :
      (shift : Bool) (d : Dialog) (i a : ℕ)
      → AllPairs (λ x y. x ≢ y) d.focusable
      → FollowsOrder browser d
      → get_elem? d.focusable i ≡ some a
      → get_elem? d.focusable (turn shift (length d.focusable) i)
        ≡ some (press_tab browser shift d a)
  press_tab-turn shift d i a distinct follows here =
      let (f, first) = has-first d.focusable i a here in
      elim shift
        as (λ s.
          get_elem? d.focusable (turn s (length d.focusable) i) ≡ some (press_tab browser s d a)) [
            | false ↦ press-forward d i a f distinct follows first here
            | true ↦ press-backward d i a f distinct follows first here
          ]
