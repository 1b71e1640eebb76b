-- ===== src/Queue/Invariant.antt =====
-- When the polling of frontend/src/hooks/useQueuePolling.ts should run, and how many requests it
-- may have under way.
use locketgoldhuydev.Prelude.{
  ℕ, suc, ◌+◌, ◌≡◌, ◌≢◌, ◌≤◌, inl, inr, refl, Bool, true, false, ◌||◌, Option, none, some, List, [],
  ◌∷◌, arith, String, All, truthy, Bool-cases, ◌==◌, if◌then◌else◌,
}
use locketgoldhuydev.Queue.{View}
use locketgoldhuydev.Queue.Polling.{Poller, Hook, wants, start_poll, start_effect}
use locketgoldhuydev.Queue.Events.{remove, is_under_way}

abbrev pub count : ℕ → List ℕ → ℕ
count n [] = 0
count n (m ∷ ms) = (if m == n then 1 else 0) + count n ms

-- The requests that the current run has under way.
abbrev pub polls : Option Poller → ℕ
polls none = 0
polls (some p) = if p.is_polling then 1 else 0

abbrev pub Follows : View → Option Poller → Type 0
Follows v none = ⊥
Follows v (some p) = (v.client_id ≡ some p.client_id) × (v.status ≡ p.status)

abbrev pub Matches : Bool → Hook → Type 0
Matches true h = Follows h.view h.poller
Matches false h = (h.poller ≡ none) × (h.timer ≡ none)

-- The effect runs for what the page shows and else there is neither a run nor a timer; the current
-- run has its one request under way or none; and no later run has asked for anything.
pub record IsSound (h : Hook) : Type 0 where
  pub matches : Matches (wants h) h
  pub single : count h.run_number h.in_flight ≡ polls h.poller
  pub past : All (λ n. n ≤ h.run_number) h.in_flight

count_future : (n : ℕ) (ms : List ℕ) → All (λ m. m ≤ n) ms → count (suc n) ms ≡ 0
count_future n [] h = refl
count_future n (m ∷ ms) h = ground (arith, count_future n ms h.1)

All-later : (n : ℕ) (ms : List ℕ) → All (λ m. m ≤ n) ms → All (λ m. m ≤ suc n) ms
All-later n [] h = tt
All-later n (m ∷ ms) h = (omega arith, All-later n ms h.1)

pub count-remove :
    (n : ℕ) (ms : List ℕ) → is_under_way n ms ≡ true → suc (count n (remove n ms)) ≡ count n ms
count-remove n [] h = absurd cc
count-remove n (m ∷ ms) h = ground (arith, count-remove n ms)

pub count-remove_other : (n k : ℕ) (ms : List ℕ) → k ≢ n → count n (remove k ms) ≡ count n ms
count-remove_other n k [] h = refl
count-remove_other n k (m ∷ ms) h = ground (arith, count-remove_other n k ms h)

pub All-remove : (P : ℕ → Type 0) (n : ℕ) (ms : List ℕ) → All P ms → All P (remove n ms)
All-remove P n [] h = tt
All-remove P n (m ∷ ms) h = elim (Bool-cases (m == n)) [
  | inl hit ↦ rw hit h.1
  | inr miss ↦ rw miss (h.0, All-remove P n ms h.1)
]

-- Any view that is awaited has a run, so a run that does not poll may begin to.
pub start_poll-IsSound :
    (p : Poller) (h : Hook) → h.poller ≡ some p → IsSound h → IsSound (start_poll p h)
unfolding start_poll
start_poll-IsSound p h e v = elim (Bool-cases (p.is_polling || h.is_hidden)) [
  | inl busy ↦ rw busy v
  | inr free ↦ elim (Bool-cases (wants h)) [
    | inl wanted ↦
        let m : Matches true h = rw wanted at v.matches in
        let f : Follows h.view (some p) = rw e at m in
        rw free (record {
          matches = rw wanted f;
          single = ground (arith, v.single, rw e at v.single);
          past = (omega arith, v.past);
        })
    | inr unwanted ↦ let m : Matches false h = rw unwanted at v.matches in absurd (ground arith)
  ]
]

named_client : (c : Option String) → truthy c ≡ true → c ≡ some (elim c [ none ↦ "" | some d ↦ d ])
named_client none h = absurd cc
named_client (some d) h = refl

pub start_effect-IsSound :
    (h : Hook) → All (λ n. n ≤ h.run_number) h.in_flight → IsSound (start_effect h)
unfolding start_effect
start_effect-IsSound h past = elim (Bool-cases (wants h)) [
  | inl wanted ↦ rw wanted (
      start_poll-IsSound _ _ refl (record {
        matches = rw wanted (named_client h.view.client_id (ground arith), refl);
        single = count_future h.run_number h.in_flight past;
        past = All-later h.run_number h.in_flight past;
      }))
  | inr unwanted ↦ rw unwanted (record {
    matches = rw unwanted (refl, refl);
    single = count_future h.run_number h.in_flight past;
    past = All-later h.run_number h.in_flight past;
  })
]
