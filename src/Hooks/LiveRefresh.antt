-- ===== src/Hooks/LiveRefresh.antt =====
-- frontend/src/hooks/useLiveRefresh.ts: a refresh every few seconds while the page is visible and
-- online. `in_flight` belongs to one run of the effect; a refresh keeps the number of its run.
use locketgoldhuydev.Prelude.{
  ℕ, suc, ◌≤◌, ◌<◌, ◌≡◌, ◌≢◌, inl, inr, Bool, true, false, not, ◌||◌, List, [], ◌∷◌, arith, filter,
  All, ◌==◌, Bool-cases, if◌then◌else◌,
}
use locketgoldhuydev.Prelude.Pairs.{AllPairs}

pub record Live : Type 0 where
  pub enabled : Bool
  pub is_visible : Bool
  pub is_online : Bool
  -- The number of the effect's runs, and the variable of the last one.
  pub effect : ℕ
  pub in_flight : Bool
  -- The runs whose call of `refresh` has not ended.
  pub under_way : List ℕ

-- `run`, from an interval or an event.
unfoldable pub run : Live → Live
run h =
    if h.in_flight || not h.is_visible || not h.is_online
    then h
    else record h { in_flight = true; under_way = h.effect ∷ h.under_way }

-- An event or an interval reaches `run` only while the effect has its listeners.
abbrev pub fire : Live → Live
fire h = if h.enabled then run h else h

-- `finally { inFlight = false }`, in the run of the effect that made the call.
unfoldable pub finish : ℕ → Live → Live
finish effect h = record h {
  in_flight = if effect == h.effect then false else h.in_flight;
  under_way = filter (λ e. not (e == effect)) h.under_way;
}

abbrev pub same_flag : Bool → Bool → Bool
same_flag true b = b
same_flag false b = not b

-- The effect runs anew where `enabled` changes.
unfoldable pub set_enabled : Bool → Live → Live
set_enabled b h =
    if same_flag b h.enabled
    then h
    else record h { enabled = b; effect = suc h.effect; in_flight = false }

-- `visibilitychange`
unfoldable pub on_visibility : Bool → Live → Live
unfolding run
on_visibility b h = let h1 = record h { is_visible = b } in if b then fire h1 else h1

-- The browser comes online, which fires `run`, or goes offline.
unfoldable pub on_network : Bool → Live → Live
unfolding run
on_network b h = let h1 = record h { is_online = b } in if b then fire h1 else h1

pub data Event : Type 0 where
  interval focus : Event
  visibility network enables : Bool → Event
  finishes : ℕ → Event

unfoldable pub step : Event → Live → Live
unfolding run finish set_enabled on_visibility on_network
step interval h = fire h
step focus h = fire h
step (visibility b) h = on_visibility b h
step (network b) h = on_network b h
step (enables b) h = set_enabled b h
step (finishes effect) h = finish effect h

-- One call at most for each run of the effect; the last run has one exactly if its variable says so.
pub record IsSingle (h : Live) : Type 0 where
  pub single : AllPairs (λ a b. a ≢ b) h.under_way
  pub past : All (λ e. e ≤ h.effect) h.under_way
  pub marked : h.in_flight ≡ false → All (λ e. e < h.effect) h.under_way

without_last :
    (n : ℕ) (es : List ℕ) → All (λ e. e ≤ n) es → All (λ e. e < n) (filter (λ e. not (e == n)) es)
without_last n [] h = tt
without_last n (e ∷ es) h = elim (Bool-cases (e == n)) [
  | inl same ↦ rw same (without_last n es h.1)
  | inr other ↦
      let le = h.0 in let lt : e < n = ground arith in rw other (lt, without_last n es h.1)
]

abbrev pub steps : List Event → Live → Live
steps [] h = h
steps (e ∷ events) h = steps events (step e h)
