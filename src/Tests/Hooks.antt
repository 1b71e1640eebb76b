-- ===== src/Tests/Hooks.antt =====
-- Runs of the hooks under frontend/src/hooks and of the theme.
use locketgoldhuydev.Prelude.{
  ℕ, zero, suc, ◌+◌, ◌-◌, ◌≡◌, refl, Bool, true, false, some, none, List, [], ◌∷◌, arith, get_elem?,
}
use locketgoldhuydev.Hooks.LiveRefresh.{
  Live, Event, interval, focus, visibility, network, enables, finishes,
}
use locketgoldhuydev.Hooks.Theme.{
  dark, light, Document, initial_theme, Action, toggles, sets, reloads, mount, run, promised, Shows,
  run-promised,
}
use locketgoldhuydev.Hooks.FocusTrap.{Dialog, FollowsOrder, press_tab}
use locketgoldhuydev.Hooks.FocusTrap.Cycle.{turn, press_tab-turn}

abbrev live : Live
live = record {
  enabled = true;
  is_visible = true;
  is_online = true;
  effect = 0;
  in_flight = false;
  under_way = [];
}

abbrev events : List Event
events =
    interval
    ∷ focus
    ∷ enables false
    ∷ enables true
    ∷ network true
    ∷ finishes 0
    ∷ visibility false
    ∷ []

abbrev page : Document
page = record {
  has_dark = false;
  has_light = false;
  color_scheme = some "light";
  works = true;
  stored = some "dark";
}

abbrev switches : List Action
switches = toggles ∷ toggles ∷ reloads ∷ sets light ∷ toggles ∷ reloads ∷ []

theme_tests : (initial_theme page ≡ dark) × (promised switches dark ≡ dark)
unfolding initial_theme
theme_tests = (refl, refl)

run-promised_example : Shows (promised switches (initial_theme page)) (run switches (mount page))
run-promised_example = run-promised switches page refl

abbrev dialog : Dialog
dialog = record { container = 9; autofocus = none; focusable = 5 ∷ 6 ∷ 7 ∷ [] }

-- A browser that follows these three elements.
abbrev browser : Bool → ℕ → ℕ
browser false e = e + 1
browser true e = e - 1

neighbours :
    (i a b : ℕ)
    → get_elem? dialog.focusable i ≡ some a
    → get_elem? dialog.focusable (suc i) ≡ some b
    → b ≡ a + 1
neighbours zero a b h k = let e : 5 ≡ a = cc h in let f : 6 ≡ b = cc k in omega arith
neighbours (suc zero) a b h k = let e : 6 ≡ a = cc h in let f : 7 ≡ b = cc k in omega arith
neighbours (suc (suc i)) a b h k = absurd (beyond i k)
  where
    beyond : (j : ℕ) → ¬ (get_elem? dialog.focusable (suc (suc (suc j))) ≡ some b)
    beyond j e = cc e

browser-FollowsOrder : FollowsOrder browser dialog
browser-FollowsOrder = record {
  forward = λ i a b h k. omega (arith, neighbours i a b h k);
  backward = λ i a b h k. omega (arith, neighbours i a b h k);
}

press_tab-turn_example :
    get_elem? (5 ∷ 6 ∷ 7 ∷ []) (turn false 3 2) ≡ some (press_tab browser false dialog 7)
press_tab-turn_example =
    press_tab-turn browser false dialog 2 7
      (
        ((λ e. absurd (omega arith)), ((λ e. absurd (omega arith)), tt)),
        (((λ e. absurd (omega arith)), tt), (tt, tt)),
      )
      browser-FollowsOrder refl
