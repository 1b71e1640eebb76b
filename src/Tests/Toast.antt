-- ===== src/Tests/Toast.antt =====
-- Runs of the toasts (frontend/src/context/ToastContext.tsx and ToastViewport.tsx).
use locketgoldhuydev.Prelude.{ℕ, ◌≡◌, refl, false, none, some, List, [], ◌∷◌, arith, any}
use locketgoldhuydev.Toast.{success, error, general, ToastInput, ToastMessage, is_duplicate}
use locketgoldhuydev.Toast.Queue.{Action, shows, dismisses, run, IsQueue, run-IsQueue}

abbrev paid : ToastInput
paid = record {
  id = none;
  type = success;
  title = "paid";
  message = none;
  options = record { duration = some 6000; dedupe_key = some "order-1"; channel = none };
}

abbrev clicks : List Action
clicks =
    shows "a" paid
    ∷ shows "b" paid
    ∷ shows "c" (record paid {
      type = error;
      options = record { duration = none; dedupe_key = none; channel = none };
    })
    ∷ dismisses "a"
    ∷ []

empty-IsQueue : IsQueue []
empty-IsQueue = record { short = omega arith; apart = tt }

run-IsQueue_example : IsQueue (run clicks [])
run-IsQueue_example = run-IsQueue clicks [] empty-IsQueue

abbrev paid_toast : ToastMessage
paid_toast = record {
  id = "a";
  type = success;
  title = "paid";
  message = none;
  duration = 6000;
  dedupe_key = some "order-1";
  channel = general;
}

abbrev other_toast : ToastMessage
other_toast = record paid_toast { id = "b"; dedupe_key = some "order-2" }

new_toast : any (is_duplicate other_toast) (paid_toast ∷ []) ≡ false
unfolding is_duplicate
new_toast = refl

abbrev pauses : List (ℕ × ℕ)
pauses = (1500, 2500) ∷ (3000, 9000) ∷ []
