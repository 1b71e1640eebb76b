-- ===== src/Queue/Logout.antt =====
-- What a logout leaves of the queue (frontend/src/hooks/useQueuePolling.ts).
use locketgoldhuydev.Prelude.{◌≡◌, refl, ap, Bool, false, inl, inr, none, Bool-cases}
use locketgoldhuydev.Queue.{empty, reset_queue, restore}
use locketgoldhuydev.Queue.Polling.{Hook, wants, start_effect, start_poll}
use locketgoldhuydev.Queue.Events.{react, on_auth, same_dependencies}
use locketgoldhuydev.Queue.Invariant.{Matches, IsSound}
use locketgoldhuydev.Queue.Runs.{on_auth-IsSound}

start_effect-view : (h : Hook) → (start_effect h).view ≡ h.view
unfolding start_effect start_poll
start_effect-view h = elim (Bool-cases (wants h)) [
  | inl wanted ↦
      rw wanted
        (elim (Bool-cases h.is_hidden) [ inl hidden ↦ rw hidden refl | inr shown ↦ rw shown refl ])
  | inr unwanted ↦ rw unwanted refl
]

react-view : (h h' : Hook) → (react h h').view ≡ h'.view
unfolding react
react-view h h' = elim (Bool-cases (same_dependencies h h')) [
  | inl same ↦ rw same refl
  | inr changed ↦ rw changed (start_effect-view h')
]

on_auth-view :
    (ready : Bool) (h : Hook) → (on_auth false ready h).view ≡ reset_queue (restore ready h.view).0
unfolding on_auth
on_auth-view ready h = react-view h _

-- What a logout leaves of the hook: nothing of the user's activation on the page or in the storage,
-- and neither a run of the polling nor a timer.
pub record IsCleared (h : Hook) : Type 0 where
  pub client : h.view.client_id ≡ none
  pub outcome : h.view.result ≡ none
  pub failure : h.view.error_text ≡ none
  pub closed : h.view.is_open ≡ false
  pub forgotten : h.view.storage ≡ empty
  pub no_poller : h.poller ≡ none
  pub no_timer : h.timer ≡ none

unwanted : (h : Hook) → h.view.client_id ≡ none → wants h ≡ false
unwanted h e = rw e refl

-- From any state that the hook can be in, an end of the login clears it, even where the page has
-- just read a stored session; no timer and no run of the polling survives it.
pub on_auth-IsCleared : (ready : Bool) (h : Hook) → IsSound h → IsCleared (on_auth false ready h)
unfolding reset_queue
on_auth-IsCleared ready h s =
    let e = on_auth-view ready h in
    let none_left = ap (λ v. v.client_id) e in
    let m : Matches false (on_auth false ready h) =
      rw (unwanted (on_auth false ready h) none_left) at
        (on_auth-IsSound false ready h s).matches in
    record {
      client = none_left;
      outcome = ap (λ v. v.result) e;
      failure = ap (λ v. v.error_text) e;
      closed = ap (λ v. v.is_open) e;
      forgotten = ap (λ v. v.storage) e;
      no_poller = m.0;
      no_timer = m.1;
    }
