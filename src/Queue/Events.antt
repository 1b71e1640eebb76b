-- ===== src/Queue/Events.antt =====
-- What can happen to the hook of frontend/src/hooks/useQueuePolling.ts while it is mounted: calls of
-- its functions, answers, timers, and changes of the login and of the tab. After each of them React
-- runs the polling effect again if one of its dependencies has changed.
use locketgoldhuydev.Prelude.{
  ℕ, Bool, true, false, ◌&&◌, ◌||◌, Option, none, some, List, [], ◌∷◌, String, str_eq, ◌==◌,
  if◌then◌else◌,
}
use locketgoldhuydev.Queue.{
  DevicePlatform, QueueStatus, idle, waiting, processing, completed, error, not_found, View,
  ActiveItem, restore, restore_active, reset_queue, close_queue, start_queue,
}
use locketgoldhuydev.Queue.Polling.{Answer, Hook, poll, start_effect, apply_answer, finish_poll}

abbrev pub same_status : QueueStatus → QueueStatus → Bool
same_status idle idle = true
same_status waiting waiting = true
same_status processing processing = true
same_status completed completed = true
same_status error error = true
same_status not_found not_found = true
same_status _ _ = false

abbrev pub same_client : Option String → Option String → Bool
same_client none none = true
same_client none (some c) = false
same_client (some c) none = false
same_client (some c) (some d) = str_eq c d

abbrev pub same_flag : Bool → Bool → Bool
same_flag true true = true
same_flag false false = true
same_flag true false = false
same_flag false true = false

-- The dependencies of the effect: `clientId`, `status` and `isAuthenticated`.
abbrev pub same_dependencies : Hook → Hook → Bool
same_dependencies h h' =
    same_client h.view.client_id h'.view.client_id
    && same_status h.view.status h'.view.status
    && same_flag h.is_authenticated h'.is_authenticated

-- React's rule, from the hook before an event to the hook after it.
unfoldable pub react : Hook → Hook → Hook
react before h = if same_dependencies before h then h else start_effect h

abbrev pub with_view : View → Hook → Hook
with_view v h = record h { view = v }

-- The answer of a run that is over is dropped: it is only no longer under way.
abbrev pub remove : ℕ → List ℕ → List ℕ
remove n [] = []
remove n (m ∷ ms) = if m == n then ms else m ∷ remove n ms

abbrev pub is_under_way : ℕ → List ℕ → Bool
is_under_way n [] = false
is_under_way n (m ∷ ms) = m == n || is_under_way n ms

unfoldable pub on_answer : ℕ → Answer → Hook → Hook
on_answer run a h =
    let h1 = record h { in_flight = remove run h.in_flight } in
    if run == h.run_number then react h (finish_poll (apply_answer a h1)) else h1

-- The two effects of a change of the login: the page is restored, and cleared on a logout, in the
-- order of the source. A logout also clears the pending timer.
unfoldable pub on_auth : (is_authenticated ready : Bool) → Hook → Hook
on_auth is_authenticated ready h =
    let v = (restore ready h.view).0 in
    react h (
      if is_authenticated
      then record h { view = v; is_authenticated = true }
      else record h { view = reset_queue v; is_authenticated = false; timer = none })

unfoldable pub on_visibility : (is_hidden : Bool) → Hook → Hook
on_visibility is_hidden h =
    let h1 = record h { is_hidden = is_hidden } in if is_hidden then h1 else poll h1

-- A timer fires only where one is pending.
unfoldable pub on_timer : Hook → Hook
on_timer h = elim h.timer [ none ↦ h | some d ↦ poll (record h { timer = none }) ]

-- Answers come to requests that are under way.
pub data Event : Type 0 where
  starts :
      (new_client_id username : String)
      → DevicePlatform
      → (pos total time : ℕ) → (saved : Bool) → Event
  closes resets timer_fires : Event
  restores : ActiveItem → Event
  answers : (run : ℕ) → Answer → Event
  changes_auth : (is_authenticated ready : Bool) → Event
  changes_visibility : (is_hidden : Bool) → Event

unfoldable pub step : Event → Hook → Hook
step (starts c u p pos total time saved) h =
    react h (with_view (start_queue c u p pos total time saved h.view) h)
step closes h = react h (with_view (close_queue h.view) h)
step resets h = react h (with_view (reset_queue h.view) h)
step timer_fires h = on_timer h
step (restores a) h = react h (with_view (restore_active a h.view) h)
step (answers run a) h = if is_under_way run h.in_flight then on_answer run a h else h
step (changes_auth is_authenticated ready) h = on_auth is_authenticated ready h
step (changes_visibility is_hidden) h = on_visibility is_hidden h

unfoldable pub run : List Event → Hook → Hook
run [] h = h
run (e ∷ events) h = run events (step e h)
