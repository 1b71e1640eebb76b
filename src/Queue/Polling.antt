-- ===== src/Queue/Polling.antt =====
-- The effect of frontend/src/hooks/useQueuePolling.ts that polls the server. React runs it again when
-- one of its dependencies changes: the old run is cleaned up, and its answers are ignored from then
-- on (`isMounted`). Runs are numbered, so that an answer names the run that asked.
use locketgoldhuydev.Prelude.{
  ℕ, suc, Bool, true, false, ◌&&◌, ◌||◌, Option, none, some, List, ◌∷◌, String, truthy, or_null,
  if◌then◌else◌, str_eq,
}
use locketgoldhuydev.Queue.{
  DevicePlatform, QueueStatus, idle, waiting, processing, completed, error, not_found, QueueResult,
  empty, View, keep_platform,
}

-- `QueueStatusResponse`
pub record StatusResponse : Type 0 where
  pub status : QueueStatus
  pub position : ℕ
  pub total_queue : ℕ
  pub estimated_time : ℕ
  pub platform : Option DevicePlatform
  pub result : Option QueueResult
  pub error_text : Option String

-- `fetchQueueStatus` answers, or fails with status 404 and a message, or fails otherwise.
pub data Answer : Type 0 where
  replied : StatusResponse → Answer
  missing : (message : String) → Answer
  failed : Answer

-- One run of the effect, with the dependencies that its closure holds.
pub record Poller : Type 0 where
  pub client_id : String
  pub status : QueueStatus
  pub is_polling : Bool

pub record Hook : Type 0 where
  pub view : View
  pub is_authenticated : Bool
  -- `document.hidden`
  pub is_hidden : Bool
  pub has_logged_error : Bool
  -- The number of the latest run, and that run if it has not returned at once.
  pub run_number : ℕ
  pub poller : Option Poller
  -- The delay of the pending timer.
  pub timer : Option ℕ
  -- The runs whose requests are under way.
  pub in_flight : List ℕ

abbrev pub is_terminal : QueueStatus → Bool
is_terminal completed = true
is_terminal error = true
is_terminal not_found = true
is_terminal idle = false
is_terminal waiting = false
is_terminal processing = false

abbrev pub is_active : QueueStatus → Bool
is_active waiting = true
is_active processing = true
is_active completed = false
is_active error = false
is_active not_found = false
is_active idle = false

abbrev pub delay : QueueStatus → ℕ
delay processing = 2000
delay _ = 4000

abbrev pub wants : Hook → Bool
wants h = truthy h.view.client_id && is_active h.view.status && h.is_authenticated

-- `poll` up to its first `await`.
unfoldable pub start_poll : Poller → Hook → Hook
start_poll p h = if p.is_polling || h.is_hidden then h else record h {
  poller = some (record p { is_polling = true });
  in_flight = h.run_number ∷ h.in_flight;
}

unfoldable pub poll : Hook → Hook
poll h = elim h.poller [ none ↦ h | some p ↦ start_poll p h ]

unfoldable pub schedule_next : Poller → Hook → Hook
schedule_next p h =
    if h.is_hidden then record h { timer = none } else record h { timer = some (delay p.status) }

-- The cleanup of the old run and the start of a new one, which polls at once.
unfoldable pub start_effect : Hook → Hook
start_effect h =
    let clean = record h { timer = none; poller = none; run_number = suc h.run_number } in
    if wants h
    then (let p : Poller = record {
      client_id = elim h.view.client_id [ none ↦ "" | some c ↦ c ];
      status = h.view.status;
      is_polling = false;
    } in
        start_poll p (record clean { poller = some p }))
    else clean

apply_response : StatusResponse → View → View
apply_response r v = record v {
  status = r.status;
  position = r.position;
  total_queue = r.total_queue;
  estimated_time = r.estimated_time;
  platform = keep_platform r.platform v.platform;
  result = elim r.result [ none ↦ v.result | some x ↦ some x ];
  error_text = elim (or_null r.error_text) [ none ↦ v.error_text | some e ↦ some e ];
  storage = if is_terminal r.status then empty else v.storage;
}

-- `err.message || '…'`
abbrev not_found_text : String → String
not_found_text m =
    if str_eq m "" then "Yêu cầu không tồn tại hoặc không thuộc quyền sở hữu của bạn." else m

-- The body of `poll` after the `await`.
unfoldable pub apply_answer : Answer → Hook → Hook
unfolding apply_response
apply_answer (replied r) h = record h {
  view = apply_response r h.view;
  has_logged_error = if is_terminal r.status then h.has_logged_error else false;
}
apply_answer (missing m) h = record h {
  view = record (h.view) {
    status = not_found;
    error_text = some (not_found_text m);
    storage = empty;
  };
}
apply_answer failed h = record h { has_logged_error = true }

-- `finally`
unfoldable pub finish_poll : Hook → Hook
finish_poll h = elim h.poller [
  | none ↦ h
  | some p ↦ schedule_next p (record h { poller = some (record p { is_polling = false }) })
]
