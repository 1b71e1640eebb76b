-- ===== src/Queue.antt =====
-- frontend/src/hooks/useQueuePolling.ts: the place of one activation in the queue, as the page shows
-- it, the copy in `sessionStorage`, and the polling of the server. Queue/Polling has the effect
-- that polls, Queue/Events all that can happen to the hook.
pub mod Polling
pub mod Events
pub mod Invariant
pub mod Runs
pub mod Answers
pub mod Logout
use locketgoldhuydev.Prelude.{
  ℕ, Bool, true, false, Option, none, some, String, truthy, or_text, or_ℕ, if◌then◌else◌,
}

pub data DevicePlatform : Type 0 where
  ios android : DevicePlatform

-- `QueueItemStatus`, and `idle` for no activation.
pub data QueueStatus : Type 0 where
  idle waiting processing completed error not_found : QueueStatus

-- `res.result`, of which the page looks at these fields.
pub record QueueResult : Type 0 where
  pub success : Bool
  pub msg : Option String

pub record StoredSession : Type 0 where
  pub client_id : Option String
  pub username : Option String
  pub platform : Option DevicePlatform

-- What `sessionStorage` holds under the key: nothing, a text that is no JSON, or a session.
pub data Storage : Type 0 where
  empty unreadable : Storage
  stored : StoredSession → Storage

pub record View : Type 0 where
  pub client_id : Option String
  pub target_username : String
  pub platform : Option DevicePlatform
  pub status : QueueStatus
  pub position : ℕ
  pub total_queue : ℕ
  pub estimated_time : ℕ
  pub result : Option QueueResult
  pub error_text : Option String
  pub is_open : Bool
  pub storage : Storage

-- `ActiveQueueItem`
pub record ActiveItem : Type 0 where
  pub client_id : String
  pub username : Option String
  pub platform : Option DevicePlatform
  pub status : QueueStatus
  pub position : Option ℕ
  pub total_queue : Option ℕ
  pub estimated_time : Option ℕ

abbrev keep_platform : Option DevicePlatform → Option DevicePlatform → Option DevicePlatform
keep_platform none old = old
keep_platform (some p) old = some p

restore_session : StoredSession → View → View
restore_session s v = record v {
  client_id = s.client_id;
  target_username = or_text s.username "";
  platform = keep_platform s.platform v.platform;
  status = waiting;
  is_open = true;
}

-- The effect that restores the page: the new view, and whether the server is asked for the user's
-- active item. `ready` is `!isLoading && isAuthenticated && accessToken`.
unfoldable pub restore : (ready : Bool) → View → View × Bool
unfolding restore_session
restore ready v = elim v.storage [
  | empty ↦ (v, ready)
  | unreadable ↦ (record v { storage = empty }, ready)
  | stored s ↦ if truthy s.client_id then (restore_session s v, false) else (v, ready)
]

-- The answer to that question, if it names an active item.
unfoldable pub restore_active : ActiveItem → View → View
restore_active a v = record v {
  client_id = some a.client_id;
  target_username = or_text a.username "";
  platform = keep_platform a.platform v.platform;
  status = a.status;
  position = or_ℕ a.position 1;
  total_queue = or_ℕ a.total_queue 1;
  estimated_time = or_ℕ a.estimated_time 5;
  is_open = true;
}

-- `resetQueue`, and what the effect of a logout does to the view.
unfoldable pub reset_queue : View → View
reset_queue v = record v {
  client_id = none;
  platform = none;
  status = idle;
  position = 0;
  total_queue = 0;
  estimated_time = 0;
  result = none;
  error_text = none;
  is_open = false;
  storage = empty;
}

unfoldable pub close_queue : View → View
close_queue v = record v { is_open = false }

-- `saved` says whether `sessionStorage.setItem` went through.
unfoldable pub start_queue :
    (new_client_id username : String)
    → DevicePlatform
    → (initial_pos initial_total initial_time : ℕ) → (saved : Bool) → View
    → View
start_queue new_client_id username new_platform initial_pos initial_total initial_time saved v =
    record v {
      client_id = some new_client_id;
      target_username = username;
      platform = some new_platform;
      status = waiting;
      position = initial_pos;
      total_queue = initial_total;
      estimated_time = initial_time;
      result = none;
      error_text = none;
      is_open = true;
      storage =
          (if saved
            then stored (record {
              client_id = some new_client_id;
              username = some username;
              platform = some new_platform;
            })
            else v.storage);
    }
