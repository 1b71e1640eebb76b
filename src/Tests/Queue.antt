-- ===== src/Tests/Queue.antt =====
-- Runs of frontend/src/hooks/useQueuePolling.ts.
use locketgoldhuydev.Prelude.{true, false, none, some, List, [], ◌∷◌}
use locketgoldhuydev.Queue.{ios, idle, waiting, completed, stored, View}
use locketgoldhuydev.Queue.Polling.{StatusResponse, replied, Hook}
use locketgoldhuydev.Queue.Events.{Event, starts, closes, timer_fires, answers, changes_visibility}

abbrev no_view : View
no_view = record {
  client_id = none;
  target_username = "";
  platform = none;
  status = idle;
  position = 0;
  total_queue = 0;
  estimated_time = 0;
  result = none;
  error_text = none;
  is_open = false;
  storage = stored (record { client_id = some "c7"; username = some "ann"; platform = some ios });
}

abbrev first_page : Hook
first_page = record {
  view = no_view;
  is_authenticated = true;
  is_hidden = false;
  has_logged_error = false;
  run_number = 0;
  poller = none;
  timer = none;
  in_flight = [];
}

abbrev done : StatusResponse
done = record {
  status = completed;
  position = 0;
  total_queue = 0;
  estimated_time = 0;
  platform = some ios;
  result = none;
  error_text = none;
}

abbrev activation : List Event
activation =
    starts "c7" "ann" ios 3 5 120000 true
    ∷ changes_visibility true
    ∷ changes_visibility false
    ∷ answers 1 (replied (record done { status = waiting }))
    ∷ timer_fires
    ∷ answers 1 (replied done)
    ∷ closes
    ∷ []
