-- ===== src/Queue/Answers.antt =====
-- Answers to the polling of frontend/src/hooks/useQueuePolling.ts, and all sequences of events.
use locketgoldhuydev.Prelude.{◌≡◌}
use locketgoldhuydev.Queue.Polling.{Hook}

-- An answer is applied to the view; run, requests and login stay.
record SameRun (h h' : Hook) : Type 0 where
  poller : h'.poller ≡ h.poller
  number : h'.run_number ≡ h.run_number
  flight : h'.in_flight ≡ h.in_flight
  flag : h'.is_authenticated ≡ h.is_authenticated
