-- ===== src/Queue/Runs.antt =====
-- The events of frontend/src/hooks/useQueuePolling.ts and the polling.
use locketgoldhuydev.Prelude.{
  ◌≡◌, ◌≤◌, inl, inr, refl, sym, ap, ◌∙◌, Bool, true, false, Option, none, some, arith, String,
  eq_iff, All, Bool-cases, Option-cases, and-true,
}
use locketgoldhuydev.Queue.{QueueStatus, View, restore, reset_queue}
use locketgoldhuydev.Queue.Polling.{Poller, Hook, wants, poll}
use locketgoldhuydev.Queue.Events.{
  same_dependencies, same_client, same_status, same_flag, with_view, react, on_auth, on_visibility,
  on_timer,
}
use locketgoldhuydev.Queue.Invariant.{
  Follows, Matches, IsSound, start_poll-IsSound, start_effect-IsSound,
}

same_client-eq : (c d : Option String) → same_client c d ≡ true → c ≡ d
same_client-eq none none h = refl
same_client-eq none (some d) h = absurd cc
same_client-eq (some c) none h = absurd cc
same_client-eq (some c) (some d) h = ap some ((eq_iff c d).0 h)

same_status-eq : (s t : QueueStatus) → same_status s t ≡ true → s ≡ t
same_status-eq s t h = ground arith

same_flag-eq : (a b : Bool) → same_flag a b ≡ true → a ≡ b
same_flag-eq a b h = ground arith

-- What a hook must share with a sound one: the dependencies, the run, the timer and the requests.
pub record Agrees (h h' : Hook) : Type 0 where
  pub client : h.view.client_id ≡ h'.view.client_id
  pub status : h.view.status ≡ h'.view.status
  pub flag : h.is_authenticated ≡ h'.is_authenticated
  pub poller : h'.poller ≡ h.poller
  pub timer : h'.timer ≡ h.timer
  pub number : h'.run_number ≡ h.run_number
  pub flight : h'.in_flight ≡ h.in_flight

wants-Agrees : (h h' : Hook) → Agrees h h' → wants h' ≡ wants h
wants-Agrees h h' a = cc (sym a.client)

Follows-Agrees :
    (v v' : View) (p : Option Poller)
    → v.client_id ≡ v'.client_id
    → v.status ≡ v'.status
    → Follows v p
    → Follows v' p
Follows-Agrees v v' none c s f = f
Follows-Agrees v v' (some p) c s f = (sym c ∙ f.0, sym s ∙ f.1)

pub Agrees-IsSound : (h h' : Hook) → Agrees h h' → IsSound h → IsSound h'
Agrees-IsSound h h' a v = record {
  matches = rw (wants-Agrees h h' a) (go (wants h) v.matches);
  single = rw (a.number, a.flight, a.poller) v.single;
  past = rw (a.number, a.flight) v.past;
}
  where
    go : (b : Bool) → Matches b h → Matches b h'
    go true f = rw a.poller (Follows-Agrees h.view h'.view h.poller a.client a.status f)
    go false q = (a.poller ∙ q.0, a.timer ∙ q.1)

pub same_dependencies-parts :
    (h h' : Hook)
    → same_dependencies h h' ≡ true
    → (h.view.client_id ≡ h'.view.client_id)
      × (h.view.status ≡ h'.view.status)
      × (h.is_authenticated ≡ h'.is_authenticated)
same_dependencies-parts h h' e =
    let (ab, c) = and-true _ _ e in
    let (a, b) = and-true _ _ ab in (same_client-eq _ _ a, same_status-eq _ _ b, same_flag-eq _ _ c)

pub react-IsSound :
    (h h' : Hook)
    → All (λ n. n ≤ h'.run_number) h'.in_flight
    → (same_dependencies h h' ≡ true → IsSound h')
    → IsSound (react h h')
unfolding react
react-IsSound h h' past keep = elim (Bool-cases (same_dependencies h h')) [
  | inl same ↦ rw same (keep same)
  | inr changed ↦ rw changed (start_effect-IsSound h' past)
]

-- An event that changes the view alone.
pub with_view-IsSound : (h : Hook) (v : View) → IsSound h → IsSound (react h (with_view v h))
with_view-IsSound h v s = react-IsSound h (with_view v h) s.past λ same.
    let (c, t, f) = same_dependencies-parts h (with_view v h) same in
    Agrees-IsSound h (with_view v h)
      (record {
        client = c;
        status = t;
        flag = f;
        poller = refl;
        timer = refl;
        number = refl;
        flight = refl;
      })
      s

poll-IsSound : (h : Hook) → IsSound h → IsSound (poll h)
unfolding poll
poll-IsSound h s = elim (Option-cases h.poller) [
  | inl e ↦ rw (e, poll) s
  | inr (p, e) ↦ rw (e, poll) (start_poll-IsSound p h e s)
]

-- A hook without its timer, and one whose tab is shown or hidden.
untimed-IsSound : (h : Hook) → IsSound h → IsSound (record h { timer = none })
untimed-IsSound h s = record { matches = go (wants h) s.matches; single = s.single; past = s.past }
  where
    go : (b : Bool) → Matches b h → Matches b (record h { timer = none })
    go true f = f
    go false q = (q.0, refl)

pub on_timer-IsSound : (h : Hook) → IsSound h → IsSound (on_timer h)
unfolding on_timer
on_timer-IsSound h s = elim (Option-cases h.timer) [
  | inl e ↦ rw (e, on_timer) s
  | inr (d, e) ↦ rw (e, on_timer) (poll-IsSound _ (untimed-IsSound h s))
]

pub on_visibility-IsSound : (b : Bool) (h : Hook) → IsSound h → IsSound (on_visibility b h)
unfolding on_visibility
on_visibility-IsSound true h s = record {
  matches = go (wants h) s.matches;
  single = s.single;
  past = s.past;
}
  where
    go : (b : Bool) → Matches b h → Matches b (record h { is_hidden = true })
    go true f = f
    go false q = q
on_visibility-IsSound false h s =
    poll-IsSound _ (record { matches = go (wants h) s.matches; single = s.single; past = s.past })
  where
    go : (b : Bool) → Matches b h → Matches b (record h { is_hidden = false })
    go true f = f
    go false q = q

-- A login keeps the run unless it changes a dependency; a logout ends it.
pub on_auth-IsSound : (b ready : Bool) (h : Hook) → IsSound h → IsSound (on_auth b ready h)
unfolding on_auth
on_auth-IsSound true ready h s = react-IsSound h _ s.past λ same.
    let h' = record h { view = (restore ready h.view).0; is_authenticated = true } in
    let (c, t, f) = same_dependencies-parts h h' same in
    Agrees-IsSound h h'
      (record {
        client = c;
        status = t;
        flag = f;
        poller = refl;
        timer = refl;
        number = refl;
        flight = refl;
      })
      s
on_auth-IsSound false ready h s = react-IsSound h _ s.past λ same.
    let h' = record h {
      view = reset_queue (restore ready h.view).0;
      is_authenticated = false;
      timer = none;
    } in
    let (c, t, f) = same_dependencies-parts h h' same in
    Agrees-IsSound (record h { timer = none }) h'
      (record {
        client = c;
        status = t;
        flag = f;
        poller = refl;
        timer = refl;
        number = refl;
        flight = refl;
      })
      (untimed-IsSound h s)
