-- ===== src/Site/Dismissal.antt =====
-- What lasts when an announcement is closed: frontend/src/components/common/GlobalAnnouncementPopup.tsx
-- over everything that can happen to the page, loading it anew included.
use locketgoldhuydev.Prelude.{
  ℕ, ◌≡◌, Bool, true, false, not, ◌&&◌, Option, none, some, List, [], ◌∷◌, arith, Text, text_eq,
  any, ltb, leb, ◌==◌, or_else, if-elim, if◌then◌else◌,
}
use locketgoldhuydev.Site.Types.{
  DisplayMode, once_per_session, once_per_version, every_visit, always, AnnouncementPopup,
}
use locketgoldhuydev.Site.Popup.{
  Storage, Announcer, version_of, mode_of, is_visible, write_dismissed, remove_snooze, load_snooze,
  end_snooze, handle_dismiss, handle_snooze, is_every_visit, visit_again, navigate, set_popup,
  reload,
}

-- What can happen, with its time where it counts.
pub data Event : Type 0 where
  navigates : Text → Event
  receives : ℕ → Option AnnouncementPopup → Event
  dismisses : Event
  snoozes : ℕ → Event
  snooze_ends : ℕ → Event
  reloads : ℕ → Event

abbrev pub step : Event → Announcer → Announcer
step (navigates path) a = navigate path a
step (receives now popup) a = set_popup now popup a
step dismisses a = handle_dismiss a
step (snoozes now) a = handle_snooze now a
step (snooze_ends now) a = end_snooze now a
step (reloads now) a = reload now a

abbrev pub run : List Event → Announcer → Announcer
run [] a = a
run (e ∷ events) a = run events (step e a)

-- The storage works and holds that the version was closed.
abbrev IsSeen : ℕ → Storage → Type 0
IsSeen v s = (s.works ≡ true) × (any (λ w. w == v) s.local_dismissed ≡ true)

remove_snooze-IsSeen : (v w : ℕ) (s : Storage) → IsSeen v s → IsSeen v (remove_snooze w s)
remove_snooze-IsSeen v w s h = if-elim (IsSeen v) s.works _ _ (λ _. h) (λ _. h)

load_snooze-IsSeen :
    (v now : ℕ) (a : Announcer) → IsSeen v a.storage → IsSeen v (load_snooze now a).storage
unfolding load_snooze
load_snooze-IsSeen v now a h =
    if-elim (λ (b : Announcer). IsSeen v b.storage) a.storage.works _ _
      (λ works.
        if-elim (λ (b : Announcer). IsSeen v b.storage) (ltb now _) _ _ (λ later. h)
          (λ over. remove_snooze-IsSeen v _ a.storage h))
      (λ broken. h)

visit_again-IsSeen : (v : ℕ) (a : Announcer) → IsSeen v a.storage → IsSeen v (visit_again a).storage
visit_again-IsSeen v a h =
    if-elim (λ (b : Announcer). IsSeen v b.storage) (is_every_visit a.popup) _ _ (λ _. h) (λ _. h)

write_dismissed-IsSeen :
    (v w : ℕ) (m : DisplayMode) (s : Storage) → IsSeen v s → IsSeen v (write_dismissed m w s)
write_dismissed-IsSeen v w once_per_session s h = if-elim (IsSeen v) s.works _ _ (λ _. h) (λ _. h)
write_dismissed-IsSeen v w once_per_version s h =
    if-elim (IsSeen v) s.works _ _ (λ _. (h.0, ground arith)) (λ _. h)
write_dismissed-IsSeen v w every_visit s h = h
write_dismissed-IsSeen v w always s h = h

handle_dismiss-IsSeen :
    (v : ℕ) (a : Announcer) → IsSeen v a.storage → IsSeen v (handle_dismiss a).storage
unfolding handle_dismiss
handle_dismiss-IsSeen v a h =
    elim a.popup as (λ o. IsSeen v (handle_dismiss (record a { popup = o })).storage) [
      | none ↦ h
      | some p ↦
          if-elim (λ (b : Announcer). IsSeen v b.storage) (or_else p.dismissible true) _ _
            (λ _. write_dismissed-IsSeen v _ (mode_of p) a.storage h) (λ _. h)
    ]

set_popup-IsSeen :
    (v now : ℕ) (popup : Option AnnouncementPopup) (a : Announcer)
    → IsSeen v a.storage
    → IsSeen v (set_popup now popup a).storage
unfolding set_popup
set_popup-IsSeen v now popup a h =
    let fresh = record a { popup = popup } in
    let known =
      if version_of popup == version_of a.popup
      then fresh
      else load_snooze now (record fresh { is_dismissed_in_session = false }) in
    let seen : IsSeen v known.storage =
      if-elim (λ (b : Announcer). IsSeen v b.storage) (version_of popup == version_of a.popup) _ _
        (λ _. h)
        (λ _. load_snooze-IsSeen v now (record fresh { is_dismissed_in_session = false }) h) in
    if-elim (λ (b : Announcer). IsSeen v b.storage) (is_every_visit a.popup) _ _ (λ _. seen)
      (λ _. visit_again-IsSeen v known seen)

step-IsSeen : (v : ℕ) (e : Event) (a : Announcer) → IsSeen v a.storage → IsSeen v (step e a).storage
unfolding navigate handle_snooze end_snooze reload
step-IsSeen v (navigates path) a h =
    if-elim (λ (b : Announcer). IsSeen v b.storage) (text_eq path a.path) _ _ (λ _. h)
      (λ _. visit_again-IsSeen v _ h)
step-IsSeen v (receives now popup) a h = set_popup-IsSeen v now popup a h
step-IsSeen v dismisses a h = handle_dismiss-IsSeen v a h
step-IsSeen v (snoozes now) a h = if-elim (IsSeen v) a.storage.works _ _ (λ _. h) (λ _. h)
step-IsSeen v (snooze_ends now) a h =
    if-elim (λ (b : Announcer). IsSeen v b.storage)
      (not (a.snoozed_until == 0) && leb a.snoozed_until now)
      (record a { snoozed_until = 0; storage = remove_snooze (version_of a.popup) a.storage }) a
      (λ _. remove_snooze-IsSeen v (version_of a.popup) a.storage h) (λ _. h)
step-IsSeen v (reloads now) a h =
    load_snooze-IsSeen v now
      (record a { popup = none; is_dismissed_in_session = false; snoozed_until = 0 }) h

run-IsSeen :
    (v : ℕ) (events : List Event) (a : Announcer)
    → IsSeen v a.storage
    → IsSeen v (run events a).storage
run-IsSeen v [] a h = h
run-IsSeen v (e ∷ events) a h = run-IsSeen v events (step e a) (step-IsSeen v e a h)

handle_dismiss_begins :
    (a : Announcer) (p : AnnouncementPopup)
    → a.popup ≡ some p
    → or_else p.dismissible true ≡ true
    → mode_of p ≡ once_per_version
    → a.storage.works ≡ true
    → IsSeen (version_of (some p)) (handle_dismiss a).storage
unfolding handle_dismiss
handle_dismiss_begins a p e can m works = ground arith

IsSeen-hidden :
    (now : ℕ) (is_authenticated : Bool) (a : Announcer) (q : AnnouncementPopup)
    → a.popup ≡ some q
    → mode_of q ≡ once_per_version
    → IsSeen (version_of (some q)) a.storage
    → is_visible now is_authenticated a ≡ false
unfolding is_visible
IsSeen-hidden now is_authenticated a q e m h = let seen = h.1 in let works = h.0 in ground arith

-- Where the storage of the browser works, an announcement that is shown once per version and has been
-- closed stays hidden: whatever happens afterwards, loading the page anew included, an announcement
-- with that display mode and that version is never visible again, at any time, with or without a
-- session.
pub run-dismissed :
    (a : Announcer) (p q : AnnouncementPopup) (events : List Event) (now : ℕ)
    (is_authenticated : Bool)
    → a.popup ≡ some p
    → or_else p.dismissible true ≡ true
    → mode_of p ≡ once_per_version
    → a.storage.works ≡ true
    → (run events (handle_dismiss a)).popup ≡ some q
    → mode_of q ≡ once_per_version
    → version_of (some q) ≡ version_of (some p)
    → is_visible now is_authenticated (run events (handle_dismiss a)) ≡ false
run-dismissed a p q events now is_authenticated e can m works f n same =
    IsSeen-hidden now is_authenticated _ q f n
      (rw same (run-IsSeen _ events _ (handle_dismiss_begins a p e can m works)))
