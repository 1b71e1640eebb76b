-- ===== src/Site/Snoozing.antt =====
-- The two hours for which an announcement is put off:
-- frontend/src/components/common/GlobalAnnouncementPopup.tsx.
use locketgoldhuydev.Prelude.{
  ℕ, ◌+◌, ◌≤◌, ◌<◌, ◌≡◌, refl, sym, subst, ◌∙◌, ==_iff, Bool, true, false, not, ◌&&◌, Option, none,
  some, List, [], ◌∷◌, inl, inr, arith, text_eq, All, filter, ltb, leb, ◌==◌, or_else, Bool-cases,
  if-elim, if◌then◌else◌,
}
use locketgoldhuydev.Site.Types.{
  DisplayMode, once_per_session, once_per_version, every_visit, always, AnnouncementPopup,
}
use locketgoldhuydev.Site.Popup.{
  two_hours, Storage, Announcer, version_of, mode_of, is_visible, write_dismissed, remove_snooze,
  find_snooze, load_snooze, end_snooze, handle_dismiss, handle_snooze, is_every_visit, visit_again,
  navigate, set_popup, reload,
}
use locketgoldhuydev.Site.Dismissal.{
  Event, navigates, receives, dismisses, snoozes, snooze_ends, reloads, step, run,
}

-- An event of the two hours.
abbrev pub Within : ℕ → Event → Type 0
Within start (receives now popup) = (start ≤ now) × (now < start + two_hours)
Within start (snoozes now) = (start ≤ now) × (now < start + two_hours)
Within start (snooze_ends now) = (start ≤ now) × (now < start + two_hours)
Within start (reloads now) = (start ≤ now) × (now < start + two_hours)
Within start (navigates path) = Unit
Within start dismisses = Unit

-- The storage keeps the end of the snooze, and so does the component while it shows the version.
record IsSnoozed (v until : ℕ) (a : Announcer) : Type 0 where
  works : a.storage.works ≡ true
  stored : until ≤ find_snooze v a.storage.snoozes
  shown : version_of a.popup ≡ v → until ≤ a.snoozed_until

find_snooze-filter :
    (v w : ℕ) (es : List (ℕ × ℕ))
    → (w == v) ≡ false
    → find_snooze v (filter (λ e. not (e.0 == w)) es) ≡ find_snooze v es
find_snooze-filter v w [] n = refl
find_snooze-filter v w (e ∷ es) n = elim (Bool-cases (e.0 == w)) [
  | inl same ↦ let rest = find_snooze-filter v w es n in ground arith
  | inr other ↦ let rest = find_snooze-filter v w es n in ground arith
]

-- Removing another version's snooze.
remove_snooze-stored :
    (v w : ℕ) (s : Storage)
    → (w == v) ≡ false
    → find_snooze v (remove_snooze w s).snoozes ≡ find_snooze v s.snoozes
remove_snooze-stored v w s n =
    if-elim (λ (t : Storage). find_snooze v t.snoozes ≡ find_snooze v s.snoozes) s.works _ _
      (λ _. find_snooze-filter v w s.snoozes n) (λ _. refl)

remove_snooze-works : (w : ℕ) (s : Storage) → (remove_snooze w s).works ≡ s.works
remove_snooze-works w s =
    if-elim (λ (t : Storage). t.works ≡ s.works) s.works _ _ (λ _. refl) (λ _. refl)

load_snooze-IsSnoozed :
    (v until now : ℕ) (a : Announcer)
    → now < until
    → a.storage.works ≡ true
    → until ≤ find_snooze v a.storage.snoozes
    → IsSnoozed v until (load_snooze now a)
unfolding load_snooze
load_snooze-IsSnoozed v until now a early works stored =
    let w = version_of a.popup in
    let found = find_snooze w a.storage.snoozes in
    if-elim (IsSnoozed v until) a.storage.works _ _
      (λ _.
        if-elim (IsSnoozed v until) (ltb now found) _ _
          (λ later. record {
            works = works;
            stored = stored;
            shown = λ same. subst (λ u. until ≤ find_snooze u a.storage.snoozes) (sym same) stored;
          })
          (λ over.
            let apart : (w == v) ≡ false = elim (Bool-cases (w == v)) [
              | inl same ↦
                  let long =
                    subst (λ u. until ≤ find_snooze u a.storage.snoozes) (sym ((==_iff w v).0 same))
                      stored in
                  absurd (ground arith)
              | inr other ↦ other
            ] in
            record {
              works = remove_snooze-works w a.storage ∙ works;
              stored = rw (remove_snooze-stored v w a.storage apart) stored;
              shown = λ same. absurd (ground arith);
            }))
      (λ broken. absurd (ground arith))

visit_again-IsSnoozed :
    (v until : ℕ) (a : Announcer) → IsSnoozed v until a → IsSnoozed v until (visit_again a)
visit_again-IsSnoozed v until a h =
    if-elim (IsSnoozed v until) (is_every_visit a.popup) _ _
      (λ _. record { works = h.works; stored = h.stored; shown = h.shown }) (λ _. h)

write_dismissed-snoozes :
    (m : DisplayMode) (w : ℕ) (s : Storage)
    → ((write_dismissed m w s).snoozes ≡ s.snoozes) × ((write_dismissed m w s).works ≡ s.works)
write_dismissed-snoozes once_per_session w s = ground arith
write_dismissed-snoozes once_per_version w s = ground arith
write_dismissed-snoozes every_visit w s = (refl, refl)
write_dismissed-snoozes always w s = (refl, refl)

handle_dismiss-IsSnoozed :
    (v until : ℕ) (a : Announcer) → IsSnoozed v until a → IsSnoozed v until (handle_dismiss a)
unfolding handle_dismiss
handle_dismiss-IsSnoozed v until a h =
    elim a.popup
        as (λ o.
          (version_of o ≡ v → until ≤ a.snoozed_until)
          → IsSnoozed v until (handle_dismiss (record a { popup = o }))) [
            | none ↦ λ shown. record { works = h.works; stored = h.stored; shown = shown }
            | some p ↦ λ shown.
                let same = write_dismissed-snoozes (mode_of p) (version_of (some p)) a.storage in
                if-elim (IsSnoozed v until) (or_else p.dismissible true) _ _
                  (λ _. record {
                    works = same.1 ∙ h.works;
                    stored = subst (λ es. until ≤ find_snooze v es) (sym same.0) h.stored;
                    shown = shown;
                  })
                  (λ _. record { works = h.works; stored = h.stored; shown = shown })
          ]
      h.shown

handle_snooze-IsSnoozed :
    (v until now : ℕ) (a : Announcer)
    → until ≤ now + two_hours
    → IsSnoozed v until a
    → IsSnoozed v until (handle_snooze now a)
unfolding handle_snooze
handle_snooze-IsSnoozed v until now a late h =
    let w = version_of a.popup in
    record {
      works =
          if-elim (λ (t : Storage). t.works ≡ true) a.storage.works _ _ (λ _. h.works)
            (λ _. h.works);
      stored =
          if-elim (λ (t : Storage). until ≤ find_snooze v t.snoozes) a.storage.works _ _
            (λ _.
              if-elim (λ n. until ≤ n) (w == v) _ _ (λ _. late)
                (λ other. rw (find_snooze-filter v w a.storage.snoozes other) h.stored))
            (λ _. h.stored);
      shown = λ _. late;
    }

end_snooze-IsSnoozed :
    (v until now : ℕ) (a : Announcer)
    → now < until
    → IsSnoozed v until a
    → IsSnoozed v until (end_snooze now a)
unfolding end_snooze
end_snooze-IsSnoozed v until now a early h =
    let w = version_of a.popup in
    if-elim (IsSnoozed v until) (not (a.snoozed_until == 0) && leb a.snoozed_until now) _ _
      (λ ends.
        let apart : (w == v) ≡ false = elim (Bool-cases (w == v)) [
          | inl same ↦ let long = h.shown ((==_iff w v).0 same) in absurd (ground arith)
          | inr other ↦ other
        ] in
        record {
          works = remove_snooze-works w a.storage ∙ h.works;
          stored = rw (remove_snooze-stored v w a.storage apart) h.stored;
          shown = λ same. absurd (ground arith);
        })
      (λ _. h)

set_popup-IsSnoozed :
    (v until now : ℕ) (popup : Option AnnouncementPopup) (a : Announcer)
    → now < until
    → IsSnoozed v until a
    → IsSnoozed v until (set_popup now popup a)
unfolding set_popup
set_popup-IsSnoozed v until now popup a early h =
    let fresh = record a { popup = popup } in
    let changed = record fresh { is_dismissed_in_session = false } in
    let known = if version_of popup == version_of a.popup then fresh else load_snooze now changed in
    let snoozed : IsSnoozed v until known =
      if-elim (IsSnoozed v until) (version_of popup == version_of a.popup) fresh _
        (λ same. record {
          works = h.works;
          stored = h.stored;
          shown = λ e. h.shown (sym ((==_iff _ _).0 same) ∙ e);
        })
        (λ _. load_snooze-IsSnoozed v until now changed early h.works h.stored) in
    if-elim (IsSnoozed v until) (is_every_visit a.popup) _ _ (λ _. snoozed)
      (λ _. visit_again-IsSnoozed v until known snoozed)

step-IsSnoozed :
    (v start : ℕ) (e : Event) (a : Announcer)
    → Within start e
    → IsSnoozed v (start + two_hours) a
    → IsSnoozed v (start + two_hours) (step e a)
unfolding navigate reload
step-IsSnoozed v start (navigates path) a w h =
    let moved = record a { path = path } in
    if-elim (IsSnoozed v (start + two_hours)) (text_eq path a.path) a _ (λ _. h)
      (λ _.
        visit_again-IsSnoozed v (start + two_hours) moved
          (record { works = h.works; stored = h.stored; shown = h.shown }))
step-IsSnoozed v start (receives now popup) a w h =
    set_popup-IsSnoozed v (start + two_hours) now popup a w.1 h
step-IsSnoozed v start dismisses a w h = handle_dismiss-IsSnoozed v (start + two_hours) a h
step-IsSnoozed v start (snoozes now) a w h =
    handle_snooze-IsSnoozed v (start + two_hours) now a (omega arith) h
step-IsSnoozed v start (snooze_ends now) a w h =
    end_snooze-IsSnoozed v (start + two_hours) now a w.1 h
step-IsSnoozed v start (reloads now) a w h =
    load_snooze-IsSnoozed v (start + two_hours) now
      (record a { popup = none; is_dismissed_in_session = false; snoozed_until = 0 }) w.1 h.works
      h.stored

run-IsSnoozed :
    (v start : ℕ) (events : List Event) (a : Announcer)
    → All (Within start) events
    → IsSnoozed v (start + two_hours) a
    → IsSnoozed v (start + two_hours) (run events a)
run-IsSnoozed v start [] a w h = h
run-IsSnoozed v start (e ∷ events) a w h =
    run-IsSnoozed v start events (step e a) w.1 (step-IsSnoozed v start e a w.0 h)

handle_snooze-begins :
    (start : ℕ) (a : Announcer)
    → a.storage.works ≡ true
    → IsSnoozed (version_of a.popup) (start + two_hours) (handle_snooze start a)
unfolding handle_snooze
handle_snooze-begins start a works = record {
  works = if-elim (λ (t : Storage). t.works ≡ true) a.storage.works _ _ (λ _. works) (λ _. works);
  stored =
      if-elim (λ (t : Storage). start + two_hours ≤ find_snooze (version_of a.popup) t.snoozes)
        a.storage.works _ _
        (λ _. rw ((==_iff (version_of a.popup) (version_of a.popup)).1 refl) (omega arith))
        (λ broken. absurd (ground arith));
  shown = λ _. omega arith;
}

IsSnoozed-hidden :
    (now : ℕ) (is_authenticated : Bool) (a : Announcer)
    → now < a.snoozed_until
    → is_visible now is_authenticated a ≡ false
unfolding is_visible
IsSnoozed-hidden now is_authenticated a early =
    elim a.popup as (λ o. is_visible now is_authenticated (record a { popup = o }) ≡ false) [
      | none ↦ refl
      | some p ↦ ground arith
    ]

-- Where the storage of the browser works, an announcement that is put off stays hidden for two hours:
-- whatever happens in between, loading the page anew, other versions and further closings included, as
-- long as the announcement has the same version it is not visible.
pub run-snoozed :
    (start now : ℕ) (is_authenticated : Bool) (a : Announcer) (events : List Event)
    → a.storage.works ≡ true
    → All (Within start) events
    → now < start + two_hours
    → version_of (run events (handle_snooze start a)).popup ≡ version_of a.popup
    → is_visible now is_authenticated (run events (handle_snooze start a)) ≡ false
run-snoozed start now is_authenticated a events works w early same =
    let kept =
      run-IsSnoozed (version_of a.popup) start events (handle_snooze start a) w
        (handle_snooze-begins start a works) in
    let long = kept.shown same in IsSnoozed-hidden now is_authenticated _ (omega arith)
