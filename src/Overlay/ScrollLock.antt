-- ===== src/Overlay/ScrollLock.antt =====
-- frontend/src/hooks/useScrollLock.ts: the scroll locks that nested dialogs take and give back. Locks
-- are numbers; the styles of the page's body that the locks change are a record.
use locketgoldhuydev.Prelude.{
  ℕ, ◌≡◌, inl, inr, Bool, true, false, not, List, [], ◌∷◌, arith, String, ltb, filter, any, ◌==◌,
  Bool-cases, if◌then◌else◌,
}

pub data Padding : Type 0 where
  style : String → Padding
  px : ℕ → Padding

pub record BodyStyle : Type 0 where
  pub overflow : String
  pub padding_right : Padding
  pub scroll_locked : Bool

pub record Locks : Type 0 where
  pub active_locks : List ℕ
  pub original_overflow : String
  pub original_padding_right : Padding
  pub body : BodyStyle

-- The styles while a lock is held; a page with no scroll bar keeps its padding.
hidden_body : ℕ → BodyStyle → BodyStyle
hidden_body scrollbar_width b = record b {
  overflow = "hidden";
  padding_right = if ltb 0 scrollbar_width then px scrollbar_width else b.padding_right;
  scroll_locked = true;
}

-- `if (activeLocks.size === 0)` before a lock is added, and after one is deleted.
first_lock : ℕ → List ℕ → Locks → Locks
unfolding hidden_body
first_lock width [] l = record l {
  original_overflow = l.body.overflow;
  original_padding_right = l.body.padding_right;
  body = hidden_body width l.body;
}
first_lock width (a ∷ locks) l = l

last_unlock : List ℕ → Locks → Locks
last_unlock [] l = record l {
  body = record {
    overflow = l.original_overflow;
    padding_right = l.original_padding_right;
    scroll_locked = false;
  };
}
last_unlock (a ∷ locks) l = l

abbrev holds : ℕ → List ℕ → Bool
holds id = any (λ a. a == id)

pub acquire : ℕ → ℕ → Locks → Locks
unfolding first_lock
acquire id width l =
    if holds id l.active_locks
    then l
    else (let l1 = first_lock width l.active_locks l in
        record l1 { active_locks = id ∷ l1.active_locks })

-- The cleanup of the effect that took the lock.
pub release : ℕ → Locks → Locks
unfolding last_unlock
release id l =
    let left = filter (λ a. not (a == id)) l.active_locks in
    last_unlock left (record l { active_locks = left })

pub data Action : Type 0 where
  acquires : (id width : ℕ) → Action
  releases : (id : ℕ) → Action

-- An effect has a cleanup only where it took its lock.
pub step : Action → Locks → Locks
step (acquires id width) l = acquire id width l
step (releases id) l = if holds id l.active_locks then release id l else l

pub run : List Action → Locks → Locks
run [] l = l
run (a ∷ actions) l = run actions (step a l)

-- With no lock the page has its own styles; with locks these are kept, and the page does not scroll.
abbrev pub Held : BodyStyle → List ℕ → Locks → Type 0
Held b [] l = l.body ≡ b
Held b (a ∷ locks) l =
    (l.body.overflow ≡ "hidden")
    × (l.body.scroll_locked ≡ true)
    × (l.original_overflow ≡ b.overflow)
    × (l.original_padding_right ≡ b.padding_right)

abbrev pub IsKept : BodyStyle → Locks → Type 0
IsKept b l = Held b l.active_locks l

abbrev state : List ℕ → String → Padding → BodyStyle → Locks
state locks o p c = record {
  active_locks = locks;
  original_overflow = o;
  original_padding_right = p;
  body = c;
}

acquire-IsKept :
    (b : BodyStyle) (id width : ℕ) (locks : List ℕ) (o : String) (p : Padding) (c : BodyStyle)
    → IsKept b (state locks o p c)
    → IsKept b (acquire id width (state locks o p c))
unfolding acquire
acquire-IsKept b id width [] o p c h = ground arith
acquire-IsKept b id width (a ∷ locks) o p c h = elim (Bool-cases (holds id (a ∷ locks))) [
  | inl held ↦ rw held h
  | inr free ↦ rw free h
]

last_unlock-Held :
    (b : BodyStyle) (left : List ℕ) (o : String) (p : Padding) (c : BodyStyle)
    → b.scroll_locked ≡ false
    → (c.overflow ≡ "hidden") × (c.scroll_locked ≡ true) × (o ≡ b.overflow) × (p ≡ b.padding_right)
    → IsKept b (last_unlock left (state left o p c))
unfolding last_unlock
last_unlock-Held b [] o p c off h = ground arith
last_unlock-Held b (a ∷ left) o p c off h = h

release-IsKept :
    (b : BodyStyle) (id : ℕ) (locks : List ℕ) (o : String) (p : Padding) (c : BodyStyle)
    → b.scroll_locked ≡ false
    → holds id locks ≡ true
    → IsKept b (state locks o p c)
    → IsKept b (release id (state locks o p c))
unfolding release
release-IsKept b id [] o p c off held h = absurd cc
release-IsKept b id (a ∷ locks) o p c off held h =
    last_unlock-Held b (filter (λ k. not (k == id)) (a ∷ locks)) o p c off h

step-IsKept :
    (b : BodyStyle) (a : Action) (l : Locks)
    → b.scroll_locked ≡ false
    → IsKept b l
    → IsKept b (step a l)
unfolding step
step-IsKept b (acquires id width) l off h =
    acquire-IsKept b id width l.active_locks l.original_overflow l.original_padding_right l.body h
step-IsKept b (releases id) l off h = elim (Bool-cases (holds id l.active_locks)) [
  | inl held ↦ rw held (
      release-IsKept b id l.active_locks l.original_overflow l.original_padding_right l.body off
        held h)
  | inr free ↦ rw free h
]

-- From a page in this state whose own styles are not marked as locked, in every order of opening
-- and closing: the page does not scroll while any dialog holds a lock, and has its own styles back
-- when none does.
pub run-IsKept :
    (b : BodyStyle) (actions : List Action) (l : Locks)
    → b.scroll_locked ≡ false
    → IsKept b l
    → IsKept b (run actions l)
unfolding run
run-IsKept b [] l off h = h
run-IsKept b (a ∷ actions) l off h = run-IsKept b actions (step a l) off (step-IsKept b a l off h)
