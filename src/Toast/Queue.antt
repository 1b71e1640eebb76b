-- ===== src/Toast/Queue.antt =====
-- The length of the queue of frontend/src/context/ToastContext.tsx, and its duplicates.
use locketgoldhuydev.Prelude.{
  ◌-◌, ◌≡◌, ◌≢◌, ◌≤◌, ◌<◌, inl, inr, ap, ◌∙◌, true, false, not, some, List, [], ◌∷◌, ◌++◌, arith,
  String, eq_iff, eq_refl, length, length-append, length-drop, drop, filter, any, All, str_eq,
  Bool-cases,
}
use locketgoldhuydev.Prelude.Pairs.{
  AllPairs, AllPairs-filter, AllPairs-drop, AllPairs-snoc, any-false, All-map, length-filter-le,
  filter-snoc,
}
use locketgoldhuydev.Toast.{
  ToastMessage, ToastInput, max_queued_toasts, dismiss_toast, is_duplicate, enqueue, show_toast,
}

-- Two toasts differ in their ids, and in their keys where both have one that is not empty.
abbrev pub Apart : ToastMessage → ToastMessage → Type 0
Apart t u = (t.id ≢ u.id) × ((k : String) → k ≢ "" → t.dedupe_key ≡ some k → u.dedupe_key ≢ some k)

pub record IsQueue (ts : List ToastMessage) : Type 0 where
  pub short : length ts ≤ max_queued_toasts
  pub apart : AllPairs Apart ts

is_duplicate-Apart : (next item : ToastMessage) → is_duplicate next item ≡ false → Apart item next
unfolding is_duplicate
is_duplicate-Apart next item h =
    (ground (arith, eq_iff item.id next.id), λ k full p q. ground (arith, eq_iff k "", eq_iff k k))

dismiss_toast-IsQueue :
    (id : String) (ts : List ToastMessage) → IsQueue ts → IsQueue (dismiss_toast id ts)
unfolding dismiss_toast
dismiss_toast-IsQueue id ts v = record {
  short = omega (arith, v.short, length-filter-le (λ toast. not (str_eq toast.id id)) ts);
  apart = AllPairs-filter Apart _ ts v.apart;
}

enqueue-IsQueue :
    (next : ToastMessage) (ts : List ToastMessage) → IsQueue ts → IsQueue (enqueue next ts)
unfolding enqueue
enqueue-IsQueue next ts v = elim (Bool-cases (any (is_duplicate next) ts)) [
  | inl duplicate ↦ rw duplicate v
  | inr new ↦ rw new (record {
    short =
        omega (arith, length-drop (length (ts ++ next ∷ []) - max_queued_toasts) (ts ++ next ∷ []));
    apart = AllPairs-drop Apart _ (ts ++ next ∷ []) (
        AllPairs-snoc Apart ts next v.apart
          (All-map _ _ ts (is_duplicate-Apart next) (any-false _ ts new)));
  })
]

-- What the pages do with toasts.
pub data Action : Type 0 where
  shows : (fresh : String) → ToastInput → Action
  dismisses : (id : String) → Action

pub step : Action → List ToastMessage → List ToastMessage
step (shows fresh toast) ts = show_toast fresh toast ts
step (dismisses id) ts = dismiss_toast id ts

pub run : List Action → List ToastMessage → List ToastMessage
run [] ts = ts
run (a ∷ actions) ts = run actions (step a ts)

step-IsQueue : (a : Action) (ts : List ToastMessage) → IsQueue ts → IsQueue (step a ts)
unfolding step show_toast
step-IsQueue (shows fresh toast) ts v = enqueue-IsQueue _ ts v
step-IsQueue (dismisses id) ts v = dismiss_toast-IsQueue id ts v

-- From such a queue, whatever is shown and dismissed: at most 20 toasts wait, no two of them with
-- the same id or the same deduplication key.
pub run-IsQueue :
    (actions : List Action) (ts : List ToastMessage) → IsQueue ts → IsQueue (run actions ts)
unfolding run
run-IsQueue [] ts v = v
run-IsQueue (a ∷ actions) ts v = run-IsQueue actions (step a ts) (step-IsQueue a ts v)

new-kept :
    (next : ToastMessage) (ts : List ToastMessage)
    → any (is_duplicate next) ts ≡ false
    → All (λ toast. not (str_eq toast.id next.id) ≡ true) ts
unfolding is_duplicate
new-kept next ts new = All-map _ _ ts (λ item h. ground arith) (any-false _ ts new)

-- Showing a toast that is no duplicate and dismissing it gives back the queue, unless it was full.
pub dismiss_toast-enqueue :
    (next : ToastMessage) (ts : List ToastMessage)
    → length ts < max_queued_toasts
    → any (is_duplicate next) ts ≡ false
    → dismiss_toast next.id (enqueue next ts) ≡ ts
unfolding dismiss_toast enqueue
dismiss_toast-enqueue next ts room new = rw new (
    ap (λ n. filter (λ toast. not (str_eq toast.id next.id)) (drop n (ts ++ next ∷ []))) fits
    ∙ filter-snoc _ ts next (new-kept next ts new) (ap not (eq_refl next.id)))
  where
    fits : length (ts ++ next ∷ []) - max_queued_toasts ≡ 0
    fits = omega (arith, length-append ts (next ∷ []))
