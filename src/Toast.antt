-- ===== src/Toast.antt =====
-- frontend/src/context/ToastContext.tsx: the queue of toasts. The id that `Date.now` and
-- `Math.random` make up is an argument. A field of the options that is absent is `none`.
pub mod Queue
pub mod Timer
use locketgoldhuydev.Prelude.{
  ℕ, ◌-◌, Bool, true, false, not, ◌&&◌, ◌||◌, Option, none, some, List, [], ◌∷◌, ◌++◌, String,
  length, drop, filter, any, truthy, str_eq, or_else, or_text, if◌then◌else◌,
}

pub data ToastType : Type 0 where
  success error warning info : ToastType

pub data ToastChannel : Type 0 where
  general auth : ToastChannel

pub record ToastOptions : Type 0 where
  pub duration : Option ℕ
  pub dedupe_key : Option String
  pub channel : Option ToastChannel

pub record ToastInput : Type 0 where
  pub id : Option String
  pub type : ToastType
  pub title : String
  pub message : Option String
  pub options : ToastOptions

pub record ToastMessage : Type 0 where
  pub id : String
  pub type : ToastType
  pub title : String
  pub message : Option String
  pub duration : ℕ
  pub dedupe_key : Option String
  pub channel : ToastChannel

abbrev pub max_queued_toasts : ℕ
max_queued_toasts = 20

-- `a === b` on keys that may be missing.
abbrev same_key : Option String → Option String → Bool
same_key none none = true
same_key none (some k) = false
same_key (some k) none = false
same_key (some k) (some j) = str_eq k j

unfoldable pub dismiss_toast : String → List ToastMessage → List ToastMessage
dismiss_toast id = filter (λ toast. not (str_eq toast.id id))

unfoldable pub next_toast : (fresh : String) → ToastInput → ToastMessage
next_toast fresh t = record {
  id = or_text t.id fresh;
  type = t.type;
  title = t.title;
  message = t.message;
  duration = or_else t.options.duration 4000;
  dedupe_key = t.options.dedupe_key;
  channel = or_else t.options.channel general;
}

unfoldable pub is_duplicate : ToastMessage → ToastMessage → Bool
is_duplicate next item =
    str_eq item.id next.id || (truthy next.dedupe_key && same_key item.dedupe_key next.dedupe_key)

-- `[...current, next].slice(-MAX_QUEUED_TOASTS)`
abbrev pub last_toasts : List ToastMessage → List ToastMessage
last_toasts ts = drop (length ts - max_queued_toasts) ts

unfoldable pub enqueue : ToastMessage → List ToastMessage → List ToastMessage
enqueue next current =
    if any (is_duplicate next) current then current else last_toasts (current ++ next ∷ [])

unfoldable pub show_toast : (fresh : String) → ToastInput → List ToastMessage → List ToastMessage
unfolding next_toast
show_toast fresh toast current = enqueue (next_toast fresh toast) current

-- `success`, `error`, `warning` and `info`.
unfoldable pub create_typed_helper :
    ToastType → (title : String) → (message : Option String) → ToastOptions → ToastInput
create_typed_helper type title message options = record {
  id = none;
  type = type;
  title = title;
  message = message;
  options = options;
}

unfoldable pub has_auth_toast : List ToastMessage → Bool
has_auth_toast = any (λ toast. elim toast.channel [ auth ↦ true | general ↦ false ])
