-- ===== src/Prelude/Values.antt =====
-- JavaScript's truth of values that may be missing, and its `||`, over opaque texts.
use Prim.Native.Nat.{ℕ}
use Prim.Native.String.{String}
use mathlib.Core.Bool.{Bool, true, false, not}
use mathlib.Core.Option.{Option, none, some}
use text.Mathlib.Text.{◌==◌ as same_text}
use locketgoldhuydev.Prelude.Tests.{if◌then◌else◌, ◌==◌}

-- `s === t` on opaque texts, which the program compares and never takes apart.
abbrev pub str_eq : String → String → Bool
str_eq = same_text

-- A text is false if it is empty, `null` and `undefined` are false.
abbrev pub truthy : Option String → Bool
truthy none = false
truthy (some s) = not (str_eq s "")

-- A number is false if it is 0.
abbrev pub truthy_ℕ : Option ℕ → Bool
truthy_ℕ none = false
truthy_ℕ (some n) = not (n == 0)

-- `value || fallback`
abbrev pub or_text : Option String → String → String
or_text none d = d
or_text (some s) d = if str_eq s "" then d else s

abbrev pub or_ℕ : Option ℕ → ℕ → ℕ
or_ℕ none d = d
or_ℕ (some n) d = if n == 0 then d else n

-- `value || null`
abbrev pub or_null : Option String → Option String
or_null none = none
or_null (some s) = if str_eq s "" then none else some s

-- `value ?? fallback`
abbrev pub or_else {ℓ} : {A : Type ℓ} → Option A → A → A
or_else none d = d
or_else (some a) d = a

abbrev pub is_some {ℓ} : {A : Type ℓ} → Option A → Bool
is_some none = false
is_some (some a) = true
