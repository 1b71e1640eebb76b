-- ===== src/Hooks/FocusTrap.antt =====
-- frontend/src/hooks/useFocusTrap.ts: the keyboard focus inside a dialog. Elements are numbers, and the
-- dialog has a list of those that can have the focus, in the order of the page.
pub mod Cycle
use locketgoldhuydev.Prelude.{
  ℕ, zero, suc, ◌+◌, ◌-◌, ◌*◌, ◌≤◌, ◌<◌, ◌%◌, ◌≡◌, ◌≢◌, refl, sym, subst, ◌∙◌, inl, inr, Bool, true,
  false, not, ◌&&◌, Option, none, some, List, [], ◌∷◌, arith, length, get_elem?, or_else, any, All,
  ◌==◌, ==_iff, Bool-cases, if-elim, if◌then◌else◌,
}
use locketgoldhuydev.Prelude.Pairs.{AllPairs}

-- The dialog: itself, what in it asks for the focus first, and what can have the focus.
pub record Dialog : Type 0 where
  pub container : ℕ
  pub autofocus : Option ℕ
  pub focusable : List ℕ

-- `focusable[0]`, `focusable[focusable.length - 1]`
abbrev pub first_of : List ℕ → Option ℕ
first_of [] = none
first_of (e ∷ es) = some e

abbrev pub last_of : List ℕ → Option ℕ
last_of es = get_elem? es (length es - 1)

-- The element that has the focus first.
unfoldable pub initial_target : Dialog → ℕ
initial_target d = elim d.autofocus [
  | some e ↦ e
  | none ↦ elim (first_of d.focusable) [ none ↦ d.container | some e ↦ e ]
]

abbrev pub is_element : Option ℕ → ℕ → Bool
is_element none a = false
is_element (some e) a = e == a

-- The choice of `handleKeyDown`, of the first and the last element.
abbrev pub trapped : (shift : Bool) → (first last : Option ℕ) → (container active : ℕ) → Option ℕ
trapped shift none last container active = some container
trapped shift (some first) last container active =
    if shift && first == active
    then last
    else (if not shift && is_element last active then some first else none)

-- `handleKeyDown` for the Tab key: where the focus goes instead of where the browser would move it.
unfoldable pub handle_key_down : (shift : Bool) → Dialog → (active : ℕ) → Option ℕ
handle_key_down shift d active =
    trapped shift (first_of d.focusable) (last_of d.focusable) d.container active

-- `handleFocusIn`: the focus has come to an element, which the dialog contains or not.
unfoldable pub handle_focus_in : (is_inside : Bool) → Dialog → (target : ℕ) → ℕ
handle_focus_in is_inside d target =
    if is_inside then target else elim (first_of d.focusable) [ none ↦ d.container | some e ↦ e ]

module _ (browser : (shift : Bool) → (active : ℕ) → ℕ) where
  -- Pressing Tab, with what the browser does where the handler does not prevent it.
  unfoldable pub press_tab : Bool → Dialog → ℕ → ℕ
  unfolding handle_key_down
  press_tab shift d active = or_else (handle_key_down shift d active) (browser shift active)

  -- The browser moves the focus to the neighbour in the order of the page.
  pub record FollowsOrder (d : Dialog) : Type 0 where
    pub forward :
        (i a b : ℕ)
        → get_elem? d.focusable i ≡ some a
        → get_elem? d.focusable (suc i) ≡ some b
        → browser false a ≡ b
    pub backward :
        (i a b : ℕ)
        → get_elem? d.focusable i ≡ some a
        → get_elem? d.focusable (suc i) ≡ some b
        → browser true b ≡ a
