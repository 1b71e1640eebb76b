-- ===== src/Overlay.antt =====
-- frontend/src/context/OverlayContext.tsx: the stack of open layers, the last one on top.
pub mod Layers
pub mod ScrollLock
use locketgoldhuydev.Prelude.{
  ℕ, zero, suc, Bool, true, false, not, Option, none, some, List, [], ◌∷◌, ◌++◌, String, filter,
  any, str_eq, if◌then◌else◌,
}

pub data OverlayKind : Type 0 where
  dialog announcement : OverlayKind

pub record OverlayLayer : Type 0 where
  pub id : String
  pub kind : OverlayKind

abbrev same_kind : OverlayKind → OverlayKind → Bool
same_kind dialog dialog = true
same_kind dialog announcement = false
same_kind announcement dialog = false
same_kind announcement announcement = true

-- `current.find((layer) => layer.id === id)`
unfoldable pub find : String → List OverlayLayer → Option OverlayLayer
find id [] = none
find id (layer ∷ layers) = if str_eq layer.id id then some layer else find id layers

unfoldable pub without : String → List OverlayLayer → List OverlayLayer
without id = filter (λ layer. not (str_eq layer.id id))

-- `existing?.kind === kind`
abbrev has_kind : Option OverlayLayer → OverlayKind → Bool
has_kind none kind = false
has_kind (some layer) kind = same_kind layer.kind kind

unfoldable pub register_layer : String → OverlayKind → List OverlayLayer → List OverlayLayer
register_layer id kind current =
    if has_kind (find id current) kind
    then current
    else without id current ++ record { id = id; kind = kind } ∷ []

unfoldable pub unregister_layer : String → List OverlayLayer → List OverlayLayer
unregister_layer id current = without id current

-- `findIndex`, with `none` for -1
unfoldable pub get_layer_index : String → List OverlayLayer → Option ℕ
get_layer_index id [] = none
get_layer_index id (layer ∷ layers) =
    if str_eq layer.id id
    then some 0
    else elim (get_layer_index id layers) [ none ↦ none | some n ↦ some (suc n) ]

unfoldable pub is_top_layer : String → List OverlayLayer → Bool
is_top_layer id [] = false
is_top_layer id (layer ∷ []) = str_eq layer.id id
is_top_layer id (layer ∷ next ∷ layers) = is_top_layer id (next ∷ layers)

unfoldable pub has_blocking_dialog : List OverlayLayer → Bool
has_blocking_dialog = any (λ layer. same_kind layer.kind dialog)

unfoldable pub has_active_overlay : List OverlayLayer → Bool
has_active_overlay [] = false
has_active_overlay (layer ∷ layers) = true
