-- ===== src/Overlay/Layers.antt =====
-- The ids on the stack of layers of frontend/src/context/OverlayContext.tsx, and its top.
use locketgoldhuydev.Prelude.{
  ◌≡◌, ◌≢◌, inl, inr, refl, ap, ◌∙◌, true, false, not, none, List, [], ◌∷◌, ◌++◌, arith, String,
  eq_iff, eq_refl, All, str_eq, Bool-cases,
}
use locketgoldhuydev.Prelude.Pairs.{
  AllPairs, AllPairs-filter, AllPairs-snoc, All-map, filter-snoc, filter-All,
}
use locketgoldhuydev.Overlay.{
  OverlayKind, OverlayLayer, find, without, has_kind, register_layer, unregister_layer,
  is_top_layer,
}

abbrev pub HasDistinctIds : List OverlayLayer → Type 0
HasDistinctIds = AllPairs (λ a b. a.id ≢ b.id)

-- No layer of the list has the id.
abbrev pub IsAbsent : String → List OverlayLayer → Type 0
IsAbsent id = All (λ layer. layer.id ≢ id)

without-IsAbsent : (id : String) (layers : List OverlayLayer) → IsAbsent id (without id layers)
unfolding without
without-IsAbsent id [] = tt
without-IsAbsent id (layer ∷ layers) = elim (Bool-cases (str_eq layer.id id)) [
  | inl same ↦ rw same (without-IsAbsent id layers)
  | inr other ↦ rw other (ground (arith, eq_iff layer.id id), without-IsAbsent id layers)
]

pub data Action : Type 0 where
  registers : String → OverlayKind → Action
  unregisters : String → Action

pub step : Action → List OverlayLayer → List OverlayLayer
step (registers id kind) layers = register_layer id kind layers
step (unregisters id) layers = unregister_layer id layers

pub run : List Action → List OverlayLayer → List OverlayLayer
run [] layers = layers
run (a ∷ actions) layers = run actions (step a layers)

step-HasDistinctIds :
    (a : Action) (layers : List OverlayLayer)
    → HasDistinctIds layers
    → HasDistinctIds (step a layers)
unfolding step register_layer unregister_layer
step-HasDistinctIds (registers id kind) layers h =
    elim (Bool-cases (has_kind (find id layers) kind)) [
      | inl old ↦ rw old h
      | inr new ↦ rw new (
          AllPairs-snoc _ (without id layers) (record { id = id; kind = kind })
            (unfold without in AllPairs-filter _ _ layers h) (without-IsAbsent id layers))
    ]
step-HasDistinctIds (unregisters id) layers h = unfold without in AllPairs-filter _ _ layers h

-- From layers with distinct ids, however dialogs open, close and change their kind, no layer is on
-- the stack twice.
pub run-HasDistinctIds :
    (actions : List Action) (layers : List OverlayLayer)
    → HasDistinctIds layers
    → HasDistinctIds (run actions layers)
unfolding run
run-HasDistinctIds [] layers h = h
run-HasDistinctIds (a ∷ actions) layers h =
    run-HasDistinctIds actions (step a layers) (step-HasDistinctIds a layers h)

is_top_layer_last :
    (id : String) (layers : List OverlayLayer) (layer : OverlayLayer)
    → is_top_layer id (layers ++ layer ∷ []) ≡ str_eq layer.id id
unfolding is_top_layer
is_top_layer_last id [] layer = refl
is_top_layer_last id (a ∷ []) layer = refl
is_top_layer_last id (a ∷ b ∷ layers) layer = is_top_layer_last id (b ∷ layers) layer

-- At most one layer is on top.
pub is_top_layer_unique :
    (id other : String) (layers : List OverlayLayer)
    → is_top_layer id layers ≡ true
    → is_top_layer other layers ≡ true
    → id ≡ other
unfolding is_top_layer
is_top_layer_unique id other [] h k = absurd cc
is_top_layer_unique id other (layer ∷ []) h k =
    cc ((eq_iff layer.id id).0 h, (eq_iff layer.id other).0 k)
is_top_layer_unique id other (layer ∷ next ∷ layers) h k =
    is_top_layer_unique id other (next ∷ layers) h k

find-absent :
    (id : String) (layers : List OverlayLayer) → IsAbsent id layers → find id layers ≡ none
unfolding find
find-absent id [] h = refl
find-absent id (layer ∷ layers) h = ground (arith, eq_iff layer.id id, find-absent id layers h.1)

without-absent :
    (id : String) (layers : List OverlayLayer) → IsAbsent id layers → without id layers ≡ layers
unfolding without
without-absent id layers h =
    filter-All (λ layer. not (str_eq layer.id id)) layers
      (All-map _ _ layers (λ layer ne. ground (arith, eq_iff layer.id id)) h)

-- A layer that opens is the top one, and it alone; closing it gives back the stack below.
pub register_layer-top :
    (id : String) (kind : OverlayKind) (layers : List OverlayLayer)
    → IsAbsent id layers
    → (is_top_layer id (register_layer id kind layers) ≡ true)
      × ((other : String) → other ≢ id → is_top_layer other (register_layer id kind layers) ≡ false)
      × (unregister_layer id (register_layer id kind layers) ≡ layers)
unfolding register_layer unregister_layer
register_layer-top id kind layers h =
    rw (find-absent id layers h, without-absent id layers h)
      (is_top_layer_last id layers new ∙ eq_refl id, below, closed)
  where
    new : OverlayLayer
    new = record { id = id; kind = kind }

    below : (other : String) → other ≢ id → is_top_layer other (layers ++ new ∷ []) ≡ false
    below other ne = is_top_layer_last other layers new ∙ ground (arith, eq_iff id other)

    closed : without id (layers ++ new ∷ []) ≡ layers
    closed =
        unfold without in
        filter-snoc (λ layer. not (str_eq layer.id id)) layers new
          (All-map _ _ layers (λ layer ne. ground (arith, eq_iff layer.id id)) h)
          (ap not (eq_refl id))
