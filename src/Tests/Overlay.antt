-- ===== src/Tests/Overlay.antt =====
-- Runs of the layers and of the scroll lock (frontend/src/context/OverlayContext.tsx and
-- frontend/src/hooks/useScrollLock.ts).
use locketgoldhuydev.Prelude.{refl, false, [], ◌∷◌}
use locketgoldhuydev.Overlay.{
  dialog, announcement, OverlayLayer, register_layer, unregister_layer, is_top_layer,
}
use locketgoldhuydev.Overlay.ScrollLock.{
  style, px, BodyStyle, Locks, acquires, releases, IsKept, run-IsKept,
}

abbrev banner : OverlayLayer
banner = record { id = "banner"; kind = announcement }

abbrev page_style : BodyStyle
page_style = record { overflow = "auto"; padding_right = style ""; scroll_locked = false }

abbrev page : Locks
page = record {
  active_locks = [];
  original_overflow = "";
  original_padding_right = style "";
  body = page_style;
}

run-IsKept_example : IsKept page_style (
    locketgoldhuydev.Overlay.ScrollLock.run
      (acquires 1 15 ∷ acquires 2 0 ∷ releases 1 ∷ releases 2 ∷ [])
      page)
run-IsKept_example =
    run-IsKept page_style (acquires 1 15 ∷ acquires 2 0 ∷ releases 1 ∷ releases 2 ∷ []) page refl
      refl
