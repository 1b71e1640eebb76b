-- ===== src/Hooks.antt =====
-- The smaller hooks and contexts under frontend/src/hooks and frontend/src/context, one module each.
pub mod LiveRefresh
pub mod Theme
pub mod FocusTrap
pub mod Reviews
