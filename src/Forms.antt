-- ===== src/Forms.antt =====
-- The forms of frontend/src/pages/LoginPage.tsx, frontend/src/pages/RegisterPage.tsx and
-- frontend/src/components/reviews/ReviewFormModal.tsx.
pub mod Patterns
pub mod Addresses
pub mod Register
pub mod Validation
pub mod Login
pub mod Review
pub mod Urls
pub mod Pictures
