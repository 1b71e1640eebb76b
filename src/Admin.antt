-- ===== src/Admin.antt =====
-- The administration under frontend/src/pages/admin and frontend/src/components/admin.
pub mod Pagination
pub mod Coupons
pub mod Editing
pub mod Unchanged
pub mod Orders
pub mod History
pub mod Refunds
pub mod Listing
pub mod Users
pub mod CouponTable
