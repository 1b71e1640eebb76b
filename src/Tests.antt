-- ===== src/Tests.antt =====
-- The code of frontend/src run on concrete inputs, and the theorems applied to them.
mod Utils
mod Api
mod Auth
mod Queue
mod Toast
mod Overlay
mod Wizard
mod Payment
mod Polling
mod Site
mod Hooks
mod Admin
mod Forms
mod Orders
mod Refunds
mod Wallet
