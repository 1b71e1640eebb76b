-- ===== src/Utils.antt =====
-- frontend/src/utils: redirect targets (url.ts), usernames (username.ts), displayed text (format.ts).
pub mod Url
pub mod Username
pub mod Format
