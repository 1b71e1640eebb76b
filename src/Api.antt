-- ===== src/Api.antt =====
-- frontend/src/api/client.ts: the types of its requests and answers, and the client itself.
pub mod Types
pub mod Client
