-- ===== src/Payment.antt =====
-- The payment of one order: frontend/src/hooks/usePaymentPolling.ts in Payment/Polling and
-- frontend/src/hooks/usePaymentCountdown.ts in Payment/Countdown.
pub mod Polling
pub mod Countdown
