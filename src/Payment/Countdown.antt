-- ===== src/Payment/Countdown.antt =====
-- frontend/src/hooks/usePaymentCountdown.ts: the seconds until a payment expires, by the server's
-- clock. Times of the device are milliseconds of one clock that does not go back; the server's are
-- seconds.
pub mod Ticks
use locketgoldhuydev.Prelude.{
  ℕ, suc, ◌+◌, ◌-◌, ◌*◌, ◌/◌, ◌%◌, Bool, true, false, not, ◌&&◌, Option, none, some, List, [], ◌∷◌,
  ◌++◌, Text, codes, ltb, leb, ◌==◌, if◌then◌else◌,
}
use locketgoldhuydev.Utils.Format.{decimal}

pub record Countdown : Type 0 where
  pub expires_at : ℕ
  -- `skewMsRef`: the server's time, and the device's when it was read; none for a skew of 0.
  pub skew : Option (ℕ × ℕ)
  pub seconds_left : ℕ
  pub has_triggered_expire : Bool
  -- The calls of `onExpire`.
  pub expirations : ℕ

-- `serverTime * 1000 - Date.now()`, when the server's time is given.
unfoldable pub read_skew : (server_time now : ℕ) → Option (ℕ × ℕ)
read_skew server_time now = if ltb 0 server_time then some (server_time, now) else none

-- `nowSynced`
unfoldable pub synced : Option (ℕ × ℕ) → ℕ → ℕ
synced none now = now
synced (some (server_time, read_at)) now = server_time * 1000 + (now - read_at)

-- `Math.max(0, Math.floor(...))`; an `expiresAt` of 0 or none leaves nothing.
unfoldable pub compute_remaining : Countdown → ℕ → ℕ
unfolding synced
compute_remaining c now =
    if c.expires_at == 0 then 0 else (c.expires_at * 1000 - synced c.skew now) / 1000

unfoldable pub tick : ℕ → Countdown → Countdown
tick now c =
    let left = compute_remaining c now in
    let c1 = record c { seconds_left = left } in
    if leb left 0 && not c.has_triggered_expire
    then record c1 { has_triggered_expire = true; expirations = suc c.expirations }
    else c1

-- The effects of another `expiresAt`: the flag is reset, and the new time ticks at once, if there
-- is one.
unfoldable pub set_expires_at : (expires_at now : ℕ) → Countdown → Countdown
unfolding tick
set_expires_at expires_at now c =
    let c1 = record c { expires_at = expires_at; has_triggered_expire = false } in
    if expires_at == 0 then record c1 { seconds_left = 0 } else tick now c1

-- The interval and the listener, which tick only where there is a time.
unfoldable pub run : List ℕ → Countdown → Countdown
run [] c = c
run (now ∷ times) c = run times (if c.expires_at == 0 then c else tick now c)

-- `padStart(2, '0')`
abbrev pub pad : ℕ → Text
pad n = if ltb n 10 then b'0' ∷ decimal n else decimal n

unfoldable pub formatted_time : Countdown → Text
formatted_time c = pad (c.seconds_left / 60) ++ (b':' ∷ pad (c.seconds_left % 60))

unfoldable pub is_expired : Countdown → Bool
is_expired c = leb c.seconds_left 0
