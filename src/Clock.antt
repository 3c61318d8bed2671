-- ===== src/Clock.antt =====
-- src/nano_time.h: deadlines on a 32-bit millisecond clock that wraps.
pub mod Laws
mod Tests
use nanortc.Prelude.{Bool, if◌then◌else◌, leb, sub32, u32, ℕ, ◌+◌, ◌==◌}

-- NANO_TIME_MAX_INTERVAL_MS
abbrev pub max_interval_ms : ℕ
max_interval_ms = 0x7FFFFFFF

-- nano_time_elapsed
unfoldable pub elapsed : ℕ → ℕ → ℕ
elapsed now_ms since_ms = sub32 now_ms since_ms

-- nano_time_is_due
unfoldable pub is_due : ℕ → ℕ → Bool
unfolding elapsed
is_due now_ms deadline_ms = leb (elapsed now_ms deadline_ms) max_interval_ms

-- nano_time_until
unfoldable pub until : ℕ → ℕ → ℕ
unfolding is_due
until now_ms deadline_ms = if is_due now_ms deadline_ms then 0 else sub32 deadline_ms now_ms

-- nano_time_deadline: zero is the "not armed" value of the timers.
unfoldable pub deadline : ℕ → ℕ → ℕ
deadline now_ms delay_ms =
    let deadline_ms = u32 (now_ms + delay_ms) in if deadline_ms == 0 then 1 else deadline_ms
