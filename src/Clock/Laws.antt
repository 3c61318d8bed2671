-- ===== src/Clock/Laws.antt =====
-- What a timer armed by `deadline` does, across the wrap of the clock (src/nano_time.h).
use nanortc.Prelude.{
  arith, false, if◌then◌else◌, true, u32, ℕ, ◌+◌, ◌<◌, ◌==◌, ◌^◌, ◌↔◌, ◌≡◌, ◌≢◌, ◌≤◌,
}
use nanortc.Clock.{deadline, is_due, max_interval_ms, until}

-- A timer armed at `now_ms` for `delay_ms` (positive, at most half the clock range) is armed
-- (its deadline is not zero) and, `later` ms on with `later` below 2^31 - delay_ms, is due exactly
-- when the delay has passed, one millisecond more being allowed where the sum wrapped to zero.
pub is_due-deadline :
    (now_ms delay_ms later : ℕ)
    → now_ms < 2 ^ 32
    → 0 < delay_ms
    → delay_ms ≤ max_interval_ms
    → later ≤ max_interval_ms
    → let due = deadline now_ms delay_ms in
      let slack : ℕ = if u32 (now_ms + delay_ms) == 0 then 1 else 0 in
      (due ≢ 0) × ((is_due (u32 (now_ms + later)) due ≡ true) ↔ (delay_ms + slack ≤ later))
unfolding deadline is_due
is_due-deadline now_ms delay_ms later hn hd hm hl = ground arith

-- Sleeping for what `until` returns reaches the deadline, and any shorter sleep does not.
pub until-is_due :
    (now_ms deadline_ms sleep : ℕ)
    → now_ms < 2 ^ 32
    → deadline_ms < 2 ^ 32
    → (is_due (u32 (now_ms + until now_ms deadline_ms)) deadline_ms ≡ true)
      × (sleep < until now_ms deadline_ms → is_due (u32 (now_ms + sleep)) deadline_ms ≡ false)
unfolding until is_due
until-is_due now_ms deadline_ms sleep hn hd = ground arith
