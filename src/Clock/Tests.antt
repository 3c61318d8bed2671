-- ===== src/Clock/Tests.antt =====
-- The clock's functions and theorems at concrete times, next to the wrap among them.
use nanortc.Prelude.{arith, false, refl, true, u32, ◌+◌, ◌<◌, ◌↔◌, ◌≡◌, ◌≢◌, ◌≤◌}
use nanortc.Clock.{deadline, is_due, until}
use nanortc.Clock.Laws.{is_due-deadline, until-is_due}

wraps_to_one : deadline 0xFFFFFFF0 16 ≡ 1
unfolding deadline
wraps_to_one = refl

is_due-deadline_example :
    (deadline 0xFFFFFFF0 100 ≢ 0)
    × ((is_due (u32 (0xFFFFFFF0 + 99)) (deadline 0xFFFFFFF0 100) ≡ true) ↔ (100 + 0 ≤ 99))
is_due-deadline_example =
    is_due-deadline 0xFFFFFFF0 100 99 (omega arith) (omega arith) (omega arith) (omega arith)

until-is_due_example :
    (is_due (u32 (0xFFFFFFF0 + until 0xFFFFFFF0 4)) 4 ≡ true)
    × (3 < until 0xFFFFFFF0 4 → is_due (u32 (0xFFFFFFF0 + 3)) 4 ≡ false)
until-is_due_example = until-is_due 0xFFFFFFF0 4 3 (omega arith) (omega arith)
