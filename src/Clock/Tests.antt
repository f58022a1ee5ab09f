-- ===== src/Clock/Tests.antt =====
-- A clock that is five minutes behind, and an interval of 14.99 s four times, which is said as 60.0 s.
use ha_telink_manager.Prelude.{◌≤◌, ◌<◌, ◌%◌, ◌↔◌, ◌⊎◌, arith}
use ha_telink_manager.Clock.{clock_diff, human_interval}
use ha_telink_manager.Clock.Diff.{IsTrue, clock_diff-IsTrue}
use ha_telink_manager.Clock.Spoken.{Overflows, human_interval-Overflows_iff}

clock_diff-IsTrue_example : IsTrue 1750000000 1750000300 (clock_diff 1750000000 1750000300)
clock_diff-IsTrue_example = clock_diff-IsTrue 1750000000 1750000300 (λ e. omega arith)

human_interval-Overflows_iff_example : Overflows (human_interval 59960000) ↔ (
    ((59950000 ≤ 59960000) × (59960000 < 60000000))
    ⊎ ((60000000 ≤ 59960000) × (59960000 < 3600000000) × (59500000 ≤ 59960000 % 60000000))
    ⊎ ((3600000000 ≤ 59960000) × (3570000000 ≤ 59960000 % 3600000000)))
human_interval-Overflows_iff_example = human_interval-Overflows_iff 59960000
