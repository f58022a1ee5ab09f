-- ===== src/Clock/Spoken.antt =====
-- An interval in words: how exact it is, and where it overflows.
use ha_telink_manager.Prelude.{ℕ, ◌+◌, ◌*◌, ◌%◌, ◌≤◌, ◌<◌, ◌≡◌, ◌↔◌, arith, ◌⊎◌}
use ha_telink_manager.Clock.{Interval, seconds, min_s, h_min, human_interval}

-- The words are true of an interval of `q` microseconds: seconds to half a tenth, minutes
-- to half a second, hours to half a minute.
abbrev IsTrue : ℕ → Interval → Type 0
IsTrue q Interval.dash = q ≡ 0
IsTrue q (seconds whole tenths) =
    (tenths < 10)
    × (q ≤ 100000 * (10 * whole + tenths) + 50000)
    × (100000 * (10 * whole + tenths) ≤ q + 50000)
IsTrue q (min_s m sec) =
    (q ≤ 60000000 * m + 1000000 * sec + 500000) × (60000000 * m + 1000000 * sec ≤ q + 500000)
IsTrue q (h_min hours m) =
    (q ≤ 3600000000 * hours + 60000000 * m + 30000000)
    × (3600000000 * hours + 60000000 * m ≤ q + 30000000)

-- Every interval is described truly, to half of the last unit shown.
pub human_interval-IsTrue : (q : ℕ) → IsTrue q (human_interval q)
unfolding human_interval
human_interval-IsTrue q = ground arith

abbrev pub Overflows : Interval → Type 0
Overflows (min_s m sec) = sec ≡ 60
Overflows (h_min hours m) = m ≡ 60
Overflows (seconds whole tenths) = whole ≡ 60
Overflows Interval.dash = ⊥

-- A part reaches 60 exactly for the intervals within the last twentieth of a second below a minute ("60.0
-- s"), for those from a minute up to an hour that lie within the last half second of a minute ("1 min 60 s"),
-- and for those from an hour on that lie within the last half minute of an hour ("1 h 60 min").
pub human_interval-Overflows_iff :
    (q : ℕ)
    → (Overflows (human_interval q)) ↔ (
        ((59950000 ≤ q) × (q < 60000000))
        ⊎ ((60000000 ≤ q) × (q < 3600000000) × (59500000 ≤ q % 60000000))
        ⊎ ((3600000000 ≤ q) × (3570000000 ≤ q % 3600000000)))
unfolding human_interval
human_interval-Overflows_iff q = ground arith
