-- ===== src/Clock.antt =====
-- Clocks and intervals in words (custom_components/telink_manager/www/telink-manager-panel.js):
-- `_clockDiff`, `_clockStr` and `_humanInterval`. `Math.round` rounds halves up. The date that
-- `_fmtClock` prints and the local time of `_haLocalNow` come from the browser.
pub mod Diff
pub mod Spoken
mod Tests
use ha_telink_manager.Prelude.{
  ℕ, ◌+◌, ◌*◌, ◌-◌, ◌/◌, ◌%◌, ◌==◌, leb, ltb, if◌then◌else◌, Bool, true, false, Option, none, some,
}

pub data TimeUnit : Type 0 where
  s min h d : TimeUnit

-- "", "in sync", or an amount with its unit and whether the clock is ahead.
pub data ClockDiff : Type 0 where
  unset in_sync : ClockDiff
  off : ℕ → TimeUnit → Bool → ClockDiff

-- `Math.round(a / n)` for an even `n`.
abbrev pub round_div : ℕ → ℕ → ℕ
round_div a n = (a + n / 2) / n

abbrev pub distance : ℕ → ℕ → ℕ
distance a b = a - b + (b - a)

unfoldable pub off_by : ℕ → Bool → ClockDiff
off_by a ahead =
    if leb a 3
    then in_sync
    else if ltb a 60
    then off a s ahead
    else if ltb a 3600
    then off (round_div a 60) min ahead
    else if ltb a 86400
    then off (round_div a 3600) h ahead
    else off (round_div a 86400) d ahead

-- `_clockDiff`, of the device's epoch and the local time now.
unfoldable pub clock_diff : ℕ → ℕ → ClockDiff
unfolding off_by
clock_diff epoch now = if epoch == 0 then unset else off_by (distance epoch now) (ltb now epoch)

-- `_clockStr`: a dash, the time since the counter started, or the date and how far it is off.
pub data ClockStr : Type 0 where
  dash : ClockStr
  running : ℕ → ℕ → ClockStr
  at : ℕ → ClockDiff → ClockStr

unfoldable pub clock_str : ℕ → ℕ → ClockStr
unfolding clock_diff
clock_str epoch now =
    if epoch == 0
    then dash
    else if ltb epoch (365 * 24 * 3600)
    then running (epoch / 3600) (epoch % 3600 / 60)
    else at epoch (clock_diff epoch now)

-- `_humanInterval`, of an interval in microseconds, a unit of both the sixteenths of a second that devices
-- keep and the numbers that are typed: a dash, seconds to a tenth, minutes with seconds, or hours with
-- minutes. A whole number of seconds has no tenths, and a part of 0 is not shown.
pub data Interval : Type 0 where
  dash : Interval
  seconds : (whole tenths : ℕ) → Interval
  min_s : (m sec : ℕ) → Interval
  h_min : (h m : ℕ) → Interval

unfoldable pub human_interval : ℕ → Interval
human_interval q =
    if q == 0
    then Interval.dash
    else if ltb q 60000000
    then seconds (round_div q 100000 / 10) (round_div q 100000 % 10)
    else if ltb q 3600000000
    then min_s (q / 60000000) (round_div (q % 60000000) 1000000)
    else h_min (q / 3600000000) (round_div (q % 3600000000) 60000000)
