-- ===== src/Clock/Diff.antt =====
-- How far a clock is off, in words.
use ha_telink_manager.Prelude.{
  ℕ, ◌-◌, ◌+◌, ◌*◌, ◌≤◌, ◌<◌, Bool, true, false, ◌≡◌, arith, ◌≢◌, ◌/◌, ◌%◌,
}
use ha_telink_manager.Clock.{
  TimeUnit, s, min, h, d, ClockDiff, unset, in_sync, off, clock_diff, running, at, clock_str,
}

abbrev seconds_in : TimeUnit → ℕ
seconds_in s = 1
seconds_in min = 60
seconds_in h = 3600
seconds_in d = 86400

-- The unit is the largest one that is not longer than `a` seconds.
abbrev pub IsUnit : TimeUnit → ℕ → Type 0
IsUnit s a = a < 60
IsUnit min a = (60 ≤ a) × (a < 3600)
IsUnit h a = (3600 ≤ a) × (a < 86400)
IsUnit d a = 86400 ≤ a

-- The larger of two clocks is more than 3 s ahead of the smaller, by that amount to half a unit.
abbrev pub IsAhead : ℕ → ℕ → ℕ → TimeUnit → Type 0
IsAhead later earlier n u =
    (earlier + 3 < later)
    × IsUnit u (later - earlier)
    × (2 * (later - earlier) ≤ 2 * n * seconds_in u + seconds_in u)
    × (2 * n * seconds_in u ≤ 2 * (later - earlier) + seconds_in u)

-- The words are true of a clock that shows `epoch` when it is `now`.
abbrev pub IsTrue : ℕ → ℕ → ClockDiff → Type 0
IsTrue epoch now unset = ⊥
IsTrue epoch now in_sync = (epoch ≤ now + 3) × (now ≤ epoch + 3)
IsTrue epoch now (off n u true) = IsAhead epoch now n u
IsTrue epoch now (off n u false) = IsAhead now epoch n u

-- A clock that was ever set is said to be in sync exactly within 3 s, and else to be ahead or behind as it
-- is, by an amount that is right to half a unit, in the largest unit that is not longer than the difference.
pub clock_diff-IsTrue : (epoch now : ℕ) → epoch ≢ 0 → IsTrue epoch now (clock_diff epoch now)
unfolding clock_diff
clock_diff-IsTrue epoch now ne = ground arith

-- A clock that is said to be ahead is ahead, and one that is said to be behind is behind.
pub clock_diff_direction :
    (epoch now n : ℕ) (u : TimeUnit) (ahead : Bool)
    → clock_diff epoch now ≡ off n u ahead
    → (ahead ≡ true → now < epoch) × (ahead ≡ false → epoch < now)
unfolding clock_diff
clock_diff_direction epoch now n u ahead e = ground arith

-- A clock within its first year is shown as the time since it started, in full minutes; a later one
-- by its date.
pub clock_str_first_year :
    (epoch now : ℕ)
    → epoch ≢ 0
    → (epoch < 31536000
        → (hours : ℕ) × (mins : ℕ) × (clock_str epoch now ≡ running hours mins)
          × (mins < 60)
          × (3600 * hours + 60 * mins ≤ epoch)
          × (epoch < 3600 * hours + 60 * mins + 60))
      × (31536000 ≤ epoch → clock_str epoch now ≡ at epoch (clock_diff epoch now))
unfolding clock_str
clock_str_first_year epoch now ne = (
  λ lt. (epoch / 3600, epoch % 3600 / 60, ground arith, omega arith, omega arith, omega arith),
  λ le. ground arith,
)
