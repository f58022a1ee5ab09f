-- ===== src/Freshness.antt =====
-- The mark on a device that has stopped (custom_components/telink_manager/www/telink-manager-panel.js):
-- `_staleCell`. Ages and limits are in whole seconds.
pub mod Verdict
mod Tests
use ha_telink_manager.Prelude.{
  ℕ, ◌+◌, ◌*◌, ◌/◌, ◌%◌, leb, ltb, if◌then◌else◌, Bool, true, false, Option, none, some,
}
use ha_telink_manager.Device.{Device}

-- How long nothing new came: "h h m min", or "m min".
pub data HowLong : Type 0 where
  hours_minutes : ℕ → ℕ → HowLong
  minutes : ℕ → HowLong

-- The two wordings of the mark; the second has the age and the measurement period in seconds.
pub data Mark : Type 0 where
  not_relaying : Mark
  nothing_new : HowLong → ℕ → Mark

unfoldable pub how_long : ℕ → HowLong
how_long s =
    let mins = s / 60 in if leb 60 mins then hours_minutes (mins / 60) (mins % 60) else minutes mins

-- `Math.round(limit / 3)`.
unfoldable pub period_of : ℕ → ℕ
period_of limit = (2 * limit + 3) / 6

unfoldable pub counter_mark : Option ℕ → Option ℕ → Option Mark
unfolding how_long period_of
counter_mark none limit = none
counter_mark (some s) none = none
counter_mark (some s) (some limit) =
    if ltb s limit then none else some (nothing_new (how_long s) (period_of limit))

abbrev gave_up : Option Bool → Bool
gave_up (some false) = true
gave_up _ = false

unfoldable pub stale_cell : Device → Option Mark
unfolding counter_mark
stale_cell d =
    if gave_up d.relaying then some not_relaying else counter_mark d.stale_s d.stale_limit_s
