-- ===== src/Battery.antt =====
-- The battery column (custom_components/telink_manager/www/telink-manager-panel.js): `_battInfo` and
-- `_battCell`. Voltages are in whole millivolts.
pub mod Charge
use ha_telink_manager.Prelude.{
  ℕ, ◌+◌, ◌-◌, ◌/◌, min, ltb, if◌then◌else◌, Bool, true, false, Option, none, some, String,
}
use ha_telink_manager.Device.{Device}

pub record BattInfo : Type 0 where
  pub pct : ℕ
  pub est : Bool
  pub mv : Option ℕ

-- `Math.max(0, Math.min(100, Math.round((battery_v * 1000 - 2200) / 8)))`: `Math.round` rounds halves
-- up, and what it makes of a negative value is cut off by `Math.max`, as `-` does here.
unfoldable pub pct_of : ℕ → ℕ
pct_of mv = min 100 ((mv + 4 - 2200) / 8)

unfoldable pub from_volts : Option ℕ → Option BattInfo
unfolding pct_of
from_volts none = none
from_volts (some mv) = some (record { pct = pct_of mv; est = true; mv = some mv })

abbrev advertised : Option ℕ → Option ℕ → Option BattInfo
advertised none volts = from_volts volts
advertised (some pct) volts = some (record { pct = pct; est = false; mv = volts })

unfoldable pub batt_info : Device → Option BattInfo
unfolding from_volts
batt_info d = if d.blethr then from_volts d.battery_mv else advertised d.battery d.battery_mv

-- The tooltip's three wordings; the voltage is shown where it is known.
pub data Tip : Type 0 where
  own_cell : ℕ → Tip
  estimated advertised_level : Option ℕ → Tip

pub record BattCell : Type 0 where
  pub color : String
  pub tip : Tip
  pub approximate : Bool
  pub pct : ℕ

abbrev volts_of : Option ℕ → ℕ
volts_of none = 0
volts_of (some mv) = mv

unfoldable pub cell_of : Bool → BattInfo → BattCell
cell_of blethr b = record {
  color = if ltb b.pct 20 then "#e53935" else if ltb b.pct 40 then "#ffb300" else "#4caf50";
  tip =
      if blethr
      then own_cell (volts_of b.mv)
      else if b.est
      then estimated b.mv
      else advertised_level b.mv;
  approximate = b.est;
  pct = b.pct;
}

-- `_battCell`; `none` is the dash.
unfoldable pub batt_cell : Device → Option BattCell
unfolding batt_info cell_of
batt_cell d = elim (batt_info d) [ none ↦ none | some b ↦ some (cell_of d.blethr b) ]
