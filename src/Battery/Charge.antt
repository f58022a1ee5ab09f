-- ===== src/Battery/Charge.antt =====
-- What the battery column shows: its range, whose charge it is, and how it follows the voltage.
use ha_telink_manager.Prelude.{
  ℕ, ◌+◌, ◌*◌, ◌-◌, ◌≤◌, true, false, Option, none, some, ◌≡◌, ◌↔◌, refl, arith,
}
use ha_telink_manager.Device.{Device}
use ha_telink_manager.Battery.{pct_of, BattCell, cell_of, batt_cell, own_cell}

-- An estimate is a percentage, grows with the voltage, is 0 up to 2.2 V and 100 from 3.0 V on, and
-- between those is within half a percent of the straight line.
pub pct_of_lem :
    (mv mv' : ℕ)
    → (pct_of mv ≤ 100)
      × (mv ≤ mv' → pct_of mv ≤ pct_of mv')
      × (mv ≤ 2200 → pct_of mv ≡ 0)
      × (3000 ≤ mv → pct_of mv ≡ 100)
      × (2200 ≤ mv → mv ≤ 3000 → (8 * pct_of mv ≤ mv - 2200 + 4) × (mv - 2200 ≤ 8 * pct_of mv + 4))
unfolding pct_of
pct_of_lem mv mv' = omega arith

-- What a repeater's row shows does not depend on the percentage that it broadcasts: it is the
-- estimate from its own voltage, or nothing.
pub batt_cell-blethr :
    (d : Device) (pct : Option ℕ)
    → d.blethr ≡ true
    → (batt_cell (record d { battery = pct }) ≡ batt_cell d)
      × ((batt_cell d ≡ none) ↔ (d.battery_mv ≡ none))
      × ((mv : ℕ)
          → d.battery_mv ≡ some mv
          → (c : BattCell) × (batt_cell d ≡ some c)
            × (c.pct ≡ pct_of mv)
            × (c.tip ≡ own_cell mv)
            × (c.approximate ≡ true))
unfolding batt_cell
batt_cell-blethr d pct h = (
  ground arith,
  ground arith,
  λ mv e. (
    cell_of true (record { pct = pct_of mv; est = true; mv = some mv }),
    ground arith,
    refl,
    refl,
    refl,
  ),
)

-- A thermometer's row shows the percentage that it broadcasts, unmarked; where it broadcasts none,
-- the estimate, marked; and nothing exactly where it broadcasts neither.
pub batt_cell_thermometer :
    (d : Device)
    → d.blethr ≡ false
    → ((pct : ℕ)
        → d.battery ≡ some pct
        → (c : BattCell) × (batt_cell d ≡ some c) × (c.pct ≡ pct) × (c.approximate ≡ false))
      × ((mv : ℕ)
          → d.battery ≡ none
          → d.battery_mv ≡ some mv
          → (c : BattCell) × (batt_cell d ≡ some c) × (c.pct ≡ pct_of mv) × (c.approximate ≡ true))
      × ((batt_cell d ≡ none) ↔ ((d.battery ≡ none) × (d.battery_mv ≡ none)))
unfolding batt_cell
batt_cell_thermometer d h = (
  λ pct e. (
    cell_of false (record { pct = pct; est = false; mv = d.battery_mv }),
    ground arith,
    refl,
    refl,
  ),
  λ mv e e'. (
    cell_of false (record { pct = pct_of mv; est = true; mv = some mv }),
    ground arith,
    refl,
    refl,
  ),
  ground arith,
)
