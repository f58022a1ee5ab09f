-- ===== src/Device.antt =====
-- What the panel holds of a device (custom_components/telink_manager/www/telink-manager-panel.js):
-- an entry of `_devs` as the scan returns it, and the fields that a read returns (`_loaded`).
use ha_telink_manager.Prelude.{ℕ, ℤ, Bool, Option, String}

-- A text that is missing is the empty one: the panel only tests these for being empty or not. The
-- battery voltage is in millivolts.
pub record Device : Type 0 where
  pub mac : String
  pub name : String
  pub friend_name : String
  pub ha_name : String
  pub ha_area : String
  pub proxy : String
  pub rssi : Option ℤ
  pub connectable : Bool
  pub blethr : Bool
  pub battery : Option ℕ
  pub battery_mv : Option ℕ
  pub relaying : Option Bool
  pub stale_s : Option ℕ
  pub stale_limit_s : Option ℕ

-- The settings of a thermometer that the editor can change, by their raw values. Only the firmware's
-- modern layout has the two that are optional (`undefined` elsewhere).
pub record Config : Type 0 where
  pub adv_interval_raw : ℕ
  pub measure_mult : ℕ
  pub temp_F : Bool
  pub screen_off : Bool
  pub lcd_refresh_raw : ℕ
  pub smiley : ℕ
  pub comfort_smiley : Bool
  pub blinking_time_smile : Bool
  pub show_batt : Bool
  pub lp_measures : Bool
  pub tx_measures : Bool
  pub averaging : ℕ
  pub adv_flags : Bool
  pub adv_delay_raw : Option ℕ
  pub event_adv_cnt : Option ℕ
  pub rf_tx_power : ℕ
  pub connect_latency_raw : ℕ
  pub adv_type_raw : ℕ

-- `_loaded`: the settings, and what a write of them leaves alone. `is_blethr` is the test
-- `firmware_family === "blethr"`, and `has_raw` that `raw` is there.
pub record Fields : Type 0 where
  pub config : Config
  pub device_name : String
  pub bind_key : String
  pub is_blethr : Bool
  pub has_raw : Bool
