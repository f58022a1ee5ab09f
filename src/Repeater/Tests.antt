-- ===== src/Repeater/Tests.antt =====
-- The repeater editor with an encrypted source, and a changed configuration.
use ha_telink_manager.Repeater.Opening.{Firmware, opened, repeater_changes-opened}
use ha_telink_manager.Repeater.Config.{
  Known, Wish, wanted, taken, is_given, ticks, read_back, build_cfg, build_cfg-read_back,
}
use ha_telink_manager.Prelude.{refl, [], ◌∷◌, ℕ, ◌≤◌, ◌+◌, ◌*◌, true, false, none, some, codes, ◌≡◌}
use ha_telink_manager.Repeater.{
  KeyField, Source, Limits, adopt_done, RepeaterFields, repeater_changes,
}
use ha_telink_manager.Repeater.Adopt.{needed, left_with, adopt_done-value}

abbrev limits : Limits
limits = record { lo = 2500; hi = 10240 }

abbrev secret : Source
secret = record {
  was_read = true;
  adv_ms = some 2500;
  adv_crypto = true;
  newest_key = some (codes "00ff");
}

abbrev field : KeyField
field = record { value = codes "typed"; auto_filled = none; interval = 5000 }

adopt_done-value_example :
    (
      (adopt_done limits (some secret) field).value,
      (adopt_done limits (some secret) field).auto_filled,
    )
    ≡ left_with (needed (some secret)) field.value field.auto_filled
adopt_done-value_example = adopt_done-value limits (some secret) field

abbrev read : Known
read = record {
  temp_F = some false;
  rf_tx_power = some 191;
  scan_interval = some 3000;
  window_min = some 10000;
  window_max = some 20000;
}

abbrev slower : Wish
slower = record {
  temp_F = none;
  rf_tx_power = none;
  scan_interval = some (some 5000);
  window_min = none;
  window_max = some (some 25003);
}

build_cfg-read_back_example :
    (read_back 0x55 (build_cfg read slower)
      ≡ taken (is_given slower.rf_tx_power) (wanted read slower))
    × ((us : ℕ) → (us ≤ ticks us * 8 + 4) × (ticks us * 8 ≤ us + 4))
build_cfg-read_back_example = build_cfg-read_back 0x55 read slower

kept :
    taken (is_given slower.rf_tx_power) (wanted read slower)
    ≡ some (record {
      temp_F = false;
      rf_tx_power = 191;
      scan_interval = 5000;
      window_min = 10000;
      window_max = 25000;
    })
kept = refl

abbrev made : Firmware
made = record {
  rf_options = 191 ∷ 169 ∷ 130 ∷ [];
  temp_F = false;
  rf_tx_power = 169;
  scan_interval_ms = 0;
  scan_window_min = 10000;
  scan_window_max = 20000;
}

-- A repeater in the second band of its radio.
abbrev strong : RepeaterFields
strong = record {
  ext_mac = codes "A4:C1:38:00:00:01";
  ext_bind_key = [];
  temp_F = false;
  rf_tx_power = some 60;
  scan_interval_ms = some 2500;
  scan_window_min = none;
  scan_window_max = some 20000;
}

repeater_changes-opened_example :
    repeater_changes (opened made (codes "A4:C1:38:00:00:09") [] strong) strong ≡ record {
      ext_mac = none;
      ext_bind_key = none;
      temp_F = none;
      rf_tx_power = some 191;
      scan_interval_ms = none;
      scan_window_min = some 10000;
      scan_window_max = none;
    }
repeater_changes-opened_example = repeater_changes-opened made (codes "A4:C1:38:00:00:09") [] strong
