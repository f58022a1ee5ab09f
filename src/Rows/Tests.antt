-- ===== src/Rows/Tests.antt =====
-- A thermometer whose name is markup.
use ha_telink_manager.Prelude.{true, false, none, some, [], ◌++◌, codes, ◌≡◌}
use ha_telink_manager.Html.{Text}
use ha_telink_manager.Rows.{page}
use ha_telink_manager.Rows.Places.{seen, markup}
use ha_telink_manager.Rows.Markup.{each, words, page_frame}
use ha_telink_manager.Rows.Thermometer.{Read, view_rows, view_rows-page}

abbrev attic : Read
attic = record {
  fw_version = codes "4.9";
  sw_version = [];
  fw_byte = codes "73";
  fw_revision = [];
  is_legacy = false;
  model = codes "LYWSD03MMC";
  hw_ver = some (codes "3");
  hw_name = codes "B1.6";
  hw_sensor = codes "SHT4x";
  device_name = codes "<img src=x onerror=\"alert('&lt;')\">";
  clock = codes "—";
  temp_F = false;
  screen_off = false;
  smiley = codes "0";
  comfort_smiley = true;
  blinking_time_smile = false;
  show_batt = true;
  lcd_refresh_s = codes "2.45";
  measure_mult = codes "4";
  measure_period = codes "10 s";
  adv_period = codes "2.5 s";
  lp_measures = true;
  tx_measures = false;
  averaging = codes "180";
  adv_interval_s = codes "2.5";
  adv_interval_raw = codes "40";
  adv_type = codes "BTHome";
  adv_flags = true;
  adv_delay_ms = codes "0";
  event_adv_cnt = codes "5";
  adv_crypto = false;
  bt5phy = false;
  longrange = false;
  rf_tx_power = codes "191";
  connect_latency_ms = codes "1000";
  sensor_name = [];
  sensor_is_default = false;
  fine_offset = none;
  comfort = none;
  raw = codes "a71840";
}

abbrev help : Text → Text
help key = codes "About \"" ++ (key ++ codes "\": > 0")

view_rows-page_example :
    (seen (page help (view_rows attic)) ≡ each words (view_rows attic))
    × (markup (page help (view_rows attic)) ≡ page_frame help (view_rows attic))
view_rows-page_example = view_rows-page help attic
