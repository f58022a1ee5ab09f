-- ===== src/Samples.antt =====
-- A device, its settings and the editor's form for the tests: the interval and the unit are changed.
use ha_telink_manager.Prelude.{neg, none, some, true, false}
use ha_telink_manager.Device.{Device, Config}
use ha_telink_manager.Editor.{Form}

abbrev pub attic_device : Device
attic_device = record {
  mac = "A4:C1:38:00:00:01";
  name = "ATC_000001";
  friend_name = "Attic";
  ha_name = "";
  ha_area = "";
  proxy = "hall";
  rssi = some (neg 85);
  connectable = true;
  blethr = false;
  battery = none;
  battery_mv = none;
  relaying = none;
  stale_s = none;
  stale_limit_s = none;
}

abbrev pub config : Config
config = record {
  adv_interval_raw = 40;
  measure_mult = 4;
  temp_F = false;
  screen_off = false;
  lcd_refresh_raw = 49;
  smiley = 0;
  comfort_smiley = true;
  blinking_time_smile = false;
  show_batt = true;
  lp_measures = true;
  tx_measures = false;
  averaging = 180;
  adv_flags = true;
  adv_delay_raw = some 0;
  event_adv_cnt = some 5;
  rf_tx_power = 191;
  connect_latency_raw = 49;
  adv_type_raw = 3;
}

abbrev pub form : Form
form = record {
  adv_s = some 50000;
  mmult = some 4;
  tunit_F = true;
  disp_off = false;
  lcdref = some 245;
  smiley = 0;
  comfort = true;
  blink = false;
  sbatt = true;
  lpmeas = true;
  txmeas = false;
  avgmeas = some 180;
  advflags = true;
  advdelay = some (some 0);
  evtcnt = some (some 5);
  rftx = some 191;
  clat = none;
  advtype = 3;
}
