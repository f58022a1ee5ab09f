-- ===== src/Commands/Tests.antt =====
-- A number that is put on the display for good, and a raw command that fails.
use ha_telink_manager.Prelude.{
  Bool, ◌==◌, ◌&&◌, pos, neg, true, false, none, some, List, [], ◌∷◌, codes, ◌≡◌, refl,
}
use ha_telink_manager.Html.{Text}
use ha_telink_manager.Commands.{
  Loaded, Factory, Typed, Modal, c_lcd, c_comfort, Message, lcd, Reply, press, message,
}
use ha_telink_manager.Commands.Lcd.{vtime, elsewhere_on, Step, run_presses}

abbrev loaded : Loaded
loaded = record {
  device_name = codes "ATC_000001";
  device_time = some 1760000000;
  comfort_t_lo = some (pos 2000);
  comfort_t_hi = some (pos 2600);
  comfort_h_lo = some (pos 4000);
  comfort_h_hi = some (pos 6000);
  t_fine_offset_c = pos 0;
  h_fine_offset_pct = pos 0;
  t_offset_c = some (neg 4500);
  h_offset_pct = some (neg 600);
  sensor_is_default = true;
  bind_key = [];
  adv_crypto = false;
}

abbrev factory : Factory
factory = record {
  t_z_default_c = neg 4500;
  h_z_default_pct = neg 600;
  t_slope_default = 17500;
  t_slope = 17500;
  h_slope_default = 12500;
  h_slope = 12500;
}

abbrev typed : Typed
typed = record {
  dname = codes "Attic";
  c_tlo = some (pos 1900);
  c_thi = some (pos 2500);
  c_hlo = some (pos 3500);
  c_hhi = none;
  s_tfine = some (neg 25);
  s_hfine = none;
  lcd_big = some (pos 2220);
  lcd_small = some (pos 7);
  lcd_perm = true;
  lcd_dur = some (pos 10);
  rawhex = codes "55";
  rawreply = true;
}

abbrev modal : Modal
modal = record {
  loaded = loaded;
  lcd_permanent = none;
  mac_new = codes "A4:C1:38:00:00:01";
  bk_new = [];
  enc_key = [];
  rawout = [];
  enc_state = false;
  dev_clock = some 1760000000;
  backup_count = some 3;
  auto_backups = 0;
}

abbrev reply : Reply
reply = record {
  ok = true;
  error = [];
  device_name = [];
  device_time = none;
  t_offset_c = none;
  h_offset_pct = none;
  reply = [];
  device_mac = [];
  bind_key = [];
  enabled = false;
  maybe_changed = false;
  fields = λ f. f;
  config_after = none;
  backup_count = none;
}

abbrev refused : Reply
refused = record reply { ok = false; error = codes "no connection" }

abbrev address : Text
address = codes "A4:C1:38:00:00:01"

-- The number is shown for good, a comfort zone is set, and a number for ten seconds follows.
abbrev presses : List Step
presses =
    record {
      factory = factory;
      typed = typed;
      button = c_lcd;
      confirmed = true;
      key = [];
      reply = reply;
    }
    ∷ record {
      factory = factory;
      typed = typed;
      button = c_comfort;
      confirmed = true;
      key = [];
      reply = reply;
    }
    ∷ record {
      factory = factory;
      typed = record typed { lcd_perm = false };
      button = c_lcd;
      confirmed = true;
      key = [];
      reply = refused;
    }
    ∷ []

-- A display that every restart clears.
abbrev display : Message → Bool → Bool
display (lcd big_number small_number vtime_sec) shown = vtime vtime_sec == 65535
display msg shown = elsewhere_on msg && shown

shown_for_good : (run_presses display address presses modal false).1 ≡ true
unfolding press message
shown_for_good = refl
