-- ===== src/Commands/Answer.antt =====
-- What the handlers of the device commands do with an answer (custom_components/telink_manager/www/
-- telink-manager-panel.js: `_modalCommands` behind each `await` of `_runCmd`).
use ha_telink_manager.Prelude.{
  ℕ, ◌+◌, leb, pos, true, false, ◌&&◌, Option, none, some, [], ◌∷◌, codes, if◌then◌else◌,
}
use ha_telink_manager.Html.{Text}
use ha_telink_manager.Commands.{
  Loaded, Typed, Modal, Button, c_name, c_comfort, c_sensor, c_sensor_def, c_time, c_lcd,
  c_lcd_clear, c_raw, c_mac_read, c_mac_set, c_bk_read, c_bk_set, c_enc_on, c_enc_off, c_reboot,
  c_factory, Reply, or_zero, or_text,
}

-- `toLowerCase`, of the hex digits that an accepted key has.
abbrev pub lower : ℕ → ℕ
lower c = if leb b'A' c && leb c b'Z' then c + 32 else c

unfoldable pub lower_case : Text → Text
lower_case [] = []
lower_case (c ∷ s) = lower c ∷ lower_case s

-- Setting the clock on the screen where the answer has the time.
abbrev pub show_clock : Option ℕ → Modal → Modal
show_clock none m = m
show_clock (some c) m = record m {
  loaded = record m.loaded { device_time = some c };
  dev_clock = some c;
}

abbrev backed_up : Modal → Modal
backed_up m = record m { auto_backups = m.auto_backups + 1 }

abbrev pub counted : Option ℕ → Modal → Modal
counted none m = m
counted (some n) m = record m { backup_count = some n }

abbrev pub assigned : Option (Loaded → Loaded) → Modal → Modal
assigned none m = m
assigned (some g) m = record m { loaded = g m.loaded }

abbrev pub first_of {ℓ} : {A : Type ℓ} → Option A → Option A → Option A
first_of none d = d
first_of (some a) d = some a

abbrev pub encryption_done : Reply → Modal → Modal
encryption_done r m = counted r.backup_count (record m {
  loaded = r.fields m.loaded;
  enc_state = r.enabled;
  enc_key = or_text r.bind_key m.enc_key;
})

-- What each handler does with an answer that is `ok`, on the device `mac`; `key` is the bind key at the
-- press.
abbrev pub succeeded : Text → Text → Typed → Button → Reply → Modal → Modal
succeeded mac key t c_name r m = backed_up (
    show_clock r.device_time
      (record m { loaded = record m.loaded { device_name = r.device_name } }))
succeeded mac key t c_comfort r m = backed_up (record m {
  loaded = record m.loaded {
    comfort_t_lo = t.c_tlo;
    comfort_t_hi = t.c_thi;
    comfort_h_lo = t.c_hlo;
    comfort_h_hi = t.c_hhi;
  };
})
succeeded mac key t c_sensor r m = backed_up (record m {
  loaded = record m.loaded {
    t_fine_offset_c = or_zero t.s_tfine;
    h_fine_offset_pct = or_zero t.s_hfine;
    t_offset_c = r.t_offset_c;
    h_offset_pct = r.h_offset_pct;
    sensor_is_default = false;
  };
})
succeeded mac key t c_sensor_def r m = backed_up (record m {
  loaded = record m.loaded {
    t_fine_offset_c = pos 0;
    h_fine_offset_pct = pos 0;
    t_offset_c = first_of r.t_offset_c m.loaded.t_offset_c;
    h_offset_pct = first_of r.h_offset_pct m.loaded.h_offset_pct;
    sensor_is_default = true;
  };
})
succeeded mac key t c_time r m = record m {
  loaded = record m.loaded { device_time = r.device_time };
  dev_clock = r.device_time;
}
succeeded mac key t c_lcd r m = record m { lcd_permanent = if t.lcd_perm then some mac else none }
succeeded mac key t c_lcd_clear r m = record m { lcd_permanent = none }
succeeded mac key t c_raw r m = record m { rawout = or_text r.reply (codes "(no reply)") }
succeeded mac key t c_mac_read r m = record m { mac_new = or_text r.device_mac m.mac_new }
succeeded mac key t c_mac_set r m = m
succeeded mac key t c_bk_read r m = record m { bk_new = or_text r.bind_key m.bk_new }
succeeded mac key t c_bk_set r m =
    backed_up
      (record m { loaded = record m.loaded { bind_key = lower_case (or_text r.bind_key key) } })
succeeded mac key t c_enc_on r m = encryption_done r m
succeeded mac key t c_enc_off r m = encryption_done r m
succeeded mac key t c_reboot r m = m
succeeded mac key t c_factory r m = assigned r.config_after m

-- The same with an answer that is not.
abbrev pub failed_key : Reply → Modal → Modal
failed_key r m = if r.maybe_changed then record m { enc_key = or_text r.bind_key m.enc_key } else m

abbrev pub failed : Button → Reply → Modal → Modal
failed c_raw r m = record m { rawout = or_text r.error (codes "failed") }
failed c_enc_on r m = failed_key r m
failed c_enc_off r m = failed_key r m
failed _ r m = m

-- `_runCmd` returned nothing: its request raised, or a later operation took over.
abbrev pub no_answer : Button → Modal → Modal
no_answer c_raw m = record m { rawout = codes "(cancelled)" }
no_answer _ m = m

unfoldable pub answered : Text → Text → Typed → Button → Option Reply → Modal → Modal
unfolding lower_case
answered mac key t b none m = no_answer b m
answered mac key t b (some r) m = if r.ok then succeeded mac key t b r m else failed b r m
