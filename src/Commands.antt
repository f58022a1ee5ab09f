-- ===== src/Commands.antt =====
-- The window with the device commands (custom_components/telink_manager/www/telink-manager-panel.js):
-- the handlers of `_modalCommands`, each cut at the `await` of its question and of `_runCmd`, whose
-- bookkeeping `Session` has. Texts are lists of code points. A number that is read by `parseFloat` or
-- `parseInt` is a whole number of hundredths or of the unit, and `none` where it is NaN.
pub mod Answer
pub mod Safety
pub mod Lcd
pub mod Random
mod Tests
use ha_telink_manager.Prelude.{
  ℕ, ◌+◌, ◌-◌, ◌*◌, ◌/◌, ◌%◌, leb, ◌==◌, ℤ, pos, negsuc, neg, sub_ℕ, Bool, true, false, not, ◌&&◌,
  ◌||◌, Option, none, some, get_or_else, List, [], ◌∷◌, ◌++◌, codes, if◌then◌else◌,
}
use ha_telink_manager.Html.{Text}
use ha_telink_manager.Repeater.{is_space, upper}

-- Of `_loaded`, what the commands set. The rest is what an answer's `fields` may replace.
pub record Loaded : Type 0 where
  pub device_name : Text
  pub device_time : Option ℕ
  pub comfort_t_lo : Option ℤ
  pub comfort_t_hi : Option ℤ
  pub comfort_h_lo : Option ℤ
  pub comfort_h_hi : Option ℤ
  pub t_fine_offset_c : ℤ
  pub h_fine_offset_pct : ℤ
  pub t_offset_c : Option ℤ
  pub h_offset_pct : Option ℤ
  pub sensor_is_default : Bool
  pub bind_key : Text
  pub adv_crypto : Bool

-- What the sensor handler reads of the fields that the modal was drawn from: 0 for an offset or a slope
-- that is missing.
pub record Factory : Type 0 where
  pub t_z_default_c : ℤ
  pub h_z_default_pct : ℤ
  pub t_slope_default : ℕ
  pub t_slope : ℕ
  pub h_slope_default : ℕ
  pub h_slope : ℕ

-- The inputs that only the user changes.
pub record Typed : Type 0 where
  pub dname : Text
  pub c_tlo : Option ℤ
  pub c_thi : Option ℤ
  pub c_hlo : Option ℤ
  pub c_hhi : Option ℤ
  pub s_tfine : Option ℤ
  pub s_hfine : Option ℤ
  pub lcd_big : Option ℤ
  pub lcd_small : Option ℤ
  pub lcd_perm : Bool
  pub lcd_dur : Option ℤ
  pub rawhex : Text
  pub rawreply : Bool

-- The state: `_loaded`, `_lcdPermanentMac` while `_lcdPermanentActive`, the three inputs and the two labels
-- that handlers write to, this device's entry of `_backupMacs`, and the calls of `_autoBackup`.
pub record Modal : Type 0 where
  pub loaded : Loaded
  pub lcd_permanent : Option Text
  pub mac_new : Text
  pub bk_new : Text
  pub enc_key : Text
  pub rawout : Text
  pub enc_state : Bool
  pub dev_clock : Option ℕ
  pub backup_count : Option ℕ
  pub auto_backups : ℕ

pub data Button : Type 0 where
  c_name c_comfort c_sensor c_sensor_def c_time c_lcd c_lcd_clear c_raw c_mac_read c_mac_set :
      Button
  c_bk_read c_bk_set c_enc_on c_enc_off c_reboot c_factory : Button

-- The requests, without the MAC address that all of them carry.
pub data Message : Type 0 where
  set_device_name : (name : Text) → Message
  set_comfort : (t_lo t_hi h_lo h_hi : Option ℤ) → Message
  set_sensor : (t_slope : ℕ) (t_offset_c : ℤ) (h_slope : ℕ) (h_offset_pct : ℤ) → Message
  sensor_default set_time : Message
  lcd : (big_number small_number vtime_sec : ℤ) → Message
  raw : (hex : Text) (expect_reply : Bool) → Message
  get_mac : Message
  set_mac : (new_mac : Text) → Message
  get_bind_key : Message
  set_bind_key : (key : Text) → Message
  set_encryption : (enable : Bool) (key : Option Text) → Message
  reboot factory_reset : Message

-- An answer. A text that is missing is empty; `fields` and `config_after` are what `Object.assign` makes of
-- `_loaded` with them.
pub record Reply : Type 0 where
  pub ok : Bool
  pub error : Text
  pub device_name : Text
  pub device_time : Option ℕ
  pub t_offset_c : Option ℤ
  pub h_offset_pct : Option ℤ
  pub reply : Text
  pub device_mac : Text
  pub bind_key : Text
  pub enabled : Bool
  pub maybe_changed : Bool
  pub fields : Loaded → Loaded
  pub config_after : Option (Loaded → Loaded)
  pub backup_count : Option ℕ

abbrev pub or_zero : Option ℤ → ℤ
or_zero none = pos 0
or_zero (some v) = v

-- `a || b` on a number.
abbrev pub or_nat : ℕ → ℕ → ℕ
or_nat a b = if a == 0 then b else a

abbrev pub or_int : Option ℤ → ℤ → ℤ
or_int none d = d
or_int (some (pos n)) d = if n == 0 then d else pos n
or_int (some (negsuc n)) d = negsuc n

abbrev pub or_text : Text → Text → Text
or_text [] d = d
or_text (c ∷ s) d = c ∷ s

abbrev pub add_ℤ : ℤ → ℤ → ℤ
add_ℤ (pos m) (pos n) = pos (m + n)
add_ℤ (pos m) (negsuc n) = sub_ℕ m (n + 1)
add_ℤ (negsuc m) (pos n) = sub_ℕ n (m + 1)
add_ℤ (negsuc m) (negsuc n) = negsuc (m + n + 1)

-- `Math.round(x * 10)` of a number of hundredths, halves up.
abbrev pub tenths : ℤ → ℤ
tenths (pos n) = pos ((n + 5) / 10)
tenths (negsuc n) = neg ((n + 5) / 10)

-- `trim`.
unfoldable pub drop_space : Text → Text
drop_space [] = []
drop_space (c ∷ s) = let rest = drop_space s in if is_space c then rest else c ∷ s

unfoldable pub reverse_onto : Text → Text → Text
reverse_onto [] out = out
reverse_onto (c ∷ s) out = reverse_onto s (c ∷ out)

unfoldable pub trim : Text → Text
unfolding drop_space reverse_onto
trim s = reverse_onto (drop_space (reverse_onto (drop_space s) [])) []

-- Whether a handler asks before it sends.
abbrev pub asks : Button → Bool
asks c_sensor_def = true
asks c_raw = true
asks c_mac_set = true
asks c_bk_set = true
asks c_enc_on = true
asks c_enc_off = true
asks c_reboot = true
asks c_factory = true
asks _ = false

-- `vtime_sec`.
abbrev pub duration : Typed → ℤ
duration t = if t.lcd_perm then pos 0xffff else or_int t.lcd_dur (pos 1)

-- `if (key) msg.key = key`.
abbrev pub given : Text → Option Text
given [] = none
given (c ∷ s) = some (c ∷ s)

unfoldable pub message : Factory → Typed → Modal → Button → Message
unfolding trim
message f t m c_name = set_device_name t.dname
message f t m c_comfort = set_comfort t.c_tlo t.c_thi t.c_hlo t.c_hhi
message f t m c_sensor =
    set_sensor (or_nat f.t_slope_default (or_nat f.t_slope 65536))
      (add_ℤ f.t_z_default_c (or_zero t.s_tfine))
      (or_nat f.h_slope_default (or_nat f.h_slope 65536))
      (add_ℤ f.h_z_default_pct (or_zero t.s_hfine))
message f t m c_sensor_def = sensor_default
message f t m c_time = set_time
message f t m c_lcd = lcd (tenths (or_zero t.lcd_big)) (or_zero t.lcd_small) (duration t)
message f t m c_lcd_clear = lcd (pos 0) (pos 0) (pos 0)
message f t m c_raw = raw t.rawhex t.rawreply
message f t m c_mac_read = get_mac
message f t m c_mac_set = set_mac (trim m.mac_new)
message f t m c_bk_read = get_bind_key
message f t m c_bk_set = set_bind_key (trim m.bk_new)
message f t m c_enc_on = set_encryption true (given (trim m.enc_key))
message f t m c_enc_off = set_encryption false none
message f t m c_reboot = reboot
message f t m c_factory = factory_reset

-- A press of a button, with the answer that its question would get.
unfoldable pub press : Factory → Typed → Modal → Button → Bool → Option Message
unfolding message
press f t m b confirmed = if asks b && not confirmed then none else some (message f t m b)
