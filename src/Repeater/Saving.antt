-- ===== src/Repeater/Saving.antt =====
-- What saving the repeater editor sends.
use ha_telink_manager.Prelude.{
  ℕ, Bool, Option, none, some, if◌then◌else◌, text_eq, text_eq_iff, ◌≡◌, refl, arith,
}
use ha_telink_manager.Html.{Text}
use ha_telink_manager.Repeater.{
  RepeaterFields, RepeaterForm, RepeaterChanges, repeater_changes, changed_num, changed_bool,
}

abbrev over : {A : Type 0} → Option A → A → A
over none old = old
over (some v) old = v

abbrev over_number : Option ℕ → Option ℕ → Option ℕ
over_number none old = old
over_number (some v) old = some v

-- What the device holds once it has taken the changes.
abbrev pub patched : RepeaterChanges → RepeaterFields → RepeaterFields
patched c f = record {
  ext_mac = over c.ext_mac f.ext_mac;
  ext_bind_key = over c.ext_bind_key f.ext_bind_key;
  temp_F = over c.temp_F f.temp_F;
  rf_tx_power = over_number c.rf_tx_power f.rf_tx_power;
  scan_interval_ms = over_number c.scan_interval_ms f.scan_interval_ms;
  scan_window_min = over_number c.scan_window_min f.scan_window_min;
  scan_window_max = over_number c.scan_window_max f.scan_window_max;
}

-- What the form asks for: its values, and the device's own where a number cannot be read.
abbrev pub asked : RepeaterForm → RepeaterFields → RepeaterFields
asked form f = record {
  ext_mac = form.ext;
  ext_bind_key = form.key;
  temp_F = form.unit_F;
  rf_tx_power = over_number form.rf f.rf_tx_power;
  scan_interval_ms = over_number form.int f.scan_interval_ms;
  scan_window_min = over_number form.wmin f.scan_window_min;
  scan_window_max = over_number form.wmax f.scan_window_max;
}

text_over : (v old : Text) → over (if text_eq v old then none else some v) old ≡ v
text_over v old = ground (arith, text_eq_iff v old)

number_over : (v old : Option ℕ) → over_number (changed_num v old) old ≡ over_number v old
number_over v old = ground arith

bool_over : (v old : Bool) → over (changed_bool v old) old ≡ v
bool_over v old = ground arith

-- A device that takes what is sent holds what the form asks for: every text and the unit as in the
-- form, and each number that can be read.
pub patched-repeater_changes :
    (form : RepeaterForm) (f : RepeaterFields) → patched (repeater_changes form f) f ≡ asked form f
unfolding repeater_changes
patched-repeater_changes form f =
    rw
      (
        text_over form.ext f.ext_mac,
        text_over form.key f.ext_bind_key,
        bool_over form.unit_F f.temp_F,
        number_over form.rf f.rf_tx_power,
        number_over form.int f.scan_interval_ms,
        number_over form.wmin f.scan_window_min,
        number_over form.wmax f.scan_window_max,
      )
      refl
