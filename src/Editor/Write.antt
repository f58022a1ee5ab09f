-- ===== src/Editor/Write.antt =====
-- A write of the collected changes as a whole: `_collectChanges` of the panel's script, with what the
-- backend does with an entry that is null (custom_components/telink_manager/pvvx_struct.py).
use ha_telink_manager.Prelude.{
  ℕ, Bool, true, false, ◌&&◌, ◌||◌, not, Option, none, some, List, [], ◌∷◌, ◌++◌, ◌≡◌, refl,
  if◌then◌else◌, ap, ◌∙◌,
}
use ha_telink_manager.Device.{Config}
use ha_telink_manager.Editor.{
  Form, Change, adv_interval_raw, measure_mult, event_adv_cnt, ne_num, when, map_num, round_to,
  delay_change, adv_flags, adv_type_raw, averaging, blinking_time_smile, comfort_smiley, lcd_raw,
  lcd_refresh_raw, lp_measures, ne_bool, ne_nat, num_or, screen_off, show_batt, smiley, temp_F,
  tx_measures, event_change, rf_change, clat_change, collect_changes,
}
use ha_telink_manager.Editor.Apply.{apply_all, wanted, apply_all-collect_changes}

-- `int(None)` fails; a null multiplier is passed over.
abbrev pub fails : Change → Bool
fails (adv_interval_raw none) = true
fails (event_adv_cnt none) = true
fails _ = false

abbrev pub any_fails : List Change → Bool
any_fails [] = false
any_fails (x ∷ xs) = fails x || any_fails xs

abbrev pub write_all : List Change → Config → Option Config
write_all xs c = if any_fails xs then none else some (apply_all xs c)

-- Does the element hold a number, or is it not there?
abbrev pub interval_held : Option ℕ → Bool
interval_held none = false
interval_held (some v) = true

abbrev pub event_held : Option (Option ℕ) → Bool
event_held (some none) = false
event_held _ = true

module _ (rest : List Change) where
  pass_when :
      (t : Bool) (x : Change) → fails x ≡ false → any_fails (when t x ++ rest) ≡ any_fails rest
  pass_when true x h = rw h refl
  pass_when false x h = refl

  pass_interval :
      (v : Option ℕ) (old : ℕ)
      → any_fails (
          when (ne_num (map_num (round_to 625) v) old) (adv_interval_raw (map_num (round_to 625) v))
          ++ rest)
        ≡ not (interval_held v) || any_fails rest
  pass_interval none old = refl
  pass_interval (some v) old = pass_when _ _ refl

  pass_measure :
      (v : Option ℕ) (old : ℕ)
      → any_fails (when (ne_num v old) (measure_mult v) ++ rest) ≡ any_fails rest
  pass_measure v old = pass_when _ _ refl

  pass_delay :
      (v : Option (Option ℕ)) (old : Option ℕ)
      → any_fails (delay_change v old ++ rest) ≡ any_fails rest
  pass_delay none old = refl
  pass_delay (some v) old = pass_when _ _ refl

  pass_event :
      (v : Option (Option ℕ)) (old : Option ℕ)
      → any_fails (event_change v old ++ rest) ≡ not (event_held v) || any_fails rest
  pass_event none old = refl
  pass_event (some none) old = refl
  pass_event (some (some v)) old = pass_when _ _ refl

  pass_rf : (v : Option ℕ) (old : ℕ) → any_fails (rf_change v old ++ rest) ≡ any_fails rest
  pass_rf none old = refl
  pass_rf (some v) old = pass_when _ _ refl

  pass_clat :
      (v : Option (Option ℕ)) (old : ℕ) → any_fails (clat_change v old ++ rest) ≡ any_fails rest
  pass_clat none old = refl
  pass_clat (some v) old = pass_when _ _ refl

last_passes : (t : Bool) (x : Change) → fails x ≡ false → any_fails (when t x) ≡ false
last_passes true x h = rw h refl
last_passes false x h = refl

all_held : (a b : Bool) → (not a || (not b || false)) ≡ not (a && b)
all_held true true = refl
all_held true false = refl
all_held false b = refl

any_fails-collect_changes :
    (form : Form) (f : Config)
    → any_fails (collect_changes form f) ≡ not (interval_held form.adv_s && event_held form.evtcnt)
unfolding collect_changes
any_fails-collect_changes form f =
    pass_interval _ form.adv_s f.adv_interval_raw
    ∙ ap (λ r. not (interval_held form.adv_s) || r)
        (pass_measure _ form.mmult f.measure_mult
          ∙ pass_when _ (ne_bool form.tunit_F f.temp_F) (temp_F form.tunit_F) refl
          ∙ pass_when _ (ne_bool form.disp_off f.screen_off) (screen_off form.disp_off) refl
          ∙ pass_when _ (ne_nat (lcd_raw form) f.lcd_refresh_raw) (lcd_refresh_raw (lcd_raw form))
              refl
          ∙ pass_when _ (ne_nat form.smiley f.smiley) (smiley form.smiley) refl
          ∙ pass_when _ (ne_bool form.comfort f.comfort_smiley) (comfort_smiley form.comfort) refl
          ∙ pass_when _ (ne_bool form.blink f.blinking_time_smile) (blinking_time_smile form.blink)
              refl
          ∙ pass_when _ (ne_bool form.sbatt f.show_batt) (show_batt form.sbatt) refl
          ∙ pass_when _ (ne_bool form.lpmeas f.lp_measures) (lp_measures form.lpmeas) refl
          ∙ pass_when _ (ne_bool form.txmeas f.tx_measures) (tx_measures form.txmeas) refl
          ∙ pass_when _ (ne_nat (num_or 0 form.avgmeas) f.averaging)
              (averaging (num_or 0 form.avgmeas)) refl
          ∙ pass_when _ (ne_bool form.advflags f.adv_flags) (adv_flags form.advflags) refl
          ∙ pass_delay _ form.advdelay f.adv_delay_raw
          ∙ pass_event _ form.evtcnt f.event_adv_cnt
          ∙ ap (λ r. not (event_held form.evtcnt) || r)
              (pass_rf _ form.rftx f.rf_tx_power
                ∙ pass_clat _ form.clat f.connect_latency_raw
                ∙ last_passes (ne_nat form.advtype f.adv_type_raw) (adv_type_raw form.advtype)
                    refl))
    ∙ all_held (interval_held form.adv_s) (event_held form.evtcnt)

-- Saving a form on a firmware with every setting, the ranges of the values aside: the write fails
-- exactly where the advertising interval, or an event count that is there, holds no number. Else it
-- makes the settings what the form shows: an element that holds a number sets its field, of the
-- others the display's refresh, the averaging and the delay count as 0 and the latency as 20, the
-- multiplier keeps its value, and so does every field whose element is not there.
pub write_all-collect_changes :
    (form : Form) (f : Config)
    → write_all (collect_changes form f) f
      ≡ (if interval_held form.adv_s && event_held form.evtcnt then some (wanted form f) else none)
write_all-collect_changes form f =
    rw (any_fails-collect_changes form f, apply_all-collect_changes form f)
      (if_not (interval_held form.adv_s && event_held form.evtcnt) (some (wanted form f)))
  where
    if_not : (t : Bool) (a : Option Config) → (if not t then none else a) ≡ (if t then a else none)
    if_not true a = refl
    if_not false a = refl
