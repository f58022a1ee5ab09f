-- ===== src/Editor.antt =====
-- The thermometer editor (custom_components/telink_manager/www/telink-manager-panel.js):
-- `_collectChanges` and the start of `_save`. A number that `parseFloat` or `parseInt` cannot read is
-- `none` (NaN). The form's times are whole numbers of a unit that its step divides: the advertising
-- interval in tenths of a millisecond, the LCD refresh in hundredths of a second, the delay in
-- microseconds and the latency in milliseconds.
pub mod Apply
pub mod Write
pub mod Nothing
pub mod Opening
pub mod Period
mod Tests
use ha_telink_manager.Prelude.{
  ℕ, ◌+◌, ◌-◌, ◌*◌, ◌/◌, ◌==◌, Bool, true, false, not, Option, none, some, List, [], ◌∷◌, ◌++◌,
  String, if◌then◌else◌,
}
use ha_telink_manager.Device.{Config}
use ha_telink_manager.Session.{Panel, Task, start_write}

-- What the form's elements hold. An element that the firmware's layout does not offer is `none`.
pub record Form : Type 0 where
  pub adv_s : Option ℕ
  pub mmult : Option ℕ
  pub tunit_F : Bool
  pub disp_off : Bool
  pub lcdref : Option ℕ
  pub smiley : ℕ
  pub comfort : Bool
  pub blink : Bool
  pub sbatt : Bool
  pub lpmeas : Bool
  pub txmeas : Bool
  pub avgmeas : Option ℕ
  pub advflags : Bool
  pub advdelay : Option (Option ℕ)
  pub evtcnt : Option (Option ℕ)
  pub rftx : Option ℕ
  pub clat : Option (Option ℕ)
  pub advtype : ℕ

-- An entry of `changes`, with which goes one line of `diff`.
pub data Change : Type 0 where
  adv_interval_raw measure_mult : Option ℕ → Change
  temp_F screen_off : Bool → Change
  lcd_refresh_raw smiley : ℕ → Change
  comfort_smiley blinking_time_smile show_batt lp_measures tx_measures : Bool → Change
  averaging : ℕ → Change
  adv_flags : Bool → Change
  adv_delay_raw : ℕ → Change
  event_adv_cnt : Option ℕ → Change
  rf_tx_power connect_latency_raw adv_type_raw : ℕ → Change

-- `v !== old` for each kind of value; NaN differs from every number.
abbrev pub ne_nat : ℕ → ℕ → Bool
ne_nat v old = not (v == old)

abbrev pub ne_num : Option ℕ → ℕ → Bool
ne_num none old = true
ne_num (some v) old = ne_nat v old

-- The same where the read did not return the old value, which differs from everything.
abbrev pub ne_missing : ℕ → Option ℕ → Bool
ne_missing v none = true
ne_missing v (some old) = ne_nat v old

abbrev pub ne_num_missing : Option ℕ → Option ℕ → Bool
ne_num_missing none old = true
ne_num_missing (some v) old = ne_missing v old

abbrev pub ne_bool : Bool → Bool → Bool
ne_bool true old = not old
ne_bool false old = old

abbrev pub when : Bool → Change → List Change
when true c = c ∷ []
when false c = []

-- `Math.round(x / n)`, halves up, and `|| 0` on a number.
abbrev pub round_to : ℕ → ℕ → ℕ
round_to n x = (2 * x + n) / (2 * n)

abbrev pub num_or : ℕ → Option ℕ → ℕ
num_or d none = d
num_or d (some v) = v

abbrev pub map_num : (ℕ → ℕ) → Option ℕ → Option ℕ
map_num f none = none
map_num f (some v) = some (f v)

-- `parseFloat(value) || 20`: 0 counts as missing too.
abbrev pub latency_of : Option ℕ → ℕ
latency_of none = 20
latency_of (some v) = if v == 0 then 20 else v

abbrev pub adv_raw : Form → Option ℕ
adv_raw form = map_num (round_to 625) form.adv_s

abbrev pub lcd_raw : Form → ℕ
lcd_raw form = round_to 5 (num_or 0 form.lcdref)

abbrev pub clat_raw : Option ℕ → ℕ
clat_raw v = round_to 20 (latency_of v) - 1

-- The changes for the elements that may be missing.
abbrev pub delay_change : Option (Option ℕ) → Option ℕ → List Change
delay_change none old = []
delay_change (some v) old =
    when (ne_missing (round_to 625 (num_or 0 v)) old) (adv_delay_raw (round_to 625 (num_or 0 v)))

abbrev pub event_change : Option (Option ℕ) → Option ℕ → List Change
event_change none old = []
event_change (some v) old = when (ne_num_missing v old) (event_adv_cnt v)

abbrev pub rf_change : Option ℕ → ℕ → List Change
rf_change none old = []
rf_change (some v) old = when (ne_nat v old) (rf_tx_power v)

abbrev pub clat_change : Option (Option ℕ) → ℕ → List Change
clat_change none old = []
clat_change (some v) old = when (ne_nat (clat_raw v) old) (connect_latency_raw (clat_raw v))

-- `_collectChanges`, in the source's order.
unfoldable pub collect_changes : Form → Config → List Change
collect_changes form f =
    when (ne_num (adv_raw form) f.adv_interval_raw) (adv_interval_raw (adv_raw form))
    ++ (when (ne_num form.mmult f.measure_mult) (measure_mult form.mmult)
        ++ (when (ne_bool form.tunit_F f.temp_F) (temp_F form.tunit_F)
            ++ (when (ne_bool form.disp_off f.screen_off) (screen_off form.disp_off)
                ++ (when (ne_nat (lcd_raw form) f.lcd_refresh_raw) (lcd_refresh_raw (lcd_raw form))
                    ++ (when (ne_nat form.smiley f.smiley) (smiley form.smiley)
                        ++ (when (ne_bool form.comfort f.comfort_smiley)
                              (comfort_smiley form.comfort)
                            ++ (when (ne_bool form.blink f.blinking_time_smile)
                                  (blinking_time_smile form.blink)
                                ++ (when (ne_bool form.sbatt f.show_batt) (show_batt form.sbatt)
                                    ++ (when (ne_bool form.lpmeas f.lp_measures)
                                          (lp_measures form.lpmeas)
                                        ++ (when (ne_bool form.txmeas f.tx_measures)
                                              (tx_measures form.txmeas)
                                            ++ (when (ne_nat (num_or 0 form.avgmeas) f.averaging)
                                                  (averaging (num_or 0 form.avgmeas))
                                                ++ (when (ne_bool form.advflags f.adv_flags)
                                                      (adv_flags form.advflags)
                                                    ++ (delay_change form.advdelay f.adv_delay_raw
                                                        ++ (event_change form.evtcnt f.event_adv_cnt
                                                            ++ (rf_change form.rftx f.rf_tx_power
                                                            ++ (clat_change form.clat
                                                            f.connect_latency_raw
                                                            ++ when
                                                            (ne_nat form.advtype f.adv_type_raw)
                                                            (adv_type_raw
                                                            form.advtype)))))))))))))))))

-- `_save`, up to its `await`: nothing is written where nothing changed.
abbrev save_changes : String → List Change → Panel → Panel × List Task
save_changes mac [] p = (p, [])
save_changes mac (c ∷ cs) p = start_write mac p

unfoldable pub save : String → Form → Config → Panel → Panel × List Task
unfolding start_write collect_changes
save mac form f p = save_changes mac (collect_changes form f) p
