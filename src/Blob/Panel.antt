-- ===== src/Blob/Panel.antt =====
-- The panel's changes on the configuration block: `_collectChanges` of the panel's script with `build`
-- and `parse` of pvvx_struct.py (custom_components/telink_manager).
use mathlib.Core.Bool.{false≢true}
use ha_telink_manager.Prelude.{
  ℕ, Bool, true, false, ◌&&◌, Option, none, some, List, [], ◌∷◌, ◌++◌, ◌≡◌, refl, arith, sym, ap,
  subst, ◌∙◌,
}
use ha_telink_manager.Device.{Config}
use ha_telink_manager.Editor.{
  Form, Change, adv_interval_raw, measure_mult, temp_F, screen_off, lcd_refresh_raw, smiley,
  comfort_smiley, blinking_time_smile, show_batt, lp_measures, tx_measures, averaging, adv_flags,
  adv_delay_raw, event_adv_cnt, rf_tx_power, connect_latency_raw, adv_type_raw, when,
  collect_changes, ne_num, ne_nat, ne_bool, num_or, lcd_raw, map_num, round_to, delay_change,
  event_change, rf_change, clat_change,
}
use ha_telink_manager.Editor.Apply.{apply, apply_all, wanted, apply_all-collect_changes}
use ha_telink_manager.Blob.{
  Blob, modern, layout_of, config_of, parse, parse_as, Changes, build, build_as,
}
use ha_telink_manager.Blob.Build.{IsBlob, requested, parse_as-build_as}

and_sound : (a b : Bool) → (a && b) ≡ true → (a ≡ true) × (b ≡ true)
and_sound a b h = ground arith

abbrev pub no_changes : Changes
no_changes = record {
  comfort_smiley = none;
  blinking_time_smile = none;
  temp_F = none;
  show_batt = none;
  tx_measures = none;
  lp_measures = none;
  adv_type_raw = none;
  smiley = none;
  adv_flags = none;
  screen_off = none;
  temp_offset = none;
  humi_offset = none;
  adv_delay_raw = none;
  event_adv_cnt = none;
  adv_interval_raw = none;
  measure_interval = none;
  measure_mult = none;
  rf_tx_power = none;
  connect_latency_raw = none;
  lcd_refresh_raw = none;
  averaging = none;
}

-- An assignment to an entry of `changes`.
abbrev pub set_change : Change → Changes → Changes
set_change (adv_interval_raw v) ch = record ch { adv_interval_raw = some v }
set_change (measure_mult v) ch = record ch { measure_mult = some v }
set_change (temp_F v) ch = record ch { temp_F = some v }
set_change (screen_off v) ch = record ch { screen_off = some v }
set_change (lcd_refresh_raw v) ch = record ch { lcd_refresh_raw = some v }
set_change (smiley v) ch = record ch { smiley = some v }
set_change (comfort_smiley v) ch = record ch { comfort_smiley = some v }
set_change (blinking_time_smile v) ch = record ch { blinking_time_smile = some v }
set_change (show_batt v) ch = record ch { show_batt = some v }
set_change (lp_measures v) ch = record ch { lp_measures = some v }
set_change (tx_measures v) ch = record ch { tx_measures = some v }
set_change (averaging v) ch = record ch { averaging = some v }
set_change (adv_flags v) ch = record ch { adv_flags = some v }
set_change (adv_delay_raw v) ch = record ch { adv_delay_raw = some v }
set_change (event_adv_cnt v) ch = record ch { event_adv_cnt = some v }
set_change (rf_tx_power v) ch = record ch { rf_tx_power = some v }
set_change (connect_latency_raw v) ch = record ch { connect_latency_raw = some v }
set_change (adv_type_raw v) ch = record ch { adv_type_raw = some v }

-- The dictionary that the entries make, in their order.
abbrev pub dict : List Change → Changes → Changes
dict [] ch = ch
dict (x ∷ xs) ch = dict xs (set_change x ch)

abbrev pub is_number : Change → Bool
is_number (adv_interval_raw none) = false
is_number (measure_mult none) = false
is_number (event_adv_cnt none) = false
is_number _ = true

data Numbers : List Change → Type 0 where
  no_entries : Numbers []
  number_entry :
      {x : Change} {xs : List Change} → is_number x ≡ true → Numbers xs → Numbers (x ∷ xs)

module _ (b : Blob) where
  abbrev before : Config
  before = config_of modern b

  -- The panel never sends the interval of measuring itself.
  set_change-measure_interval :
      (x : Change) (ch : Changes) → (set_change x ch).measure_interval ≡ ch.measure_interval
  set_change-measure_interval (adv_interval_raw v) ch = refl
  set_change-measure_interval (measure_mult v) ch = refl
  set_change-measure_interval (temp_F v) ch = refl
  set_change-measure_interval (screen_off v) ch = refl
  set_change-measure_interval (lcd_refresh_raw v) ch = refl
  set_change-measure_interval (smiley v) ch = refl
  set_change-measure_interval (comfort_smiley v) ch = refl
  set_change-measure_interval (blinking_time_smile v) ch = refl
  set_change-measure_interval (show_batt v) ch = refl
  set_change-measure_interval (lp_measures v) ch = refl
  set_change-measure_interval (tx_measures v) ch = refl
  set_change-measure_interval (averaging v) ch = refl
  set_change-measure_interval (adv_flags v) ch = refl
  set_change-measure_interval (adv_delay_raw v) ch = refl
  set_change-measure_interval (event_adv_cnt v) ch = refl
  set_change-measure_interval (rf_tx_power v) ch = refl
  set_change-measure_interval (connect_latency_raw v) ch = refl
  set_change-measure_interval (adv_type_raw v) ch = refl

  set_change-apply :
      (x : Change) (ch : Changes)
      → is_number x ≡ true
      → ch.measure_interval ≡ none
      → requested (set_change x ch) before ≡ apply x (requested ch before)
  set_change-apply (adv_interval_raw none) ch h g = absurd (false≢true h)
  set_change-apply (adv_interval_raw (some v)) ch h g = refl
  set_change-apply (measure_mult none) ch h g = absurd (false≢true h)
  set_change-apply (measure_mult (some v)) ch h g = rw g refl
  set_change-apply (temp_F v) ch h g = refl
  set_change-apply (screen_off v) ch h g = refl
  set_change-apply (lcd_refresh_raw v) ch h g = refl
  set_change-apply (smiley v) ch h g = refl
  set_change-apply (comfort_smiley v) ch h g = refl
  set_change-apply (blinking_time_smile v) ch h g = refl
  set_change-apply (show_batt v) ch h g = refl
  set_change-apply (lp_measures v) ch h g = refl
  set_change-apply (tx_measures v) ch h g = refl
  set_change-apply (averaging v) ch h g = refl
  set_change-apply (adv_flags v) ch h g = refl
  set_change-apply (adv_delay_raw v) ch h g = refl
  set_change-apply (event_adv_cnt none) ch h g = absurd (false≢true h)
  set_change-apply (event_adv_cnt (some v)) ch h g = refl
  set_change-apply (rf_tx_power v) ch h g = refl
  set_change-apply (connect_latency_raw v) ch h g = refl
  set_change-apply (adv_type_raw v) ch h g = refl

  dict-apply_all :
      (xs : List Change) (ch : Changes)
      → Numbers xs
      → ch.measure_interval ≡ none
      → requested (dict xs ch) before ≡ apply_all xs (requested ch before)
  dict-apply_all [] ch no_entries g = refl
  dict-apply_all (x ∷ xs) ch (number_entry p q) g =
      dict-apply_all xs (set_change x ch) q (set_change-measure_interval x ch ∙ g)
      ∙ ap (apply_all xs) (set_change-apply x ch p g)

-- The elements that the backend needs a number of hold one.
abbrev pub event_readable : Option (Option ℕ) → Bool
event_readable (some none) = false
event_readable _ = true

abbrev pub num_readable : Option ℕ → Bool
num_readable none = false
num_readable (some v) = true

abbrev pub readable : Form → Bool
readable form = num_readable form.adv_s && (num_readable form.mmult && event_readable form.evtcnt)

-- One element's change, if there is any, is a number.
number_when : (t : Bool) (x : Change) → is_number x ≡ true → Numbers (when t x)
number_when true x h = number_entry h no_entries
number_when false x h = no_entries

number_append : (xs ys : List Change) → Numbers xs → Numbers ys → Numbers (xs ++ ys)
number_append [] ys no_entries k = k
number_append (x ∷ xs) ys (number_entry p h) k = number_entry p (number_append xs ys h k)

number_interval :
    (v : Option ℕ) (old : ℕ)
    → num_readable v ≡ true
    → Numbers
        (when (ne_num (map_num (round_to 625) v) old) (adv_interval_raw (map_num (round_to 625) v)))
number_interval none old h = absurd (false≢true h)
number_interval (some v) old h = number_when _ _ refl

number_measure :
    (v : Option ℕ) (old : ℕ)
    → num_readable v ≡ true
    → Numbers (when (ne_num v old) (measure_mult v))
number_measure none old h = absurd (false≢true h)
number_measure (some v) old h = number_when _ _ refl

number_delay : (v : Option (Option ℕ)) (old : Option ℕ) → Numbers (delay_change v old)
number_delay none old = no_entries
number_delay (some v) old = number_when _ _ refl

number_event :
    (v : Option (Option ℕ)) (old : Option ℕ)
    → event_readable v ≡ true
    → Numbers (event_change v old)
number_event none old h = no_entries
number_event (some none) old h = absurd (false≢true h)
number_event (some (some v)) old h = number_when _ _ refl

number_rf : (v : Option ℕ) (old : ℕ) → Numbers (rf_change v old)
number_rf none old = no_entries
number_rf (some v) old = number_when _ _ refl

number_clat : (v : Option (Option ℕ)) (old : ℕ) → Numbers (clat_change v old)
number_clat none old = no_entries
number_clat (some v) old = number_when _ _ refl

collect_changes-Numbers :
    (form : Form) (c : Config) → readable form ≡ true → Numbers (collect_changes form c)
unfolding collect_changes
collect_changes-Numbers form c h =
    let (h0, k) = and_sound _ _ h in
    let (h1, h2) = and_sound _ _ k in
    number_append _ _ (number_interval form.adv_s c.adv_interval_raw h0) (
      number_append _ _ (number_measure form.mmult c.measure_mult h1) (
        number_append _ _ (number_when (ne_bool form.tunit_F c.temp_F) (temp_F form.tunit_F) refl) (
          number_append _ _
            (number_when (ne_bool form.disp_off c.screen_off) (screen_off form.disp_off) refl)
            (number_append _ _
              (number_when (ne_nat (lcd_raw form) c.lcd_refresh_raw)
                (lcd_refresh_raw (lcd_raw form)) refl)
              (number_append _ _
                (number_when (ne_nat form.smiley c.smiley) (smiley form.smiley) refl)
                (number_append _ _
                  (number_when (ne_bool form.comfort c.comfort_smiley) (comfort_smiley form.comfort)
                    refl)
                  (number_append _ _
                    (number_when (ne_bool form.blink c.blinking_time_smile)
                      (blinking_time_smile form.blink) refl)
                    (number_append _ _
                      (number_when (ne_bool form.sbatt c.show_batt) (show_batt form.sbatt) refl)
                      (number_append _ _
                        (number_when (ne_bool form.lpmeas c.lp_measures) (lp_measures form.lpmeas)
                          refl)
                        (number_append _ _
                          (number_when (ne_bool form.txmeas c.tx_measures) (tx_measures form.txmeas)
                            refl)
                          (number_append _ _
                            (number_when (ne_nat (num_or 0 form.avgmeas) c.averaging)
                              (averaging (num_or 0 form.avgmeas)) refl)
                            (number_append _ _
                              (number_when (ne_bool form.advflags c.adv_flags)
                                (adv_flags form.advflags) refl)
                              (number_append _ _ (number_delay form.advdelay c.adv_delay_raw) (
                                number_append _ _ (number_event form.evtcnt c.event_adv_cnt h2) (
                                  number_append _ _ (number_rf form.rftx c.rf_tx_power) (
                                    number_append _ _ (number_clat form.clat c.connect_latency_raw)
                                      (number_when (ne_nat form.advtype c.adv_type_raw)
                                        (adv_type_raw form.advtype) refl)))))))))))))))))

save_as :
    (form : Form) (b : Blob) {b' : Blob}
    → IsBlob b
    → readable form ≡ true
    → build_as modern (dict (collect_changes form (config_of modern b)) no_changes) b ≡ some b'
    → parse_as modern b' ≡ record (parse_as modern b) { config = wanted form (config_of modern b) }
save_as form b h r e =
    parse_as-build_as modern (dict (collect_changes form (config_of modern b)) no_changes) b h e
    ∙ ap (λ (c : Config). record (parse_as modern b) { config = c })
        (dict-apply_all b _ no_changes (collect_changes-Numbers form _ r) refl
          ∙ apply_all-collect_changes form (config_of modern b))

-- Saving a form on the modern layout: if the elements that must hold a number do and the write is not
-- refused, the next read returns the settings that the form shows, and all else as it was.
pub save-parse :
    (fw : ℕ) (form : Form) (b : Blob) {b' : Blob}
    → IsBlob b
    → layout_of fw ≡ modern
    → readable form ≡ true
    → build fw (dict (collect_changes form (parse fw b).config) no_changes) b ≡ some b'
    → parse fw b' ≡ record (parse fw b) { config = wanted form (parse fw b).config }
unfolding build parse
save-parse fw form b {b'} h m r e =
    subst
      (λ l.
        build_as l (dict (collect_changes form (config_of l b)) no_changes) b ≡ some b'
        → parse_as l b' ≡ record (parse_as l b) { config = wanted form (config_of l b) })
      (sym m) (save_as form b h r) e
