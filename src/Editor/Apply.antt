-- ===== src/Editor/Apply.antt =====
-- What the collected changes do to the settings that were read.
use ha_telink_manager.Prelude.{
  ℕ, ◌==◌, Bool, true, false, Option, none, some, List, [], ◌∷◌, ◌++◌, ◌≡◌, refl, ap, ◌∙◌, sym,
  Bool-cases, inl, inr, ==_iff, append-nil,
}
use ha_telink_manager.Device.{Config}
use ha_telink_manager.Editor.{
  ne_missing, Form, Change, adv_interval_raw, measure_mult, temp_F, screen_off, lcd_refresh_raw,
  smiley, comfort_smiley, blinking_time_smile, show_batt, lp_measures, tx_measures, averaging,
  adv_flags, adv_delay_raw, event_adv_cnt, rf_tx_power, connect_latency_raw, adv_type_raw, ne_nat,
  ne_num, ne_bool, when, num_or, adv_raw, lcd_raw, clat_raw, round_to, delay_change, event_change,
  rf_change, clat_change, collect_changes,
}

-- A change as a write of its field; one without a number is passed over here.
abbrev pub apply : Change → Config → Config
apply (adv_interval_raw none) c = c
apply (adv_interval_raw (some v)) c = record c { adv_interval_raw = v }
apply (measure_mult none) c = c
apply (measure_mult (some v)) c = record c { measure_mult = v }
apply (temp_F v) c = record c { temp_F = v }
apply (screen_off v) c = record c { screen_off = v }
apply (lcd_refresh_raw v) c = record c { lcd_refresh_raw = v }
apply (smiley v) c = record c { smiley = v }
apply (comfort_smiley v) c = record c { comfort_smiley = v }
apply (blinking_time_smile v) c = record c { blinking_time_smile = v }
apply (show_batt v) c = record c { show_batt = v }
apply (lp_measures v) c = record c { lp_measures = v }
apply (tx_measures v) c = record c { tx_measures = v }
apply (averaging v) c = record c { averaging = v }
apply (adv_flags v) c = record c { adv_flags = v }
apply (adv_delay_raw v) c = record c { adv_delay_raw = some v }
apply (event_adv_cnt none) c = c
apply (event_adv_cnt (some v)) c = record c { event_adv_cnt = some v }
apply (rf_tx_power v) c = record c { rf_tx_power = v }
apply (connect_latency_raw v) c = record c { connect_latency_raw = v }
apply (adv_type_raw v) c = record c { adv_type_raw = v }

abbrev pub apply_all : List Change → Config → Config
apply_all [] c = c
apply_all (x ∷ xs) c = apply_all xs (apply x c)

-- What the form asks for: an element's value, and what its script puts for a value that is not a number.
abbrev pub value_or {ℓ} : {A : Type ℓ} → A → Option A → A
value_or old none = old
value_or old (some v) = v

abbrev pub event_wanted : Option ℕ → Option (Option ℕ) → Option ℕ
event_wanted old none = old
event_wanted old (some none) = old
event_wanted old (some (some v)) = some v

abbrev pub delay_wanted : Option ℕ → Option (Option ℕ) → Option ℕ
delay_wanted old none = old
delay_wanted old (some v) = some (round_to 625 (num_or 0 v))

abbrev pub clat_wanted : ℕ → Option (Option ℕ) → ℕ
clat_wanted old none = old
clat_wanted old (some v) = clat_raw v

abbrev pub wanted : Form → Config → Config
wanted form f = record {
  adv_interval_raw = num_or f.adv_interval_raw (adv_raw form);
  measure_mult = num_or f.measure_mult form.mmult;
  temp_F = form.tunit_F;
  screen_off = form.disp_off;
  lcd_refresh_raw = lcd_raw form;
  smiley = form.smiley;
  comfort_smiley = form.comfort;
  blinking_time_smile = form.blink;
  show_batt = form.sbatt;
  lp_measures = form.lpmeas;
  tx_measures = form.txmeas;
  averaging = num_or 0 form.avgmeas;
  adv_flags = form.advflags;
  adv_delay_raw = delay_wanted f.adv_delay_raw form.advdelay;
  event_adv_cnt = event_wanted f.event_adv_cnt form.evtcnt;
  rf_tx_power = value_or f.rf_tx_power form.rftx;
  connect_latency_raw = clat_wanted f.connect_latency_raw form.clat;
  adv_type_raw = form.advtype;
}

-- The changes of one element, whatever follows, set its field to what the form wants.
module _ (rest : List Change) (c : Config) where
  put_bool :
      (mk : Bool → Change) (set : Bool → Config) (v old : Bool)
      → ((w : Bool) → apply (mk w) c ≡ set w)
      → set old ≡ c
      → apply_all (when (ne_bool v old) (mk v) ++ rest) c ≡ apply_all rest (set v)
  put_bool mk set true true a s = ap (apply_all rest) (sym s)
  put_bool mk set true false a s = ap (apply_all rest) (a true)
  put_bool mk set false true a s = ap (apply_all rest) (a false)
  put_bool mk set false false a s = ap (apply_all rest) (sym s)

  put_nat :
      (mk : ℕ → Change) (set : ℕ → Config) (v old : ℕ)
      → ((w : ℕ) → apply (mk w) c ≡ set w)
      → set old ≡ c
      → apply_all (when (ne_nat v old) (mk v) ++ rest) c ≡ apply_all rest (set v)
  put_nat mk set v old a s = elim (Bool-cases (v == old)) [
    | inl e ↦ rw e (ap (apply_all rest) (sym s ∙ ap set (sym ((==_iff v old).0 e))))
    | inr e ↦ rw e (ap (apply_all rest) (a v))
  ]

  put_num :
      (mk : Option ℕ → Change) (set : ℕ → Config) (v : Option ℕ) (old : ℕ)
      → ((w : ℕ) → apply (mk (some w)) c ≡ set w)
      → apply (mk none) c ≡ c
      → set old ≡ c
      → apply_all (when (ne_num v old) (mk v) ++ rest) c ≡ apply_all rest (set (num_or old v))
  put_num mk set none old a n s = ap (apply_all rest) (n ∙ sym s)
  put_num mk set (some v) old a n s = put_nat (λ w. mk (some w)) set v old a s

  -- The elements that may be missing.
  put_missing :
      (mk : ℕ → Change) (set : Option ℕ → Config) (v : ℕ) (old : Option ℕ)
      → ((w : ℕ) → apply (mk w) c ≡ set (some w))
      → set old ≡ c
      → apply_all (when (ne_missing v old) (mk v) ++ rest) c ≡ apply_all rest (set (some v))
  put_missing mk set v none a s = ap (apply_all rest) (a v)
  put_missing mk set v (some old) a s = put_nat mk (λ w. set (some w)) v old a s

  put_delay :
      (v : Option (Option ℕ)) (old : Option ℕ)
      → c.adv_delay_raw ≡ old
      → apply_all (delay_change v old ++ rest) c
        ≡ apply_all rest (record c { adv_delay_raw = delay_wanted old v })
  put_delay none old e = rw (← e)
  put_delay (some v) old e =
      put_missing adv_delay_raw (λ w. record c { adv_delay_raw = w }) _ old (λ w. refl) (rw (← e))

  put_event :
      (v : Option (Option ℕ)) (old : Option ℕ)
      → c.event_adv_cnt ≡ old
      → apply_all (event_change v old ++ rest) c
        ≡ apply_all rest (record c { event_adv_cnt = event_wanted old v })
  put_event none old e = rw (← e)
  put_event (some none) old e = rw (← e)
  put_event (some (some v)) old e =
      put_missing (λ w. event_adv_cnt (some w)) (λ w. record c { event_adv_cnt = w }) v old
        (λ w. refl) (rw (← e))

  put_rf :
      (v : Option ℕ) (old : ℕ)
      → c.rf_tx_power ≡ old
      → apply_all (rf_change v old ++ rest) c
        ≡ apply_all rest (record c { rf_tx_power = value_or old v })
  put_rf none old e = rw (← e)
  put_rf (some v) old e =
      put_nat rf_tx_power (λ w. record c { rf_tx_power = w }) v old (λ w. refl) (rw (← e))

  put_clat :
      (v : Option (Option ℕ)) (old : ℕ)
      → c.connect_latency_raw ≡ old
      → apply_all (clat_change v old ++ rest) c
        ≡ apply_all rest (record c { connect_latency_raw = clat_wanted old v })
  put_clat none old e = rw (← e)
  put_clat (some v) old e =
      put_nat connect_latency_raw (λ w. record c { connect_latency_raw = w }) _ old (λ w. refl)
        (rw (← e))

module _ (form : Form) (f : Config) where
  abbrev after_adv_interval_raw : Config
  after_adv_interval_raw = record f { adv_interval_raw = num_or f.adv_interval_raw (adv_raw form) }

  abbrev after_measure_mult : Config
  after_measure_mult = record after_adv_interval_raw {
    measure_mult = num_or f.measure_mult form.mmult;
  }

  abbrev after_temp_F : Config
  after_temp_F = record after_measure_mult { temp_F = form.tunit_F }

  abbrev after_screen_off : Config
  after_screen_off = record after_temp_F { screen_off = form.disp_off }

  abbrev after_lcd_refresh_raw : Config
  after_lcd_refresh_raw = record after_screen_off { lcd_refresh_raw = (lcd_raw form) }

  abbrev after_smiley : Config
  after_smiley = record after_lcd_refresh_raw { smiley = form.smiley }

  abbrev after_comfort_smiley : Config
  after_comfort_smiley = record after_smiley { comfort_smiley = form.comfort }

  abbrev after_blinking_time_smile : Config
  after_blinking_time_smile = record after_comfort_smiley { blinking_time_smile = form.blink }

  abbrev after_show_batt : Config
  after_show_batt = record after_blinking_time_smile { show_batt = form.sbatt }

  abbrev after_lp_measures : Config
  after_lp_measures = record after_show_batt { lp_measures = form.lpmeas }

  abbrev after_tx_measures : Config
  after_tx_measures = record after_lp_measures { tx_measures = form.txmeas }

  abbrev after_averaging : Config
  after_averaging = record after_tx_measures { averaging = (num_or 0 form.avgmeas) }

  abbrev after_adv_flags : Config
  after_adv_flags = record after_averaging { adv_flags = form.advflags }

  abbrev after_adv_delay_raw : Config
  after_adv_delay_raw = record after_adv_flags {
    adv_delay_raw = delay_wanted f.adv_delay_raw form.advdelay;
  }

  abbrev after_event_adv_cnt : Config
  after_event_adv_cnt = record after_adv_delay_raw {
    event_adv_cnt = event_wanted f.event_adv_cnt form.evtcnt;
  }

  abbrev after_rf_tx_power : Config
  after_rf_tx_power = record after_event_adv_cnt { rf_tx_power = value_or f.rf_tx_power form.rftx }

  abbrev after_connect_latency_raw : Config
  after_connect_latency_raw = record after_rf_tx_power {
    connect_latency_raw = clat_wanted f.connect_latency_raw form.clat;
  }

  -- The collected changes, without those that hold no number, make the settings what the form asks for.
  pub apply_all-collect_changes : apply_all (collect_changes form f) f ≡ wanted form f
  unfolding collect_changes
  apply_all-collect_changes =
      put_num _ f adv_interval_raw (λ w. record f { adv_interval_raw = w }) (adv_raw form)
        f.adv_interval_raw (λ w. refl) refl refl
      ∙ put_num _ after_adv_interval_raw measure_mult
          (λ w. record after_adv_interval_raw { measure_mult = w }) form.mmult f.measure_mult
          (λ w. refl) refl refl
      ∙ put_bool _ after_measure_mult temp_F (λ w. record after_measure_mult { temp_F = w })
          form.tunit_F f.temp_F (λ w. refl) refl
      ∙ put_bool _ after_temp_F screen_off (λ w. record after_temp_F { screen_off = w })
          form.disp_off f.screen_off (λ w. refl) refl
      ∙ put_nat _ after_screen_off lcd_refresh_raw
          (λ w. record after_screen_off { lcd_refresh_raw = w }) (lcd_raw form) f.lcd_refresh_raw
          (λ w. refl) refl
      ∙ put_nat _ after_lcd_refresh_raw smiley (λ w. record after_lcd_refresh_raw { smiley = w })
          form.smiley f.smiley (λ w. refl) refl
      ∙ put_bool _ after_smiley comfort_smiley (λ w. record after_smiley { comfort_smiley = w })
          form.comfort f.comfort_smiley (λ w. refl) refl
      ∙ put_bool _ after_comfort_smiley blinking_time_smile
          (λ w. record after_comfort_smiley { blinking_time_smile = w }) form.blink
          f.blinking_time_smile (λ w. refl) refl
      ∙ put_bool _ after_blinking_time_smile show_batt
          (λ w. record after_blinking_time_smile { show_batt = w }) form.sbatt f.show_batt
          (λ w. refl) refl
      ∙ put_bool _ after_show_batt lp_measures (λ w. record after_show_batt { lp_measures = w })
          form.lpmeas f.lp_measures (λ w. refl) refl
      ∙ put_bool _ after_lp_measures tx_measures (λ w. record after_lp_measures { tx_measures = w })
          form.txmeas f.tx_measures (λ w. refl) refl
      ∙ put_nat _ after_tx_measures averaging (λ w. record after_tx_measures { averaging = w })
          (num_or 0 form.avgmeas) f.averaging (λ w. refl) refl
      ∙ put_bool _ after_averaging adv_flags (λ w. record after_averaging { adv_flags = w })
          form.advflags f.adv_flags (λ w. refl) refl
      ∙ put_delay _ after_adv_flags form.advdelay f.adv_delay_raw refl
      ∙ put_event _ after_adv_delay_raw form.evtcnt f.event_adv_cnt refl
      ∙ put_rf _ after_event_adv_cnt form.rftx f.rf_tx_power refl
      ∙ put_clat _ after_rf_tx_power form.clat f.connect_latency_raw refl
      ∙ ap (λ xs. apply_all xs after_connect_latency_raw)
          (sym (append-nil (when (ne_nat form.advtype f.adv_type_raw) (adv_type_raw form.advtype))))
      ∙ put_nat [] after_connect_latency_raw adv_type_raw
          (λ w. record after_connect_latency_raw { adv_type_raw = w }) form.advtype f.adv_type_raw
          (λ w. refl) refl
