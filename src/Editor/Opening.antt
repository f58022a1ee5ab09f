-- ===== src/Editor/Opening.antt =====
-- The editor as it opens (custom_components/telink_manager/www/telink-manager-panel.js): the values
-- that `_modalEdit` puts into its elements, and `refreshSave`.
use ha_telink_manager.Prelude.{
  ℕ, ◌+◌, ◌*◌, ◌<◌, ltb, Bool, true, false, Option, none, some, List, [], ◌∷◌, ◌++◌, if◌then◌else◌,
  ◌≡◌, ◌≢◌, ◌↔◌, ◌⊎◌, inl, inr, refl, arith,
}
use ha_telink_manager.Device.{Config}
use ha_telink_manager.Editor.{
  Form, Change, adv_interval_raw, measure_mult, lcd_refresh_raw, averaging, adv_delay_raw,
  event_adv_cnt, adv_type_raw, rf_tx_power, connect_latency_raw, map_num, round_to, adv_raw,
  lcd_raw, clat_raw, ne_nat, ne_bool, when, delay_change, event_change, collect_changes,
}

-- A drop-down of the numbers below `n` shows its first option for any other.
abbrev option_below : ℕ → ℕ → ℕ
option_below n v = if ltb v n then v else 0

abbrev unless_legacy : Bool → Option ℕ → Option (Option ℕ)
unless_legacy true v = none
unless_legacy false v = some v

-- The elements of `_modalEdit` with their values. A field that the read did not return makes a text
-- that is no number.
unfoldable pub form_of : (legacy : Bool) → Config → Form
form_of legacy c = record {
  adv_s = some (c.adv_interval_raw * 625);
  mmult = some c.measure_mult;
  tunit_F = c.temp_F;
  disp_off = c.screen_off;
  lcdref = some (c.lcd_refresh_raw * 5);
  smiley = option_below 8 c.smiley;
  comfort = c.comfort_smiley;
  blink = c.blinking_time_smile;
  sbatt = c.show_batt;
  lpmeas = c.lp_measures;
  txmeas = c.tx_measures;
  avgmeas = some c.averaging;
  advflags = c.adv_flags;
  advdelay = unless_legacy legacy (map_num (◌* 625) c.adv_delay_raw);
  evtcnt = unless_legacy legacy c.event_adv_cnt;
  rftx = some c.rf_tx_power;
  clat = some (some ((c.connect_latency_raw + 1) * 20));
  advtype = option_below 4 c.adv_type_raw;
}

-- Does the Save button work?
abbrev pub can_save : List Change → Bool
can_save [] = false
can_save (x ∷ xs) = true

-- The changes that a note warns of.
abbrev pub is_risky : Change → Bool
is_risky (adv_type_raw v) = true
is_risky (rf_tx_power v) = true
is_risky (connect_latency_raw v) = true
is_risky _ = false

raw_again : (n r : ℕ) → 0 < n → round_to n (r * n) ≡ r
raw_again n r h = grind arith

same_bool : (b : Bool) (c : Change) → when (ne_bool b b) c ≡ []
same_bool true c = refl
same_bool false c = refl

same_nat : (v w : ℕ) (c : Change) → v ≡ w → when (ne_nat v w) c ≡ []
same_nat v w c e = ground arith

clat_again : (r : ℕ) → clat_raw (some ((r + 1) * 20)) ≡ r
clat_again r = ground arith

fits : (n v : ℕ) → v < n → option_below n v ≡ v
fits n v h = ground arith

module _ (legacy : Bool) (c : Config) (smiley_fits : c.smiley < 8)
    (type_fits : c.adv_type_raw < 4) where
  -- All elements but two agree with the settings.
  opening_changes :
      collect_changes (form_of legacy c) c
      ≡ delay_change (form_of legacy c).advdelay c.adv_delay_raw
        ++ (event_change (form_of legacy c).evtcnt c.event_adv_cnt ++ [])
  unfolding collect_changes form_of
  opening_changes =
      rw
        (
          same_nat _ _ (adv_interval_raw (adv_raw (form_of legacy c)))
              (raw_again 625 c.adv_interval_raw (omega arith)),
          same_nat _ _ (measure_mult (some c.measure_mult)) refl,
          same_bool c.temp_F,
          same_bool c.screen_off,
          same_nat _ _ (lcd_refresh_raw (lcd_raw (form_of legacy c)))
              (raw_again 5 c.lcd_refresh_raw (omega arith)),
          same_nat (option_below 8 c.smiley) c.smiley (Change.smiley (option_below 8 c.smiley))
              (fits 8 c.smiley smiley_fits),
          same_bool c.comfort_smiley,
          same_bool c.blinking_time_smile,
          same_bool c.show_batt,
          same_bool c.lp_measures,
          same_bool c.tx_measures,
          same_nat _ _ (averaging c.averaging) refl,
          same_bool c.adv_flags,
          same_nat _ _ (rf_tx_power c.rf_tx_power) refl,
          same_nat _ _ (connect_latency_raw (clat_raw (some ((c.connect_latency_raw + 1) * 20))))
              (clat_again c.connect_latency_raw),
          same_nat (option_below 4 c.adv_type_raw) c.adv_type_raw
              (adv_type_raw (option_below 4 c.adv_type_raw)) (fits 4 c.adv_type_raw type_fits),
        )
        refl

  -- Where the smiley and the advertising type are ones that the form offers, a form that has just been
  -- opened has nothing to save exactly when the firmware's layout is the
  -- legacy one or the read returned both the delay and the event count; for any other layout Save is
  -- enabled at once, for a change that nobody made.
  pub opening_saves_nothing :
      (collect_changes (form_of legacy c) c ≡ [])
      ↔ ((legacy ≡ true) ⊎ ((c.adv_delay_raw ≢ none) × (c.event_adv_cnt ≢ none)))
  unfolding form_of
  opening_saves_nothing = rw (opening_changes) (go legacy c.adv_delay_raw c.event_adv_cnt)
    where
      go :
          (l : Bool) (d e : Option ℕ)
          → (delay_change (unless_legacy l (map_num (◌* 625) d)) d
                ++ (event_change (unless_legacy l e) e ++ [])
              ≡ [])
            ↔ ((l ≡ true) ⊎ ((d ≢ none) × (e ≢ none)))
      go true d e = (λ h. inl refl, λ h. refl)
      go false none e = ((λ h. cc), λ h. elim h [ inl k ↦ cc | inr k ↦ absurd (k.0 refl) ])
      go false (some d) none =
          rw (same_nat _ d (adv_delay_raw (round_to 625 (d * 625))) (raw_again 625 d (omega arith)))
            ((λ h. cc), λ h. elim h [ inl k ↦ cc | inr k ↦ absurd (k.1 refl) ])
      go false (some d) (some e) =
          rw
            (
              same_nat _ d (adv_delay_raw (round_to 625 (d * 625))) (raw_again 625 d (omega arith)),
              same_nat _ e (event_adv_cnt (some e)) refl,
            )
            ((λ h. inr ((λ k. cc), (λ k. cc))), λ h. refl)
