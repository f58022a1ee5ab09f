-- ===== src/Editor/Nothing.antt =====
-- When the editor has something to write.
use ha_telink_manager.Prelude.{
  ℕ, Bool, true, false, Option, none, some, [], ◌≡◌, ◌≢◌, ◌↔◌, refl, arith, ap, ◌∙◌, sym,
}
use mathlib.Core.Option.{some-injective}
use ha_telink_manager.Device.{Config}
use ha_telink_manager.Editor.{
  Form, Change, ne_nat, ne_num, ne_missing, ne_bool, when, num_or, adv_raw, delay_change,
  event_change, rf_change, clat_change, collect_changes,
}
use ha_telink_manager.Editor.Apply.{
  apply_all, wanted, value_or, delay_wanted, event_wanted, clat_wanted, apply_all-collect_changes,
}

-- The elements without a fallback hold numbers.
pub record IsFilled (form : Form) : Type 0 where
  pub adv_filled : form.adv_s ≢ none
  pub mult_filled : form.mmult ≢ none
  pub evt_filled : form.evtcnt ≢ some none

no_bool : (v old : Bool) (c : Change) → v ≡ old → when (ne_bool v old) c ≡ []
no_bool true true c e = refl
no_bool true false c e = cc
no_bool false true c e = cc
no_bool false false c e = refl

no_nat : (v old : ℕ) (c : Change) → v ≡ old → when (ne_nat v old) c ≡ []
no_nat v old c e = ground arith

no_num :
    (v : Option ℕ) (old : ℕ) (c : Change)
    → v ≢ none
    → num_or old v ≡ old
    → when (ne_num v old) c ≡ []
no_num none old c h e = absurd (h refl)
no_num (some v) old c h e = no_nat v old c e

no_missing : (v : ℕ) (old : Option ℕ) (c : Change) → some v ≡ old → when (ne_missing v old) c ≡ []
no_missing v none c e = cc
no_missing v (some old) c e = no_nat v old c (some-injective v old e)

no_delay :
    (v : Option (Option ℕ)) (old : Option ℕ) → delay_wanted old v ≡ old → delay_change v old ≡ []
no_delay none old e = refl
no_delay (some v) old e = no_missing _ old _ e

no_event :
    (v : Option (Option ℕ)) (old : Option ℕ)
    → v ≢ some none
    → event_wanted old v ≡ old
    → event_change v old ≡ []
no_event none old h e = refl
no_event (some none) old h e = absurd (h refl)
no_event (some (some v)) old h e = no_missing v old _ e

no_rf : (v : Option ℕ) (old : ℕ) → value_or old v ≡ old → rf_change v old ≡ []
no_rf none old e = refl
no_rf (some v) old e = no_nat v old _ e

no_clat : (v : Option (Option ℕ)) (old : ℕ) → clat_wanted old v ≡ old → clat_change v old ≡ []
no_clat none old e = refl
no_clat (some v) old e = no_nat _ old _ e

adv_raw-ne-none : (form : Form) → form.adv_s ≢ none → adv_raw form ≢ none
adv_raw-ne-none form h = ground arith

module _ (form : Form) (f : Config) where
  -- With numbers in the form, nothing is collected exactly when the form wants the settings that the
  -- device has.
  pub collect_changes-nil_iff : IsFilled form → (collect_changes form f ≡ []) ↔ (wanted form f ≡ f)
  unfolding collect_changes
  collect_changes-nil_iff filled = (
    λ e. sym (apply_all-collect_changes form f) ∙ ap (λ xs. apply_all xs f) e,
    λ h.
        rw
          (
            no_num _ _ _ (adv_raw-ne-none form filled.adv_filled)
                (ap (λ (c : Config). c.adv_interval_raw) h),
            no_num _ _ _ filled.mult_filled (ap (λ (c : Config). c.measure_mult) h),
            no_bool _ _ _ (ap (λ (c : Config). c.temp_F) h),
            no_bool _ _ _ (ap (λ (c : Config). c.screen_off) h),
            no_nat _ _ _ (ap (λ (c : Config). c.lcd_refresh_raw) h),
            no_nat _ _ _ (ap (λ (c : Config). c.smiley) h),
            no_bool _ _ _ (ap (λ (c : Config). c.comfort_smiley) h),
            no_bool _ _ _ (ap (λ (c : Config). c.blinking_time_smile) h),
            no_bool _ _ _ (ap (λ (c : Config). c.show_batt) h),
            no_bool _ _ _ (ap (λ (c : Config). c.lp_measures) h),
            no_bool _ _ _ (ap (λ (c : Config). c.tx_measures) h),
            no_nat _ _ _ (ap (λ (c : Config). c.averaging) h),
            no_bool _ _ _ (ap (λ (c : Config). c.adv_flags) h),
            no_delay _ _ (ap (λ (c : Config). c.adv_delay_raw) h),
            no_event _ _ filled.evt_filled (ap (λ (c : Config). c.event_adv_cnt) h),
            no_rf _ _ (ap (λ (c : Config). c.rf_tx_power) h),
            no_clat _ _ (ap (λ (c : Config). c.connect_latency_raw) h),
            no_nat _ _ _ (ap (λ (c : Config). c.adv_type_raw) h),
          )
          refl,
  )
