-- ===== src/Compare/Seen.antt =====
-- What the columns of the settings tell apart.
use ha_telink_manager.Prelude.{
  ℕ, zero, suc, ◌*◌, ◌<◌, ◌==◌, Bool, true, false, Option, none, some, List, [], ◌∷◌, codes,
  text_eq, if◌then◌else◌, decimal, decimal-injective, decimal_nonempty, fixed, fixed-injective,
  fixed_nonempty, ◌≡◌, ◌≢◌, refl, arith, ap, sym, ◌∙◌,
}
use mathlib.Core.Bool.{false≢true}
use ha_telink_manager.Html.{Text}
use ha_telink_manager.Device.{Config}
use ha_telink_manager.Compare.Settings.{
  Settings, adv_interval_s, lcd_refresh_s, connect_latency_ms, adv_type, printed, yn, row_cells,
}

-- The cell in a column.
abbrev nth : ℕ → List Text → Text
nth n [] = []
nth zero (t ∷ ts) = t
nth (suc n) (t ∷ ts) = nth n ts

two_texts :
    (on off : Text) (a b : Bool)
    → text_eq on on ≡ true
    → text_eq on off ≡ false
    → (if a then on else off) ≡ (if b then on else off)
    → a ≡ b
two_texts on off true true h k e = refl
two_texts on off true false h k e = absurd (false≢true (sym k ∙ ap (text_eq on) (sym e) ∙ h))
two_texts on off false true h k e = absurd (false≢true (sym k ∙ ap (text_eq on) e ∙ h))
two_texts on off false false h k e = refl

yes_no : (a b : Bool) → yn a ≡ yn b → a ≡ b
yes_no a b e = two_texts (codes "yes") (codes "no") a b refl refl e

printed-injective :
    (show : ℕ → Text)
    → ((m n : ℕ) → show m ≡ show n → m ≡ n)
    → ((n : ℕ) → show n ≢ [])
    → (o p : Option ℕ) → printed show o ≡ printed show p
    → o ≡ p
printed-injective show inj full none none e = refl
printed-injective show inj full none (some n) e = absurd (full n (sym e))
printed-injective show inj full (some m) none e = absurd (full m e)
printed-injective show inj full (some m) (some n) e = ap some (inj m n e)

abbrev type_of : Text → ℕ
type_of [] = 4
type_of (c ∷ s) = if c == b'a' then 0 else if c == b'p' then 1 else if c == b'm' then 2 else 3

type_of-adv_type : (t : ℕ) → t < 4 → type_of (adv_type t) ≡ t
type_of-adv_type zero h = refl
type_of-adv_type (suc zero) h = refl
type_of-adv_type (suc (suc zero)) h = refl
type_of-adv_type (suc (suc (suc zero))) h = refl
type_of-adv_type (suc (suc (suc (suc t)))) h = absurd (omega (arith, h))

delay-injective : (m n : ℕ) → fixed (m * 6250) ≡ fixed (n * 6250) → m ≡ n
delay-injective m n e = omega (arith, fixed-injective (m * 6250) (n * 6250) e)

-- A row of this device with these settings.
abbrev pub row_with : Settings → Config → Settings
row_with s c = record s { config = some c }

-- Two rows with settings look the same in every column only if all that the editor can change is the same,
-- but for the advertising flags, which no column shows. (An advertising type is a number of two bits.)
pub row_cells-same :
    (s t : Settings) (c d : Config)
    → c.adv_type_raw < 4
    → d.adv_type_raw < 4
    → row_cells (row_with s c) ≡ row_cells (row_with t d)
    → (c ≡ record d { adv_flags = c.adv_flags })
      × ((b : Bool)
          → row_cells (row_with s (record c { adv_flags = b })) ≡ row_cells (row_with s c))
row_cells-same s t c d hc hd e =
    let cell = λ (n : ℕ). ap (nth n) e in
    let adv : c.adv_interval_raw ≡ d.adv_interval_raw =
      omega (arith, fixed-injective (adv_interval_s c) (adv_interval_s d) (cell 0)) in
    let mult : c.measure_mult ≡ d.measure_mult = decimal-injective _ _ (cell 1) in
    let unit : c.temp_F ≡ d.temp_F =
      two_texts (codes "°F") (codes "°C") c.temp_F d.temp_F refl refl (cell 3) in
    let disp : c.screen_off ≡ d.screen_off =
      two_texts (codes "OFF") (codes "ON") c.screen_off d.screen_off refl refl (cell 4) in
    let smiley : c.smiley ≡ d.smiley = decimal-injective _ _ (cell 5) in
    let comfort : c.comfort_smiley ≡ d.comfort_smiley =
      yes_no c.comfort_smiley d.comfort_smiley (cell 6) in
    let blink : c.blinking_time_smile ≡ d.blinking_time_smile =
      yes_no c.blinking_time_smile d.blinking_time_smile (cell 7) in
    let batt : c.show_batt ≡ d.show_batt = yes_no c.show_batt d.show_batt (cell 8) in
    let tx : c.tx_measures ≡ d.tx_measures = yes_no c.tx_measures d.tx_measures (cell 9) in
    let lp : c.lp_measures ≡ d.lp_measures = yes_no c.lp_measures d.lp_measures (cell 10) in
    let type : c.adv_type_raw ≡ d.adv_type_raw =
      sym (type_of-adv_type c.adv_type_raw hc)
      ∙ ap type_of (cell 11)
      ∙ type_of-adv_type d.adv_type_raw hd in
    let delay : c.adv_delay_raw ≡ d.adv_delay_raw =
      printed-injective (λ (n : ℕ). fixed (n * 6250)) delay-injective
        (λ (n : ℕ). fixed_nonempty (n * 6250)) c.adv_delay_raw d.adv_delay_raw (cell 12) in
    let event : c.event_adv_cnt ≡ d.event_adv_cnt =
      printed-injective decimal decimal-injective decimal_nonempty c.event_adv_cnt d.event_adv_cnt
        (cell 13) in
    let avg : c.averaging ≡ d.averaging = decimal-injective _ _ (cell 14) in
    let lcd : c.lcd_refresh_raw ≡ d.lcd_refresh_raw =
      omega (arith, fixed-injective (lcd_refresh_s c) (lcd_refresh_s d) (cell 15)) in
    let power : c.rf_tx_power ≡ d.rf_tx_power = decimal-injective _ _ (cell 16) in
    let latency : c.connect_latency_raw ≡ d.connect_latency_raw =
      omega (arith, decimal-injective (connect_latency_ms c) (connect_latency_ms d) (cell 17)) in
    (
      λ i. record {
        adv_interval_raw = adv i;
        measure_mult = mult i;
        temp_F = unit i;
        screen_off = disp i;
        lcd_refresh_raw = lcd i;
        smiley = smiley i;
        comfort_smiley = comfort i;
        blinking_time_smile = blink i;
        show_batt = batt i;
        lp_measures = lp i;
        tx_measures = tx i;
        averaging = avg i;
        adv_flags = c.adv_flags;
        adv_delay_raw = delay i;
        event_adv_cnt = event i;
        rf_tx_power = power i;
        connect_latency_raw = latency i;
        adv_type_raw = type i;
      },
      λ b. refl,
    )
