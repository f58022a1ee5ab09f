-- ===== src/Compare/Settings.antt =====
-- The columns of the settings (custom_components/telink_manager/www/telink-manager-panel.js:
-- `_cmpConfigCols`), with the values that the backend derives for them
-- (custom_components/telink_manager/pvvx_struct.py: `parse`). The tooltips are left out.
use ha_telink_manager.Prelude.{
  ℕ, ◌+◌, ◌*◌, ◌/◌, ◌%◌, ltb, ◌==◌, ◌&&◌, Bool, true, false, Option, none, some, List, [], ◌∷◌,
  ◌++◌, codes, map, if◌then◌else◌, decimal, fixed,
}
use ha_telink_manager.Html.{Text}
use ha_telink_manager.Device.{Config}
use ha_telink_manager.Compare.{Column}

-- A row's settings, if it has any; the comfort thresholds as they are printed; whether a key is set.
pub record Settings : Type 0 where
  pub config : Option Config
  pub comfort : Option (Text × Text × Text × Text)
  pub bind_key_set : Bool

-- The derived values, in ten-thousandths: seconds, milliseconds.
abbrev pub adv_interval_s : Config → ℕ
adv_interval_s c = c.adv_interval_raw * 625

-- `round(x, 2)`: halves of a hundredth go to the even one.
abbrev pub round_hundredth : ℕ → ℕ
round_hundredth x =
    (if ltb (x % 100) 50
      then x / 100
      else if (x % 100 == 50) && (x / 100 % 2 == 0)
      then x / 100
      else x / 100 + 1)
    * 100

abbrev pub measure_period_s : Config → ℕ
measure_period_s c = round_hundredth (c.adv_interval_raw * 625 * c.measure_mult)

abbrev pub lcd_refresh_s : Config → ℕ
lcd_refresh_s c = c.lcd_refresh_raw * 500

abbrev pub connect_latency_ms : Config → ℕ
connect_latency_ms c = (c.connect_latency_raw + 1) * 20

abbrev pub adv_type : ℕ → Text
adv_type t =
    if t == 0
    then codes "atc1441"
    else if t == 1
    then codes "pvvx"
    else if t == 2
    then codes "mi_like"
    else if t == 3
    then codes "BTHome"
    else decimal t

-- `String(v)`, empty for a value that is missing.
abbrev pub printed {ℓ} : {A : Type ℓ} → (A → Text) → Option A → Text
printed show none = []
printed show (some a) = show a

abbrev pub yn : Bool → Text
yn b = if b then codes "yes" else codes "no"

-- The getter of a setting: empty without settings.
abbrev pub setting : (Config → Text) → Settings → Text
setting show s = printed show s.config

abbrev pub column : Text → (Settings → Text) → Column Settings
column label get = record { label = label; cmp = true; get = get }

abbrev pub comfort_cell : Option (Text × Text × Text × Text) → Text
comfort_cell none = []
comfort_cell (some (t_lo, t_hi, h_lo, h_hi)) =
    t_lo ++ (codes "-" ++ (t_hi ++ (codes "°C / " ++ (h_lo ++ (codes "-" ++ (h_hi ++ codes "%"))))))

-- Is there a configuration?
abbrev pub has_raw : Option Config → Bool
has_raw none = false
has_raw (some c) = true

abbrev pub bind_cell : (is_set has_raw : Bool) → Text
bind_cell true raw = codes "set"
bind_cell false false = []
bind_cell false true = codes "—"

-- `_cmpConfigCols`.
abbrev pub config_cols : List (Column Settings)
config_cols =
    column (codes "Adv (s)") (setting (λ (c : Config). fixed (adv_interval_s c)))
    ∷ column (codes "Meas mult") (setting (λ (c : Config). decimal c.measure_mult))
    ∷ column (codes "Effective (s)") (setting (λ (c : Config). fixed (measure_period_s c)))
    ∷ column (codes "Unit") (setting (λ (c : Config). if c.temp_F then codes "°F" else codes "°C"))
    ∷ column (codes "Display")
        (setting (λ (c : Config). if c.screen_off then codes "OFF" else codes "ON"))
    ∷ column (codes "Smiley") (setting (λ (c : Config). decimal c.smiley))
    ∷ column (codes "Comfort smiley") (setting (λ (c : Config). yn c.comfort_smiley))
    ∷ column (codes "Blinking") (setting (λ (c : Config). yn c.blinking_time_smile))
    ∷ column (codes "Show batt") (setting (λ (c : Config). yn c.show_batt))
    ∷ column (codes "TX meas") (setting (λ (c : Config). yn c.tx_measures))
    ∷ column (codes "Low-power") (setting (λ (c : Config). yn c.lp_measures))
    ∷ column (codes "Adv type") (setting (λ (c : Config). adv_type c.adv_type_raw))
    ∷ column (codes "Adv delay (ms)")
        (setting (λ (c : Config). printed (λ (d : ℕ). fixed (d * 6250)) c.adv_delay_raw))
    ∷ column (codes "Event cnt") (setting (λ (c : Config). printed decimal c.event_adv_cnt))
    ∷ column (codes "Averaging") (setting (λ (c : Config). decimal c.averaging))
    ∷ column (codes "LCD refresh (s)") (setting (λ (c : Config). fixed (lcd_refresh_s c)))
    ∷ column (codes "RF TX pwr") (setting (λ (c : Config). decimal c.rf_tx_power))
    ∷ column (codes "Conn lat (ms)") (setting (λ (c : Config). decimal (connect_latency_ms c)))
    ∷ column (codes "Comfort") (λ (s : Settings). comfort_cell s.comfort)
    ∷ column (codes "Bind key") (λ (s : Settings). bind_cell s.bind_key_set (has_raw s.config))
    ∷ []

-- The cells of a row.
abbrev pub row_cells : Settings → List Text
row_cells s = map (λ (c : Column Settings). c.get s) config_cols
