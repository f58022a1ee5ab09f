-- ===== src/Rows/Thermometer.antt =====
-- The rows of a thermometer (custom_components/telink_manager/www/telink-manager-panel.js: `_viewRows`).
-- A number is the text that the panel prints of it, and the device's clock and the intervals are the texts
-- that `_clockStr` and `_humanInterval` make; a text that is missing is empty.
use ha_telink_manager.Prelude.{
  Bool, true, false, Option, none, some, List, [], ◌∷◌, ◌++◌, codes, if◌then◌else◌, text_eq, all,
  ◌≡◌, refl,
}
use ha_telink_manager.Html.{Text}
use ha_telink_manager.Views.{hw_string, fw_string}
use ha_telink_manager.Rows.{Piece, heading, row, plain_row, page, yn, or_dash, if_any}
use ha_telink_manager.Rows.Places.{seen, markup}
use ha_telink_manager.Rows.Markup.{
  is_labelled, if_any_labelled, all-append, each, words, page_frame, page_lem,
}

-- A number with its sign.
pub record Number : Type 0 where
  pub is_positive : Bool
  pub text : Text

pub record Comfort : Type 0 where
  pub t_lo : Text
  pub t_hi : Text
  pub h_lo : Text
  pub h_hi : Text

pub record Read : Type 0 where
  pub fw_version : Text
  pub sw_version : Text
  pub fw_byte : Text
  pub fw_revision : Text
  pub is_legacy : Bool
  pub model : Text
  pub hw_ver : Option Text
  pub hw_name : Text
  pub hw_sensor : Text
  pub device_name : Text
  pub clock : Text
  pub temp_F : Bool
  pub screen_off : Bool
  pub smiley : Text
  pub comfort_smiley : Bool
  pub blinking_time_smile : Bool
  pub show_batt : Bool
  pub lcd_refresh_s : Text
  pub measure_mult : Text
  pub measure_period : Text
  pub adv_period : Text
  pub lp_measures : Bool
  pub tx_measures : Bool
  pub averaging : Text
  pub adv_interval_s : Text
  pub adv_interval_raw : Text
  pub adv_type : Text
  pub adv_flags : Bool
  pub adv_delay_ms : Text
  pub event_adv_cnt : Text
  pub adv_crypto : Bool
  pub bt5phy : Bool
  pub longrange : Bool
  pub rf_tx_power : Text
  pub connect_latency_ms : Text
  pub sensor_name : Text
  pub sensor_is_default : Bool
  pub fine_offset : Option (Number × Number)
  pub comfort : Option Comfort
  pub raw : Text

abbrev pub sign : Number → Text
sign n = (if n.is_positive then codes "+" else []) ++ n.text

abbrev pub comfort_text : Option Comfort → Text
comfort_text none = codes "—"
comfort_text (some c) =
    c.t_lo
    ++ (codes "–"
        ++ (c.t_hi ++ (codes " °C, " ++ (c.h_lo ++ (codes "–" ++ (c.h_hi ++ codes " %"))))))

abbrev pub sensor_fine : Option (Number × Number) → Text
sensor_fine none = codes "—"
sensor_fine (some (t, h)) = codes "T " ++ (sign t ++ (codes " °C, H " ++ (sign h ++ codes " %")))

abbrev pub hardware : Option Text → Text → Text → List Piece
hardware none name sensor = []
hardware (some ver) name sensor =
    plain_row (codes "Hardware") (codes "hw_ver") (hw_string (some ver) name sensor) ∷ []

abbrev pub device_rows : Read → List Piece
device_rows f =
    heading (codes "Device")
    ∷ plain_row (codes "Firmware") (codes "firmware")
        (fw_string f.fw_version f.sw_version f.fw_byte f.fw_revision)
    ∷ (if_any f.model (plain_row (codes "Model") (codes "model") f.model)
        ++ (hardware f.hw_ver f.hw_name f.hw_sensor
            ++ (plain_row (codes "Device name (on device)") (codes "device_name")
                  (or_dash f.device_name)
                ∷ plain_row (codes "Device clock") (codes "device_clock") f.clock
                ∷ [])))

abbrev pub display_rows : Read → List Piece
display_rows f =
    heading (codes "Display")
    ∷ plain_row (codes "Temperature unit") (codes "tunit")
        (if f.temp_F then codes "°F" else codes "°C")
    ∷ plain_row (codes "Display") (codes "disp") (if f.screen_off then codes "OFF" else codes "ON")
    ∷ plain_row (codes "Smiley") (codes "smiley") f.smiley
    ∷ plain_row (codes "Comfort smiley") (codes "comfort_smiley") (yn f.comfort_smiley)
    ∷ plain_row (codes "Blinking time/smile") (codes "blinking_time_smile")
        (yn f.blinking_time_smile)
    ∷ plain_row (codes "Show battery") (codes "show_batt") (yn f.show_batt)
    ∷ plain_row (codes "Min LCD refresh") (codes "lcd_refresh") (f.lcd_refresh_s ++ codes " s")
    ∷ []

abbrev pub measure_rows : Read → List Piece
measure_rows f =
    heading (codes "Measurement")
    ∷ plain_row (codes "Measure multiplier") (codes "measure_mult") f.measure_mult
    ∷ plain_row (codes "Effective measurement") (codes "effective") f.measure_period
    ∷ plain_row (codes "Data broadcast (adv)") (codes "data_broadcast") f.adv_period
    ∷ plain_row (codes "Low-power mode") (codes "lp_meas") (yn f.lp_measures)
    ∷ plain_row (codes "TX measures (stream)") (codes "tx_meas") (yn f.tx_measures)
    ∷ plain_row (codes "Averaging to flash") (codes "averaging")
        (if text_eq f.averaging (codes "0") then codes "off" else f.averaging)
    ∷ []

abbrev pub modern_rows : Bool → Read → List Piece
modern_rows true f = []
modern_rows false f =
    plain_row (codes "Pseudo-random delay") (codes "adv_delay") (f.adv_delay_ms ++ codes " ms")
    ∷ plain_row (codes "Event beacon duplicates") (codes "event_adv_cnt") f.event_adv_cnt
    ∷ []

abbrev pub advert_rows : Read → List Piece
advert_rows f =
    heading (codes "Advertising")
    ∷ row (codes "Advertising interval") (codes "adv_interval") (f.adv_interval_s ++ codes " s")
        (codes "(" ++ (f.adv_interval_raw ++ codes " × 0.0625 s)"))
    ∷ plain_row (codes "Advertising type") (codes "adv_type") f.adv_type
    ∷ plain_row (codes "Advertising flags") (codes "adv_flags") (yn f.adv_flags)
    ∷ (modern_rows f.is_legacy f
        ++ (plain_row (codes "Encrypted beacon") (codes "adv_crypto") (yn f.adv_crypto)
            ∷ plain_row (codes "BT5 PHY / long range") (codes "bt5phy")
                (yn f.bt5phy ++ (codes " / " ++ yn f.longrange))
            ∷ []))

abbrev pub radio_rows : Read → List Piece
radio_rows f =
    heading (codes "Radio / connection")
    ∷ plain_row (codes "RF TX power") (codes "tx_power") f.rf_tx_power
    ∷ plain_row (codes "Connect latency") (codes "connect_latency")
        (f.connect_latency_ms ++ codes " ms")
    ∷ row (codes "PIN code") (codes "pincode") [] (codes "flasher only — not editable here")
    ∷ []

abbrev pub sensor_rows : Read → List Piece
sensor_rows f =
    heading (codes "Sensor calibration")
    ∷ (if_any f.sensor_name (
          plain_row (codes "Sensor chip") (codes "sensor_cal") (
            f.sensor_name
            ++ (codes " — "
                ++ (if f.sensor_is_default then codes "factory default" else codes "calibrated"))))
        ++ (plain_row (codes "Fine offset (T / H)") (codes "sensor_cal") (sensor_fine f.fine_offset)
            ∷ []))

abbrev pub last_rows : Read → List Piece
last_rows f =
    heading (codes "Comfort zone")
    ∷ plain_row (codes "Comfort range") (codes "comfort") (comfort_text f.comfort)
    ∷ heading (codes "Raw")
    ∷ plain_row (codes "Raw (11 B)") (codes "raw") f.raw
    ∷ []

-- `_viewRows`.
unfoldable pub view_rows : Read → List Piece
view_rows f =
    device_rows f
    ++ (display_rows f
        ++ (measure_rows f ++ (advert_rows f ++ (radio_rows f ++ (sensor_rows f ++ last_rows f)))))

hardware_labelled :
    (o : Option Text) (name sensor : Text) → all is_labelled (hardware o name sensor) ≡ true
hardware_labelled none name sensor = refl
hardware_labelled (some ver) name sensor = refl

modern_labelled : (b : Bool) (f : Read) → all is_labelled (modern_rows b f) ≡ true
modern_labelled true f = refl
modern_labelled false f = refl

device_labelled : (f : Read) → all is_labelled (device_rows f) ≡ true
device_labelled f =
    all-append (if_any f.model (plain_row (codes "Model") (codes "model") f.model)) _
      (if_any_labelled f.model (plain_row (codes "Model") (codes "model") f.model) refl)
      (all-append (hardware f.hw_ver f.hw_name f.hw_sensor) _
        (hardware_labelled f.hw_ver f.hw_name f.hw_sensor) refl)

advert_labelled : (f : Read) → all is_labelled (advert_rows f) ≡ true
advert_labelled f = all-append (modern_rows f.is_legacy f) _ (modern_labelled f.is_legacy f) refl

sensor_labelled : (f : Read) → all is_labelled (sensor_rows f) ≡ true
sensor_labelled f =
    all-append (if_any f.sensor_name _) _ (if_any_labelled f.sensor_name _ refl) refl

view_rows_labelled : (f : Read) → all is_labelled (view_rows f) ≡ true
unfolding view_rows
view_rows_labelled f =
    let radio = radio_rows f ++ (sensor_rows f ++ last_rows f) in
    let advert = advert_rows f ++ radio in
    let measure = measure_rows f ++ advert in
    all-append (device_rows f) (display_rows f ++ measure) (device_labelled f) (
      all-append (advert_rows f) radio (advert_labelled f)
        (all-append (sensor_rows f) (last_rows f) (sensor_labelled f) refl))

-- Whatever a thermometer reports and whatever the help texts are, a reader of the page sees the labels, the
-- values and the notes exactly as they are, and the markup of the page is that of its rows.
pub view_rows-page :
    (tips : Text → Text) (f : Read)
    → (seen (page tips (view_rows f)) ≡ each words (view_rows f))
      × (markup (page tips (view_rows f)) ≡ page_frame tips (view_rows f))
view_rows-page tips f = page_lem tips (view_rows f) (view_rows_labelled f)
