-- ===== src/Rows/Repeating.antt =====
-- The rows of a repeater (custom_components/telink_manager/www/telink-manager-panel.js: the rows of
-- `_viewRowsBlethr`; the notices above them are in Views). A number is the text that the panel prints of
-- it; a text that is missing is empty.
use ha_telink_manager.Prelude.{
  Bool, true, false, Option, none, some, List, [], ◌∷◌, ◌++◌, codes, if◌then◌else◌, text_eq, all,
  ◌≡◌, refl,
}
use ha_telink_manager.Html.{Text}
use ha_telink_manager.Views.{SourceLabel, nothing_to_show, in_fleet, not_in_fleet}
use ha_telink_manager.Rows.{Piece, heading, row, plain_row, page, or_dash, if_any}
use ha_telink_manager.Rows.Places.{seen, markup}
use ha_telink_manager.Rows.Markup.{
  is_labelled, if_any_labelled, all-append, each, words, page_frame, page_lem,
}

-- The source's signal and battery, as they are printed.
pub record Heard : Type 0 where
  pub rssi : Text
  pub battery : Option Text

-- How often the source advertised, in seconds, and whether the interval fits.
pub record SourceInterval : Type 0 where
  pub seconds : Text
  pub ok : Bool

pub record Repeated : Type 0 where
  pub fw_version : Text
  pub fw_revision : Text
  pub model : Text
  pub device_name : Text
  pub clock : Text
  pub source : SourceLabel
  pub heard : Option Heard
  pub ext_bind_key_set : Bool
  pub temp_F : Bool
  pub rf_tx_dbm : Text
  pub rf_tx_power : Text
  pub scanning_off : Bool
  pub scan_interval : Text
  pub source_interval : Option SourceInterval
  pub window_min : Text
  pub window_max : Text
  pub services : List Text
  pub raw : Text

-- `srcLabel`.
abbrev pub source_text : SourceLabel → Text
source_text nothing_to_show = codes "not set — this repeater has nothing to show"
source_text (in_fleet name mac) = name ++ (codes " (" ++ (mac ++ codes ")"))
source_text (not_in_fleet mac) = mac ++ codes " — not in this fleet"

-- `srcNote`.
abbrev pub battery_text : Option Text → Text
battery_text none = []
battery_text (some b) = codes ", battery " ++ (b ++ codes "%")

abbrev pub source_note : Option Heard → Text
source_note none = []
source_note (some h) = h.rssi ++ (codes " dBm" ++ battery_text h.battery)

-- The radio's power by its name, with its number behind it, or by its number.
abbrev pub power_row : Text → Text → Piece
power_row [] power = plain_row (codes "RF TX power") (codes "rf_tx_power") (or_dash power)
power_row (c ∷ dbm) power =
    row (codes "RF TX power") (codes "rf_tx_power") (codes "VANT" ++ ((c ∷ dbm) ++ codes " dBm"))
      (codes "(" ++ (power ++ codes ")"))

abbrev pub interval_note : Option SourceInterval → Text
interval_note none = codes "must match how often the source advertises"
interval_note (some i) =
    if i.ok
    then codes "matches the source, which advertised every "
      ++ (i.seconds ++ codes " s when last read")
    else codes "source advertises every "
      ++ (i.seconds ++ codes " s when last read — these must agree")

abbrev pub interval_row : Bool → Text → Option SourceInterval → Piece
interval_row true interval source =
    plain_row (codes "Source beacon interval") (codes "scan_interval") (codes "off")
interval_row false interval source =
    row (codes "Source beacon interval") (codes "scan_interval") interval (interval_note source)

-- `join(", ")`.
abbrev pub joined : List Text → Text
joined [] = []
joined (s ∷ []) = s
joined (s ∷ t ∷ ss) = s ++ (codes ", " ++ joined (t ∷ ss))

-- `_viewRowsBlethr`.
unfoldable pub view_rows_blethr : Repeated → List Piece
view_rows_blethr f =
    heading (codes "Repeater")
    ∷ row (codes "Firmware") (codes "firmware")
        (codes "BLETHR v" ++ (if text_eq f.fw_version [] then codes "?" else f.fw_version))
        f.fw_revision
    ∷ (if_any f.model (plain_row (codes "Board") (codes "model") f.model)
        ++ (row (codes "Device name (on device)") (codes "device_name") (or_dash f.device_name)
              (codes "fixed by the firmware, read from the device")
            ∷ plain_row (codes "Device clock") (codes "device_clock") f.clock
            ∷ heading (codes "Repeats")
            ∷ row (codes "Source thermometer") (codes "ext_mac") (source_text f.source)
                (source_note f.heard)
            ∷ plain_row (codes "Source bind key") (codes "ext_bind_key") (
                if f.ext_bind_key_set
                then codes "set"
                else codes "not set — source broadcasts unencrypted")
            ∷ heading (codes "Display")
            ∷ plain_row (codes "Temperature unit") (codes "temp_F")
                (if f.temp_F then codes "°F" else codes "°C")
            ∷ heading (codes "Radio")
            ∷ power_row f.rf_tx_dbm f.rf_tx_power
            ∷ interval_row f.scanning_off f.scan_interval f.source_interval
            ∷ plain_row (codes "Scan window") (codes "scan_window")
                (f.window_min ++ (codes " … " ++ f.window_max))
            ∷ plain_row (codes "Services") (codes "services") (or_dash (joined f.services))
            ∷ heading (codes "Raw")
            ∷ plain_row (codes "Config (8 B)") (codes "raw") (or_dash f.raw)
            ∷ []))

power_labelled : (dbm power : Text) → is_labelled (power_row dbm power) ≡ true
power_labelled [] power = refl
power_labelled (c ∷ dbm) power = refl

interval_labelled :
    (off : Bool) (interval : Text) (source : Option SourceInterval)
    → is_labelled (interval_row off interval source) ≡ true
interval_labelled true interval source = refl
interval_labelled false interval source = refl

view_rows_blethr_labelled : (f : Repeated) → all is_labelled (view_rows_blethr f) ≡ true
unfolding view_rows_blethr
view_rows_blethr_labelled f =
    all-append (if_any f.model (plain_row (codes "Board") (codes "model") f.model)) _
      (if_any_labelled f.model (plain_row (codes "Board") (codes "model") f.model) refl)
      (rw
        (
          power_labelled f.rf_tx_dbm f.rf_tx_power,
          interval_labelled f.scanning_off f.scan_interval f.source_interval,
        )
        refl)

-- Whatever a repeater reports and whatever the help texts are, a reader of the rows sees the labels, the
-- values and the notes exactly as they are, and their markup is that of the rows.
pub view_rows_blethr-page :
    (tips : Text → Text) (f : Repeated)
    → (seen (page tips (view_rows_blethr f)) ≡ each words (view_rows_blethr f))
      × (markup (page tips (view_rows_blethr f)) ≡ page_frame tips (view_rows_blethr f))
view_rows_blethr-page tips f = page_lem tips (view_rows_blethr f) (view_rows_blethr_labelled f)
