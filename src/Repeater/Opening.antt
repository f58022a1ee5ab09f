-- ===== src/Repeater/Opening.antt =====
-- The repeater editor as it opens (custom_components/telink_manager/www/telink-manager-panel.js, the
-- inputs of `_modalEditBlethr`), its button for the firmware's defaults, and what a save sends then.
use ha_telink_manager.Prelude.{
  ℕ, ◌==◌, Bool, true, not, ◌&&◌, Option, none, some, List, [], ◌∷◌, ◌++◌, codes, if◌then◌else◌,
  any, map, filter, text_eq, text_eq_iff, ◌≡◌, refl, arith, Bool-cases, inl, inr,
}
use ha_telink_manager.Html.{Text}
use ha_telink_manager.Repeater.{
  RepeaterFields, RepeaterForm, repeater_changes, changed_text, changed_bool, changed_num,
}

-- What the read says of the firmware: the powers of its radio, and its settings when it is fresh.
pub record Firmware : Type 0 where
  pub rf_options : List ℕ
  pub temp_F : Bool
  pub rf_tx_power : ℕ
  pub scan_interval_ms : ℕ
  pub scan_window_min : ℕ
  pub scan_window_max : ℕ

-- `v ?? d`.
abbrev pub or_default : ℕ → Option ℕ → ℕ
or_default d none = d
or_default d (some v) = v

abbrev pub first : List ℕ → Option ℕ
first [] = none
first (v ∷ vs) = some v

-- A select shows the option that is marked as selected, and the first one if none is.
unfoldable pub selected : List ℕ → ℕ → Option ℕ
selected options v = if any (λ o. o == v) options then some v else first options

-- A device of the list: its address, and whether it is a repeater.
abbrev pub Listed : Type 0
Listed = Text × Bool

-- The devices that can be a source, with the source that is set.
abbrev pub sources : Text → List Listed → List Text
sources mac devs =
    map (λ (d : Listed). d.0) (filter (λ (d : Listed). not (text_eq d.0 mac) && not d.1) devs)

abbrev pub with_own : Text → List Text → List Text
with_own [] macs = macs
with_own (c ∷ ext) macs = if any (text_eq (c ∷ ext)) macs then macs else (c ∷ ext) ∷ macs

-- `opts`: none, the sources, and another address.
abbrev pub source_options : Text → List Listed → Text → List Text
source_options mac devs ext = [] ∷ (with_own ext (sources mac devs) ++ (codes "__custom__" ∷ []))

unfoldable pub selected_source : List Text → Text → Text
selected_source [] v = []
selected_source (o ∷ options) v = if any (text_eq v) (o ∷ options) then v else o

-- The form as it opens.
unfoldable pub opened : Firmware → Text → List Listed → RepeaterFields → RepeaterForm
unfolding selected selected_source
opened fw mac devs f = record {
  ext = selected_source (source_options mac devs f.ext_mac) f.ext_mac;
  key = f.ext_bind_key;
  unit_F = f.temp_F;
  rf = selected fw.rf_options (or_default fw.rf_tx_power f.rf_tx_power);
  int = some (or_default 0 f.scan_interval_ms);
  wmin = some (or_default fw.scan_window_min f.scan_window_min);
  wmax = some (or_default fw.scan_window_max f.scan_window_max);
}

-- "Firmware defaults".
unfoldable pub fill_defaults : Firmware → RepeaterForm → RepeaterForm
unfolding selected
fill_defaults fw form = record form {
  unit_F = fw.temp_F;
  rf = (if any (λ o. o == fw.rf_tx_power) fw.rf_options then some fw.rf_tx_power else none);
  int = some fw.scan_interval_ms;
  wmin = some fw.scan_window_min;
  wmax = some fw.scan_window_max;
}

-- The power that a save sends though nobody touched it.
abbrev pub power_sent : List ℕ → Option ℕ → Option ℕ → Option ℕ
power_sent options none default = default
power_sent options (some v) default =
    if any (λ o. o == v) options then none else changed_num (first options) (some v)

-- A number that the read did not return.
abbrev pub default_sent : ℕ → Option ℕ → Option ℕ
default_sent d none = some d
default_sent d (some v) = none

text_eq-same : (s : Text) → text_eq s s ≡ true
text_eq-same s = (text_eq_iff s s).1 refl

any_front :
    (v : Text) (xs ys : List Text) → any (text_eq v) xs ≡ true → any (text_eq v) (xs ++ ys) ≡ true
any_front v [] ys h = absurd (ground (arith, h))
any_front v (x ∷ xs) ys h = elim (Bool-cases (text_eq v x)) [
  | inl e ↦ rw (e) refl
  | inr e ↦ rw (e) (any_front v xs ys (ground (arith, e, h)))
]

with_own-has : (ext : Text) (macs : List Text) → any (text_eq ext) ([] ∷ with_own ext macs) ≡ true
with_own-has [] macs = refl
with_own-has (c ∷ ext) macs = elim (Bool-cases (any (text_eq (c ∷ ext)) macs)) [
  | inl e ↦ rw (e) e
  | inr e ↦ rw (e, text_eq-same (c ∷ ext)) refl
]

selected_source-own :
    (mac : Text) (devs : List Listed) (ext : Text)
    → selected_source (source_options mac devs ext) ext ≡ ext
unfolding selected_source
selected_source-own mac devs ext =
    rw
      (any_front ext ([] ∷ with_own ext (sources mac devs)) (codes "__custom__" ∷ [])
        (with_own-has ext (sources mac devs)))
      refl

changed_text-same : (s : Text) → changed_text s s ≡ none
changed_text-same s = ground (arith, text_eq_iff s s)

changed_bool-same : (b : Bool) → changed_bool b b ≡ none
changed_bool-same b = ground arith

changed_num-or_default :
    (d : ℕ) (o : Option ℕ) → changed_num (some (or_default d o)) o ≡ default_sent d o
changed_num-or_default d o = ground arith

changed_num-selected :
    (options : List ℕ) (d : ℕ) (o : Option ℕ)
    → changed_num (selected options (or_default d o)) o ≡ power_sent options o (selected options d)
unfolding selected
changed_num-selected options d none = ground arith
changed_num-selected options d (some v) = ground arith

-- A save of an editor that nobody touched sends the firmware's defaults for the numbers that the read did
-- not return, and nothing else, except for a transmit power that is not in the firmware's table: there it
-- sends the first power of the table.
pub repeater_changes-opened :
    (fw : Firmware) (mac : Text) (devs : List Listed) (f : RepeaterFields)
    → repeater_changes (opened fw mac devs f) f ≡ record {
      ext_mac = none;
      ext_bind_key = none;
      temp_F = none;
      rf_tx_power = power_sent fw.rf_options f.rf_tx_power (selected fw.rf_options fw.rf_tx_power);
      scan_interval_ms = default_sent 0 f.scan_interval_ms;
      scan_window_min = default_sent fw.scan_window_min f.scan_window_min;
      scan_window_max = default_sent fw.scan_window_max f.scan_window_max;
    }
unfolding repeater_changes opened
repeater_changes-opened fw mac devs f =
    rw
      (
        selected_source-own mac devs f.ext_mac,
        changed_text-same f.ext_mac,
        changed_text-same f.ext_bind_key,
        changed_bool-same f.temp_F,
        changed_num-selected fw.rf_options fw.rf_tx_power f.rf_tx_power,
        changed_num-or_default 0 f.scan_interval_ms,
        changed_num-or_default fw.scan_window_min f.scan_window_min,
        changed_num-or_default fw.scan_window_max f.scan_window_max,
      )
      refl
