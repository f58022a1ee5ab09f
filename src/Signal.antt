-- ===== src/Signal.antt =====
-- Signal tiers (custom_components/telink_manager/www/telink-manager-panel.js): `_rssiInfo`,
-- `_rssiCell`, `_signalOf` and `_covCls`. An RSSI is a whole number of dBm; `none` is `null`.
pub mod Tiers
mod Tests
use ha_telink_manager.Prelude.{
  ℕ, zero, suc, ltb, leb_ℤ, ltb_ℤ, ℤ, neg, if◌then◌else◌, Bool, true, false, Option, none, some,
  List, [], ◌∷◌, String, map,
}

pub data Tier : Type 0 where
  ok weak bad : Tier

-- The object that `_rssiInfo` returns.
pub record RssiInfo : Type 0 where
  pub bars : ℕ
  pub color : String
  pub tier : Tier

abbrev info : ℕ → String → Tier → RssiInfo
info b c t = record { bars = b; color = c; tier = t }

unfoldable pub rssi_info : Option ℤ → RssiInfo
rssi_info none = info 0 "#777" weak
rssi_info (some r) =
    if leb_ℤ (neg 70) r
    then info 4 "#4caf50" ok
    else if ltb_ℤ (neg 80) r
    then info 3 "#8bc34a" ok
    else if ltb_ℤ (neg 90) r
    then info 2 "#ffb300" weak
    else if ltb_ℤ (neg 97) r
    then info 1 "#ff7043" bad
    else info 0 "#e53935" bad

-- One bar of the icon: its height and its colour.
pub record Bar : Type 0 where
  pub height : ℕ
  pub fill : String

-- `heights.map` of `_rssiCell`, from bar `i` on.
bars_from : ℕ → RssiInfo → List ℕ → List Bar
bars_from i s [] = []
bars_from i s (h ∷ hs) =
    record { height = h; fill = if ltb i s.bars then s.color else "#444" } ∷ bars_from (suc i) s hs

-- `_rssiCell`: the icon's bars, the value shown (none where there is no RSSI), and its colour.
pub record RssiCell : Type 0 where
  pub icon : List Bar
  pub txt : Option ℤ
  pub text_color : String

unfoldable pub rssi_cell : Option ℤ → RssiCell
unfolding rssi_info bars_from
rssi_cell rssi =
    let s = rssi_info rssi in
    record { icon = bars_from 0 s (4 ∷ 7 ∷ 10 ∷ 13 ∷ []); txt = rssi; text_color = s.color }

-- The tiers of `_signalOf`, which tells a missing RSSI from a weak one.
pub data Reach : Type 0 where
  unknown ok weak bad : Reach

pub record Signal : Type 0 where
  pub tier : Reach
  pub lab : String
  pub color : String

signal_of_tier : RssiInfo → Tier → Signal
signal_of_tier i Tier.ok = record { tier = Reach.ok; lab = "ok"; color = i.color }
signal_of_tier i Tier.weak = record {
  tier = Reach.weak;
  lab = "weak — may be slow/fail";
  color = i.color;
}
signal_of_tier i Tier.bad = record {
  tier = Reach.bad;
  lab = "very weak — will likely fail";
  color = i.color;
}

unfoldable pub signal_of : Option ℤ → Signal
unfolding signal_of_tier rssi_info
signal_of none = record {
  tier = Reach.unknown;
  lab = "no RSSI";
  color = "var(--tm-text-2,#9aa0a6)";
}
signal_of (some r) = signal_of_tier (rssi_info (some r)) (rssi_info (some r)).tier

-- `_covCls`; `blank` is the empty class.
pub data CovClass : Type 0 where
  blank good mid bad : CovClass

unfoldable pub cov_cls : Option ℤ → CovClass
cov_cls none = blank
cov_cls (some r) = if leb_ℤ (neg 70) r then good else if leb_ℤ (neg 80) r then mid else CovClass.bad
