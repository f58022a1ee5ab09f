-- ===== src/Signal/Tiers.antt =====
-- What the signal tiers promise: their thresholds, and how the views of one RSSI agree.
use ha_telink_manager.Prelude.{
  ℕ, ◌≤◌, ltb_ℤ, ℤ, neg, ◌≤ℤ◌, ◌<ℤ◌, Option, none, some, List, [], ◌∷◌, ◌≡◌, ◌≢◌, refl, ◌↔◌, arith,
  length, filter, str_eq, not, Bool, true, false, if◌then◌else◌, leb_ℤ, negsuc, eq_of_parts,
}
use ha_telink_manager.Signal.{
  Tier, RssiInfo, info, rssi_info, Bar, bars_from, rssi_cell, Reach, signal_of, CovClass, mid,
  cov_cls,
}

-- The RSSI at which the panel asks before it connects.
abbrev pub minus_80 : ℤ
minus_80 = negsuc 79

-- A tier for each RSSI: no prompt exactly above -80 dBm, the strong warning exactly from -90 dBm
-- down, and the normal warning exactly between the two.
pub rssi_info_tiers :
    (r : ℤ)
    → (((rssi_info (some r)).tier ≡ Tier.ok) ↔ (neg 80 <ℤ r))
      × (((rssi_info (some r)).tier ≡ Tier.bad) ↔ (r ≤ℤ neg 90))
      × (((rssi_info (some r)).tier ≡ Tier.weak) ↔ ((neg 90 <ℤ r) × (r ≤ℤ neg 80)))
unfolding rssi_info
rssi_info_tiers r = ground arith

-- A stronger signal never shows fewer bars.
pub bars_mono : (r s : ℤ) → r ≤ℤ s → (rssi_info (some r)).bars ≤ (rssi_info (some s)).bars
unfolding rssi_info
bars_mono r s h = ground arith

abbrev lit_bars : List Bar → ℕ
lit_bars bs = length (filter (λ b. not (str_eq b.fill "#444")) bs)

abbrev LitAsCounted : RssiInfo → Type 0
LitAsCounted i = lit_bars (bars_from 0 i (4 ∷ 7 ∷ 10 ∷ 13 ∷ [])) ≡ i.bars

branch-LitAsCounted :
    (a b c d : Bool)
    → LitAsCounted (
        if a
        then info 4 "#4caf50" Tier.ok
        else if b
        then info 3 "#8bc34a" Tier.ok
        else if c
        then info 2 "#ffb300" Tier.weak
        else if d
        then info 1 "#ff7043" Tier.bad
        else info 0 "#e53935" Tier.bad)
unfolding bars_from
branch-LitAsCounted true b c d = refl
branch-LitAsCounted false true c d = refl
branch-LitAsCounted false false true d = refl
branch-LitAsCounted false false false true = refl
branch-LitAsCounted false false false false = refl

rssi_info-LitAsCounted : (rssi : Option ℤ) → LitAsCounted (rssi_info rssi)
unfolding rssi_info bars_from
rssi_info-LitAsCounted none = refl
rssi_info-LitAsCounted (some r) =
    branch-LitAsCounted (leb_ℤ (neg 70) r) (ltb_ℤ (neg 80) r) (ltb_ℤ (neg 90) r) (ltb_ℤ (neg 97) r)

-- The icon lights as many of its four bars as `_rssiInfo` counts.
pub lit_bars-rssi_cell : (rssi : Option ℤ) → lit_bars (rssi_cell rssi).icon ≡ (rssi_info rssi).bars
unfolding rssi_cell
lit_bars-rssi_cell rssi = rssi_info-LitAsCounted rssi

-- The list of a bulk read and the connect prompt judge a known RSSI alike; only a missing one
-- differs, which the prompt takes for weak and the list calls unknown.
pub signal_of-rssi_info :
    (rssi : Option ℤ)
    → (((signal_of rssi).tier ≡ Reach.ok) ↔ ((rssi_info rssi).tier ≡ Tier.ok))
      × (((signal_of rssi).tier ≡ Reach.bad) ↔ ((rssi_info rssi).tier ≡ Tier.bad))
      × (((signal_of rssi).tier ≡ Reach.unknown) ↔ (rssi ≡ none))
unfolding signal_of
signal_of-rssi_info none = ground arith
signal_of-rssi_info (some r) = ground arith

-- The coverage matrix marks a signal poor exactly where the panel warns before it connects, but for
-- -80 dBm itself: there the panel warns and the matrix shows the middle class.
pub cov_cls-rssi_info :
    (r : ℤ)
    → (r ≢ minus_80 → (cov_cls (some r) ≡ CovClass.bad) ↔ ((rssi_info (some r)).tier ≢ Tier.ok))
      × (cov_cls (some minus_80) ≡ mid)
      × ((rssi_info (some minus_80)).tier ≡ Tier.weak)
unfolding cov_cls rssi_info
cov_cls-rssi_info r = (λ ne. ground (arith, eq_of_parts r minus_80), refl, refl)
