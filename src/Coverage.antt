-- ===== src/Coverage.antt =====
-- The coverage matrix (custom_components/telink_manager/www/telink-manager-panel.js): `_covSilent`,
-- `_covAge` and what `_renderCoverage` computes; and the best active signal that the backend sends
-- with each device (`coverage` in custom_components/telink_manager/gatt.py). A signal that is `null`
-- counts as one that is missing.
pub mod Best
pub mod Marks
mod Tests
use ha_telink_manager.Prelude.{
  ℕ, ◌+◌, ◌-◌, ◌*◌, ◌/◌, ◌%◌, ◌==◌, ltb, leb, ℤ, pos_part, neg_part, leb_ℤ, ltb_ℤ, Bool, true,
  false, not, ◌&&◌, ◌||◌, Option, none, some, List, [], ◌∷◌, String, if◌then◌else◌, str_eq, lookup,
  filter, find, length,
}

pub data Kind : Type 0 where
  esphome shelly local other : Kind

-- A proxy as the backend lists it; the age of its last packet is in tenths of a second, and
-- `scanning` is `none` where the backend does not say.
pub record Proxy : Type 0 where
  pub source : String
  pub kind : Kind
  pub connectable : Bool
  pub activatable : Bool
  pub scanning : Option Bool
  pub age : Option ℕ
  pub seen : ℕ

-- A thermometer with the signal at which each proxy hears it.
pub record Heard : Type 0 where
  pub mac : String
  pub rssi : List (String × ℤ)
  pub best_active : Option ℤ

abbrev pub is_false : Option Bool → Bool
is_false (some false) = true
is_false _ = false

abbrev pub older_than : ℕ → Option ℕ → Bool
older_than limit none = false
older_than limit (some t) = ltb limit t

-- `gone` of `_renderCoverage`: it does not scan, or nothing came for five minutes.
abbrev pub is_gone : Proxy → Bool
is_gone p = is_false p.scanning || older_than 3000 p.age

-- `_covSilent`.
abbrev pub cov_silent : Proxy → Bool
cov_silent p = is_false p.scanning || (older_than 3000 p.age || p.seen == 0)

-- `_covAge`: seconds, minutes, or hours to a tenth.
pub data CovAge : Type 0 where
  dash : CovAge
  secs mins : ℕ → CovAge
  hours : (whole tenths : ℕ) → CovAge

unfoldable pub cov_age : Option ℕ → CovAge
cov_age none = dash
cov_age (some t) =
    if ltb t 600
    then secs ((t + 5) / 10)
    else if ltb t 36000
    then mins ((t + 300) / 600)
    else hours ((t + 1800) / 3600 / 10) ((t + 1800) / 3600 % 10)

-- The signal at which a proxy hears a thermometer.
abbrev pub signal : Heard → Proxy → Option ℤ
signal d p = lookup p.source d.rssi

abbrev max_ℤ : ℤ → ℤ → ℤ
max_ℤ a b = if leb_ℤ a b then b else a

abbrev better : Option ℤ → Option ℤ → Option ℤ
better none o = o
better (some a) none = some a
better (some a) (some b) = some (max_ℤ a b)

-- `Math.max` over the signals that are there, of the proxies that pass a test.
unfoldable pub best_of : (Proxy → Bool) → List Proxy → Heard → Option ℤ
best_of test [] d = none
best_of test (p ∷ ps) d =
    let rest = best_of test ps d in if test p then better (signal d p) rest else rest

abbrev pub is_usable : Proxy → Bool
is_usable p = p.connectable || p.activatable

-- `bestPossible`.
abbrev pub best_possible : List Proxy → Heard → Option ℤ
best_possible ps d = best_of is_usable ps d

-- `best_active`, as the backend computes it from the connectable proxies.
abbrev pub best_active_of : List Proxy → Heard → Option ℤ
best_active_of ps d = best_of (λ (p : Proxy). p.connectable) ps d

abbrev pub eq_ℤ : ℤ → ℤ → Bool
eq_ℤ a b = leb_ℤ a b && leb_ℤ b a

-- `d.best_active == null || r > d.best_active`.
abbrev pub beats : ℤ → Option ℤ → Bool
beats r none = true
beats r (some best) = ltb_ℤ best r

abbrev pub is_best : ℤ → Option ℤ → Bool
is_best r none = false
is_best r (some bp) = eq_ℤ r bp

abbrev gain_at : Option ℤ → Proxy → Option ℤ → Option ℤ → Bool
gain_at none p best bp = false
gain_at (some r) p best bp = p.activatable && (beats r best && is_best r bp)

-- The mark ▲ in a cell of the matrix.
abbrev pub gain : List Proxy → Heard → Proxy → Bool
gain ps d p = gain_at (signal d p) p d.best_active (best_possible ps d)

abbrev could_at : Option ℤ → Option ℤ → Option ℤ
could_at none best = none
could_at (some bp) best = if beats bp best then some bp else none

-- The column "could be": the signal that enabling proxies would give.
abbrev pub could : List Proxy → Heard → Option ℤ
could ps d = could_at (best_possible ps d) d.best_active

-- The column "best active": none marks an orphan.
abbrev pub is_orphan : Heard → Bool
is_orphan d = elim d.best_active [ none ↦ true | some r ↦ false ]

-- The hint under a proxy's name.
pub data Hint : Type 0 where
  no_hint registered_but_silent sees_nothing passive passive_by_design : Hint

abbrev is_shelly : Kind → Bool
is_shelly shelly = true
is_shelly _ = false

unfoldable pub hint : Proxy → Hint
hint p =
    if is_gone p
    then registered_but_silent
    else if p.seen == 0
    then sees_nothing
    else if p.activatable
    then passive
    else if is_shelly p.kind && not p.connectable
    then passive_by_design
    else no_hint

-- The colour of the dot beside a proxy's kind.
pub data Dot : Type 0 where
  stale on off : Dot

unfoldable pub dot : Proxy → Dot
dot p = if cov_silent p then stale else if p.connectable then on else off

-- The counts of the head line: active, could be enabled, silent, and thermometers without an active
-- proxy.
pub record Counts : Type 0 where
  pub active : ℕ
  pub passive : ℕ
  pub enableable : ℕ
  pub silent : ℕ
  pub orphans : ℕ

unfoldable pub counts : List Proxy → List Heard → Counts
counts ps ds = record {
  active = length (filter (λ (p : Proxy). p.connectable) ps);
  passive = length ps - length (filter (λ (p : Proxy). p.connectable) ps);
  enableable = length (filter (λ (p : Proxy). p.activatable) ps);
  silent = length (filter cov_silent ps);
  orphans = length (filter is_orphan ds);
}

-- The chip of a thermometer in the strip of the open proxy is marked where its signal beats the best
-- active one.
abbrev chip_gain_at : Option ℤ → Proxy → Option ℤ → Bool
chip_gain_at none p best = false
chip_gain_at (some r) p best = p.activatable && beats r best

abbrev pub chip_gain : Heard → Proxy → Bool
chip_gain d p = chip_gain_at (signal d p) p d.best_active

abbrev hears : Proxy → Heard → Bool
hears p d = elim (signal d p) [ none ↦ false | some r ↦ true ]

-- "sees n thermometers" and "would be the best signal for m if enabled".
unfoldable pub detail_counts : Proxy → List Heard → ℕ × ℕ
detail_counts p ds =
    (length (filter (hears p) ds), length (filter (λ d. chip_gain d p) (filter (hears p) ds)))

-- A click on a proxy's header opens its strip, or closes it if it was open.
unfoldable pub toggle : String → Option String → Option String
toggle src none = some src
toggle src (some open_src) = if str_eq open_src src then none else some src
