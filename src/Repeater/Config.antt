-- ===== src/Repeater/Config.antt =====
-- The repeater's configuration on the wire (custom_components/telink_manager/blethr.py: `build_cfg`,
-- `parse_cfg`). The scan windows count microseconds, so that nothing is rounded but to the 8 of a tick.
use ha_telink_manager.Prelude.{
  ℕ, ◌+◌, ◌*◌, ◌/◌, ◌%◌, ◌≤◌, ◌<◌, ltb, leb, ◌==◌, Bool, true, false, ◌&&◌, ◌||◌, Option, none,
  some, List, [], ◌∷◌, if◌then◌else◌, ◌≡◌, refl, arith, Bool-cases, inl, inr, All,
}
use ha_telink_manager.Blob.{bit}

-- `CFG_KEYS`.
pub record Radio : Type 0 where
  pub temp_F : Bool
  pub rf_tx_power : ℕ
  pub scan_interval : ℕ
  pub window_min : ℕ
  pub window_max : ℕ

-- What is known of them.
pub record Known : Type 0 where
  pub temp_F : Option Bool
  pub rf_tx_power : Option ℕ
  pub scan_interval : Option ℕ
  pub window_min : Option ℕ
  pub window_max : Option ℕ

-- What is to be changed; a change may be to nothing.
pub record Wish : Type 0 where
  pub temp_F : Option (Option Bool)
  pub rf_tx_power : Option (Option ℕ)
  pub scan_interval : Option (Option ℕ)
  pub window_min : Option (Option ℕ)
  pub window_max : Option (Option ℕ)

abbrev pub or_held {ℓ} : {A : Type ℓ} → Option A → A → A
or_held none held = held
or_held (some a) held = a

-- `merged`.
abbrev pub merged : Known → Wish → Known
merged k w = record {
  temp_F = or_held w.temp_F k.temp_F;
  rf_tx_power = or_held w.rf_tx_power k.rf_tx_power;
  scan_interval = or_held w.scan_interval k.scan_interval;
  window_min = or_held w.window_min k.window_min;
  window_max = or_held w.window_max k.window_max;
}

-- All five, if none is unknown.
abbrev pub all_of : Option Bool → Option ℕ → Option ℕ → Option ℕ → Option ℕ → Option Radio
all_of (some t) (some rf) (some i) (some lo) (some hi) =
    some
      (record { temp_F = t; rf_tx_power = rf; scan_interval = i; window_min = lo; window_max = hi })
all_of _ _ _ _ _ = none

abbrev pub wanted : Known → Wish → Option Radio
wanted k w =
    let m = merged k w in all_of m.temp_F m.rf_tx_power m.scan_interval m.window_min m.window_max

-- `round(ms * SCAN_TICKS_PER_MS)`: halves go to the even number.
abbrev pub ticks : ℕ → ℕ
ticks us =
    if ltb (us % 8) 4
    then us / 8
    else if (us % 8 == 4) && (us / 8 % 2 == 0)
    then us / 8
    else us / 8 + 1

abbrev pub is_given {ℓ} : {A : Type ℓ} → Option A → Bool
is_given none = false
is_given (some a) = true

abbrev pub window_fits : ℕ → Bool
window_fits us = leb 5000 us && leb us 50000

-- The ranges; a power that is not changed may lie outside its own, but has to fit its byte.
abbrev pub fits : Bool → Radio → Bool
fits rf_given r =
    (if rf_given then leb 130 r.rf_tx_power && leb r.rf_tx_power 191 else leb r.rf_tx_power 255)
    && ((r.scan_interval == 0) || (leb 3000 r.scan_interval && leb r.scan_interval 10000))
    && (window_fits r.window_min && window_fits r.window_max)
    && leb (ticks r.window_min) (ticks r.window_max)

-- `struct.pack("<BBHHH", …)`.
abbrev pub packed : Radio → List ℕ
packed r =
    (if r.temp_F then 1 else 0)
    ∷ r.rf_tx_power
    ∷ r.scan_interval % 256
    ∷ r.scan_interval / 256
    ∷ ticks r.window_min % 256
    ∷ ticks r.window_min / 256
    ∷ ticks r.window_max % 256
    ∷ ticks r.window_max / 256
    ∷ []

abbrev pub build_from : Bool → Option Radio → Option (List ℕ)
build_from rf_given none = none
build_from rf_given (some r) = if fits rf_given r then some (packed r) else none

-- `build_cfg`.
unfoldable pub build_cfg : Known → Wish → Option (List ℕ)
build_cfg k w = build_from (is_given w.rf_tx_power) (wanted k w)

abbrev pub word : ℕ → ℕ → ℕ
word lo hi = lo + 256 * hi

-- `parse_cfg`, of the fields that are written.
unfoldable pub parse_cfg : List ℕ → Option Radio
parse_cfg (op ∷ flg ∷ rf ∷ i0 ∷ i1 ∷ lo0 ∷ lo1 ∷ hi0 ∷ hi1 ∷ rest) = some (record {
  temp_F = bit 0 flg;
  rf_tx_power = rf;
  scan_interval = word i0 i1;
  window_min = word lo0 lo1 * 8;
  window_max = word hi0 hi1 * 8;
})
parse_cfg _ = none

word-parts : (n : ℕ) → word (n % 256) (n / 256) ≡ n
word-parts n = omega arith

flag-bit : (t : Bool) → bit 0 (if t then 1 else 0) ≡ t
flag-bit false = refl
flag-bit true = refl

-- A tick is at most half a tick away.
ticks-near : (us : ℕ) → (us ≤ ticks us * 8 + 4) × (ticks us * 8 ≤ us + 4)
ticks-near us = (ground arith, ground arith)

-- In whole ticks.
abbrev pub in_ticks : Radio → Radio
in_ticks r = record r { window_min = ticks r.window_min * 8; window_max = ticks r.window_max * 8 }

parse_cfg-packed : (op : ℕ) (r : Radio) → parse_cfg (op ∷ packed r) ≡ some (in_ticks r)
unfolding parse_cfg
parse_cfg-packed op r =
    rw
      (
        flag-bit r.temp_F,
        word-parts r.scan_interval,
        word-parts (ticks r.window_min),
        word-parts (ticks r.window_max),
      )
      refl

-- The read that follows a write, if anything is written.
abbrev pub read_back : ℕ → Option (List ℕ) → Option Radio
read_back op none = none
read_back op (some bytes) = parse_cfg (op ∷ bytes)

abbrev pub taken : Bool → Option Radio → Option Radio
taken rf_given none = none
taken rf_given (some r) = if fits rf_given r then some (in_ticks r) else none

build_from-read_back :
    (op : ℕ) (rf_given : Bool) (o : Option Radio)
    → read_back op (build_from rf_given o) ≡ taken rf_given o
build_from-read_back op rf_given none = refl
build_from-read_back op rf_given (some r) = elim (Bool-cases (fits rf_given r)) [
  | inl e ↦ rw (e) (parse_cfg-packed op r)
  | inr e ↦ rw (e) refl
]

-- A write of some changes is refused exactly if a setting would be unknown or outside its range, and else
-- the read that follows it, of a device that keeps what is written, returns all five settings as they are
-- wanted, those that are not changed included; the windows in whole ticks, at most half a tick away.
pub build_cfg-read_back :
    (op : ℕ) (k : Known) (w : Wish)
    → (read_back op (build_cfg k w) ≡ taken (is_given w.rf_tx_power) (wanted k w))
      × ((us : ℕ) → (us ≤ ticks us * 8 + 4) × (ticks us * 8 ≤ us + 4))
unfolding build_cfg
build_cfg-read_back op k w =
    (build_from-read_back op (is_given w.rf_tx_power) (wanted k w), ticks-near)

-- What is written fits its bytes.
packed-All :
    (rf_given : Bool) (r : Radio) → fits rf_given r ≡ true → All (λ (x : ℕ). x < 256) (packed r)
packed-All rf_given r h = (
  ground arith,
  (
    ground (arith, h),
    (
      ground arith,
      (
        ground (arith, h),
        (ground arith, (ground (arith, h), (ground arith, (ground (arith, h), tt)))),
      ),
    ),
  ),
)
