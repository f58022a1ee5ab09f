-- ===== src/Editor/Period.antt =====
-- The editor's measure period and multiplier (custom_components/telink_manager/www/telink-manager-panel.js,
-- `_modalEdit`), which are kept in step. Times are in tenths of a millisecond.
use ha_telink_manager.Prelude.{
  ℕ, ◌+◌, ◌*◌, ◌/◌, ◌==◌, ◌≤◌, ◌<◌, min, max, Option, none, some, if◌then◌else◌, ◌≡◌, arith, ap,
}

-- The two elements and the interval's: a number that cannot be read is `none`.
pub record Timing : Type 0 where
  pub adv : Option ℕ
  pub mult : Option ℕ
  pub period : Option ℕ

-- `x || d` on a number.
abbrev pub or_num : Option ℕ → ℕ → ℕ
or_num none d = d
or_num (some v) d = if v == 0 then d else v

-- `advS`, with the loaded interval to fall back to.
unfoldable pub adv_of : ℕ → Timing → ℕ
adv_of loaded t = max 625 (or_num t.adv loaded)

abbrev pub mult_of : Timing → ℕ
mult_of t = max 2 (or_num t.mult 2)

-- `toFixed(2)`, of seconds.
abbrev pub to_fixed : ℕ → ℕ
to_fixed x = (x + 50) / 100 * 100

-- What typing into each of the three elements does to the others.
unfoldable pub adv_typed : ℕ → Option ℕ → Timing → Timing
unfolding adv_of
adv_typed loaded v t =
    let u = record t { adv = v } in
    record u { period = some (to_fixed (adv_of loaded u * mult_of u)) }

unfoldable pub mult_typed : ℕ → Option ℕ → Timing → Timing
unfolding adv_of
mult_typed loaded v t =
    let u = record t { mult = v } in
    record u { period = some (to_fixed (adv_of loaded u * mult_of u)) }

abbrev period_or : Option ℕ → ℕ
period_or none = 0
period_or (some v) = v

-- `Math.round(x / n)`, of positive numbers.
abbrev pub nearest : ℕ → ℕ → ℕ
nearest x n = (2 * x + n) / (2 * n)

unfoldable pub period_typed : ℕ → Option ℕ → Timing → Timing
unfolding adv_of
period_typed loaded v t = record t {
  period = v;
  mult = some (min 255 (max 2 (nearest (period_or v) (adv_of loaded t))));
}

nearest_lem : (x n m : ℕ) → 0 < n → n * m ≤ x + 50 → x ≤ n * m + 50 → 625 ≤ n → nearest x n ≡ m
nearest_lem x n m p a b q = grind arith

-- Whatever period is typed, the multiplier is one that the firmware takes.
pub period_typed_bounds :
    (loaded : ℕ) (v : Option ℕ) (t : Timing)
    → (2 ≤ mult_of (period_typed loaded v t)) × (mult_of (period_typed loaded v t) ≤ 255)
unfolding period_typed
period_typed_bounds loaded v t = ground arith

synced : (a m : ℕ) → 625 ≤ a → 2 ≤ m → m ≤ 255 → min 255 (max 2 (nearest (to_fixed (a * m)) a)) ≡ m
synced a m h lo hi =
    let e : nearest (to_fixed (a * m)) a ≡ m =
      nearest_lem (to_fixed (a * m)) a m (omega arith) (omega arith) (omega arith) h in
    rw e (omega arith)

mult_of-some : (m : ℕ) (t : Timing) → 2 ≤ m → mult_of (record t { mult = some m }) ≡ m
mult_of-some m t h = ground arith

-- Typing the period that is shown gives the multiplier back.
pub period_typed-mult_typed :
    (loaded m : ℕ) (t : Timing)
    → 2 ≤ m
    → m ≤ 255
    → (period_typed loaded
        (mult_typed loaded (some m) t).period
        (mult_typed loaded (some m) t)).mult
      ≡ some m
unfolding period_typed mult_typed adv_of
period_typed-mult_typed loaded m t lo hi =
    rw (mult_of-some m t lo)
      (ap some (synced (max 625 (or_num t.adv loaded)) m (omega arith) lo hi))
