-- ===== src/Freshness/Verdict.antt =====
-- When the mark stands, and that what it says is true.
use ha_telink_manager.Prelude.{
  ℕ, ◌+◌, ◌*◌, ◌≤◌, ◌<◌, false, none, some, ◌≡◌, ◌≢◌, ◌↔◌, inl, inr, arith, Option-cases,
}
use ha_telink_manager.Device.{Device}
use ha_telink_manager.Freshness.{
  HowLong, hours_minutes, minutes, not_relaying, how_long, period_of, stale_cell,
}

-- A device that still relays, or is no repeater, is marked exactly when its age and its limit are both
-- known and the age has reached the limit: a device without a known limit gets no verdict.
pub stale_cell_iff :
    (d : Device)
    → d.relaying ≢ some false
    → (stale_cell d ≢ none) ↔ (
        (s : ℕ) × (limit : ℕ) × (d.stale_s ≡ some s) × (d.stale_limit_s ≡ some limit) × (limit ≤ s))
unfolding stale_cell
stale_cell_iff d r = (forth, back)
  where
    forth :
        stale_cell d ≢ none
        → (s : ℕ) × (limit : ℕ) × (d.stale_s ≡ some s)
          × (d.stale_limit_s ≡ some limit)
          × (limit ≤ s)
    forth h = elim (Option-cases d.stale_s) [
      | inl e ↦ absurd (h (ground arith))
      | inr (s, e) ↦ elim (Option-cases d.stale_limit_s) [
        | inl e' ↦ absurd (h (ground arith))
        | inr (limit, e') ↦ (s, limit, e, e', ground arith)
      ]
    ]

    back :
        (s : ℕ) × (limit : ℕ) × (d.stale_s ≡ some s) × (d.stale_limit_s ≡ some limit) × (limit ≤ s)
        → stale_cell d ≢ none
    back (s, limit, e, e', le) = ground arith

-- A repeater that has given its source up is marked as such, whatever its counter says.
pub stale_cell_given_up : (d : Device) → d.relaying ≡ some false → stale_cell d ≡ some not_relaying
unfolding stale_cell
stale_cell_given_up d h = ground arith

abbrev total_minutes : HowLong → ℕ
total_minutes (hours_minutes h m) = 60 * h + m
total_minutes (minutes m) = m

abbrev IsShort : HowLong → Type 0
IsShort (hours_minutes h m) = (1 ≤ h) × (m < 60)
IsShort (minutes m) = m < 60

-- The age in the mark is the age in full minutes, its minutes below 60, and the period in it is a
-- third of the limit to the nearest second.
pub nothing_new_true :
    (s limit : ℕ)
    → IsShort (how_long s)
      × (60 * total_minutes (how_long s) ≤ s)
      × (s < 60 * total_minutes (how_long s) + 60)
      × (2 * limit ≤ 6 * period_of limit + 3)
      × (6 * period_of limit ≤ 2 * limit + 3)
unfolding how_long period_of
nothing_new_true s limit = ground arith
