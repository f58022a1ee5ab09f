-- ===== src/Views/Advice.antt =====
-- The interval that a repeater's notice recommends.
use ha_telink_manager.Prelude.{
  ℕ, ◌+◌, ◌-◌, ◌≤◌, leb, true, false, ◌&&◌, ◌≡◌, arith, Bool-cases, inl, inr, sym,
}
use mathlib.Core.Bool.{false≢true}
use ha_telink_manager.Views.{judge_interval, clamp, distance}

followed :
    (lo hi adv interval : ℕ)
    → (judge_interval (lo, hi) adv interval).unusable ≡ false
    → (leb (lo - 100) adv && leb adv (hi + 100)) ≡ true
unfolding judge_interval
followed lo hi adv interval u = elim (Bool-cases (leb (lo - 100) adv && leb adv (hi + 100))) [
  | inl e ↦ e
  | inr e ↦ absurd (false≢true (sym (rw (e) at u)))
]

clamp-bounds : (lo hi adv : ℕ) → lo ≤ hi → (lo ≤ clamp adv (lo, hi)) × (clamp adv (lo, hi) ≤ hi)
clamp-bounds lo hi adv h = (ground (arith, h), ground (arith, h))

clamp-near :
    (lo hi adv : ℕ)
    → lo ≤ hi
    → (leb (lo - 100) adv && leb adv (hi + 100)) ≡ true
    → leb (distance adv (clamp adv (lo, hi))) 100 ≡ true
clamp-near lo hi adv h e = ground (arith, h, e)

-- The judgement of the interval on the repeater, and the recommended one: if the source can be followed at
-- all, the recommended interval is one that the firmware takes, and with it the backend's next judgement
-- finds nothing wrong.
pub clamp-judged :
    (lo hi adv interval : ℕ)
    → lo ≤ hi
    → (judge_interval (lo, hi) adv interval).unusable ≡ false
    → (lo ≤ clamp adv (lo, hi))
      × (clamp adv (lo, hi) ≤ hi)
      × ((judge_interval (lo, hi) adv (clamp adv (lo, hi))).ok ≡ true)
unfolding judge_interval
clamp-judged lo hi adv interval h u =
    let e = followed lo hi adv interval u in
    let (p, q) = clamp-bounds lo hi adv h in (p, q, rw (e) (clamp-near lo hi adv h e))
