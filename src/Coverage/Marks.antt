-- ===== src/Coverage/Marks.antt =====
-- The marks of the matrix and the columns beside it agree.
use ha_telink_manager.Prelude.{
  ℕ, ◌≤◌, ◌<◌, ◌+◌, ◌*◌, ℤ, ◌≤ℤ◌, true, false, Option, none, some, List, [], ◌∷◌, ◌≡◌, ◌≢◌, refl,
  inl, inr, arith, any, Bool-cases, Option-cases, ◌↔◌,
}
use ha_telink_manager.Coverage.{
  Proxy, Heard, signal, best_possible, best_active_of, is_usable, beats, gain, gain_at, could,
  could_at, hint, no_hint, dot, on, is_gone, cov_age, CovAge, dash, secs, mins, hours, eq_ℤ,
}
use ha_telink_manager.Coverage.Best.{IsAmong, Bounds, best_of-Bounds, best_of-IsAmong}

could_of_gain :
    (o : Option ℤ) (p : Proxy) (best bp : Option ℤ)
    → gain_at o p best bp ≡ true
    → could_at bp best ≢ none
could_of_gain none p best bp h = cc
could_of_gain (some r) p best none h = ground arith
could_of_gain (some r) p none (some b) h = ground arith
could_of_gain (some r) p (some a) (some b) h = ground arith

could_of_any : (all ps : List Proxy) (d : Heard) → any (gain all d) ps ≡ true → could all d ≢ none
could_of_any all [] d h = cc
could_of_any all (p ∷ ps) d h = elim (Bool-cases (gain all d p)) [
  | inl g ↦ could_of_gain (signal d p) p d.best_active (best_possible all d) g
  | inr g ↦ could_of_any all ps d (rw g at h)
]

not_connectable :
    (all : List Proxy) (d : Heard) (bp : ℤ)
    → d.best_active ≡ best_active_of all d
    → beats bp d.best_active ≡ true
    → ¬ (IsAmong (λ (p : Proxy). p.connectable) d bp all)
not_connectable all d bp e b h =
    refute (best_active_of all d) (best_of-Bounds _ d bp all h) (rw e at b)
  where
    refute : (o : Option ℤ) → Bounds bp o → beats bp o ≡ true → ⊥
    refute none k l = k
    refute (some a) k l = ground arith

self_is_best : (r : ℤ) → eq_ℤ r r ≡ true
self_is_best r = ground arith

gain_of_among :
    (all ps : List Proxy) (d : Heard) (bp : ℤ)
    → best_possible all d ≡ some bp
    → beats bp d.best_active ≡ true
    → (IsAmong (λ (p : Proxy). p.connectable) d bp ps → ⊥)
    → IsAmong is_usable d bp ps
    → any (gain all d) ps ≡ true
gain_of_among all [] d bp e b out h = absurd h
gain_of_among all (p ∷ ps) d bp e b out (inl (u, s)) = rw marked refl
  where
    enableable : p.activatable ≡ true
    enableable = elim (Bool-cases p.connectable) [
      | inl c ↦ absurd (out (inl (c, s)))
      | inr c ↦ rw c at u
    ]

    marked : gain all d p ≡ true
    marked = rw (s, e, enableable, b, self_is_best bp) refl
gain_of_among all (p ∷ ps) d bp e b out (inr h) = elim (Bool-cases (gain all d p)) [
  | inl g ↦ rw g refl
  | inr g ↦ rw g (gain_of_among all ps d bp e b (λ k. out (inr k)) h)
]

could_cases :
    (bp best : Option ℤ) (v : ℤ) → could_at bp best ≡ some v → (bp ≡ some v) × (beats v best ≡ true)
could_cases none best v e = cc
could_cases (some b) best v e = ground arith

-- With the best active signal that the backend sends, the column "could be" shows a signal exactly
-- when some proxy's cell in the row has the mark: a proxy that could be enabled, that hears the
-- thermometer better than any active one.
pub could_iff_gain :
    (ps : List Proxy) (d : Heard)
    → d.best_active ≡ best_active_of ps d
    → (could ps d ≢ none) ↔ (any (gain ps d) ps ≡ true)
could_iff_gain ps d e = (forth, could_of_any ps ps d)
  where
    forth : could ps d ≢ none → any (gain ps d) ps ≡ true
    forth h = elim (Option-cases (could ps d)) [
      | inl n ↦ absurd (h n)
      | inr (v, s) ↦
          let (bp, b) = could_cases (best_possible ps d) d.best_active v s in
          gain_of_among ps ps d v bp b (not_connectable ps d v e b)
            (best_of-IsAmong is_usable d v ps bp)
    ]

-- The signal in that column is better than the best active one, and no proxy that is connectable or
-- could be enabled hears the thermometer better.
pub could_best :
    (ps : List Proxy) (d : Heard) (v r : ℤ)
    → could ps d ≡ some v
    → (beats v d.best_active ≡ true) × (IsAmong is_usable d r ps → r ≤ℤ v)
could_best ps d v r s =
    let (bp, b) = could_cases (best_possible ps d) d.best_active v s in
    (b, λ h. rw bp at (best_of-Bounds is_usable d r ps h))

-- A green dot stands only beside a connectable proxy that scans, has heard something within five
-- minutes as far as is known, and sees a thermometer; such a proxy has no hint unless it could be
-- enabled.
pub dot_on :
    (p : Proxy)
    → dot p ≡ on
    → (p.connectable ≡ true)
      × (is_gone p ≡ false)
      × (p.seen ≢ 0)
      × (p.activatable ≡ false → hint p ≡ no_hint)
unfolding dot hint
dot_on p h = ground arith

-- The words for an age in tenths of a second are true to half a second under a minute, half a minute
-- under an hour, and a twentieth of an hour from there on.
abbrev IsTrue : ℕ → CovAge → Type 0
IsTrue t dash = ⊥
IsTrue t (secs n) = (t ≤ 10 * n + 5) × (10 * n ≤ t + 5)
IsTrue t (mins n) = (t ≤ 600 * n + 300) × (600 * n ≤ t + 300)
IsTrue t (hours w f) =
    (f < 10) × (t ≤ 3600 * (10 * w + f) + 1800) × (3600 * (10 * w + f) ≤ t + 1800)

-- Every known age is described truly.
pub cov_age-IsTrue : (t : ℕ) → IsTrue t (cov_age (some t))
unfolding cov_age
cov_age-IsTrue t = ground arith
