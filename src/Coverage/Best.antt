-- ===== src/Coverage/Best.antt =====
-- The best signals are the greatest of those that count.
use ha_telink_manager.Prelude.{
  ℤ, ◌≤ℤ◌, Bool, true, Option, none, some, List, [], ◌∷◌, ◌≡◌, ◌⊎◌, inl, inr, arith, Bool-cases,
  Option-cases,
}
use ha_telink_manager.Coverage.{Proxy, Heard, signal, better, best_of}

-- The proxy is in the list, passes the test, and hears the thermometer at `r`.
abbrev pub IsAmong : (Proxy → Bool) → Heard → ℤ → List Proxy → Type 0
IsAmong test d r [] = ⊥
IsAmong test d r (p ∷ ps) = ((test p ≡ true) × (signal d p ≡ some r)) ⊎ IsAmong test d r ps

abbrev pub Bounds : ℤ → Option ℤ → Type 0
Bounds r none = ⊥
Bounds r (some best) = r ≤ℤ best

better_left : (r : ℤ) (o : Option ℤ) → Bounds r (better (some r) o)
better_left r none = omega arith
better_left r (some b) = ground arith

better_right : (r : ℤ) (a o : Option ℤ) → Bounds r o → Bounds r (better a o)
better_right r none o h = h
better_right r (some a) none h = absurd h
better_right r (some a) (some b) h = ground arith

-- No signal that counts is above the best one.
pub best_of-Bounds :
    (test : Proxy → Bool) (d : Heard) (r : ℤ) (ps : List Proxy)
    → IsAmong test d r ps
    → Bounds r (best_of test ps d)
unfolding best_of
best_of-Bounds test d r [] h = absurd h
best_of-Bounds test d r (p ∷ ps) (inl (t, e)) = rw (t, e) (better_left r (best_of test ps d))
best_of-Bounds test d r (p ∷ ps) (inr h) = elim (Bool-cases (test p)) [
  | inl t ↦ rw t (better_right r (signal d p) _ (best_of-Bounds test d r ps h))
  | inr t ↦ rw t (best_of-Bounds test d r ps h)
]

better_cases : (a b : ℤ) (o : Option ℤ) → better (some a) o ≡ some b → (a ≡ b) ⊎ (o ≡ some b)
better_cases a b none e = ground arith
better_cases a b (some c) e = ground arith

-- The best signal is one of those that count.
pub best_of-IsAmong :
    (test : Proxy → Bool) (d : Heard) (r : ℤ) (ps : List Proxy)
    → best_of test ps d ≡ some r
    → IsAmong test d r ps
unfolding best_of
best_of-IsAmong test d r [] e = cc
best_of-IsAmong test d r (p ∷ ps) e = elim (Bool-cases (test p)) [
  | inl t ↦ elim (Option-cases (signal d p)) [
    | inl n ↦ inr (best_of-IsAmong test d r ps (rw (t, n) at e))
    | inr (a, s) ↦ elim (better_cases a r (best_of test ps d) (rw (t, s) at e)) [
      | inl same ↦ inl (t, rw same at s)
      | inr later ↦ inr (best_of-IsAmong test d r ps later)
    ]
  ]
  | inr t ↦ inr (best_of-IsAmong test d r ps (rw t at e))
]

-- There is no best signal exactly where none counts.
pub best_of-none :
    (test : Proxy → Bool) (d : Heard) (r : ℤ) (ps : List Proxy)
    → best_of test ps d ≡ none
    → ¬ (IsAmong test d r ps)
best_of-none test d r ps e h = rw e at (best_of-Bounds test d r ps h)
