-- ===== src/Store/Newest.antt =====
-- What a saved snapshot leaves in the store.
use mathlib.Core.Option.{some-injective, none-ne-some}
use ha_telink_manager.Prelude.{
  ℕ, zero, suc, ◌+◌, ◌-◌, ◌≤◌, ltb, true, Option, none, some, List, [], ◌∷◌, ◌++◌, if◌then◌else◌,
  length, ◌≡◌, refl, arith, ap, subst, ◌∙◌, Bool-cases, inl, inr, text_eq_iff, eq_refl,
}
use ha_telink_manager.Html.{Text}
use ha_telink_manager.Store.{
  Snapshot, drop, raw_norm, same_state, last, is_known, seen_again, trimmed, stored, save_snapshot,
}

length-seen_again : (now : ℕ) (lst : List Snapshot) → length (seen_again now lst) ≡ length lst
unfolding seen_again
length-seen_again now [] = refl
length-seen_again now (s ∷ []) = refl
length-seen_again now (s ∷ t ∷ lst) = omega (arith, length-seen_again now (t ∷ lst))

length-drop : (n : ℕ) (lst : List Snapshot) → length (drop n lst) ≡ length lst - n
unfolding drop
length-drop zero lst = omega arith
length-drop (suc n) [] = omega arith
length-drop (suc n) (s ∷ lst) = omega (arith, length-drop n lst)

length-trimmed : (limit : ℕ) (lst : List Snapshot) → length (trimmed limit lst) ≤ limit
unfolding trimmed
length-trimmed limit lst = ground (arith, length-drop (length lst - limit) lst)

last-snoc : (lst : List Snapshot) (s : Snapshot) → last (lst ++ (s ∷ [])) ≡ some s
unfolding last
last-snoc [] s = refl
last-snoc (t ∷ []) s = refl
last-snoc (t ∷ u ∷ lst) s = last-snoc (u ∷ lst) s

-- Dropping less than everything keeps the last.
last-drop : (n : ℕ) (lst : List Snapshot) → n + 1 ≤ length lst → last (drop n lst) ≡ last lst
unfolding last drop
last-drop zero lst h = refl
last-drop (suc n) [] h = absurd (omega (arith, h))
last-drop (suc n) (s ∷ []) h = absurd (omega (arith, h))
last-drop (suc n) (s ∷ t ∷ lst) h = last-drop n (t ∷ lst) (omega (arith, h))

last-trimmed : (limit : ℕ) (lst : List Snapshot) → 1 ≤ limit → last (trimmed limit lst) ≡ last lst
unfolding trimmed
last-trimmed limit lst h = elim (Bool-cases (ltb limit (length lst))) [
  | inl e ↦ rw (e) (last-drop (length lst - limit) lst (ground (arith, e, h)))
  | inr e ↦ rw (e) refl
]

last-seen_again :
    (now : ℕ) (lst : List Snapshot) {s : Snapshot}
    → last lst ≡ some s
    → last (seen_again now lst) ≡ some (record s { last_seen = now })
unfolding last seen_again
last-seen_again now [] e = absurd (none-ne-some _ e)
last-seen_again now (t ∷ []) e =
    ap (λ (u : Snapshot). some (record u { last_seen = now })) (some-injective _ _ e)
last-seen_again now (t ∷ u ∷ []) e = last-seen_again now (u ∷ []) e
last-seen_again now (t ∷ u ∷ v ∷ lst) e = last-seen_again now (u ∷ v ∷ lst) e

same_state-itself : (s : Snapshot) → same_state s s ≡ true
unfolding same_state
same_state-itself s =
    rw
      (
        (text_eq_iff (raw_norm s.raw) (raw_norm s.raw)).1 refl,
        eq_refl s.kind,
        eq_refl s.device_name,
        eq_refl s.comfort,
        eq_refl s.bind_key,
        eq_refl s.sensor,
        eq_refl s.ext_mac,
        eq_refl s.ext_bind_key,
      )
      refl

-- The newest snapshot of a list is of this state, and was seen at this time.
pub data IsNewest (snap : Snapshot) (now : ℕ) (lst : List Snapshot) : Type 0 where
  newest :
      {s : Snapshot}
      → last lst ≡ some s
      → same_state s snap ≡ true
      → s.last_seen ≡ now
      → IsNewest snap now lst

unseen_state :
    (s snap : Snapshot) (now : ℕ)
    → same_state (record s { last_seen = now }) snap ≡ same_state s snap
unfolding same_state
unseen_state s snap now = refl

own_state : (snap : Snapshot) (now : ℕ) → same_state (record snap { last_seen = now }) snap ≡ true
own_state snap now = unseen_state snap snap now ∙ same_state-itself snap

stored-IsNewest :
    (limit now : ℕ) (snap : Snapshot) (lst : List Snapshot)
    → 1 ≤ limit
    → IsNewest snap now (stored limit now snap lst)
stored-IsNewest limit now snap lst h = go (last lst) refl
  where
    go :
        (o : Option Snapshot)
        → last lst ≡ o
        → IsNewest snap now (
            if is_known snap o
            then seen_again now lst
            else trimmed limit (lst ++ (record snap { last_seen = now } ∷ [])))
    go none e = newest (last-trimmed limit _ h ∙ last-snoc lst _) (own_state snap now) refl
    go (some s) e = elim (Bool-cases (same_state s snap)) [
      | inl k ↦ rw (k) (newest (last-seen_again now lst e) (unseen_state s snap now ∙ k) refl)
      | inr k ↦ rw (k) (newest (last-trimmed limit _ h ∙ last-snoc lst _) (own_state snap now) refl)
    ]

saved_list :
    (limit now : ℕ) (snap : Snapshot) (lst : List Snapshot) {lst' : List Snapshot}
    → save_snapshot limit now snap lst ≡ some lst'
    → stored limit now snap lst ≡ lst'
unfolding save_snapshot
saved_list limit now snap lst {lst'} e = go snap.raw e
  where
    go :
        (raw : Text)
        → (elim raw [ [] ↦ none | c ∷ rest ↦ some (stored limit now snap lst) ]) ≡ some lst'
        → stored limit now snap lst ≡ lst'
    go [] e' = absurd (none-ne-some _ e')
    go (c ∷ rest) e' = some-injective _ _ e'

stored-length :
    (limit now : ℕ) (snap : Snapshot) (lst : List Snapshot)
    → length lst ≤ limit
    → length (stored limit now snap lst) ≤ limit
stored-length limit now snap lst h = elim (Bool-cases (is_known snap (last lst))) [
  | inl e ↦ rw (e) (omega (arith, length-seen_again now lst, h))
  | inr e ↦ rw (e) (length-trimmed limit _)
]

-- The newest snapshot is of this state: nothing is added.
known_again :
    (limit now : ℕ) (snap : Snapshot) {before : ℕ} {lst : List Snapshot}
    → IsNewest snap before lst
    → stored limit now snap lst ≡ seen_again now lst
known_again limit now snap (newest e k t) = rw (e, k) refl

-- A snapshot that is taken is not refused later.
accepted :
    (limit now later : ℕ) (snap : Snapshot) (lst other : List Snapshot) {lst' : List Snapshot}
    → save_snapshot limit now snap lst ≡ some lst'
    → save_snapshot limit later snap other ≡ some (stored limit later snap other)
unfolding save_snapshot
accepted limit now later snap lst other {lst'} e = go snap.raw e
  where
    go :
        (raw : Text)
        → (elim raw [ [] ↦ none | c ∷ rest ↦ some (stored limit now snap lst) ]) ≡ some lst'
        → (elim raw [ [] ↦ none | c ∷ rest ↦ some (stored limit later snap other) ])
          ≡ some (stored limit later snap other)
    go [] e' = absurd (none-ne-some _ e')
    go (c ∷ rest) e' = refl

-- After a snapshot is saved, and not refused, it is the newest one, as seen now, and the list is within
-- the limit if it was before; and to save the same state again later only marks it as seen again then.
-- This holds for a limit of at least 1.
pub save_snapshot-IsNewest :
    (limit now later : ℕ) (snap : Snapshot) (lst : List Snapshot) {lst' : List Snapshot}
    → 1 ≤ limit
    → length lst ≤ limit
    → save_snapshot limit now snap lst ≡ some lst'
    → IsNewest snap now lst'
      × (length lst' ≤ limit)
      × (save_snapshot limit later snap lst' ≡ some (seen_again later lst'))
save_snapshot-IsNewest limit now later snap lst {lst'} h l e =
    let p = saved_list limit now snap lst e in
    let n = subst (IsNewest snap now) p (stored-IsNewest limit now snap lst h) in
    (
      n,
      subst (λ xs. length xs ≤ limit) p (stored-length limit now snap lst l),
      accepted limit now later snap lst lst' e ∙ ap some (known_again limit later snap n),
    )
