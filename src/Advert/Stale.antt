-- ===== src/Advert/Stale.antt =====
-- How long a device's packet counter has stood still (custom_components/telink_manager/adv.py:
-- `stale_seconds`). Times are whole tenths of a second, so that nothing is rounded.
use ha_telink_manager.Prelude.{
  ℕ, ◌-◌, ◌==◌, Bool, true, false, not, ◌||◌, Option, none, some, List, [], ◌∷◌, String, str_eq,
  eq_iff, eq_refl, if◌then◌else◌, lookup, insert, lookup-insert, all, ◌≡◌, refl, arith, ap, ◌∙◌,
  Bool-cases, inl, inr,
}

-- `seen`: each device's packet id and when it was first seen with it.
abbrev pub Memory : Type 0
Memory = List (String × (ℕ × ℕ))

abbrev pub is_new : ℕ → Option (ℕ × ℕ) → Bool
is_new id none = true
is_new id (some prev) = not (prev.0 == id)

abbrev pub since : ℕ → Option (ℕ × ℕ) → ℕ
since now none = 0
since now (some prev) = now - prev.1

-- `stale_seconds`, with the memory that it leaves behind.
unfoldable pub stale_seconds : Memory → String → Option ℕ → ℕ → Option ℕ × Memory
stale_seconds seen mac none now = (none, seen)
stale_seconds seen mac (some id) now =
    if is_new id (lookup mac seen)
    then (some 0, insert mac (id, now) seen)
    else (some (since now (lookup mac seen)), seen)

-- A scan that hears a device.
pub record Sighting : Type 0 where
  pub mac : String
  pub packet_id : Option ℕ
  pub now : ℕ

unfoldable pub remembered : Memory → List Sighting → Memory
remembered seen [] = seen
remembered seen (s ∷ later) = remembered (stale_seconds seen s.mac s.packet_id s.now).1 later

-- A sighting of another device, or without a counter, or with this one.
abbrev pub is_id : ℕ → Option ℕ → Bool
is_id id none = true
is_id id (some other) = other == id

abbrev pub stands : String → ℕ → Sighting → Bool
stands mac id s = not (str_eq s.mac mac) || is_id id s.packet_id

-- Such a sighting leaves what is remembered of the device.
step-lookup :
    (seen : Memory) (mac : String) (id t : ℕ) (s : Sighting)
    → lookup mac seen ≡ some (id, t)
    → stands mac id s ≡ true
    → lookup mac (stale_seconds seen s.mac s.packet_id s.now).1 ≡ some (id, t)
unfolding stale_seconds
step-lookup seen mac id t s h k = go s.packet_id k
  where
    go :
        (p : Option ℕ)
        → (not (str_eq s.mac mac) || is_id id p) ≡ true
        → lookup mac (stale_seconds seen s.mac p s.now).1 ≡ some (id, t)
    go none k' = h
    go (some other) k' = elim (Bool-cases (str_eq s.mac mac)) [
      | inl e ↦
          let q : lookup s.mac seen ≡ some (id, t) =
            ap (λ x. lookup x seen) ((eq_iff s.mac mac).0 e) ∙ h in
          let same : not (id == other) ≡ false = ground (arith, e, k') in rw (q, same) h
      | inr e ↦ elim (Bool-cases (is_new other (lookup s.mac seen))) [
        | inl n ↦ rw (n) (
            lookup-insert s.mac mac (other, s.now) seen
            ∙ ap (λ b. if b then some (other, s.now) else lookup mac seen) e
            ∙ h)
        | inr n ↦ rw (n) h
      ]
    ]

remembered-lookup :
    (later : List Sighting) (seen : Memory) (mac : String) (id t : ℕ)
    → lookup mac seen ≡ some (id, t)
    → all (stands mac id) later ≡ true
    → lookup mac (remembered seen later) ≡ some (id, t)
unfolding remembered
remembered-lookup [] seen mac id t h k = h
remembered-lookup (s ∷ later) seen mac id t h k = elim (Bool-cases (stands mac id s)) [
  | inl e ↦
      remembered-lookup later (stale_seconds seen s.mac s.packet_id s.now).1 mac id t
        (step-lookup seen mac id t s h e) (ground (arith, e, k))
  | inr e ↦ absurd (ground (arith, e, k))
]

-- A device whose counter changed at `t`, or was first seen then, and was the same in every sighting of it
-- since, whatever was heard of other devices meanwhile, has stood still from `t` until now.
pub stale_seconds-remembered :
    (seen : Memory) (mac : String) (id t now : ℕ) (later : List Sighting)
    → is_new id (lookup mac seen) ≡ true
    → all (stands mac id) later ≡ true
    → (stale_seconds
        (remembered seen (record { mac = mac; packet_id = some id; now = t } ∷ later))
        mac
        (some id)
        now).0
      ≡ some (now - t)
unfolding stale_seconds remembered
stale_seconds-remembered seen mac id t now later h k =
    let e : lookup mac (insert mac (id, t) seen) ≡ some (id, t) =
      lookup-insert mac mac (id, t) seen ∙ rw (eq_refl mac) refl in
    let q : lookup mac (remembered (insert mac (id, t) seen) later) ≡ some (id, t) =
      remembered-lookup later (insert mac (id, t) seen) mac id t e k in
    let same : (id == id) ≡ true = ground arith in rw (h, q, same) refl
