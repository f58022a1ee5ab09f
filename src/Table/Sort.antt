-- ===== src/Table/Sort.antt =====
-- `Array.prototype.sort`, which is stable: an insertion sort by "comes after", whose equal items keep
-- their order.
use mathlib.Core.List.{Perm}
use mathlib.Core.List.Perm
use ha_telink_manager.Prelude.{
  Bool, true, false, List, [], ◌∷◌, ◌≡◌, if◌then◌else◌, All, Bool-cases, inl, inr,
}

module _ {ℓ} {A : Type ℓ} (after : A → A → Bool) where
  pub insert : A → List A → List A
  insert x [] = x ∷ []
  insert x (y ∷ ys) = if after x y then y ∷ insert x ys else x ∷ y ∷ ys

  unfoldable pub sort : List A → List A
  unfolding insert
  sort [] = []
  sort (x ∷ xs) = insert x (sort xs)

  -- No item comes after a later one.
  abbrev pub IsSorted : List A → Type 0
  IsSorted [] = Unit
  IsSorted (x ∷ xs) = All (λ y. after x y ≡ false) xs × IsSorted xs

  insert-perm : (x : A) (ys : List A) → Perm (insert x ys) (x ∷ ys)
  unfolding insert
  insert-perm x [] = Perm.refl _
  insert-perm x (y ∷ ys) = elim (Bool-cases (after x y)) [
    | inl e ↦ rw e (Perm.trans (Perm.cons y (insert-perm x ys)) (Perm.swap x y ys))
    | inr e ↦ rw e (Perm.refl _)
  ]

  pub sort-perm : (xs : List A) → Perm (sort xs) xs
  unfolding sort
  sort-perm [] = Perm.refl _
  sort-perm (x ∷ xs) = Perm.trans (insert-perm x (sort xs)) (Perm.cons x (sort-perm xs))

  module _ (asym : (a b : A) → after a b ≡ true → after b a ≡ false)
      (trans : (a b c : A) → after a b ≡ false → after b c ≡ false → after a c ≡ false) where
    All-trans :
        (x y : A) (ys : List A)
        → after x y ≡ false
        → All (λ z. after y z ≡ false) ys
        → All (λ z. after x z ≡ false) ys
    All-trans x y [] h a = tt
    All-trans x y (z ∷ ys) h a = (trans x y z h a.0, All-trans x y ys h a.1)

    All-insert :
        (y x : A) (ys : List A)
        → after y x ≡ false
        → All (λ z. after y z ≡ false) ys
        → All (λ z. after y z ≡ false) (insert x ys)
    unfolding insert
    All-insert y x [] h a = (h, tt)
    All-insert y x (z ∷ ys) h a = elim (Bool-cases (after x z)) [
      | inl e ↦ rw e (a.0, All-insert y x ys h a.1)
      | inr e ↦ rw e (h, (a.0, a.1))
    ]

    insert-IsSorted : (x : A) (ys : List A) → IsSorted ys → IsSorted (insert x ys)
    unfolding insert
    insert-IsSorted x [] h = (tt, tt)
    insert-IsSorted x (y ∷ ys) h = elim (Bool-cases (after x y)) [
      | inl e ↦ rw e (All-insert y x ys (asym x y e) h.0, insert-IsSorted x ys h.1)
      | inr e ↦ rw e ((e, All-trans x y ys e h.0), h)
    ]

    pub sort-IsSorted : (xs : List A) → IsSorted (sort xs)
    unfolding sort
    sort-IsSorted [] = tt
    sort-IsSorted (x ∷ xs) = insert-IsSorted x (sort xs) (sort-IsSorted xs)
