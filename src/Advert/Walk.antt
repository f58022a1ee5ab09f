-- ===== src/Advert/Walk.antt =====
-- What `bthome_objects` finds in a payload.
use ha_telink_manager.Prelude.{
  ℕ, zero, suc, ◌≤◌, ◌<◌, false, Option, none, some, List, [], ◌∷◌, ◌++◌, length, ◌≡◌, ◌↔◌, refl,
  arith, sym, ap, subst, ◌∙◌,
}
use ha_telink_manager.Blob.{bit}
use ha_telink_manager.Advert.{Object, len_of, push, cut, sized, walk, bthome_objects}

-- The objects of some bytes: one behind the other, up to the end, to an id of unknown length, or to one whose
-- bytes are not all there.
pub data IsObjects : List ℕ → List Object → Type 0 where
  at_end : IsObjects [] []
  unknown : {id : ℕ} {raw : List ℕ} → len_of id ≡ none → IsObjects (id ∷ raw) []
  short :
      {id size : ℕ} {raw : List ℕ}
      → len_of id ≡ some size
      → length raw < size
      → IsObjects (id ∷ raw) []
  next :
      {id : ℕ} {val rest raw : List ℕ} {objects : List Object}
      → len_of id ≡ some (length val)
      → val ++ rest ≡ raw
      → IsObjects rest objects
      → IsObjects (id ∷ raw) ((id, val) ∷ objects)

cut-append : (val rest : List ℕ) → cut (length val) (val ++ rest) ≡ some (val, rest)
unfolding cut
cut-append [] rest = refl
cut-append (c ∷ val) rest = ap (push c) (cut-append val rest)

cut-short : (size : ℕ) (raw : List ℕ) → length raw < size → cut size raw ≡ none
unfolding cut
cut-short zero raw h = absurd (omega (arith, h))
cut-short (suc size) [] h = refl
cut-short (suc size) (c ∷ raw) h = ap (push c) (cut-short size raw (omega (arith, h)))

-- What `cut` returns.
data IsCut : ℕ → List ℕ → Option (List ℕ × List ℕ) → Type 0 where
  too_short : {size : ℕ} {raw : List ℕ} → length raw < size → IsCut size raw none
  parts :
      {size : ℕ} {val rest raw : List ℕ}
      → size ≡ length val
      → val ++ rest ≡ raw
      → IsCut size raw (some (val, rest))

push-IsCut :
    {size : ℕ} {raw : List ℕ} (c : ℕ) {o : Option (List ℕ × List ℕ)}
    → IsCut size raw o
    → IsCut (suc size) (c ∷ raw) (push c o)
push-IsCut c (too_short h) = too_short (omega (arith, h))
push-IsCut c (parts e p) = parts (omega (arith, e)) (ap (λ s. c ∷ s) p)

cut-IsCut : (size : ℕ) (raw : List ℕ) → IsCut size raw (cut size raw)
unfolding cut
cut-IsCut zero raw = parts refl refl
cut-IsCut (suc size) [] = too_short (omega arith)
cut-IsCut (suc size) (c ∷ raw) = push-IsCut c (cut-IsCut size raw)

length-rest : (val rest : List ℕ) → length rest ≤ length (val ++ rest)
length-rest [] rest = omega arith
length-rest (c ∷ val) rest = omega (arith, length-rest val rest)

-- With as many rounds as there are bytes, the walk finds the objects.
walk-IsObjects : (fuel : ℕ) (raw : List ℕ) → length raw ≤ fuel → IsObjects raw (walk fuel raw)
unfolding walk
walk-IsObjects zero [] h = at_end
walk-IsObjects zero (id ∷ raw) h = absurd (omega (arith, h))
walk-IsObjects (suc fuel) [] h = at_end
walk-IsObjects (suc fuel) (id ∷ raw) h =
    go (λ (rest : List ℕ). walk-IsObjects fuel rest) (len_of id) refl
  where
    found :
        ((rest : List ℕ) → length rest ≤ fuel → IsObjects rest (walk fuel rest))
        → {size : ℕ} {o : Option (List ℕ × List ℕ)} → len_of id ≡ some size
        → IsCut size raw o
        → IsObjects (id ∷ raw) (elim o [ none ↦ [] | some p ↦ (id, p.0) ∷ walk fuel p.1 ])
    found again e (too_short k) = short e k
    found again e (parts {val = val} {rest} k p) =
        next (e ∙ ap some k) p (again rest (omega (arith, h, length-rest val rest, ap length p)))

    go :
        ((rest : List ℕ) → length rest ≤ fuel → IsObjects rest (walk fuel rest))
        → (o : Option ℕ) → len_of id ≡ o
        → IsObjects
            (id ∷ raw)
            (elim (sized o raw) [ none ↦ [] | some p ↦ (id, p.0) ∷ walk fuel p.1 ])
    go again none e = unknown e
    go again (some size) e = found again e (cut-IsCut size raw)

-- And it finds no others.
walk_unique :
    {raw : List ℕ} {objects : List Object} (fuel : ℕ)
    → length raw ≤ fuel
    → IsObjects raw objects
    → walk fuel raw ≡ objects
unfolding walk
walk_unique zero h at_end = refl
walk_unique (suc fuel) h at_end = refl
walk_unique zero h (unknown e) = absurd (omega (arith, h))
walk_unique (suc fuel) h (unknown e) = rw (walk, e) refl
walk_unique zero h (short e k) = absurd (omega (arith, h))
walk_unique (suc fuel) h (short {size = size} {raw} e k) = rw (walk, e, cut-short size raw k) refl
walk_unique zero h (next e p o) = absurd (omega (arith, h))
walk_unique (suc fuel) h (next {id} {val} {rest} e p o) =
    rw (sym p, walk, e, cut-append val rest)
      (ap (λ os. (id, val) ∷ os)
        (walk_unique fuel (omega (arith, h, length-rest val rest, ap length p)) o))

-- The objects of a payload that is not encrypted are exactly those that lie one behind the other in it, up
-- to the end, to an id whose length is not known, or to an object that is cut off; no bytes are read from
-- another place. (A payload is encrypted if the lowest bit of its first byte is set.)
pub bthome_objects_iff :
    (info : ℕ) (raw : List ℕ) (objects : List Object)
    → bit 0 info ≡ false
    → (bthome_objects (info ∷ raw) ≡ objects) ↔ IsObjects raw objects
unfolding bthome_objects
bthome_objects_iff info raw objects h = rw (h) (
  (λ e. subst (IsObjects raw) e (walk-IsObjects (length raw) raw (omega arith))),
  walk_unique (length raw) (omega arith),
)
