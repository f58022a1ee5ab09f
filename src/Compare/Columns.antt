-- ===== src/Compare/Columns.antt =====
-- Which columns differ, and the colours of their cells.
use ha_telink_manager.Prelude.{
  ℕ, ◌+◌, ◌*◌, ◌%◌, ◌≤◌, ◌<◌, leb, Bool, true, false, not, ◌&&◌, ◌||◌, List, [], ◌∷◌, ◌++◌,
  if◌then◌else◌, text_eq, text_eq_iff, length, ◌≡◌, ◌↔◌, refl, sym, ap, ◌∙◌, arith,
}
use ha_telink_manager.Html.{Text}
use ha_telink_manager.Compare.{
  Column, values, among, add_new, distinct_of, is_uniform, index_of, hue,
}

text_sym : (s t : Text) → text_eq s t ≡ text_eq t s
text_sym s t = ground (arith, text_eq_iff s t, text_eq_iff t s)

among-append : (s : Text) (a b : List Text) → among s (a ++ b) ≡ (among s a || among s b)
among-append s [] b = refl
among-append s (v ∷ a) b = rw (among-append s a b) (regroup (text_eq v s) (among s a) (among s b))
  where
    regroup : (x y z : Bool) → (x || (y || z)) ≡ ((x || y) || z)
    regroup x y z = ground arith

among_same : (v s : Text) (seen : List Text) → text_eq v s ≡ true → among v seen ≡ among s seen
among_same v s seen e = ap (λ (t : Text). among t seen) ((text_eq_iff v s).0 e)

among-add_new :
    (s : Text) (seen vals : List Text)
    → among s (add_new seen vals) ≡ (among s seen || among s vals)
unfolding add_new
among-add_new s seen [] = ground arith
among-add_new s seen (v ∷ vals) =
    among-add_new s (if among v seen then seen else seen ++ (v ∷ [])) vals
    ∙ one (among v seen) (text_eq v s) refl refl
  where
    one :
        (b c : Bool)
        → among v seen ≡ b
        → text_eq v s ≡ c
        → (among s (if b then seen else seen ++ (v ∷ [])) || among s vals)
          ≡ (among s seen || (c || among s vals))
    one true true p q = rw (← (among_same v s seen q), p) refl
    one true false p q = refl
    one false c p q = rw (among-append s seen (v ∷ []), q) (regroup (among s seen) c (among s vals))
      where
        regroup : (x y z : Bool) → ((x || (y || false)) || z) ≡ (x || (y || z))
        regroup x y z = ground arith

abbrev once : List Text → Bool
once [] = true
once (v ∷ vals) = not (among v vals) && once vals

once-append :
    (v : Text) (seen : List Text)
    → among v seen ≡ false
    → once seen ≡ true
    → once (seen ++ (v ∷ [])) ≡ true
once-append v [] n h = refl
once-append v (t ∷ seen) n h =
    rw (among-append t seen (v ∷ []), text_sym v t)
      (kept (text_eq t v) (among v seen) (among t seen) (once seen) _ n (once-append v seen) h)
  where
    kept :
        (a b c d f : Bool)
        → (a || b) ≡ false
        → (b ≡ false → d ≡ true → f ≡ true)
        → (not c && d) ≡ true
        → (not (c || (a || false)) && f) ≡ true
    kept a b c d f n g h = ground arith

once-add_new : (seen vals : List Text) → once seen ≡ true → once (add_new seen vals) ≡ true
unfolding add_new
once-add_new seen [] h = h
once-add_new seen (v ∷ vals) h =
    once-add_new (if among v seen then seen else seen ++ (v ∷ [])) vals (one (among v seen) refl)
  where
    one : (b : Bool) → among v seen ≡ b → once (if b then seen else seen ++ (v ∷ [])) ≡ true
    one true e = h
    one false e = once-append v seen e h

at_most_one :
    (vals : List Text) (s t : Text)
    → leb (length vals) 1 ≡ true
    → among s vals ≡ true
    → among t vals ≡ true
    → s ≡ t
at_most_one [] s t l a b = cc
at_most_one (v ∷ []) s t l a b =
    sym ((text_eq_iff v s).0 (ground arith)) ∙ (text_eq_iff v t).0 (ground arith)
at_most_one (v ∷ w ∷ vals) s t l a b = absurd (ground arith)

all_same_short :
    (vals : List Text)
    → once vals ≡ true
    → ((s t : Text) → among s vals ≡ true → among t vals ≡ true → s ≡ t)
    → leb (length vals) 1 ≡ true
all_same_short [] h f = refl
all_same_short (v ∷ []) h f = refl
all_same_short (v ∷ w ∷ vals) h f =
    let p : w ≡ v = f w v (ground (arith, text_eq_iff w w)) (ground (arith, text_eq_iff v v)) in
    absurd (ground (arith, text_eq_iff w v))

module _ {ℓ} {A : Type ℓ} where
  -- A column is uniform exactly when no two rows have different values in it; a row without a value
  -- does not count.
  pub is_uniform_iff :
      (c : Column A) (rows : List A)
      → (is_uniform c rows ≡ true)
        ↔ ((s t : Text) → among s (values c rows) ≡ true → among t (values c rows) ≡ true → s ≡ t)
  unfolding is_uniform
  is_uniform_iff c rows = (
    (λ u s t a b.
        at_most_one (distinct_of c rows) s t u (among-add_new s [] (values c rows) ∙ a)
          (among-add_new t [] (values c rows) ∙ b)),
    (λ f. all_same_short (distinct_of c rows) (once-add_new [] (values c rows) refl) (λ s t a b.
        f s t (sym (among-add_new s [] (values c rows)) ∙ a)
          (sym (among-add_new t [] (values c rows)) ∙ b))),
  )

index_of-bound : (s : Text) (vals : List Text) → among s vals ≡ true → index_of s vals < length vals
unfolding index_of
index_of-bound s [] h = cc
index_of-bound s (v ∷ vals) h = ground (arith, index_of-bound s vals)

index_of-injective :
    (s t : Text) (vals : List Text)
    → among s vals ≡ true
    → index_of s vals ≡ index_of t vals
    → s ≡ t
unfolding index_of
index_of-injective s t [] h e = cc
index_of-injective s t (v ∷ vals) h e =
    go (text_eq v s) (text_eq v t) refl refl h e (index_of-injective s t vals)
  where
    go :
        (a b : Bool)
        → text_eq v s ≡ a
        → text_eq v t ≡ b
        → (a || among s vals) ≡ true
        → (if a then 0 else index_of s vals + 1) ≡ (if b then 0 else index_of t vals + 1)
        → (among s vals ≡ true → index_of s vals ≡ index_of t vals → s ≡ t)
        → s ≡ t
    go true true p q h e g = sym ((text_eq_iff v s).0 p) ∙ (text_eq_iff v t).0 q
    go true false p q h e g = absurd (omega arith)
    go false true p q h e g = absurd (omega arith)
    go false false p q h e g = g h (omega arith)

hues_apart : (i j : ℕ) → i < 360 → j < 360 → i * 67 % 360 ≡ j * 67 % 360 → i ≡ j
hues_apart i j a b e = omega arith

-- With at most 360 different values in a column, two of them have the same colour only if they are
-- equal.
pub hue-injective :
    (s t : Text) (vals : List Text)
    → length vals ≤ 360
    → among s vals ≡ true
    → among t vals ≡ true
    → hue vals s ≡ hue vals t
    → s ≡ t
unfolding hue
hue-injective s t vals l a b e =
    let p = index_of-bound s vals a in
    let q = index_of-bound t vals b in
    index_of-injective s t vals a
      (hues_apart (index_of s vals) (index_of t vals) (omega arith) (omega arith) e)
