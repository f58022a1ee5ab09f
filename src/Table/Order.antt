-- ===== src/Table/Order.antt =====
-- The table's rows are the scan's devices in the chosen order, and what the column headers do.
use mathlib.Core.Bool.{false≢true}
use mathlib.Core.List.{Perm}
use ha_telink_manager.Prelude.{
  ℕ, ℤ, neg, ltb_ℤ, Bool, not, ◌&&◌, true, false, none, some, List, [], ◌∷◌, String, ◌≡◌, ◌≢◌, refl,
  arith, str_eq, ap, sym, ◌∙◌, All, Bool-cases, inl, inr,
}
use ha_telink_manager.Device.{Device}
use ha_telink_manager.Table.{
  Collation, Key, Key-discrete, area, Dir, asc, desc, SortVal, num, text, sort_val, above,
  comes_after, table_rows, rssi, int_or, flip, first_dir, sort_by, resorted, last_char,
}
use ha_telink_manager.Table.Sort.{sort-perm, IsSorted, sort-IsSorted}

module _ (c : Collation) where
  above_asym : (a b : SortVal) → above c a b ≡ true → above c b a ≡ false
  unfolding above
  above_asym (num a) (num b) h = ground arith
  above_asym (text a) (text b) h = c.greater_asym a b h
  above_asym (num a) (text b) h = cc
  above_asym (text a) (num b) h = cc

  -- The values of one column are all numbers or all texts.
  abbrev Alike : SortVal → SortVal → Type 0
  Alike (num a) (num b) = Unit
  Alike (text a) (text b) = Unit
  Alike _ _ = ⊥

  above_cotrans :
      (a b d : SortVal)
      → Alike a b
      → Alike b d
      → above c a b ≡ false
      → above c b d ≡ false
      → above c a d ≡ false
  unfolding above
  above_cotrans (num x) (num y) (num z) s t h k = ground arith
  above_cotrans (text x) (text y) (text z) s t h k = c.greater_cotrans x y z h k
  above_cotrans (num x) (num y) (text z) s t h k = absurd t
  above_cotrans (num x) (text y) z s t h k = absurd s
  above_cotrans (text x) (num y) z s t h k = absurd s
  above_cotrans (text x) (text y) (num z) s t h k = absurd t

  sort_val-Alike :
      (counts : List (String × ℕ)) (dir : Dir) (k : Key) (a b : Device)
      → Alike (sort_val c counts dir a k) (sort_val c counts dir b k)
  unfolding sort_val
  sort_val-Alike counts dir Key.friendly a b = tt
  sort_val-Alike counts dir _ a b = tt

  comes_after_asym :
      (counts : List (String × ℕ)) (dir : Dir) (k : Key) (a b : Device)
      → comes_after c counts dir k a b ≡ true
      → comes_after c counts dir k b a ≡ false
  unfolding comes_after
  comes_after_asym counts asc k a b h = above_asym _ _ h
  comes_after_asym counts desc k a b h = above_asym _ _ h

  comes_after_cotrans :
      (counts : List (String × ℕ)) (dir : Dir) (k : Key) (x y z : Device)
      → comes_after c counts dir k x y ≡ false
      → comes_after c counts dir k y z ≡ false
      → comes_after c counts dir k x z ≡ false
  unfolding comes_after
  comes_after_cotrans counts asc k x y z h i =
      above_cotrans _ (sort_val c counts asc y k) _ (sort_val-Alike counts asc k x y)
        (sort_val-Alike counts asc k y z) h i
  comes_after_cotrans counts desc k x y z h i =
      above_cotrans _ (sort_val c counts desc y k) _ (sort_val-Alike counts desc k z y)
        (sort_val-Alike counts desc k y x) i h

  abbrev pub rows : List (String × ℕ) → Dir → Key → List Device → List Device
  rows counts dir k devs = table_rows c counts dir (some k) devs

  rows-IsSorted :
      (counts : List (String × ℕ)) (dir : Dir) (k : Key) (devs : List Device)
      → IsSorted (comes_after c counts dir k) (rows counts dir k devs)
  unfolding table_rows
  rows-IsSorted counts dir k devs =
      sort-IsSorted (comes_after c counts dir k) (comes_after_asym counts dir k)
        (comes_after_cotrans counts dir k) devs

-- A list sorted by one test is sorted by each test that is said less often.
module _ {ℓ} {A : Type ℓ} {p q : A → A → Bool}
    (le : (x y : A) → p x y ≡ false → q x y ≡ false) where
  All-less : (x : A) (ys : List A) → All (λ y. p x y ≡ false) ys → All (λ y. q x y ≡ false) ys
  All-less x [] h = tt
  All-less x (y ∷ ys) h = (le x y h.0, All-less x ys h.1)

  IsSorted-less : (xs : List A) → IsSorted p xs → IsSorted q xs
  IsSorted-less [] h = tt
  IsSorted-less (x ∷ xs) h = (All-less x xs h.0, IsSorted-less xs h.1)

-- The signal that a row is sorted by; one that is not known is below every real one.
abbrev signal : Device → ℤ
signal d = int_or (neg 999) d.rssi

abbrev pub weaker : Device → Device → Bool
weaker x y = ltb_ℤ (signal x) (signal y)

abbrev pub stronger : Device → Device → Bool
stronger x y = ltb_ℤ (signal y) (signal x)

-- Is the room one that the collation puts behind the empty text and before the highest character?
abbrev pub is_room : Collation → String → Bool
is_room c room =
    not (str_eq room "") && (c.greater (c.lower room) "" && c.greater last_char (c.lower room))

abbrev pub roomless : Collation → Device → Device → Bool
roomless c x y = str_eq x.ha_area "" && is_room c y.ha_area

and_sound : (a b : Bool) → (a && b) ≡ true → (a ≡ true) × (b ≡ true)
and_sound a b h = ground arith

is_false : (b : Bool) → not b ≡ true → b ≡ false
is_false b h = ground arith

module _ (c : Collation) (counts : List (String × ℕ)) where
  weaker_desc : (x y : Device) → comes_after c counts desc rssi x y ≡ false → weaker x y ≡ false
  unfolding comes_after sort_val above
  weaker_desc x y h = h

  stronger_asc : (x y : Device) → comes_after c counts asc rssi x y ≡ false → stronger x y ≡ false
  unfolding comes_after sort_val above
  stronger_asc x y h = h

  roomless_after :
      (dir : Dir) (x y : Device)
      → str_eq x.ha_area "" ≡ true
      → is_room c y.ha_area ≡ true
      → comes_after c counts dir area x y ≡ true
  unfolding comes_after sort_val above
  roomless_after asc x y hx hy =
      let (named, room) = and_sound _ _ hy in
      rw (hx, is_false (str_eq y.ha_area "") named) (and_sound _ _ room).1
  roomless_after desc x y hx hy =
      let (named, room) = and_sound _ _ hy in
      rw (hx, is_false (str_eq y.ha_area "") named) (and_sound _ _ room).0

  roomless_last :
      (dir : Dir) (x y : Device)
      → comes_after c counts dir area x y ≡ false
      → roomless c x y ≡ false
  roomless_last dir x y h = elim (Bool-cases (roomless c x y)) [
    | inr e ↦ e
    | inl e ↦
        let (hx, hy) = and_sound _ _ e in absurd (false≢true (sym h ∙ roomless_after dir x y hx hy))
  ]

  -- The rows are the scan's devices, each as often. Sorted by the signal, no row is weaker than a
  -- later one when descending, and none stronger when ascending, a missing signal being -999. Sorted
  -- by the area, in either direction, no device without one stands before a device whose area the
  -- collation puts behind the empty text and before the highest character.
  pub table_rows-IsSorted :
      (dir : Dir) (k : Key) (devs : List Device)
      → Perm (rows c counts dir k devs) devs
        × IsSorted weaker (rows c counts desc rssi devs)
        × IsSorted stronger (rows c counts asc rssi devs)
        × IsSorted (roomless c) (rows c counts dir area devs)
  unfolding table_rows
  table_rows-IsSorted dir k devs = (
    sort-perm (comes_after c counts dir k) devs,
    IsSorted-less weaker_desc _ (rows-IsSorted c counts desc rssi devs),
    IsSorted-less stronger_asc _ (rows-IsSorted c counts asc rssi devs),
    IsSorted-less (roomless_last dir) _ (rows-IsSorted c counts dir area devs),
  )

-- A click on a column's header sorts by it, numbers of signal first and all else ascending; a second
-- click turns the direction round, and a third turns it back.
pub sort_by_twice :
    (k : Key) (dir : Dir)
    → (sort_by k (none, dir) ≡ (some k, first_dir k))
      × ((j : Key) → j ≢ k → sort_by k (some j, dir) ≡ (some k, first_dir k))
      × (sort_by k (some k, dir) ≡ (some k, flip dir))
      × (sort_by k (sort_by k (some k, dir)) ≡ (some k, dir))
unfolding sort_by
sort_by_twice k dir =
    (refl, λ j ne. other (Key-discrete j k) ne, same, ap (sort_by k) same ∙ back dir)
  where
    other : {j : Key} (d : Dec (j ≡ k)) → j ≢ k → resorted d dir ≡ (some k, first_dir k)
    other (yes e) ne = absurd (ne e)
    other (no e) ne = refl

    turned : (d : Dec (k ≡ k)) (e : Dir) → resorted d e ≡ (some k, flip e)
    turned (yes e) f = refl
    turned (no n) f = absurd (n refl)

    same : sort_by k (some k, dir) ≡ (some k, flip dir)
    same = turned (Key-discrete k k) dir

    back : (e : Dir) → sort_by k (some k, flip e) ≡ (some k, e)
    back asc = turned (Key-discrete k k) desc
    back desc = turned (Key-discrete k k) asc
