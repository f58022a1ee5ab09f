-- ===== src/Compare/Union.antt =====
-- Which devices the matrix has.
use ha_telink_manager.Prelude.{
  Bool, true, false, not, ◌&&◌, ◌||◌, List, [], ◌∷◌, String, if◌then◌else◌, str_eq, eq_iff, has,
  any, inl, inr, ◌≡◌, refl, arith, Bool-cases, add, delete, has-add, has-delete,
}
use ha_telink_manager.Device.{Device}
use ha_telink_manager.Compare.{
  Stored, Row, put, row_of, filled, scanned_row, put_scanned, put_stored, union, select_all,
}

abbrev pub has_row : String → List Row → Bool
has_row m rows = any (λ (r : Row). str_eq r.mac m) rows

-- Has every device at most one row?
abbrev pub once : List Row → Bool
once [] = true
once (r ∷ rows) = not (has_row r.mac rows) && once rows

has_row-put :
    (m : String) (r : Row) (rows : List Row)
    → has_row m (put r rows) ≡ (str_eq r.mac m || has_row m rows)
unfolding put
has_row-put m r [] = refl
has_row-put m r (q ∷ rows) =
    ground (arith, eq_iff q.mac r.mac, eq_iff q.mac m, eq_iff r.mac m, has_row-put m r rows)

once-put : (r : Row) (rows : List Row) → once rows ≡ true → once (put r rows) ≡ true
unfolding put
once-put r [] h = refl
once-put r (q ∷ rows) h = elim (Bool-cases (str_eq q.mac r.mac)) [
  | inl e ↦ rw (e, ← ((eq_iff q.mac r.mac).0 e)) h
  | inr e ↦
      rw (e, has_row-put q.mac r rows)
        (kept (str_eq r.mac q.mac) _ _ _ (ground (arith, eq_iff q.mac r.mac, eq_iff r.mac q.mac))
          (once-put r rows) h)
]
  where
    kept :
        (a b c d : Bool)
        → a ≡ false
        → (c ≡ true → d ≡ true)
        → (not b && c) ≡ true
        → (not (a || b) && d) ≡ true
    kept a b c d e f h = ground arith

filled-mac : (c : Stored) (m : String) (rows : List Row) → (filled c (row_of m rows)).mac ≡ m
filled-mac c m [] = refl
filled-mac c m (q ∷ rows) = ground (arith, eq_iff q.mac m, filled-mac c m rows)

has_row-put_scanned :
    (m : String) (names : List (String × String)) (devs : List Device) (rows : List Row)
    → has_row m (put_scanned names devs rows)
      ≡ (has_row m rows || any (λ (d : Device). str_eq d.mac m) devs)
unfolding put_scanned
has_row-put_scanned m names [] rows = ground arith
has_row-put_scanned m names (d ∷ devs) rows = ground (
  arith,
  has_row-put_scanned m names devs (put (scanned_row names d) rows),
  has_row-put m (scanned_row names d) rows,
)

has_row-put_stored :
    (m : String) (cmp : List Stored) (rows : List Row)
    → has_row m (put_stored cmp rows) ≡ (has_row m rows || any (λ (c : Stored). str_eq c.mac m) cmp)
unfolding put_stored
has_row-put_stored m [] rows = ground arith
has_row-put_stored m (c ∷ cmp) rows =
    let r = filled c (row_of c.mac rows) in
    rw (has_row-put_stored m cmp (put r rows), has_row-put m r rows, filled-mac c c.mac rows)
      (swap (str_eq c.mac m) (has_row m rows) _)
  where
    swap : (a b c : Bool) → ((a || b) || c) ≡ (b || (a || c))
    swap a b c = ground arith

once-put_scanned :
    (names : List (String × String)) (devs : List Device) (rows : List Row)
    → once rows ≡ true
    → once (put_scanned names devs rows) ≡ true
unfolding put_scanned
once-put_scanned names [] rows h = h
once-put_scanned names (d ∷ devs) rows h =
    once-put_scanned names devs _ (once-put (scanned_row names d) rows h)

once-put_stored :
    (cmp : List Stored) (rows : List Row) → once rows ≡ true → once (put_stored cmp rows) ≡ true
unfolding put_stored
once-put_stored [] rows h = h
once-put_stored (c ∷ cmp) rows h =
    once-put_stored cmp _ (once-put (filled c (row_of c.mac rows)) rows h)

-- The matrix has a row for exactly the devices that were scanned or have snapshots, and one for each.
pub union_lem :
    (names : List (String × String)) (devs : List Device) (cmp : List Stored)
    → (once (union names devs cmp) ≡ true)
      × ((m : String)
          → has_row m (union names devs cmp) ≡ (
              any (λ (d : Device). str_eq d.mac m) devs
              || any (λ (c : Stored). str_eq c.mac m) cmp))
unfolding union
union_lem names devs cmp = (
  once-put_stored cmp _ (once-put_scanned names devs [] refl),
  λ m.
      rw (has_row-put_stored m cmp (put_scanned names devs []), has_row-put_scanned m names devs [])
        refl,
)

-- The checkbox over all rows selects the devices of the shown rows, or takes them out, and leaves
-- every other device as it was.
pub has-select_all :
    (checked : Bool) (rows : List Row) (sel : List String) (m : String)
    → str_eq m "" ≡ false
    → has m (select_all checked rows sel) ≡ (if has_row m rows then checked else has m sel)
unfolding select_all
has-select_all checked [] sel m h = refl
has-select_all checked (r ∷ rows) sel m h =
    rw (has-select_all checked rows _ m h, one_box checked r.mac)
      (both (str_eq r.mac m) (has_row m rows) checked (has m sel))
  where
    one_box :
        (b : Bool) (i : String)
        → has m (if b then (if str_eq i "" then sel else add i sel) else delete i sel)
          ≡ (if str_eq i m then b else has m sel)
    one_box true i = ground (arith, eq_iff i m, eq_iff i "", eq_iff m "", has-add i m sel)
    one_box false i = has-delete i m sel

    both : (a b c d : Bool) → (if b then c else (if a then c else d)) ≡ (if a || b then c else d)
    both a b c d = ground arith
