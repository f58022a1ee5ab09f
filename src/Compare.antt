-- ===== src/Compare.antt =====
-- The matrix of devices or of snapshots (custom_components/telink_manager/www/telink-manager-panel.js):
-- `_openCompareModal`, `_recomputeCompare`, the choices of `_renderCompare`, and `_exportCompareCsv`.
-- The getters of the columns are data of the matrix; texts are lists of code points.
pub mod Union
pub mod Columns
pub mod Csv
pub mod Settings
pub mod Seen
pub mod Rescan
mod Tests
use ha_telink_manager.Prelude.{
  ℕ, ◌+◌, ◌*◌, ◌%◌, ◌==◌, leb, ltb, ℤ, Bool, true, false, not, ◌&&◌, ◌||◌, Option, none, some, List,
  [], ◌∷◌, ◌++◌, String, if◌then◌else◌, str_eq, has, add, delete, lookup, filter, map, length, any,
  all, text_eq, codes,
}
use ha_telink_manager.Html.{Text}
use ha_telink_manager.Device.{Device}
use ha_telink_manager.Table.{or_text}

-- What the backend tells of a device with snapshots; of what a row copies from it unchanged, the
-- comfort thresholds and the settings are left out.
pub record Stored : Type 0 where
  pub mac : String
  pub friendly_name : String
  pub device_name : String
  pub fw : String
  pub last_ts : ℕ
  pub bind_key_set : Bool

-- A row; `stored` has what is copied from the snapshots.
pub record Row : Type 0 where
  pub mac : String
  pub friendly : String
  pub ble : String
  pub route : String
  pub rssi : Option ℤ
  pub stored : Option Stored

-- `byMac[row.mac] = row`: a MAC address that is there keeps its place.
unfoldable pub put : Row → List Row → List Row
put r [] = r ∷ []
put r (q ∷ rows) = let rest = put r rows in if str_eq q.mac r.mac then r ∷ rows else q ∷ rest

abbrev name_in : List (String × String) → String → String
name_in names mac = elim (lookup mac names) [ none ↦ "" | some s ↦ s ]

abbrev pub scanned_row : List (String × String) → Device → Row
scanned_row names d = record {
  mac = d.mac;
  friendly = or_text (name_in names d.mac) d.friend_name;
  ble = d.name;
  route = d.proxy;
  rssi = d.rssi;
  stored = none;
}

abbrev pub bare_row : String → Row
bare_row m = record { mac = m; friendly = ""; ble = ""; route = ""; rssi = none; stored = none }

abbrev pub row_of : String → List Row → Row
row_of m [] = bare_row m
row_of m (q ∷ rows) = if str_eq q.mac m then q else row_of m rows

abbrev pub filled : Stored → Row → Row
filled c r = record r {
  friendly = or_text r.friendly c.friendly_name;
  ble = or_text r.ble c.device_name;
  stored = some c;
}

unfoldable pub put_scanned : List (String × String) → List Device → List Row → List Row
unfolding put
put_scanned names [] rows = rows
put_scanned names (d ∷ devs) rows = put_scanned names devs (put (scanned_row names d) rows)

unfoldable pub put_stored : List Stored → List Row → List Row
unfolding put
put_stored [] rows = rows
put_stored (c ∷ cmp) rows = put_stored cmp (put (filled c (row_of c.mac rows)) rows)

-- The rows of the matrix of devices.
unfoldable pub union : List (String × String) → List Device → List Stored → List Row
unfolding put_scanned put_stored
union names devs cmp = put_stored cmp (put_scanned names devs [])

-- A column: whether it is compared, and its value in a row, empty where there is none.
pub record Column {ℓ} (A : Type ℓ) : Type ℓ where
  pub label : Text
  pub cmp : Bool
  pub get : A → Text

abbrev is_empty : Text → Bool
is_empty [] = true
is_empty (c ∷ s) = false

module _ {ℓ} {A : Type ℓ} where
  -- `vals` of `_recomputeCompare`.
  abbrev pub values : Column A → List A → List Text
  values c rows = filter (λ (s : Text). not (is_empty s)) (map c.get rows)

-- `[...new Set(vals)]`: the first of each value.
abbrev pub among : Text → List Text → Bool
among s vals = any (λ v. text_eq v s) vals

unfoldable pub add_new : List Text → List Text → List Text
add_new seen [] = seen
add_new seen (v ∷ vals) = add_new (if among v seen then seen else seen ++ (v ∷ [])) vals

abbrev pub distinct : List Text → List Text
distinct vals = add_new [] vals

module _ {ℓ} {A : Type ℓ} where
  -- `_distinct` and `_uniform`.
  abbrev pub distinct_of : Column A → List A → List Text
  distinct_of c rows = distinct (values c rows)

  unfoldable pub is_uniform : Column A → List A → Bool
  unfolding add_new
  is_uniform c rows = leb (length (distinct_of c rows)) 1

  -- "Only differing columns".
  unfoldable pub visible : Bool → List A → List (Column A) → List (Column A)
  unfolding is_uniform
  visible only_diff rows cols =
      filter (λ (c : Column A). not only_diff || (not c.cmp || not (is_uniform c rows))) cols

-- `indexOf`, of a value that is there, and the hue of its cells.
unfoldable pub index_of : Text → List Text → ℕ
index_of s [] = 0
index_of s (v ∷ vals) = let rest = index_of s vals in if text_eq v s then 0 else rest + 1

unfoldable pub hue : List Text → Text → ℕ
unfolding index_of
hue vals s = index_of s vals * 67 % 360

-- The rows that are shown, and the checkbox over all of them.
unfoldable pub shown_rows : Bool → List String → List Row → List Row
shown_rows only_sel sel rows = filter (λ (r : Row). not only_sel || has r.mac sel) rows

unfoldable pub select_all : Bool → List Row → List String → List String
select_all checked [] sel = sel
select_all checked (r ∷ rows) sel =
    select_all checked rows
      (if checked then (if str_eq r.mac "" then sel else add r.mac sel) else delete r.mac sel)

-- `esc` of `_exportCompareCsv`, and the lines.
abbrev pub quote : ℕ
quote = b'"'

unfoldable pub doubled : Text → Text
doubled [] = []
doubled (c ∷ s) = let rest = doubled s in if c == quote then quote ∷ quote ∷ rest else c ∷ rest

abbrev pub esc : Text → Text
esc s = quote ∷ (doubled s ++ (quote ∷ []))

unfoldable pub join : Text → List Text → Text
join sep [] = []
join sep (s ∷ []) = s
join sep (s ∷ t ∷ ss) = s ++ (sep ++ join sep (t ∷ ss))

abbrev pub csv_line : List Text → Text
csv_line fields = join (b',' ∷ []) (map esc fields)

abbrev pub csv_lines : List (List Text) → Text
csv_lines table = join (13 ∷ 10 ∷ []) (map csv_line table)

abbrev pub cells {ℓ} : {A : Type ℓ} → List (Column A) → List A → List (List Text)
cells cols rows = map (λ r. map (λ c. c.get r) cols) rows

-- The file, with its byte order mark.
unfoldable pub export_csv {ℓ} : {A : Type ℓ} → List (Column A) → List A → Text
unfolding doubled join
export_csv cols rows = 0xfeff ∷ csv_lines (map (λ c. c.label) cols ∷ cells cols rows)
