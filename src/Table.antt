-- ===== src/Table.antt =====
-- The order of the device table (custom_components/telink_manager/www/telink-manager-panel.js):
-- `_sortVal`, `_sortBy` and the sort of `_renderDevTable`. The browser's collation is a parameter.
pub mod Sort
pub mod Order
mod Tests
use ha_telink_manager.Prelude.{
  ℕ, ℤ, pos, neg, ltb_ℤ, Bool, true, false, Option, none, some, List, [], ◌∷◌, String,
  if◌then◌else◌, lookup, ◌≡◌, str_eq,
}
use ha_telink_manager.Device.{Device}
use ha_telink_manager.Battery.{BattInfo, batt_info}
use ha_telink_manager.Table.Sort.{sort}

-- `toLowerCase`, and whether `a.localeCompare(b)` is positive. The comparison is a total preorder.
pub record Collation : Type 0 where
  pub lower : String → String
  pub greater : String → String → Bool
  pub greater_asym : (a b : String) → greater a b ≡ true → greater b a ≡ false
  pub greater_cotrans :
      (a b c : String) → greater a b ≡ false → greater b c ≡ false → greater a c ≡ false

pub data Key : Type 0 where
  friendly name area mac rssi connectable proxy backup battery : Key

pub Key-discrete : Discrete Key
Key-discrete = hlevel

pub data Dir : Type 0 where
  asc desc : Dir

-- A value to sort by: the numbers are whole.
pub data SortVal : Type 0 where
  num : ℤ → SortVal
  text : String → SortVal

abbrev is_empty : String → Bool
is_empty s = str_eq s ""

-- `a || b` on texts.
abbrev pub or_text : String → String → String
or_text a b = if is_empty a then b else a

abbrev pct_or : Option BattInfo → ℤ
pct_or none = neg 1
pct_or (some b) = pos b.pct

abbrev pub int_or : ℤ → Option ℤ → ℤ
int_or z none = z
int_or z (some r) = r

abbrev count_or : Option ℕ → ℤ
count_or none = pos 0
count_or (some n) = pos n

-- The highest character, which sorts behind every room.
abbrev pub last_char : String
last_char = "\u{ffff}"

abbrev pub no_area : Dir → String
no_area asc = last_char
no_area desc = ""

module _ (c : Collation) where
  unfoldable pub sort_val : List (String × ℕ) → Dir → Device → Key → SortVal
  sort_val counts dir d friendly = text (c.lower (or_text d.friend_name d.ha_name))
  sort_val counts dir d name = text (c.lower d.name)
  sort_val counts dir d area = text (if is_empty d.ha_area then no_area dir else c.lower d.ha_area)
  sort_val counts dir d mac = text d.mac
  sort_val counts dir d rssi = num (int_or (neg 999) d.rssi)
  sort_val counts dir d connectable = num (if d.connectable then pos 1 else pos 0)
  sort_val counts dir d proxy = text (c.lower d.proxy)
  sort_val counts dir d backup = num (count_or (lookup d.mac counts))
  sort_val counts dir d battery = num (pct_or (batt_info d))

  -- Is the comparison of two values positive, when ascending? Values of one key are of one kind.
  unfoldable pub above : SortVal → SortVal → Bool
  above (num a) (num b) = ltb_ℤ b a
  above (text a) (text b) = c.greater a b
  above _ _ = false

  abbrev pub directed : Dir → SortVal → SortVal → Bool
  directed asc a b = above a b
  directed desc a b = above b a

  -- The comparator given to `sort`: is it positive?
  unfoldable pub comes_after : List (String × ℕ) → Dir → Key → Device → Device → Bool
  comes_after counts dir k a b = directed dir (sort_val counts dir a k) (sort_val counts dir b k)

  -- The rows of the table; without a column they keep the backend's order.
  unfoldable pub table_rows : List (String × ℕ) → Dir → Option Key → List Device → List Device
  table_rows counts dir none devs = devs
  table_rows counts dir (some k) devs = sort (comes_after counts dir k) devs

abbrev flip : Dir → Dir
flip asc = desc
flip desc = asc

-- `_sortBy`, on the column and the direction.
abbrev first_dir : Key → Dir
first_dir rssi = desc
first_dir connectable = desc
first_dir _ = asc

-- By whether the column is the one that the table is sorted by.
abbrev pub resorted : {j k : Key} → Dec (j ≡ k) → Dir → Option Key × Dir
resorted {k = k} (yes e) dir = (some k, flip dir)
resorted {k = k} (no e) dir = (some k, first_dir k)

unfoldable pub sort_by : Key → Option Key × Dir → Option Key × Dir
sort_by k (none, dir) = (some k, first_dir k)
sort_by k (some j, dir) = resorted (Key-discrete j k) dir
