-- ===== src/Table/Tests.antt =====
-- The table under a small collation: the empty text first, the highest character last.
use ha_telink_manager.Prelude.{
  ℕ, neg, some, List, ltb, true, false, [], ◌∷◌, String, if◌then◌else◌, str_eq, ◌≡◌, arith,
}
use mathlib.Core.List.{Perm}
use ha_telink_manager.Samples.{attic_device}
use ha_telink_manager.Device.{Device}
use ha_telink_manager.Table.{Collation, asc, desc, rssi, area, last_char}
use ha_telink_manager.Table.Sort.{IsSorted}
use ha_telink_manager.Table.Order.{rows, weaker, stronger, roomless, table_rows-IsSorted}

abbrev rank : String → ℕ
rank s = if str_eq s "" then 0 else if str_eq s last_char then 2 else 1

asym : (i j : ℕ) → ltb j i ≡ true → ltb i j ≡ false
asym i j h = ground arith

cotrans : (i j k : ℕ) → ltb j i ≡ false → ltb k j ≡ false → ltb k i ≡ false
cotrans i j k h e = ground arith

abbrev by_rank : Collation
by_rank = record {
  lower = λ s. s;
  greater = λ a b. ltb (rank b) (rank a);
  greater_asym = λ a b h. asym (rank a) (rank b) h;
  greater_cotrans = λ a b c h k. cotrans (rank a) (rank b) (rank c) h k;
}

abbrev cellar_device : Device
cellar_device = record attic_device { mac = "A4:C1:38:00:00:02"; ha_area = "Cellar" }

abbrev homeless_device : Device
homeless_device = record attic_device {
  mac = "A4:C1:38:00:00:03";
  ha_area = "";
  rssi = some (neg 40);
}

abbrev devices : List Device
devices = homeless_device ∷ attic_device ∷ cellar_device ∷ []

table_rows-IsSorted_example :
    Perm (rows by_rank [] asc rssi devices) devices
    × IsSorted weaker (rows by_rank [] desc rssi devices)
    × IsSorted stronger (rows by_rank [] asc rssi devices)
    × IsSorted (roomless by_rank) (rows by_rank [] asc area devices)
table_rows-IsSorted_example = table_rows-IsSorted by_rank [] asc rssi devices
