-- ===== src/Store/Tests.antt =====
-- Snapshots of one thermometer.
use ha_telink_manager.Prelude.{some, [], ◌∷◌, List, length, ◌≤◌, ◌≡◌, refl, arith}
use ha_telink_manager.Store.{Snapshot, seen_again, save_snapshot}
use ha_telink_manager.Store.Newest.{IsNewest, save_snapshot-IsNewest}

abbrev first : Snapshot
first = record {
  id = "1-aa";
  kind = "thermometer";
  raw = 97 ∷ 55 ∷ [];
  device_name = "ATC_000001";
  comfort = "null";
  bind_key = "";
  sensor = "null";
  ext_mac = "";
  ext_bind_key = "";
  last_seen = 1750000000;
}

abbrev renamed : Snapshot
renamed = record first { id = "2-bb"; device_name = "Attic" }

abbrev kept : List Snapshot
kept = record renamed { last_seen = 1760000000 } ∷ []

saved_lem : save_snapshot 1 1760000000 renamed (first ∷ []) ≡ some kept
unfolding save_snapshot
saved_lem = refl

save_snapshot-IsNewest_example :
    IsNewest renamed 1760000000 kept
    × (length kept ≤ 1)
    × (save_snapshot 1 1760000500 renamed kept ≡ some (seen_again 1760000500 kept))
save_snapshot-IsNewest_example =
    save_snapshot-IsNewest 1 1760000000 1760000500 renamed (first ∷ []) (omega arith) (omega arith)
      saved_lem
