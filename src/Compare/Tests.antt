-- ===== src/Compare/Tests.antt =====
-- The matrix on concrete rows.
use ha_telink_manager.Prelude.{
  Bool, false, arith, none, add, true, some, List, [], ◌∷◌, has, map, codes, ◌≡◌, refl,
}
use ha_telink_manager.Html.{Text}
use ha_telink_manager.Samples.{attic_device, config}
use ha_telink_manager.Device.{Device, Config}
use ha_telink_manager.Compare.{Stored, Column, cells, export_csv}
use ha_telink_manager.Compare.Settings.{Settings, row_cells}
use ha_telink_manager.Compare.Seen.{row_with, row_cells-same}
use ha_telink_manager.Compare.Rescan.{
  Matrix, rescan, rescanned, start, pressed, answered, IsMarked, Reach-IsMarked,
}
use ha_telink_manager.Compare.Csv.{read_csv, read_csv-export_csv}

abbrev note : Column Text
note = record { label = codes "A \"note\", or two"; cmp = true; get = λ s. s }

abbrev notes : List Text
notes = codes "say \"hi\"" ∷ codes "a,b\r\nc" ∷ []

read_csv-export_csv_example :
    read_csv (export_csv (note ∷ note ∷ []) notes)
    ≡ some (map (λ (k : Column Text). k.label) (note ∷ note ∷ []) ∷ cells (note ∷ note ∷ []) notes)
read_csv-export_csv_example = read_csv-export_csv note (note ∷ []) notes

abbrev backed_up : Stored
backed_up = record {
  mac = "A4:C1:38:00:00:02";
  friendly_name = "Cellar";
  device_name = "ATC_000002";
  fw = "4.9";
  last_ts = 1750000000;
  bind_key_set = true;
}

abbrev seen : Device
seen = attic_device

abbrev empty_matrix : Matrix
empty_matrix = record { rows = []; busy = []; pending = [] }

abbrev twice_pressed : Matrix
twice_pressed = rescan "A4:C1:38:00:00:02" (rescan "A4:C1:38:00:00:01" empty_matrix)

is_pending : has "A4:C1:38:00:00:01" twice_pressed.pending ≡ true
unfolding rescan has add
is_pending = refl

Reach-IsMarked_example : IsMarked (rescanned "A4:C1:38:00:00:01" 1760000000 none twice_pressed)
Reach-IsMarked_example = Reach-IsMarked (
    answered {m = twice_pressed} (pressed (pressed start "A4:C1:38:00:00:01") "A4:C1:38:00:00:02")
      "A4:C1:38:00:00:01" 1760000000 none is_pending)

abbrev stored_settings : Settings
stored_settings = record { config = none; comfort = none; bind_key_set = true }

-- Another advertising flag alone is not seen.
abbrev flagged : Config
flagged = record config { adv_flags = false }

row_cells-same_example :
    (config ≡ record flagged { adv_flags = config.adv_flags })
    × ((b : Bool)
        → row_cells (row_with stored_settings (record config { adv_flags = b }))
          ≡ row_cells (row_with stored_settings config))
row_cells-same_example =
    row_cells-same stored_settings stored_settings config flagged (omega arith) (omega arith) refl
