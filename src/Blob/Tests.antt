-- ===== src/Blob/Tests.antt =====
-- A block as a read returns it, and the block that saving the sample form writes.
use ha_telink_manager.Prelude.{true, false, none, some, [], ◌≡◌, ◌↔◌, refl, arith}
use ha_telink_manager.Samples.{form}
use ha_telink_manager.Editor.{collect_changes}
use ha_telink_manager.Editor.Apply.{wanted}
use ha_telink_manager.Blob.{Blob, Changes, layout_of, parse, build, put_flags, put_flags2}
use ha_telink_manager.Blob.Build.{IsBlob, bytes, requested_all, parse-build}
use ha_telink_manager.Blob.Refused.{in_range, build-refused}
use ha_telink_manager.Blob.Panel.{dict, no_changes, save-parse}

abbrev blob : Blob
blob = record {
  flg = 167;
  flg2 = 24;
  byte2 = 64;
  byte3 = 5;
  adv_interval = 40;
  measure_interval = 4;
  rf_tx_power = 191;
  connect_latency = 49;
  lcd_refresh = 49;
  hw_ver = 3;
  averaging = 180;
  tail = [];
}

abbrev saved : Blob
saved = record blob { flg = 183; adv_interval = 80 }

blob-IsBlob : IsBlob blob
blob-IsBlob = bytes (omega arith) (omega arith) (omega arith)

abbrev quiet : Changes
quiet = record no_changes { smiley = some 5; tx_measures = some true; adv_delay_raw = some 9 }

abbrev quieted : Blob
quieted = record blob { flg = 231; flg2 = 29; byte2 = 73 }

quieted_lem : build 0x56 quiet blob ≡ some quieted
unfolding build layout_of put_flags put_flags2
quieted_lem = refl

parse-build_example : parse 0x56 quieted ≡ requested_all quiet (parse 0x56 blob)
parse-build_example = parse-build 0x56 quiet blob blob-IsBlob quieted_lem

build-refused_example :
    (build 0x56 (record quiet { adv_delay_raw = some 16 }) blob ≡ none)
    ↔ (in_range (layout_of 0x56) (record quiet { adv_delay_raw = some 16 }) ≡ false)
build-refused_example = build-refused 0x56 (record quiet { adv_delay_raw = some 16 }) blob

saved_lem :
    build 0x56 (dict (collect_changes form (parse 0x56 blob).config) no_changes) blob ≡ some saved
unfolding build parse layout_of put_flags put_flags2 collect_changes
saved_lem = refl

save-parse_example :
    parse 0x56 saved ≡ record (parse 0x56 blob) { config = wanted form (parse 0x56 blob).config }
unfolding layout_of
save-parse_example = save-parse 0x56 form blob blob-IsBlob refl refl saved_lem
