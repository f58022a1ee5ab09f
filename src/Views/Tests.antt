-- ===== src/Views/Tests.antt =====
-- A repeater whose interval does not match its source, and whose identity was not read.
use ha_telink_manager.Prelude.{true, false, not, ◌&&◌, ◌||◌, some, [], ◌∷◌, any, codes, ◌≡◌, refl}
use ha_telink_manager.Views.{Blethr, is_empty, is_false, notices, judge_interval}
use ha_telink_manager.Views.Gaps.{
  says_no_source, says_scanning_off, says_lost, claims_no_source, claims_scanning_off, notices_lem,
}

abbrev repeater : Blethr
repeater = record {
  ext_mac = codes "A4:C1:38:00:00:01";
  read_gaps = codes "its firmware and hardware identity" ∷ [];
  scanning = some true;
  scan_interval_ms = some 5000;
  source_adv_interval_ms = 2950;
  source_interval_ok = some false;
  source_interval_unusable = false;
  limits = some (3000, 10000);
}

notices_lem_example :
    (any says_no_source (notices repeater) ≡ claims_no_source repeater)
    × (any says_scanning_off (notices repeater) ≡ claims_scanning_off repeater)
    × (any says_lost (notices repeater) ≡ (
        not (is_empty repeater.read_gaps)
        && (claims_no_source repeater
            || claims_scanning_off repeater
            || not (is_false repeater.source_interval_ok))))
notices_lem_example = notices_lem repeater

lost_hidden : any says_lost (notices repeater) ≡ false
unfolding notices
lost_hidden = refl

followable : (judge_interval (3000, 10000) 2950 5000).unusable ≡ false
unfolding judge_interval
followable = refl
