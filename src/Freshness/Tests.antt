-- ===== src/Freshness/Tests.antt =====
-- A repeater that was heard too long ago.
use ha_telink_manager.Prelude.{some, true}
use ha_telink_manager.Samples.{attic_device}
use ha_telink_manager.Device.{Device}

abbrev late : Device
late = record attic_device {
  blethr = true;
  relaying = some true;
  stale_s = some 700;
  stale_limit_s = some 600;
}
