-- ===== src/Coverage/Tests.antt =====
-- The matrix of a thermometer that only a passive proxy hears well.
use ha_telink_manager.Prelude.{neg, true, false, some, [], ◌∷◌}
use ha_telink_manager.Coverage.{Proxy, Heard, esphome}

abbrev hall : Proxy
hall = record {
  source = "hall";
  kind = esphome;
  connectable = true;
  activatable = false;
  scanning = some true;
  age = some 12;
  seen = 1;
}

abbrev attic : Proxy
attic = record {
  source = "attic";
  kind = esphome;
  connectable = false;
  activatable = true;
  scanning = some true;
  age = some 7;
  seen = 1;
}

abbrev thermometer : Heard
thermometer = record {
  mac = "A4:C1:38:00:00:01";
  rssi = ("hall", neg 90) ∷ ("attic", neg 60) ∷ [];
  best_active = some (neg 90);
}
