-- ===== src/Advert/Tests.antt =====
-- A packet with an id, a temperature and an object of unknown length, and a counter that stands still.
use ha_telink_manager.Prelude.{ℕ, true, some, List, [], ◌∷◌, String, lookup, ◌≡◌, ◌↔◌, refl}
use ha_telink_manager.Advert.{len_of, cut, walk, bthome_objects, is_relaying}
use ha_telink_manager.Advert.Walk.{IsObjects, bthome_objects_iff}
use ha_telink_manager.Advert.Stale.{
  Memory, Sighting, stale_seconds, remembered, stale_seconds-remembered,
}

abbrev packet : List ℕ
packet = 0x00 ∷ 7 ∷ 0x02 ∷ 0xC4 ∷ 0x09 ∷ 0xF0 ∷ 1 ∷ []

bthome_objects_iff_example :
    (bthome_objects (0x40 ∷ packet) ≡ (0x00, 7 ∷ []) ∷ (0x02, 0xC4 ∷ 0x09 ∷ []) ∷ [])
    ↔ IsObjects packet ((0x00, 7 ∷ []) ∷ (0x02, 0xC4 ∷ 0x09 ∷ []) ∷ [])
bthome_objects_iff_example =
    bthome_objects_iff 0x40 packet ((0x00, 7 ∷ []) ∷ (0x02, 0xC4 ∷ 0x09 ∷ []) ∷ []) refl

relayed : is_relaying (bthome_objects (0x40 ∷ packet)) ≡ some true
unfolding is_relaying bthome_objects walk len_of cut
relayed = refl

abbrev attic : String
attic = "A4:C1:38:00:00:01"

abbrev before : Memory
before = (attic, (6, 1000)) ∷ []

abbrev heard : List Sighting
heard =
    record { mac = "A4:C1:38:00:00:02"; packet_id = some 9; now = 1300 }
    ∷ record { mac = attic; packet_id = some 7; now = 1400 }
    ∷ []

stale_seconds-remembered_example :
    (stale_seconds
      (remembered before (record { mac = attic; packet_id = some 7; now = 1200 } ∷ heard))
      attic
      (some 7)
      1500).0
    ≡ some 300
unfolding lookup
stale_seconds-remembered_example = stale_seconds-remembered before attic 7 1200 1500 heard refl refl
