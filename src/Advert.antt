-- ===== src/Advert.antt =====
-- What a device advertises (custom_components/telink_manager/adv.py: `bthome_objects`,
-- `packet_id_from_adv`, `is_relaying`, and the loop of `battery_from_adv`). The payload is the list of its
-- bytes, empty if there is none; voltages are millivolts.
pub mod Stale
pub mod Walk
mod Tests
use ha_telink_manager.Prelude.{
  ℕ, zero, suc, ◌+◌, ◌*◌, ◌==◌, Bool, true, false, ◌||◌, Option, none, some, List, [], ◌∷◌, length,
  if◌then◌else◌,
}
use ha_telink_manager.Blob.{bit}

-- An object's id and its bytes.
abbrev pub Object : Type 0
Object = ℕ × List ℕ

-- `BTHOME_LEN`.
abbrev pub bthome_len : List (ℕ × ℕ)
bthome_len =
    (0x00, 1)
    ∷ (0x01, 1)
    ∷ (0x02, 2)
    ∷ (0x03, 2)
    ∷ (0x04, 3)
    ∷ (0x05, 3)
    ∷ (0x06, 2)
    ∷ (0x07, 2)
    ∷ (0x08, 2)
    ∷ (0x09, 1)
    ∷ (0x0A, 3)
    ∷ (0x0B, 3)
    ∷ (0x0C, 2)
    ∷ (0x0D, 2)
    ∷ (0x0E, 2)
    ∷ (0x0F, 1)
    ∷ (0x10, 1)
    ∷ (0x11, 1)
    ∷ (0x12, 2)
    ∷ (0x13, 2)
    ∷ (0x14, 2)
    ∷ (0x2E, 1)
    ∷ (0x2F, 1)
    ∷ (0x3A, 1)
    ∷ (0x3D, 2)
    ∷ (0x3E, 4)
    ∷ (0x3F, 2)
    ∷ []

abbrev pub find_len : ℕ → List (ℕ × ℕ) → Option ℕ
find_len id [] = none
find_len id ((other, size) ∷ rest) =
    let below = find_len id rest in if other == id then some size else below

-- `BTHOME_LEN.get(id)`.
unfoldable pub len_of : ℕ → Option ℕ
len_of id = find_len id bthome_len

abbrev pub push : ℕ → Option (List ℕ × List ℕ) → Option (List ℕ × List ℕ)
push c none = none
push c (some (val, rest)) = some (c ∷ val, rest)

-- The first `size` bytes and those behind them; `none` if there are fewer.
unfoldable pub cut : ℕ → List ℕ → Option (List ℕ × List ℕ)
cut zero raw = some ([], raw)
cut (suc size) [] = none
cut (suc size) (c ∷ raw) = push c (cut size raw)

abbrev pub sized : Option ℕ → List ℕ → Option (List ℕ × List ℕ)
sized none raw = none
sized (some size) raw = cut size raw

-- The loop, of at most `fuel` rounds.
unfoldable pub walk : ℕ → List ℕ → List Object
walk zero raw = []
walk (suc fuel) [] = []
walk (suc fuel) (id ∷ raw) = elim (sized (len_of id) raw) [
  | none ↦ []
  | some p ↦ (id, p.0) ∷ walk fuel p.1
]

-- `bthome_objects`: a payload whose info byte has the bit 0 is encrypted.
unfoldable pub bthome_objects : List ℕ → List Object
bthome_objects [] = []
bthome_objects (info ∷ raw) = if bit 0 info then [] else walk (length raw) raw

-- Numbers of bytes, the least first.
abbrev pub little : List ℕ → ℕ
little [] = 0
little (b ∷ bs) = b + 256 * little bs

abbrev pub head_of : List ℕ → Option ℕ
head_of [] = none
head_of (b ∷ bs) = some b

-- `packet_id_from_adv`, of the objects.
unfoldable pub packet_id : List Object → Option ℕ
packet_id [] = none
packet_id ((id, val) ∷ objects) =
    let rest = packet_id objects in if id == 0x00 then head_of val else rest

-- `is_relaying`, of the objects.
abbrev pub has_temperature : List Object → Bool
has_temperature [] = false
has_temperature ((id, val) ∷ objects) = (id == 0x02) || has_temperature objects

unfoldable pub is_relaying : List Object → Option Bool
is_relaying [] = none
is_relaying (o ∷ objects) = some (has_temperature (o ∷ objects))

pub record Charge : Type 0 where
  pub battery : Option ℕ
  pub battery_mv : Option ℕ

abbrev pub charge_step : Charge → Object → Charge
charge_step c (id, val) =
    if id == 0x01
    then record c { battery = head_of val }
    else if id == 0x0C
    then record c { battery_mv = some (little val) }
    else c

-- The loop of `battery_from_adv`: the last of each kind is kept.
unfoldable pub charge_from : Charge → List Object → Charge
charge_from c [] = c
charge_from c (o ∷ objects) = charge_from (charge_step c o) objects
