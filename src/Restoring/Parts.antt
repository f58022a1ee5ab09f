-- ===== src/Restoring/Parts.antt =====
-- The parts of a restore: what is sent for each and how its answer is judged (custom_components/
-- telink_manager/gatt.py: `async_restore`).
use ha_telink_manager.Prelude.{
  ℕ, zero, suc, ◌==◌, ◌&&◌, leb, Bool, true, false, List, [], ◌∷◌, length, text_eq,
}

pub data Part : Type 0 where
  config device_name comfort bind_key sensor : Part

-- A part with whether it went well.
abbrev pub Done : Type 0
Done = Part × Bool

-- Python's `encode`, and `decode` without zeros and the space around it.
pub record Names : Type 0 where
  pub encode : List ℕ → List ℕ
  pub decode : List ℕ → List ℕ

abbrev take {ℓ} : {A : Type ℓ} → ℕ → List A → List A
take zero xs = []
take (suc n) [] = []
take (suc n) (x ∷ xs) = x ∷ take n xs

abbrev pub starts_with : ℕ → List ℕ → Bool
starts_with code [] = false
starts_with code (c ∷ bs) = c == code

-- The bytes that are sent for a value, which is the text itself for a name.
abbrev pub payload_of : Names → Part → List ℕ → List ℕ
payload_of names device_name [] = 0 ∷ []
payload_of names device_name (c ∷ cs) = take 20 (names.encode (c ∷ cs))
payload_of names p value = value

abbrev pub is_name : Names → List ℕ → List ℕ → Bool
is_name names value [] = false
is_name names value (code ∷ []) = false
is_name names value (code ∷ b ∷ bs) = text_eq (names.decode (b ∷ bs)) value

-- How an answer is judged.
abbrev pub went_well : Names → Part → List ℕ → List ℕ → Bool
went_well names device_name [] raw = true
went_well names device_name (c ∷ cs) raw = is_name names (c ∷ cs) raw
went_well names comfort value raw = leb 9 (length raw) && starts_with 0x20 raw
went_well names bind_key value raw = starts_with 0x18 raw
went_well names sensor value raw = starts_with 0x25 raw
went_well names config value raw = false

abbrev pub code_of : Part → ℕ
code_of config = 0x55
code_of device_name = 0x01
code_of comfort = 0x20
code_of bind_key = 0x18
code_of sensor = 0x25
