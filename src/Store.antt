-- ===== src/Store.antt =====
-- The snapshots of one device in the backend's store (custom_components/telink_manager/backups.py:
-- `_state_sig`, `async_save`, `async_delete`). The parts of a snapshot's state other than the
-- configuration block are the JSON texts that `_state_sig` makes of them. Writing the store to the disk is
-- left out.
pub mod Newest
pub mod Signature
mod Tests
use ha_telink_manager.Prelude.{
  ℕ, zero, suc, ◌+◌, ◌-◌, ltb, leb, Bool, true, false, not, ◌&&◌, Option, none, some, List, [], ◌∷◌,
  ◌++◌, String, if◌then◌else◌, str_eq, text_eq, length, filter,
}
use ha_telink_manager.Html.{Text}

pub record Snapshot : Type 0 where
  pub id : String
  pub kind : String
  pub raw : Text
  pub device_name : String
  pub comfort : String
  pub bind_key : String
  pub sensor : String
  pub ext_mac : String
  pub ext_bind_key : String
  pub last_seen : ℕ

-- `s[:n]` and `s[n:]`.
unfoldable pub take {ℓ} : {A : Type ℓ} → ℕ → List A → List A
take zero s = []
take (suc n) [] = []
take (suc n) (c ∷ s) = c ∷ take n s

unfoldable pub drop {ℓ} : {A : Type ℓ} → ℕ → List A → List A
drop zero s = s
drop (suc n) [] = []
drop (suc n) (c ∷ s) = drop n s

-- `raw_norm`: the two digits of the hardware version are cut out.
unfoldable pub raw_norm : Text → Text
unfolding take drop
raw_norm raw = if leb 22 (length raw) then take 18 raw ++ drop 20 raw else raw

-- `_state_sig(a) == _state_sig(b)`.
unfoldable pub same_state : Snapshot → Snapshot → Bool
unfolding raw_norm
same_state a b =
    text_eq (raw_norm a.raw) (raw_norm b.raw)
    && (str_eq a.kind b.kind
        && (str_eq a.device_name b.device_name
            && (str_eq a.comfort b.comfort
                && (str_eq a.bind_key b.bind_key
                    && (str_eq a.sensor b.sensor
                        && (str_eq a.ext_mac b.ext_mac && str_eq a.ext_bind_key b.ext_bind_key))))))

-- `lst[-1]`.
unfoldable pub last : List Snapshot → Option Snapshot
last [] = none
last (s ∷ []) = some s
last (s ∷ t ∷ lst) = last (t ∷ lst)

abbrev pub is_known : Snapshot → Option Snapshot → Bool
is_known snap none = false
is_known snap (some s) = same_state s snap

-- `lst[-1]["last_seen"] = now`.
unfoldable pub seen_again : ℕ → List Snapshot → List Snapshot
seen_again now [] = []
seen_again now (s ∷ []) = record s { last_seen = now } ∷ []
seen_again now (s ∷ t ∷ lst) = s ∷ seen_again now (t ∷ lst)

-- `del lst[0 : len(lst) - BACKUP_LIMIT]`.
unfoldable pub trimmed : ℕ → List Snapshot → List Snapshot
unfolding drop
trimmed limit lst = if ltb limit (length lst) then drop (length lst - limit) lst else lst

abbrev pub stored : ℕ → ℕ → Snapshot → List Snapshot → List Snapshot
stored limit now snap lst =
    if is_known snap (last lst)
    then seen_again now lst
    else trimmed limit (lst ++ (record snap { last_seen = now } ∷ []))

-- `async_save`; `none` is a snapshot that is refused as incomplete.
unfoldable pub save_snapshot : ℕ → ℕ → Snapshot → List Snapshot → Option (List Snapshot)
unfolding same_state last seen_again trimmed
save_snapshot limit now snap lst = elim snap.raw [
  | [] ↦ none
  | c ∷ raw ↦ some (stored limit now snap lst)
]

-- `async_delete`.
unfoldable pub delete_snapshot : String → List Snapshot → List Snapshot
delete_snapshot id lst = filter (λ (s : Snapshot). not (str_eq s.id id)) lst
