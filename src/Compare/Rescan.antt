-- ===== src/Compare/Rescan.antt =====
-- Reading one device again from the matrix (custom_components/telink_manager/www/
-- telink-manager-panel.js: `_compareRescan`). The settings and the comfort thresholds that a row also
-- takes from the read are left out, as in `Row`.
use ha_telink_manager.Prelude.{
  ℕ, ◌+◌, ◌-◌, Bool, true, ◌||◌, Option, none, some, List, [], ◌∷◌, String, if◌then◌else◌, str_eq,
  has, add, delete, has-add, has-delete, eq_iff, ◌≡◌, refl, arith,
}
use ha_telink_manager.Table.{or_text}
use ha_telink_manager.Compare.{Row}

-- What the read tells.
pub record Fresh : Type 0 where
  pub fw_version : String
  pub has_key : Bool
  pub device_name : String

-- `_cmpRows` and `_cmpBusy`, with the reads that are under way.
pub record Matrix : Type 0 where
  pub rows : List Row
  pub busy : List String
  pub pending : List String

-- Up to the `await`.
unfoldable pub rescan : String → Matrix → Matrix
rescan mac m =
    if str_eq mac "" || has mac m.busy
    then m
    else record m { busy = add mac m.busy; pending = mac ∷ m.pending }

abbrev pub refreshed : ℕ → Fresh → Row → Row
refreshed now f r = record r {
  ble = or_text r.ble f.device_name;
  stored = some (record {
    mac = r.mac;
    friendly_name = r.friendly;
    device_name = or_text r.ble f.device_name;
    fw = f.fw_version;
    last_ts = now;
    bind_key_set = f.has_key;
  });
}

-- The first row with the MAC address.
unfoldable pub refresh_row : String → ℕ → Fresh → List Row → List Row
refresh_row mac now f [] = []
refresh_row mac now f (r ∷ rows) =
    let rest = refresh_row mac now f rows in
    if str_eq r.mac mac then refreshed now f r ∷ rows else r ∷ rest

abbrev pub answer_rows : String → ℕ → Option Fresh → List Row → List Row
answer_rows mac now none rows = rows
answer_rows mac now (some f) rows = refresh_row mac now f rows

-- One read less of a device.
unfoldable pub drop_one : String → List String → List String
drop_one mac [] = []
drop_one mac (p ∷ ps) = let rest = drop_one mac ps in if str_eq p mac then ps else p ∷ rest

-- The rest; `none` is a read that failed.
unfoldable pub rescanned : String → ℕ → Option Fresh → Matrix → Matrix
unfolding refresh_row drop_one
rescanned mac now f m = record {
  rows = answer_rows mac now f m.rows;
  busy = delete mac m.busy;
  pending = drop_one mac m.pending;
}

-- `_openCompareModal` keeps the set.
unfoldable pub reopened : List Row → Matrix → Matrix
reopened rows m = record m { rows = rows }

-- What can happen, from an empty matrix on: a press, the answer to a read that is under way, and the modal
-- opened again meanwhile.
pub data Reach : Matrix → Type 0 where
  start : Reach (record { rows = []; busy = []; pending = [] })
  pressed : {m : Matrix} → Reach m → (mac : String) → Reach (rescan mac m)
  answered :
      {m : Matrix}
      → Reach m
      → (mac : String) (now : ℕ) (f : Option Fresh) → has mac m.pending ≡ true
      → Reach (rescanned mac now f m)
  opened : {m : Matrix} → Reach m → (rows : List Row) → Reach (reopened rows m)

unfoldable pub reads_of : String → List String → ℕ
reads_of mac [] = 0
reads_of mac (p ∷ ps) = let rest = reads_of mac ps in if str_eq p mac then rest + 1 else rest

abbrev one_if : Bool → ℕ
one_if b = if b then 1 else 0

-- Each device is marked exactly if one read of it is under way, and never more than one is.
pub data IsMarked (m : Matrix) : Type 0 where
  marked : ((mac : String) → reads_of mac m.pending ≡ one_if (has mac m.busy)) → IsMarked m

reads_of-drop_one :
    (mac other : String) (ps : List String)
    → reads_of other (drop_one mac ps)
      ≡ (if str_eq mac other then reads_of other ps - 1 else reads_of other ps)
unfolding reads_of drop_one
reads_of-drop_one mac other [] = ground arith
reads_of-drop_one mac other (p ∷ ps) =
    ground (arith, eq_iff p mac, eq_iff p other, eq_iff mac other, reads_of-drop_one mac other ps)

rescan-IsMarked : (mac : String) (m : Matrix) → IsMarked m → IsMarked (rescan mac m)
unfolding rescan reads_of
rescan-IsMarked mac m (marked h) =
    marked (λ other. ground (arith, h other, has-add mac other m.busy, eq_iff mac other))

rescanned-IsMarked :
    (mac : String) (now : ℕ) (f : Option Fresh) (m : Matrix)
    → IsMarked m
    → IsMarked (rescanned mac now f m)
unfolding rescanned
rescanned-IsMarked mac now f m (marked h) = marked (λ other.
    ground (arith, h other, has-delete mac other m.busy, reads_of-drop_one mac other m.pending))

-- However the presses and answers are ordered, and also if the modal is opened again meanwhile, at most one
-- read of a device that was started from the matrix is under way, and its button is busy exactly then.
pub Reach-IsMarked : {m : Matrix} → Reach m → IsMarked m
unfolding reopened reads_of has
Reach-IsMarked start = marked (λ mac. refl)
Reach-IsMarked (pressed {m} r mac) = rescan-IsMarked mac m (Reach-IsMarked r)
Reach-IsMarked (answered {m} r mac now f h) = rescanned-IsMarked mac now f m (Reach-IsMarked r)
Reach-IsMarked (opened {m} r rows) = go (Reach-IsMarked r)
  where
    go : IsMarked m → IsMarked (reopened rows m)
    go (marked h) = marked h
