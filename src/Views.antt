-- ===== src/Views.antt =====
-- What the modal says of a device that was read (custom_components/telink_manager/www/
-- telink-manager-panel.js: the notices and the source of `_viewRowsBlethr`, `_hwString`, `_fwString`,
-- `_errMsg`), and the judgement of a repeater's interval that the notices show
-- (custom_components/telink_manager/gatt.py: `_source_interval_check`). A text that is missing is empty.
pub mod Advice
pub mod Gaps
mod Tests
use ha_telink_manager.Prelude.{
  ℕ, ◌+◌, ◌-◌, ◌≤◌, ltb, leb, ◌==◌, min, max, ℤ, Bool, true, false, not, ◌&&◌, ◌||◌, Option, none,
  some, get_or_else, List, [], ◌∷◌, ◌++◌, codes, if◌then◌else◌, any, text_eq,
}
use ha_telink_manager.Html.{Text}
use ha_telink_manager.Repeater.{zero_mac}

-- What a read of a repeater returned, as far as the notices use it.
pub record Blethr : Type 0 where
  pub ext_mac : Text
  pub read_gaps : List Text
  pub scanning : Option Bool
  pub scan_interval_ms : Option ℕ
  pub source_adv_interval_ms : ℕ
  pub source_interval_ok : Option Bool
  pub source_interval_unusable : Bool
  pub limits : Option (ℕ × ℕ)

pub data Reason : Type 0 where
  no_source scanning_off : Reason

-- The boxes above the rows, with the numbers in them.
pub data Notice : Type 0 where
  idle : List Reason → Notice
  lost : List Text → Notice
  unusable : (adv : ℕ) (range : ℕ × ℕ) → Notice
  mismatch : (interval : Option ℕ) (adv : ℕ) (advice : ℕ) → Notice

-- `!f.ext_mac || /^(00:){5}00$/.test(f.ext_mac)`.
abbrev pub unset : Text → Bool
unset [] = true
unset (c ∷ s) = text_eq (c ∷ s) zero_mac

abbrev pub which : Text
which = codes "which thermometer it repeats"

abbrev pub is_false : Option Bool → Bool
is_false (some false) = true
is_false _ = false

abbrev pub is_empty {ℓ} : {A : Type ℓ} → List A → Bool
is_empty [] = true
is_empty (x ∷ xs) = false

abbrev pub reasons : Blethr → List Reason
reasons f =
    (if not (any (text_eq which) f.read_gaps) && unset f.ext_mac then no_source ∷ [] else [])
    ++ (if is_empty f.read_gaps && is_false f.scanning then scanning_off ∷ [] else [])

abbrev pub idle_box : List Reason → List Notice
idle_box [] = []
idle_box (r ∷ rs) = idle (r ∷ rs) ∷ []

abbrev pub lost_box : List Text → List Notice
lost_box [] = []
lost_box (g ∷ gs) = lost (g ∷ gs) ∷ []

abbrev pub range : Blethr → ℕ × ℕ
range f = get_or_else f.limits (3000, 10000)

-- `Math.min(Math.max(adv, lo), hi)`.
abbrev pub clamp : ℕ → ℕ × ℕ → ℕ
clamp adv r = min (max adv r.0) r.1

abbrev pub interval_box : Blethr → Notice
interval_box f =
    if f.source_interval_unusable
    then unusable f.source_adv_interval_ms (range f)
    else mismatch f.scan_interval_ms f.source_adv_interval_ms
        (clamp f.source_adv_interval_ms (range f))

-- `warn`.
unfoldable pub notices : Blethr → List Notice
notices f =
    if is_empty (reasons f) && is_false f.source_interval_ok
    then interval_box f ∷ []
    else idle_box (reasons f) ++ lost_box f.read_gaps

-- `_source_interval_check` of the backend, where the source is set, scanning is on and the source was
-- read before: the three entries that it adds.
pub record Judged : Type 0 where
  pub adv_ms : ℕ
  pub ok : Bool
  pub unusable : Bool

abbrev pub distance : ℕ → ℕ → ℕ
distance a b = (a - b) + (b - a)

unfoldable pub judge_interval : ℕ × ℕ → ℕ → ℕ → Judged
judge_interval limits adv_ms interval =
    if leb (limits.0 - 100) adv_ms && leb adv_ms (limits.1 + 100)
    then record { adv_ms = adv_ms; ok = leb (distance adv_ms interval) 100; unusable = false }
    else record { adv_ms = adv_ms; ok = false; unusable = true }

-- The device in the list whose MAC address is the source's.
pub record Seen : Type 0 where
  pub mac : Text
  pub friend_name : Text
  pub ha_name : Text
  pub name : Text
  pub rssi : Option ℤ
  pub battery : Option ℕ

unfoldable pub find_source : Text → List Seen → Option Seen
find_source mac [] = none
find_source mac (d ∷ ds) =
    let rest = find_source mac ds in if text_eq d.mac mac then some d else rest

pub data SourceLabel : Type 0 where
  nothing_to_show : SourceLabel
  in_fleet : (name mac : Text) → SourceLabel
  not_in_fleet : (mac : Text) → SourceLabel

abbrev pub or_else : Text → Text → Text
or_else [] d = d
or_else (c ∷ s) d = c ∷ s

abbrev pub label_of : Text → Option Seen → SourceLabel
label_of mac none = not_in_fleet mac
label_of mac (some d) =
    in_fleet (or_else d.friend_name (or_else d.ha_name (or_else d.name mac))) mac

unfoldable pub source_label : Text → List Seen → SourceLabel
unfolding find_source
source_label mac devs = if unset mac then nothing_to_show else label_of mac (find_source mac devs)

-- `_hwString`; `hw_ver` is a text here, as the panel writes it.
abbrev pub dot : Text
dot = codes " · "

unfoldable pub hw_string : Option Text → Text → Text → Text
hw_string none name sensor = []
hw_string (some ver) [] sensor = codes "Unknown (id " ++ (ver ++ codes ")")
hw_string (some ver) (c ∷ name) [] = c ∷ name
hw_string (some ver) (c ∷ name) (d ∷ sensor) = c ∷ name ++ (dot ++ (d ∷ sensor))

-- `_fwString`.
abbrev pub byte_text : Text → Text
byte_text [] = []
byte_text (c ∷ s) = codes "byte " ++ (c ∷ s)

abbrev pub with_revision : Text → Text → Text
with_revision [] revision = codes "?"
with_revision (c ∷ v) [] = codes "v" ++ (c ∷ v)
with_revision (c ∷ v) (d ∷ revision) =
    codes "v" ++ ((c ∷ v) ++ (if text_eq (d ∷ revision) (c ∷ v) then [] else dot ++ (d ∷ revision)))

unfoldable pub fw_string : Text → Text → Text → Text → Text
fw_string version sw byte revision =
    with_revision (or_else version (or_else sw (byte_text byte))) revision
