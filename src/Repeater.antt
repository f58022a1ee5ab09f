-- ===== src/Repeater.antt =====
-- The repeater editor (custom_components/telink_manager/www/telink-manager-panel.js), of
-- `_modalEditBlethr`: the typed MAC address (`normMac`, `checkCustom`), the key that is looked up for
-- a source (`adoptKeyOf`, `settle`), and what is saved. Texts are lists of code points.
pub mod Config
pub mod Mac
pub mod Adopt
pub mod Saving
pub mod Opening
mod Tests
use ha_telink_manager.Prelude.{
  ℕ, ◌+◌, ◌-◌, ◌*◌, ltb, leb, ◌==◌, Bool, true, false, not, ◌&&◌, ◌||◌, Option, none, some, List,
  [], ◌∷◌, ◌++◌, codes, if◌then◌else◌, filter, map, length, all, any, text_eq,
}
use ha_telink_manager.Html.{Text}

-- `\s` of a regular expression.
abbrev pub is_space : ℕ → Bool
is_space c =
    c == 32
    || (leb 9 c && leb c 13
        || (c == 160
            || (c == 0x1680
                || (leb 0x2000 c && leb c 0x200a
                    || (c == 0x2028
                        || (c == 0x2029
                            || (c == 0x202f || (c == 0x205f || (c == 0x3000 || c == 0xfeff)))))))))

-- `[\s:.-]`, which `normMac` drops; what `trim` cuts off is dropped with it.
abbrev pub is_separator : ℕ → Bool
is_separator c = is_space c || (c == b':' || (c == b'.' || c == b'-'))

-- `toUpperCase`, of the letters that matter: one other character alone becomes hex digits by it, the
-- ligature U+FB00, which becomes FF.
abbrev pub upper : ℕ → ℕ
upper c = if leb b'a' c && leb c b'z' then c - 32 else c

unfoldable pub upper_case : Text → Text
upper_case [] = []
upper_case (c ∷ s) =
    let rest = upper_case s in if c == 0xfb00 then b'F' ∷ b'F' ∷ rest else upper c ∷ rest

-- `[0-9A-F]`.
abbrev pub is_hex : ℕ → Bool
is_hex c = leb b'0' c && leb c b'9' || leb b'A' c && leb c b'F'

unfoldable pub hex_of : Text → Text
unfolding upper_case
hex_of s = upper_case (filter (λ c. not (is_separator c)) s)

-- `match(/../g).join(":")`.
unfoldable pub join_pairs : Text → Text
join_pairs [] = []
join_pairs (a ∷ []) = []
join_pairs (a ∷ b ∷ []) = a ∷ b ∷ []
join_pairs (a ∷ b ∷ c ∷ s) = a ∷ b ∷ b':' ∷ join_pairs (c ∷ s)

abbrev pub is_mac_hex : Text → Bool
is_mac_hex h = length h == 12 && all is_hex h

unfoldable pub norm_mac : Text → Option Text
unfolding hex_of join_pairs
norm_mac s = if is_mac_hex (hex_of s) then some (join_pairs (hex_of s)) else none

-- What `checkCustom` says, and the address that it returns, if any.
pub data Verdict : Type 0 where
  blank not_a_mac itself all_zeroes : Verdict
  known unseen : Text → Verdict

abbrev pub zero_mac : Text
zero_mac = codes "00:00:00:00:00:00"

abbrev pub judge : Text → List Text → Option Text → Verdict
judge mac fleet none = not_a_mac
judge mac fleet (some norm) =
    if text_eq norm mac
    then itself
    else if text_eq norm zero_mac
    then all_zeroes
    else if any (text_eq norm) fleet
    then known norm
    else unseen norm

-- Is there anything but white space?
abbrev is_blank : Text → Bool
is_blank s = all is_space s

unfoldable pub check_custom : Text → List Text → Text → Verdict
unfolding norm_mac
check_custom mac fleet raw = if is_blank raw then blank else judge mac fleet (norm_mac raw)

abbrev pub address_of : Verdict → Option Text
address_of (known m) = some m
address_of (unseen m) = some m
address_of _ = none

-- The key's field, and the key that was put there without being typed.
pub record KeyField : Type 0 where
  pub value : Text
  pub auto_filled : Option Text
  pub interval : ℕ

-- What the two requests of `adoptKeyOf` tell of the source: whether it was ever read; of its last
-- snapshot, the advertising interval in ms and whether it broadcasts encrypted; and the newest key
-- among its snapshots.
pub record Source : Type 0 where
  pub was_read : Bool
  pub adv_ms : Option ℕ
  pub adv_crypto : Bool
  pub newest_key : Option Text

pub record Limits : Type 0 where
  pub lo : ℕ
  pub hi : ℕ

abbrev is_auto : Text → Option Text → Bool
is_auto v none = false
is_auto v (some a) = text_eq v a

-- The first test of `adoptKeyOf`: a key that was entered by hand. The field's value is trimmed.
abbrev pub by_hand : KeyField → Bool
by_hand k = not (is_blank k.value) && not (is_auto k.value k.auto_filled)

-- `settle`.
abbrev cleared : Option Text → KeyField → KeyField
cleared none k = k
cleared (some a) k = record k { value = []; auto_filled = none }

unfoldable pub settle : Option Text → KeyField → KeyField
settle none k = cleared k.auto_filled k
settle (some key) k = record k { value = key; auto_filled = some key }

-- The beacon interval follows the source's, where the firmware can follow it.
abbrev follow : Limits → Option ℕ → KeyField → KeyField
follow l none k = k
follow l (some ms) k = if ltb ms l.lo || ltb l.hi ms then k else record k { interval = ms }

-- `adoptKeyOf` behind its `await`; `none` is a lookup that failed.
unfoldable pub adopt_done : Limits → Option Source → KeyField → KeyField
unfolding settle
adopt_done l none k = settle none k
adopt_done l (some s) k =
    let f = follow l s.adv_ms k in
    if not s.was_read
    then settle none f
    else if not s.adv_crypto
    then settle none f
    else settle s.newest_key f

-- `adoptKeyOf` up to its `await`: does it look a key up?
unfoldable pub looks_up : Option Text → KeyField → Bool
looks_up none k = false
looks_up (some mac) k = not (by_hand k)

-- The fields of a repeater that the editor can change; windows are in microseconds. What the read
-- did not return is `none`.
pub record RepeaterFields : Type 0 where
  pub ext_mac : Text
  pub ext_bind_key : Text
  pub temp_F : Bool
  pub rf_tx_power : Option ℕ
  pub scan_interval_ms : Option ℕ
  pub scan_window_min : Option ℕ
  pub scan_window_max : Option ℕ

-- What the form holds; a number that cannot be read is `none`.
pub record RepeaterForm : Type 0 where
  pub ext : Text
  pub key : Text
  pub unit_F : Bool
  pub rf : Option ℕ
  pub int : Option ℕ
  pub wmin : Option ℕ
  pub wmax : Option ℕ

-- `changes` of the save: each field that is sent, with its value.
pub record RepeaterChanges : Type 0 where
  pub ext_mac : Option Text
  pub ext_bind_key : Option Text
  pub temp_F : Option Bool
  pub rf_tx_power : Option ℕ
  pub scan_interval_ms : Option ℕ
  pub scan_window_min : Option ℕ
  pub scan_window_max : Option ℕ

abbrev pub changed_text : Text → Text → Option Text
changed_text v old = if text_eq v old then none else some v

abbrev pub changed_bool : Bool → Bool → Option Bool
changed_bool true old = if old then none else some true
changed_bool false old = if old then some false else none

-- `Number.isFinite(v) && v !== f[field]`.
abbrev pub changed_num : Option ℕ → Option ℕ → Option ℕ
changed_num none old = none
changed_num (some v) none = some v
changed_num (some v) (some old) = if v == old then none else some v

unfoldable pub repeater_changes : RepeaterForm → RepeaterFields → RepeaterChanges
repeater_changes form f = record {
  ext_mac = changed_text form.ext f.ext_mac;
  ext_bind_key = changed_text form.key f.ext_bind_key;
  temp_F = changed_bool form.unit_F f.temp_F;
  rf_tx_power = changed_num form.rf f.rf_tx_power;
  scan_interval_ms = changed_num form.int f.scan_interval_ms;
  scan_window_min = changed_num form.wmin f.scan_window_min;
  scan_window_max = changed_num form.wmax f.scan_window_max;
}
