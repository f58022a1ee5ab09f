-- ===== src/Names.antt =====
-- The friendly names (custom_components/telink_manager/www/telink-manager-panel.js): the handlers of a
-- row's name input and of its button in `_renderDevTable`, `_saveName`, `_ha` and `_modalTitle`. A name
-- that is missing is empty.
pub mod Saved
pub mod Offer
use ha_telink_manager.Prelude.{
  ℕ, Bool, true, false, not, ◌&&◌, Option, none, some, List, [], ◌∷◌, String, if◌then◌else◌, str_eq,
  lookup, insert, filter, get_or_else,
}
use ha_telink_manager.Device.{Device}
use ha_telink_manager.Table.{or_text}

-- `_names`, `_haNames` and `_devs`.
pub record Known : Type 0 where
  pub names : List (String × String)
  pub ha_names : List (String × String)
  pub devs : List Device

abbrev pub name_in : List (String × String) → String → String
name_in names mac = get_or_else (lookup mac names) ""

-- `_ha`.
abbrev pub ha : Known → String → String
ha k mac = name_in k.ha_names mac

-- The input's `change`: the name that is sent, if any.
unfoldable pub renamed : Known → String → String → Option String
renamed k mac value = if str_eq value (name_in k.names mac) then none else some value

-- The first device with the MAC address.
unfoldable pub name_device : String → String → List Device → List Device
name_device mac name [] = []
name_device mac name (d ∷ devs) =
    let rest = name_device mac name devs in
    if str_eq d.mac mac then record d { friend_name = name } ∷ devs else d ∷ rest

-- `_saveName` behind its `await`: the name that the backend kept, and `none` for a request that raised.
unfoldable pub name_saved : String → Option String → Known → Known
unfolding name_device
name_saved mac none k = k
name_saved mac (some name) k = record k {
  names = insert mac name k.names;
  devs = name_device mac name k.devs;
}

-- A row's input, and whether its button is visible.
pub record Cell : Type 0 where
  pub value : String
  pub offered : Bool

abbrev pub is_blank : String → Bool
is_blank s = str_eq s ""

-- As the table is drawn.
unfoldable pub drawn : Device → Cell
drawn d = record {
  value = d.friend_name;
  offered = is_blank d.friend_name && not (is_blank d.ha_name);
}

-- The input's `input`, with the name that Home Assistant has.
unfoldable pub typed : String → String → Cell → Cell
typed ha_name value c =
    if is_blank ha_name
    then record c { value = value }
    else record { value = value; offered = is_blank value }

-- A click on the button: the cell, and the name that is sent.
unfoldable pub adopted : String → Cell → Cell × Option String
adopted ha_name c =
    if is_blank ha_name
    then (c, none)
    else if c.offered
    then (record { value = ha_name; offered = false }, some ha_name)
    else (c, none)

-- The BLE name in the title, where it says something else.
abbrev pub ble_name : String → List Device → String → String
ble_name mac [] shown = ""
ble_name mac (d ∷ devs) shown =
    let rest = ble_name mac devs shown in
    if str_eq d.mac mac then (if str_eq d.name shown then "" else d.name) else rest

-- `_modalTitle`, before the parts are joined.
unfoldable pub modal_title : Known → String → List String
modal_title k mac =
    let shown = or_text (name_in k.names mac) (ha k mac) in
    filter (λ (s : String). not (is_blank s)) (shown ∷ ble_name mac k.devs shown ∷ mac ∷ [])
