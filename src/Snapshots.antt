-- ===== src/Snapshots.antt =====
-- The snapshots of the devices (custom_components/telink_manager/www/telink-manager-panel.js): the
-- accordion (`_toggleSnapDev`), and restoring or cloning a snapshot (`_showRestore`). The markup, the
-- question before the request and the drawing of the matrix are left out.
pub mod Restore
mod Tests
use ha_telink_manager.Prelude.{
  ℕ, ◌+◌, Bool, true, false, not, ◌&&◌, ◌||◌, Option, none, some, List, [], ◌∷◌, ◌++◌, String,
  if◌then◌else◌, str_eq, filter, lookup, insert, map,
}
use ha_telink_manager.Device.{Device}

-- `_toggleSnapDev`, of a device that has a place in the list: which one is open.
unfoldable pub toggle_snap_dev : String → Option String → Option String
toggle_snap_dev mac none = some mac
toggle_snap_dev mac (some old) = if str_eq old mac then none else some mac

pub data Mode : Type 0 where
  restore clone : Mode

abbrev pub is_clone : Mode → Bool
is_clone clone = true
is_clone restore = false

-- The checkboxes of the panel, and the target; a clone's is empty until one is picked.
pub record Restoring : Type 0 where
  pub mode : Mode
  pub snap_mac : String
  pub config : Bool
  pub device_name : Bool
  pub comfort : Bool
  pub bind_key : Bool
  pub sensor : Bool
  pub target : Option String

-- The devices that a snapshot can be cloned to.
abbrev pub others : String → List Device → List Device
others snap_mac devs = filter (λ (d : Device). not (str_eq d.mac snap_mac)) devs

abbrev first_target : Mode → String → Option String
first_target restore snap_mac = some snap_mac
first_target clone snap_mac = none

abbrev pub fresh : Mode → String → Restoring
fresh mode snap_mac = record {
  mode = mode;
  snap_mac = snap_mac;
  config = false;
  device_name = false;
  comfort = false;
  bind_key = false;
  sensor = false;
  target = first_target mode snap_mac;
}

-- A clone without another device shows a warning instead (`none`).
abbrev pub shown_for : Mode → String → List Device → Option Restoring
shown_for restore snap_mac targets = some (fresh restore snap_mac)
shown_for clone snap_mac [] = none
shown_for clone snap_mac (d ∷ targets) = some (fresh clone snap_mac)

unfoldable pub show_restore : Mode → String → List Device → Option Restoring
show_restore mode snap_mac devs = shown_for mode snap_mac (others snap_mac devs)

pub data Part : Type 0 where
  config device_name comfort bind_key sensor : Part

-- A checkbox is ticked or not; the one of the bind key is disabled for a clone.
abbrev tick_enabled : Part → Bool → Restoring → Restoring
tick_enabled config on r = record r { config = on }
tick_enabled device_name on r = record r { device_name = on }
tick_enabled comfort on r = record r { comfort = on }
tick_enabled bind_key on r = if is_clone r.mode then r else record r { bind_key = on }
tick_enabled sensor on r = record r { sensor = on }

unfoldable pub tick : Part → Bool → Restoring → Restoring
tick part on r = tick_enabled part on r

-- The choice of a clone's target, of those that are offered.
unfoldable pub choose_target : String → Restoring → Restoring
choose_target mac r = if is_clone r.mode then record r { target = some mac } else r

abbrev pub has_target : Option String → Bool
has_target none = false
has_target (some mac) = true

-- `updateGo`: can the button be pressed?
unfoldable pub can_go : Restoring → Bool
can_go r =
    (r.config || (r.device_name || (r.comfort || (r.bind_key || r.sensor))))
    && (not (is_clone r.mode) || has_target r.target)

abbrev pub part_if : Bool → Part → List Part → List Part
part_if true part rest = part ∷ rest
part_if false part rest = rest

abbrev pub parts_of : Restoring → List Part
parts_of r = part_if r.config config (
    part_if r.device_name device_name
      (part_if r.comfort comfort (part_if r.bind_key bind_key (part_if r.sensor sensor []))))

-- The request of the button: the target and the parts; nothing is asked without a part.
abbrev pub to_target : Option String → List Part → Option (String × List Part)
to_target none parts = none
to_target (some mac) [] = none
to_target (some mac) (part ∷ parts) = some (mac, part ∷ parts)

unfoldable pub pressed : Restoring → Option (String × List Part)
pressed r = to_target r.target (parts_of r)

-- `_snapDelete` behind its `await`: the count that the answer has, if any.
unfoldable pub snap_deleted : String → Option ℕ → List (String × ℕ) → List (String × ℕ)
snap_deleted mac none counts = counts
snap_deleted mac (some n) counts = insert mac n counts
