-- ===== src/Screen.antt =====
-- The windows of the matrices (custom_components/telink_manager/www/telink-manager-panel.js): what
-- `_openCompareModal`, `_compareRescan`, `_openSnapshotsModal`, `_toggleSnapDev`, `_renderSnapDevBody`,
-- `_renderSnapChanges`, `_snapDelete` and `_renderCompare` draw, and where. A handler that awaits is cut
-- there: its answer is an operation of its own. A row is the id that it is found by.
pub mod Own
pub mod Late
mod Tests
use ha_telink_manager.Prelude.{
  ℕ, ◌==◌, length, Bool, true, false, ◌&&◌, Option, none, some, List, [], ◌∷◌, String, str_eq, has,
  if◌then◌else◌,
}

-- `elsewhere` is any other window: a device, the coverage, a bulk job.
pub data Window : Type 0 where
  compare snapshots elsewhere : Window

-- A matrix of all devices (no device), or of the snapshots of one.
pub record Matrix : Type 0 where
  pub device : Option String
  pub rows : List String

-- What `#m-body` holds: `blank` is what a window has before its answer, and what another window draws.
pub data Body : Type 0 where
  blank : Body
  device_list : List String → Body
  matrix : Matrix → Body

-- `expanded` is the device whose history is open in the list, with the number of its view; `views` the devices of
-- all views so far, the last first; `changes` what
-- is drawn in `#snap-changes`, if its history is there; `cmp` is `_cmpMode` and `_cmpRows`; `on_changes`
-- that `_cmpTarget` is `#snap-changes`; `snap_by_id` the device and the ids of `_snapById`.
pub record Screen : Type 0 where
  pub window : Option Window
  pub body : Body
  pub expanded : Option (String × ℕ)
  pub changes : Option Matrix
  pub views : List String
  pub cmp : Matrix
  pub on_changes : Bool
  pub snap_by_id : String × List String

-- `_modalShell`, and `_closeModal`: what was in the window is gone.
unfoldable pub shell : Option Window → Screen → Screen
shell w s = record s { window = w; body = blank; expanded = none; changes = none }

-- `_renderCompare`: into `#snap-changes` or into `#m-body`, if that is there.
abbrev pub draw_changes : Option (String × ℕ) → Screen → Screen
draw_changes none s = s
draw_changes (some view) s = record s { changes = some s.cmp }

abbrev pub draw_body : Option Window → Screen → Screen
draw_body none s = s
draw_body (some w) s = record s { body = matrix s.cmp; expanded = none; changes = none }

unfoldable pub draw : Screen → Screen
draw s = if s.on_changes then draw_changes s.expanded s else draw_body s.window s

-- `_openCompareModal` up to its `await`, and behind it.
unfoldable pub open_compare : Screen → Screen
unfolding shell
open_compare s = shell (some compare) s

unfoldable pub compare_loaded : List String → Screen → Screen
unfolding draw
compare_loaded rows s =
    draw (record s { cmp = record { device = none; rows = rows }; on_changes = false })

-- `_compareRescan` behind its `await`: the matrix is drawn again.
unfoldable pub rescanned : Screen → Screen
unfolding draw
rescanned s = draw s

-- `_openSnapshotsModal` up to its `await`.
unfoldable pub open_snapshots : Screen → Screen
unfolding shell
open_snapshots s = shell (some snapshots) (record s { on_changes = false })

abbrev pub is_expanded : String → Option (String × ℕ) → Bool
is_expanded mac none = false
is_expanded mac (some view) = str_eq view.0 mac

-- `_toggleSnapDev` and `_renderSnapDevBody`, of a device of the list: the history is asked for.
abbrev pub expand : String → Screen → Screen
expand mac s = record s {
  expanded = some (mac, length s.views);
  changes = none;
  views = mac ∷ s.views;
  on_changes = true;
}

abbrev pub in_list : String → Body → Bool
in_list mac (device_list macs) = has mac macs
in_list mac blank = false
in_list mac (matrix m) = false

unfoldable pub toggle : String → Screen → Screen
toggle mac s =
    if in_list mac s.body
    then (if is_expanded mac s.expanded
        then record s { expanded = none; changes = none; on_changes = false }
        else expand mac s)
    else s

-- `_openSnapshotsModal` behind its `await`: the list is drawn into whichever window there is, and a device
-- may be expanded at once. Without a window, nothing is drawn.
abbrev pub expand_if : Option String → Screen → Screen
expand_if none s = s
expand_if (some mac) s = toggle mac s

abbrev pub list_drawn : Option Window → List String → Option String → Screen → Screen
list_drawn none macs mac s = s
list_drawn (some w) macs mac s =
    expand_if mac (record s { body = device_list macs; expanded = none; changes = none })

unfoldable pub snapshots_loaded : List String → Option String → Screen → Screen
unfolding toggle
snapshots_loaded macs mac s = list_drawn s.window macs mac s

-- `view.isConnected`, of the view with this number.
abbrev pub is_connected : ℕ → Option (String × ℕ) → Bool
is_connected v none = false
is_connected v (some view) = view.1 == v

-- `_renderSnapChanges` behind its `await`: the history's rows, and the snapshots by their ids.
abbrev pub history_drawn : String → List String → List String → Screen → Screen
history_drawn mac [] ids s = record s {
  snap_by_id = (mac, ids);
  changes = some (record { device = some mac; rows = [] });
}
history_drawn mac (row ∷ rows) ids s =
    draw
      (record s { snap_by_id = (mac, ids); cmp = record { device = some mac; rows = row ∷ rows } })

unfoldable pub history_loaded : String → ℕ → List String → List String → Screen → Screen
unfolding draw
history_loaded mac v rows ids s =
    if is_connected v s.expanded then history_drawn mac rows ids s else s

-- `_snapDelete` behind its `await`: the history is asked for again.
unfoldable pub deleted : ℕ → Screen → Screen
deleted v s =
    if is_connected v s.expanded
    then record s { on_changes = true; changes = none }
    else record s { on_changes = true }

-- A click on Restore or Clone in a row of the history: the device whose view it is in, and the device whose
-- snapshot is taken, if one has the row's id.
abbrev pub acted_in :
    String → Option (String × ℕ) → Option Matrix → String × List String → Option (String × String)
acted_in id none m snaps = none
acted_in id (some view) none snaps = none
acted_in id (some view) (some m) snaps =
    if has id m.rows && has id snaps.1 then some (view.0, snaps.0) else none

unfoldable pub acted : String → Screen → Option (String × String)
acted id s = acted_in id s.expanded s.changes s.snap_by_id

-- The panel when it is first shown.
abbrev pub start : Screen
start = record {
  window = none;
  body = blank;
  expanded = none;
  changes = none;
  views = [];
  cmp = record { device = none; rows = [] };
  on_changes = false;
  snap_by_id = ("", []);
}
