-- ===== src/Session/World.antt =====
-- The panel with its environment: what the user may do next, and the answers in any order.
use ha_telink_manager.Prelude.{ℤ, Bool, true, false, Option, none, List, [], ◌∷◌, ◌++◌, String, ◌≡◌}
use ha_telink_manager.Session.{
  Panel, Task, unmarked_read, cancel, disconnected, reconnected, select, scan, set_hass,
  close_modal, run_cmd, start_write, modal_shell,
}
use ha_telink_manager.Session.Tasks.{Answer, resume, read_selected}

pub record World : Type 0 where
  pub panel : Panel
  pub tasks : List Task

-- The panel's buttons and rows, the modal's buttons, and the element's callbacks; and the requests to read a
-- device that `_compareRescan` and the end of a restore send, with what they do to the panel's other state
-- left to Compare and Screen.
pub data Action : Type 0 where
  refresh cancel_op leave back open_modal close : Action
  give_hass : Bool → Action
  click_row : String → Option ℤ → Action
  connect : (then_backups : Bool) → Action
  press_command : Option (Option String) → Action
  press_save : String → Action
  read_elsewhere : String → Action

-- A command or a write is pressed inside a modal; the rest can be done at any time.
abbrev pub Enabled : Panel → Action → Type 0
Enabled p (press_command shows) = p.modal_open ≡ true
Enabled p (press_save mac) = p.modal_open ≡ true
Enabled p _ = Unit

unfoldable pub act : Action → Panel → Panel × List Task
unfolding cancel disconnected reconnected select scan set_hass read_selected close_modal run_cmd
    start_write modal_shell
act refresh p = scan p
act cancel_op p = (cancel p, [])
act leave p = (disconnected p, [])
act back p = (reconnected p, [])
act open_modal p = (modal_shell p, [])
act close p = close_modal p
act (give_hass c) p = set_hass c p
act (click_row mac rssi) p = (select mac rssi p, [])
act (connect tb) p = read_selected tb p
act (press_command shows) p = run_cmd shows p
act (press_save mac) p = start_write mac p
act (read_elsewhere mac) p = (p, unmarked_read mac ∷ [])

-- One turn of the event loop: an action, or the answer to any of the waiting tasks.
pub data Step (w w' : World) : Type 0 where
  acts :
      (a : Action)
      → Enabled w.panel a
      → w'.panel ≡ (act a w.panel).0
      → w'.tasks ≡ w.tasks ++ (act a w.panel).1
      → Step w w'
  answers :
      (before after : List Task) (t : Task) (r : Answer t)
      → w.tasks ≡ before ++ t ∷ after
      → w'.panel ≡ (resume t r w.panel).0
      → w'.tasks ≡ (before ++ after) ++ (resume t r w.panel).1
      → Step w w'

-- The panel as `connectedCallback` first leaves it.
unfoldable pub fresh : Panel
fresh = record {
  rendered = true;
  auto_scanned = false;
  connection = false;
  busy = false;
  op = 0;
  selected = none;
  selected_rssi = none;
  loaded = none;
  names = [];
  ha_names = [];
  devs = [];
  inflight = [];
  backup_macs = [];
  bulk_active = false;
  polling = true;
  conn_timer = false;
  modal_open = false;
  modal_locked = false;
  lcd_permanent = none;
  scan_disabled = false;
  read_button_disabled = true;
  bulk_buttons_disabled = false;
  cancel_shown = false;
}

abbrev pub start : World
start = record { panel = fresh; tasks = [] }

pub data Reach : World → Type 0 where
  here : Reach start
  next : {w w' : World} → Reach w → Step w w' → Reach w'
