-- ===== src/Session.antt =====
-- The session of the panel (custom_components/telink_manager/www/telink-manager-panel.js): the busy
-- guard and its operation token, the connects in flight, the selection and the modal. The text of
-- the status line and the drawing of the table and of the modal are left out. A handler that awaits
-- is cut at each `await`: the first part returns the tasks it leaves waiting, and `Session.Tasks`
-- has what runs when the answer is there.
pub mod Tasks
pub mod World
pub mod Stale
pub mod Busy
pub mod Inflight
pub mod Scan
pub mod Detach
mod Tests
use ha_telink_manager.Prelude.{
  ℕ, ◌+◌, ℤ, Bool, true, false, not, ◌||◌, ◌&&◌, Option, none, some, List, [], ◌∷◌, String,
  if◌then◌else◌, str_eq, has, delete, lookup,
}
use ha_telink_manager.Device.{Device, Fields}

-- The fields set by `connectedCallback`. `bulk_active` is `_bulkStatus.active`; `polling` and
-- `conn_timer` tell that the two timers run. The buttons keep whether they are disabled, and
-- `lcd_permanent` is `_lcdPermanentMac` while `_lcdPermanentActive`.
pub record Panel : Type 0 where
  pub rendered : Bool
  pub auto_scanned : Bool
  pub connection : Bool
  pub busy : Bool
  pub op : ℕ
  pub selected : Option String
  pub selected_rssi : Option ℤ
  pub loaded : Option Fields
  pub names : List (String × String)
  pub ha_names : List (String × String)
  pub devs : List Device
  pub inflight : List String
  pub backup_macs : List (String × ℕ)
  pub bulk_active : Bool
  pub polling : Bool
  pub conn_timer : Bool
  pub modal_open : Bool
  pub modal_locked : Bool
  pub lcd_permanent : Option String
  pub scan_disabled : Bool
  pub read_button_disabled : Bool
  pub bulk_buttons_disabled : Bool
  pub cancel_shown : Bool

-- `_inflightMacs.has`, of a selection that may be empty.
abbrev pub no_read_of : Option String → List String → Bool
no_read_of none s = true
no_read_of (some mac) s = has mac s

-- `_readDisabled`.
abbrev pub read_disabled : Panel → Bool
read_disabled p = no_read_of p.selected p.inflight

-- `_beginOp`: the token is the new `op`.
unfoldable pub begin_op : Bool → Panel → Panel
begin_op top_cancel p = record p {
  busy = true;
  op = p.op + 1;
  scan_disabled = true;
  read_button_disabled = true;
  bulk_buttons_disabled = true;
  cancel_shown = top_cancel;
}

-- `_endOp`.
unfoldable pub end_op : Panel → Panel
end_op p = record p {
  busy = false;
  scan_disabled = false;
  read_button_disabled = read_disabled p;
  bulk_buttons_disabled = p.bulk_active;
  cancel_shown = false;
}

-- `_cancel`.
unfoldable pub cancel : Panel → Panel
unfolding end_op
cancel p = end_op (record p { op = p.op + 1 })

-- `disconnectedCallback`.
unfoldable pub disconnected : Panel → Panel
disconnected p = record p { op = p.op + 1; busy = false; polling = false; conn_timer = false }

-- `connectedCallback` of an element that was rendered before.
unfoldable pub reconnected : Panel → Panel
reconnected p = record p { polling = true }

-- `_select`, of a row by its MAC and its RSSI.
unfoldable pub select : String → Option ℤ → Panel → Panel
select mac rssi p =
    let q = record p { selected = some mac; selected_rssi = rssi } in
    if p.busy then p else record q { read_button_disabled = read_disabled q }

-- What waits for an answer: a scan's two requests, the two questions before a connect, the connect
-- itself, a command or a write from the modal, and the question on closing it. A command on the LCD
-- says of which device it leaves a permanent number behind, if any.
pub data Task : Type 0 where
  scan_devices : (token : ℕ) (prev_selected : Option String) → Task
  scan_backups : (token : ℕ) → Task
  ask_unreachable : (mac : String) (then_backups : Bool) → Task
  ask_weak : (mac : String) (then_backups : Bool) → Task
  read : (mac : String) (token : ℕ) (then_backups : Bool) → Task
  command : (token : ℕ) (shows : Option (Option String)) → Task
  write : (mac : String) (token : ℕ) → Task
  ask_clear_lcd : (mac : String) → Task
  unmarked_read : (mac : String) → Task

-- `_scan`, up to its first `await`.
unfoldable pub scan : Panel → Panel × List Task
unfolding begin_op
scan p =
    let q = begin_op true p in
    if p.busy then (p, []) else (record q { loaded = none }, scan_devices q.op p.selected ∷ [])

-- `_maybeAutoScan`.
unfoldable pub maybe_auto_scan : Panel → Panel × List Task
unfolding scan
maybe_auto_scan p =
    if p.rendered && (not p.auto_scanned && p.connection)
    then scan (record p { auto_scanned = true })
    else (p, [])

-- The `hass` setter: whether the new object has a connection.
unfoldable pub set_hass : Bool → Panel → Panel × List Task
unfolding maybe_auto_scan
set_hass connection p = maybe_auto_scan (record p { connection = connection })

-- `_stopConnTimer`.
abbrev pub stop_conn_timer : Panel → Panel
stop_conn_timer p = record p { conn_timer = false }

-- `_closeModal`, up to its question.
unfoldable pub close_modal : Panel → Panel × List Task
unfolding end_op
close_modal p = elim p.lcd_permanent [
  | some mac ↦ (stop_conn_timer p, ask_clear_lcd mac ∷ [])
  | none ↦ (
    end_op
        (record p { conn_timer = false; op = p.op + 1; modal_open = false; modal_locked = false }),
    [],
  )
]

-- `_runCmd`, and `_save` with something to write, up to their `await`.
unfoldable pub run_cmd : Option (Option String) → Panel → Panel × List Task
run_cmd shows p = (record p { op = p.op + 1; modal_locked = true }, command (p.op + 1) shows ∷ [])

unfoldable pub start_write : String → Panel → Panel × List Task
start_write mac p = (record p { op = p.op + 1; modal_locked = true }, write mac (p.op + 1) ∷ [])

-- Opening one of the modals that make no connection (`_modalShell`).
unfoldable pub modal_shell : Panel → Panel
modal_shell p = record p { modal_open = true; modal_locked = false }
