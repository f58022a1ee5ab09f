-- ===== src/Session/Tasks.antt =====
-- What runs after each `await` of the session's handlers: `_scan`, `_readSelected`, `_closeModal`,
-- `_runCmd` and `_save`.
use ha_telink_manager.Prelude.{
  ℕ, ◌+◌, ◌==◌, ℤ, Bool, true, false, not, ◌||◌, Option, none, some, List, [], ◌∷◌, String,
  if◌then◌else◌, str_eq, has, add, delete, insert, find, any,
}
use ha_telink_manager.Device.{Device, Config, Fields}
use ha_telink_manager.Signal.{Tier, rssi_info}
use ha_telink_manager.Session.{
  Panel, Task, scan_devices, scan_backups, ask_unreachable, ask_weak, read, command, write,
  ask_clear_lcd, unmarked_read, read_disabled, begin_op, end_op,
}

-- What a read comes back with: an exception, `{ok: false}`, or the fields and the snapshot count.
pub data ReadReply : Type 0 where
  failed refused : ReadReply
  fields : Fields → Option ℕ → ReadReply

-- What a write comes back with; `verified` has the settings after the write.
pub data WriteReply : Type 0 where
  failed refused unchanged : WriteReply
  verified : Config → WriteReply

-- What a command comes back with; `ok` has the fields that its handler sets `_loaded` to, if any.
pub data CmdReply : Type 0 where
  failed refused : CmdReply
  ok : Option Fields → CmdReply

-- The answer that each task waits for; `none` is an exception.
abbrev pub Answer : Task → Type 0
Answer (scan_devices token prev) = Option (List Device)
Answer (scan_backups token) = Option (List (String × ℕ))
Answer (ask_unreachable mac tb) = Bool
Answer (ask_weak mac tb) = Bool
Answer (read mac token tb) = ReadReply
Answer (command token shows) = CmdReply
Answer (write mac token) = WriteReply
Answer (ask_clear_lcd mac) = Bool
Answer (unmarked_read mac) = ReadReply

abbrev pub device_with : String → List Device → Option Device
device_with mac devs = find (λ (d : Device). str_eq d.mac mac) devs

-- The selection is kept if its device is still there; otherwise the first row is selected.
abbrev pub first_mac : List Device → Option String
first_mac [] = none
first_mac (d ∷ devs) = some d.mac

unfoldable pub keep : Option String → List Device → Option String
keep none devs = first_mac devs
keep (some mac) devs =
    if any (λ (d : Device). str_eq d.mac mac) devs then some mac else first_mac devs

abbrev pub rssi_of : Option String → List Device → Option ℤ
rssi_of none devs = none
rssi_of (some mac) devs = elim (device_with mac devs) [ none ↦ none | some d ↦ d.rssi ]

-- `names` is built anew, `ha_names` only grows.
abbrev pub names_from : List Device → List (String × String) → List (String × String)
names_from [] m = m
names_from (d ∷ devs) m = names_from devs (insert d.mac d.friend_name m)

abbrev pub ha_names_from : List Device → List (String × String) → List (String × String)
ha_names_from [] m = m
ha_names_from (d ∷ devs) m = ha_names_from devs (insert d.mac d.ha_name m)

unfoldable pub scanned : List Device → Option String → Panel → Panel
unfolding keep
scanned devs prev p = record p {
  devs = devs;
  names = names_from devs [];
  ha_names = ha_names_from devs p.ha_names;
  selected = keep prev devs;
  selected_rssi = rssi_of (keep prev devs) devs;
}

unfoldable pub scan_devices_done :
    ℕ → Option String → Option (List Device) → Panel → Panel × List Task
unfolding scanned end_op
scan_devices_done token prev none p = (if token == p.op then end_op p else p, [])
scan_devices_done token prev (some devs) p =
    if token == p.op then (scanned devs prev p, scan_backups token ∷ []) else (p, [])

abbrev counted : Option (List (String × ℕ)) → Panel → Panel
counted none p = p
counted (some counts) p = record p { backup_macs = counts }

unfoldable pub scan_backups_done : ℕ → Option (List (String × ℕ)) → Panel → Panel × List Task
unfolding end_op
scan_backups_done token r p = (if token == p.op then end_op (counted r p) else p, [])

-- `_readSelected` from the loading modal to its `await`.
unfoldable pub start_read : String → Bool → Panel → Panel × List Task
unfolding begin_op
start_read mac then_backups p =
    let q =
      begin_op false (record p { modal_open = true; modal_locked = false; conn_timer = true }) in
    (record q { inflight = add mac q.inflight }, read mac q.op then_backups ∷ [])

abbrev is_ok : Tier → Bool
is_ok Tier.ok = true
is_ok _ = false

-- Does the signal of the selected row ask for the weak-signal question?
abbrev pub is_weak : Option ℤ → Bool
is_weak none = false
is_weak (some r) = not (is_ok (rssi_info (some r)).tier)

-- The signal's question, where there is one.
unfoldable pub check_signal : String → Bool → Panel → Panel × List Task
unfolding start_read
check_signal mac then_backups p =
    if is_weak p.selected_rssi
    then (p, ask_weak mac then_backups ∷ [])
    else start_read mac then_backups p

abbrev pub is_unreachable : Option Device → Bool
is_unreachable none = false
is_unreachable (some d) = not d.connectable

-- `_readSelected` behind its guard.
unfoldable pub request_read : String → Bool → Panel → Panel × List Task
unfolding check_signal
request_read mac then_backups p =
    if is_unreachable (device_with mac p.devs)
    then (p, ask_unreachable mac then_backups ∷ [])
    else check_signal mac then_backups p

-- `_readSelected`, up to its first `await`.
abbrev pub read_mac : Option String → Bool → Panel → Panel × List Task
read_mac none then_backups p = (p, [])
read_mac (some mac) then_backups p =
    if has mac p.inflight then (p, []) else request_read mac then_backups p

unfoldable pub read_selected : Bool → Panel → Panel × List Task
unfolding request_read
read_selected then_backups p =
    if p.busy || p.bulk_active then (p, []) else read_mac p.selected then_backups p

-- The first row of the read device learns its name, where it advertised none, and its firmware.
abbrev learn : String → Fields → List Device → List Device
learn mac f [] = []
learn mac f (d ∷ devs) =
    if str_eq d.mac mac
    then record d {
      name = if str_eq d.name "" then f.device_name else d.name;
      blethr = f.is_blethr;
    }
      ∷ devs
    else d ∷ learn mac f devs

abbrev count_of : String → Option ℕ → List (String × ℕ) → List (String × ℕ)
count_of mac none m = m
count_of mac (some n) m = insert mac n m

-- The current read's answer. The modal shows the error, the fields or the device's snapshots.
unfoldable pub read_answered : String → ReadReply → Panel → Panel
read_answered mac (fields f count) p = record p {
  loaded = some f;
  devs = learn mac f p.devs;
  backup_macs = count_of mac count p.backup_macs;
  conn_timer = false;
}
read_answered mac _ p = record p { conn_timer = false }

-- `_inflightMacs.delete`, in the `finally` block.
abbrev pub landed : String → Panel → Panel
landed mac p = record p { inflight = delete mac p.inflight }

unfoldable pub read_done : String → ℕ → ReadReply → Panel → Panel × List Task
unfolding read_answered end_op
read_done mac token r p = (
  if token == p.op
      then end_op (landed mac (read_answered mac r p))
      else record (landed mac p) { read_button_disabled = read_disabled (landed mac p) },
  [],
)

-- What the handlers of the modal's buttons do with a command that went well.
abbrev set_loaded : Option Fields → Panel → Panel
set_loaded none p = p
set_loaded (some f) p = record p { loaded = some f }

abbrev set_lcd : Option (Option String) → Panel → Panel
set_lcd none p = p
set_lcd (some mac) p = record p { lcd_permanent = mac }

unfoldable pub command_answered : Option (Option String) → CmdReply → Panel → Panel
command_answered shows (CmdReply.ok f) p =
    set_lcd shows (set_loaded f (record p { modal_locked = false }))
command_answered shows _ p = record p { modal_locked = false }

unfoldable pub command_done : ℕ → Option (Option String) → CmdReply → Panel → Panel × List Task
unfolding command_answered
command_done token shows r p = (if token == p.op then command_answered shows r p else p, [])

-- A verified write is merged into `_loaded`, which the editor had; the modal is drawn anew.
abbrev merge_config : Config → Option Fields → Option Fields
merge_config c none = none
merge_config c (some f) = some (record f { config = c })

unfoldable pub write_answered : WriteReply → Panel → Panel
write_answered (verified c) p = record p {
  loaded = merge_config c p.loaded;
  conn_timer = false;
  modal_locked = false;
}
write_answered unchanged p = record p { conn_timer = false; modal_locked = false }
write_answered _ p = record p { modal_locked = false }

unfoldable pub write_done : ℕ → WriteReply → Panel → Panel × List Task
unfolding write_answered
write_done token r p = (if token == p.op then write_answered r p else p, [])

-- `_closeModal` behind its question, whichever the answer.
unfoldable pub close_modal_asked : Panel → Panel
unfolding end_op
close_modal_asked p =
    record (end_op (record p { op = p.op + 1; modal_open = false; modal_locked = false })) {
      lcd_permanent = none;
    }

-- A task goes on with its answer.
unfoldable pub resume : (t : Task) → Answer t → Panel → Panel × List Task
unfolding scan_devices_done scan_backups_done start_read check_signal read_done command_done
    write_done close_modal_asked
resume (scan_devices token prev) r p = scan_devices_done token prev r p
resume (scan_backups token) r p = scan_backups_done token r p
resume (ask_unreachable mac tb) yes_to p = if yes_to then check_signal mac tb p else (p, [])
resume (ask_weak mac tb) yes_to p = if yes_to then start_read mac tb p else (p, [])
resume (read mac token tb) r p = read_done mac token r p
resume (command token shows) r p = command_done token shows r p
resume (write mac token) r p = write_done token r p
resume (ask_clear_lcd mac) r p = (close_modal_asked p, [])
resume (unmarked_read mac) r p = (p, [])
