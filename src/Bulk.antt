-- ===== src/Bulk.antt =====
-- Bulk jobs (custom_components/telink_manager/www/telink-manager-panel.js): the dialogs "Read all" and
-- "Encryption", the start of a job and the polling of its status. The job runs on the backend, which
-- answers the polls. The markup of the dialogs is left out.
pub mod Selection
pub mod Polling
mod Tests
use ha_telink_manager.Prelude.{
  ℕ, ◌+◌, ◌-◌, min, ltb, ◌==◌, ℤ, neg, negsuc, ltb_ℤ, Bool, true, false, not, ◌&&◌, ◌||◌, Option,
  none, some, List, [], ◌∷◌, String, if◌then◌else◌, str_eq, has, add, delete, lookup, insert,
  filter, length, map, find,
}
use ha_telink_manager.Device.{Device}
use ha_telink_manager.Signal.{Reach, signal_of}

pub data Preset : Type 0 where
  nobk all custom : Preset

abbrev pub below : Option ℤ → ℤ → Bool
below none th = false
below (some r) th = ltb_ℤ r th

abbrev pub snapshots : List (String × ℕ) → String → ℕ
snapshots counts mac = elim (lookup mac counts) [ none ↦ 0 | some n ↦ n ]

abbrev is_nobk : Preset → Bool
is_nobk nobk = true
is_nobk _ = false

-- The three early returns of `_raDefaultSel`.
abbrev pub is_picked : List (String × ℕ) → Preset → ℤ → Device → Bool
is_picked counts preset th d =
    d.connectable
    && (not (below d.rssi th) && not (is_nobk preset && ltb 0 (snapshots counts d.mac)))

-- `_raDefaultSel`, into a set that is there so far.
pick_all : List (String × ℕ) → Preset → ℤ → List Device → List String → List String
pick_all counts preset th [] sel = sel
pick_all counts preset th (d ∷ devs) sel =
    pick_all counts preset th devs (if is_picked counts preset th d then add d.mac sel else sel)

unfoldable pub ra_default_sel : List (String × ℕ) → Preset → ℤ → List Device → List String
unfolding pick_all
ra_default_sel counts preset th devs = pick_all counts preset th devs []

-- The dialog "Read all": `_raPreset`, `_raThreshold` and `_raSel`.
pub record ReadAll : Type 0 where
  pub preset : Preset
  pub threshold : ℤ
  pub sel : List String

abbrev pub minus_85 : ℤ
minus_85 = negsuc 84

-- `_openReadAllDialog`: `none` where a job runs or there are no devices.
abbrev opened : List (String × ℕ) → List Device → Option ReadAll
opened counts [] = none
opened counts (d ∷ devs) = some (record {
  preset = nobk;
  threshold = minus_85;
  sel = ra_default_sel counts nobk minus_85 (d ∷ devs);
})

unfoldable pub open_read_all : Bool → List (String × ℕ) → List Device → Option ReadAll
open_read_all bulk_active counts devs = if bulk_active then none else opened counts devs

-- A click on one of the two presets.
unfoldable pub choose_preset : List (String × ℕ) → List Device → Preset → ReadAll → ReadAll
choose_preset counts devs preset r = record r {
  preset = preset;
  sel = ra_default_sel counts preset r.threshold devs;
}

abbrev is_custom : Preset → Bool
is_custom custom = true
is_custom _ = false

-- The threshold's field; what `parseInt` cannot read is the default. A custom selection stays.
unfoldable pub choose_threshold : List (String × ℕ) → List Device → Option ℤ → ReadAll → ReadAll
choose_threshold counts devs v r =
    let th : ℤ = elim v [ none ↦ minus_85 | some t ↦ t ] in
    record r {
      threshold = th;
      sel = if is_custom r.preset then r.sel else ra_default_sel counts r.preset th devs;
    }

-- A device's checkbox.
abbrev pub toggled : Bool → String → List String → List String
toggled true mac sel = add mac sel
toggled false mac sel = delete mac sel

unfoldable pub pick : Bool → String → ReadAll → ReadAll
pick checked mac r = record r { sel = toggled checked mac r.sel; preset = custom }

-- The numbers that the dialog shows.
pub record Summary : Type 0 where
  pub chosen : ℕ
  pub skipped : ℕ
  pub unreachable : ℕ
  pub below_threshold : ℕ
  pub very_weak : ℕ

abbrev is_bad : Reach → Bool
is_bad Reach.bad = true
is_bad _ = false

abbrev pub chosen_of : List String → List Device → List Device
chosen_of sel devs = filter (λ (d : Device). has d.mac sel) devs

unfoldable pub summary : List Device → ReadAll → Summary
summary devs r = record {
  chosen = length (chosen_of r.sel devs);
  skipped = length devs - length (chosen_of r.sel devs);
  unreachable = length (filter (λ (d : Device). not d.connectable) devs);
  below_threshold = length (
      filter (λ (d : Device). d.connectable && (below d.rssi r.threshold && not (has d.mac r.sel)))
        devs);
  very_weak =
      length (filter (λ (d : Device). is_bad (signal_of d.rssi).tier) (chosen_of r.sel devs));
}

-- The dialog "Encryption": `_enEnable` and `_enSel`; it lists the devices that are no repeaters.
pub record Encrypt : Type 0 where
  pub enable : Bool
  pub sel : List String

abbrev fresh_encrypt : List Device → Option Encrypt
fresh_encrypt [] = none
fresh_encrypt (d ∷ devs) = some (record { enable = true; sel = [] })

unfoldable pub open_encrypt : Bool → List Device → Option Encrypt
open_encrypt bulk_active devs = if bulk_active then none else fresh_encrypt devs

unfoldable pub choose_mode : Bool → Encrypt → Encrypt
choose_mode enable e = record e { enable = enable }

unfoldable pub pick_encrypt : Bool → String → Encrypt → Encrypt
pick_encrypt checked mac e = record e { sel = toggled checked mac e.sel }

-- The rows whose checkbox can be pressed.
abbrev pub offered : List Device → List Device
offered devs = filter (λ (d : Device). not d.blethr && d.connectable) devs

-- The request that starts a job: the devices with their proxies, and for encryption the mode.
pub data Request : Type 0 where
  read_all : List (String × String) → Request
  encrypt_all : List (String × String) → Bool → Request

abbrev proxy_of : String → List Device → String
proxy_of mac devs = elim (find (λ (d : Device). str_eq d.mac mac) devs) [
  | none ↦ ""
  | some d ↦ d.proxy
]

unfoldable pub entries : List Device → List String → List (String × String)
entries devs macs = map (λ mac. (mac, proxy_of mac devs)) macs

-- `_startBulk`, up to its `await`: `encrypt` is the mode, where there is one.
abbrev pub request_for : Option Bool → List (String × String) → Request
request_for none es = read_all es
request_for (some enable) es = encrypt_all es enable

unfoldable pub start_bulk : List Device → List String → Option Bool → Option Request
unfolding entries
start_bulk devs [] encrypt = none
start_bulk devs (mac ∷ macs) encrypt = some (request_for encrypt (entries devs (mac ∷ macs)))

-- The status of the job: how far it is, and its result once it has ended.
pub record Progress : Type 0 where
  pub total : ℕ
  pub done : ℕ
  pub running : List String
  pub backups : List (String × ℕ)

pub record Result : Type 0 where
  pub encrypts : Bool
  pub enable : Bool
  pub cancelled : Bool
  pub failures : List (String × String)

pub record Status : Type 0 where
  pub active : Bool
  pub progress : Option Progress
  pub result : Option Result

-- What the polling keeps; `shown_result` is what the last poll put up, and `dismissed` that it asked
-- the backend to forget the result.
pub record Poller : Type 0 where
  pub status : Option Status
  pub result_shown : Bool
  pub polling : Bool
  pub backup_macs : List (String × ℕ)
  pub shown_result : Option Result
  pub dismissed : Bool

abbrev insert_all : List (String × ℕ) → List (String × ℕ) → List (String × ℕ)
insert_all [] m = m
insert_all ((mac, n) ∷ counts) m = insert_all counts (insert mac n m)

abbrev merged : Option Progress → List (String × ℕ) → List (String × ℕ)
merged none m = m
merged (some p) m = insert_all p.backups m

-- The result is put up where the job has ended with one that was not shown; whether drawing it goes
-- well is up to the page.
abbrev show_result : Bool → Bool → Option Result → Poller → Poller
show_result active draws none p = record p { shown_result = none; dismissed = false }
show_result active draws (some r) p =
    if not active && (not p.result_shown && draws)
    then record p { result_shown = true; shown_result = some r; dismissed = true }
    else record p { shown_result = none; dismissed = false }

abbrev is_none : Option Result → Bool
is_none none = true
is_none (some r) = false

-- `_stopBulkPolling`, under the last test of `_bulkPoll`.
abbrev stop_polling : Status → Poller → Poller
stop_polling st p = record p {
  polling = p.polling && not (not st.active && (is_none st.result || p.result_shown));
}

-- `_bulkPoll`; `none` is a request that failed.
unfoldable pub bulk_poll : Bool → Option Status → Poller → Poller
bulk_poll draws none p = p
bulk_poll draws (some st) p = stop_polling st (
    show_result st.active draws st.result
      (record p { status = some st; backup_macs = merged st.progress p.backup_macs }))

-- `_startBulk` of the poller: the mark is taken back before the request is awaited.
unfoldable pub bulk_requested : Poller → Poller
bulk_requested p = record p { result_shown = false }

-- Behind the `await`: whether the request went through.
unfoldable pub bulk_started : Bool → Poller → Poller
bulk_started went_through p = if went_through then record p { polling = true } else p

-- `_bulkActiveNow`.
abbrev pub bulk_active_now : Poller → Bool
bulk_active_now p = elim p.status [ none ↦ false | some st ↦ st.active ]

-- The strip: how many devices were started, the names that it lists and how many more there are.
unfoldable pub started : Progress → ℕ
started s = min s.total (s.done + length s.running)

-- `s.failures.map`, of the button "Retry failed", and the mode that it starts.
unfoldable pub retry : Result → List String × Option Bool
retry r =
    (map (λ (f : String × String). f.0) r.failures, if r.encrypts then some r.enable else none)
