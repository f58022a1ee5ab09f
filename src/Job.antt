-- ===== src/Job.antt =====
-- The bulk job of the backend (custom_components/telink_manager/bulk.py): `start`, the workers of `_run`
-- with their interleavings, `cancel`, `dismiss`, and what `_encrypt_one` makes of an answer. MAC addresses
-- are in upper case already. A worker is cut at its `await`; a device's own request raises nothing here, as
-- `_read_one` and `_encrypt_one` catch what it raises. The counts of snapshots are left out.
pub mod Account
pub mod Ends
pub mod Keys
mod Tests
use ha_telink_manager.Prelude.{
  ℕ, ◌+◌, Bool, true, false, not, ◌&&◌, Option, none, some, List, [], ◌∷◌, ◌++◌, map, String,
  if◌then◌else◌, str_eq, has, add, delete, ◌≡◌,
}

-- What a worker does: it was not run yet, it awaits the answer of a device, or its loop has ended.
pub data Worker : Type 0 where
  waiting : List String → Worker
  working : String → List String → Worker
  finished : Worker

-- What is left of a device: done, or the error that is listed.
pub data Outcome : Type 0 where
  fine : Outcome
  error : String → Outcome

pub record Result : Type 0 where
  pub total : ℕ
  pub ok : ℕ
  pub fail : ℕ
  pub failures : List (String × String)
  pub cancelled : Bool

-- The dictionary `j`, with the workers of its task.
pub record Job : Type 0 where
  pub active : Bool
  pub cancel : Bool
  pub total : ℕ
  pub done : ℕ
  pub ok : ℕ
  pub fail : ℕ
  pub running : List String
  pub failures : List (String × String)
  pub result : Option Result
  pub workers : List Worker

-- `groups_map.setdefault(proxy, []).append(mac)`.
unfoldable pub group : String → String → List (String × List String) → List (String × List String)
group proxy mac [] = (proxy, mac ∷ []) ∷ []
group proxy mac ((p, macs) ∷ groups) =
    let rest = group proxy mac groups in
    if str_eq p proxy then (p, macs ++ (mac ∷ [])) ∷ groups else (p, macs) ∷ rest

abbrev pub proxy_of : String → String
proxy_of p = if str_eq p "" then "—" else p

-- The loop over `entries`, of MAC address and proxy: the groups, and how many MAC addresses there are.
unfoldable pub grouped :
    List (String × String) → List (String × List String) → ℕ → List (String × List String) × ℕ
unfolding group
grouped [] groups n = (groups, n)
grouped ((mac, proxy) ∷ entries) groups n =
    if str_eq mac ""
    then grouped entries groups n
    else grouped entries (group (proxy_of proxy) mac groups) (n + 1)

abbrev pub fresh : List (String × List String) → ℕ → Job
fresh groups n = record {
  active = true;
  cancel = false;
  total = n;
  done = 0;
  ok = 0;
  fail = 0;
  running = [];
  failures = [];
  result = none;
  workers = map (λ (g : String × List String). waiting g.1) groups;
}

abbrev pub is_active : Option Job → Bool
is_active none = false
is_active (some j) = j.active

abbrev pub started : List (String × List String) × ℕ → Option Job
started ([], n) = none
started (g ∷ groups, n) = some (fresh (g ∷ groups) n)

-- `start`: the new job, unless one runs or there are no devices.
unfoldable pub start : Option Job → List (String × String) → Option Job
unfolding grouped
start old entries = if is_active old then none else started (grouped entries [] 0)

-- The head of a worker's loop.
unfoldable pub next : Bool → List String → Worker
next cancelled [] = finished
next cancelled (mac ∷ devs) = if cancelled then finished else working mac devs

abbrev pub entered : Worker → List String → List String
entered (working mac devs) running = add mac running
entered _ running = running

-- The part of the loop behind the `await`.
abbrev pub counted : String → Outcome → Job → Job
counted mac fine j = record j { running = delete mac j.running; done = j.done + 1; ok = j.ok + 1 }
counted mac (error e) j = record j {
  running = delete mac j.running;
  done = j.done + 1;
  fail = j.fail + 1;
  failures = j.failures ++ ((mac, e) ∷ []);
}

abbrev pub result_of : Job → Result
result_of j = record {
  total = j.total;
  ok = j.ok;
  fail = j.fail;
  failures = j.failures;
  cancelled = j.cancel;
}

-- One step of one worker, up to its next `await`; the two lists are the workers before and after it.
abbrev pub put_worker : List Worker → Worker → List Worker → Job → Job
put_worker before w after j = record j {
  running = entered w j.running;
  workers = before ++ (w ∷ after);
}

-- `_run` after `gather`.
unfoldable pub end_job : Job → Job
end_job j = record j { result = some (result_of j); active = false }

unfoldable pub cancel_job : Job → Job
cancel_job j = if j.active then record j { cancel = true } else j

unfoldable pub dismiss : Job → Job
dismiss j = if j.active then j else record j { result = none }

abbrev pub AllFinished : List Worker → Type 0
AllFinished [] = Unit {0}
AllFinished (w ∷ ws) = (w ≡ finished) × AllFinished ws

-- What the job's task does: a worker runs for the first time, a device answers, or all workers are through.
pub data Work : Job → Job → Type 0 where
  begins :
      {j : Job} (before after : List Worker) (devs : List String)
      → j.workers ≡ before ++ (waiting devs ∷ after)
      → Work j (put_worker before (next j.cancel devs) after j)
  answers :
      {j : Job} (before after : List Worker) (mac : String) (devs : List String) (o : Outcome)
      → j.workers ≡ before ++ (working mac devs ∷ after)
      → Work j (put_worker before (next j.cancel devs) after (counted mac o j))
  ends : {j : Job} → j.active ≡ true → AllFinished j.workers → Work j (end_job j)

-- The requests of a panel come in between.
pub data Step : Job → Job → Type 0 where
  works : {j k : Job} → Work j k → Step j k
  cancels : {j : Job} → Step j (cancel_job j)
  dismisses : {j : Job} → Step j (dismiss j)

pub data Reach (j : Job) : Job → Type 0 where
  here : Reach j j
  there : {k l : Job} → Reach j k → Step k l → Reach j l

-- What happened to Home Assistant's entry.
pub data Ha : Type 0 where
  updated no_entry not_bthome failed : Ha

-- The answer of `gatt.async_set_encryption`; `bind_key` is there whenever the call enables and is `ok`.
pub record Encrypted : Type 0 where
  pub ok : Bool
  pub maybe_changed : Bool
  pub bind_key : Option String
  pub ha : Ha
  pub message : String

-- A reason of an entry of `manual`.
pub data Why : Type 0 where
  unsure : Why
  not_applied : Ha → Why

abbrev pub is_updated : Ha → Bool
is_updated updated = true
is_updated _ = false

abbrev pub is_failed : Ha → Bool
is_failed failed = true
is_failed _ = false

abbrev pub listed : Option String → Why → List (String × Why)
listed none why = []
listed (some key) why = (key, why) ∷ []

-- `r.get("error") or "failed"`.
abbrev pub message_or_failed : String → String
message_or_failed s = if str_eq s "" then "failed" else s

abbrev pub now_encrypting : String
now_encrypting =
    "now encrypting, but updating its BTHome entry failed; the key is listed below. Retry failed finishes it"

abbrev pub now_plain : String
now_plain = "now plain, but its BTHome entry still has the key; Retry failed finishes it"

-- `_encrypt_one`, of an answer: the outcome, and the keys that are added to `manual`.
unfoldable pub encrypt_one : Bool → Encrypted → Outcome × List (String × Why)
encrypt_one enable r =
    if r.maybe_changed
    then (error r.message, listed r.bind_key unsure)
    else if not r.ok
    then (error (message_or_failed r.message), [])
    else (
      if is_failed r.ha then error (if enable then now_encrypting else now_plain) else fine,
      if enable && not (is_updated r.ha) then listed r.bind_key (not_applied r.ha) else [],
    )
