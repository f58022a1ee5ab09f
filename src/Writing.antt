-- ===== src/Writing.antt =====
-- Writing the configuration block (custom_components/telink_manager/gatt.py: `_read_raw`, `async_write`).
-- The Bluetooth stack and the device are the parameter `Link`, whose state is passed along; the waits
-- between the requests and the texts of the errors are left out.
pub mod Reading
pub mod Bench
pub mod Building
pub mod Honest
pub mod Reliable
mod Tests
use ha_telink_manager.Prelude.{
  ℕ, zero, suc, ◌==◌, Bool, true, false, Option, none, some, List, [], ◌∷◌, if◌then◌else◌, text_eq,
}
use ha_telink_manager.Blob.{
  Blob, Parsed, Changes, Error, value_error, type_error, error_of, layout_of, of_bytes, to_bytes,
  parse, build,
}

-- The requests of the stack, with the state that each leaves behind; `false` and `none` are exceptions, in
-- `find` a device that no connectable proxy hears.
pub record Link (W : Type 0) : Type 0 where
  pub find : W → Bool × W
  pub connect : W → Bool × W
  pub send : List ℕ → W → Bool × W
  pub receive : W → Option (List ℕ) × W
  pub disconnect : W → W

-- A good answer to a request for the configuration has the request's code, the version byte and 11 bytes.
abbrev pub with_version : ℕ → Option Blob → Option (ℕ × Blob)
with_version fw none = none
with_version fw (some b) = some (fw, record b { tail = [] })

unfoldable pub config_answer : List ℕ → Option (ℕ × Blob)
config_answer (code ∷ fw ∷ bytes) = if code == 0x55 then with_version fw (of_bytes bytes) else none
config_answer _ = none

abbrev pub same_answer : ℕ × Blob → ℕ × Blob → Bool
same_answer (v, a) (w, b) = text_eq (v ∷ to_bytes a) (w ∷ to_bytes b)

-- The bytes that a write is verified by: all but byte 9, which the device sets itself.
abbrev pub compared_bytes : Blob → List ℕ
compared_bytes b =
    b.flg ∷ b.flg2 ∷ b.byte2 ∷ b.byte3 ∷ b.adv_interval ∷ b.measure_interval ∷ b.rf_tx_power
    ∷ b.connect_latency ∷ b.lcd_refresh ∷ b.averaging ∷ []

pub data Failure : Type 0 where
  no_attempt no_connectable raised : Failure

-- What the caller gets; `unreachable` says whether the device had answered.
pub data Reply : Type 0 where
  invalid : Reply
  unchanged : (current : Parsed) → Reply
  verified mismatch : (before after : Parsed) (target : Blob) → Reply
  unreachable : Failure → (reached : Bool) → Reply

-- What one attempt ends in.
pub data Outcome : Type 0 where
  replied : Reply → Outcome
  failed : Failure → (reached : Bool) → Outcome

module _ {W : Type 0} (link : Link W) where
  abbrev pub Reading : Type 0
  Reading = Option (ℕ × Blob) × W

  -- Two equal answers are needed; one that is no good is passed over.
  abbrev pub compared :
      (Option (ℕ × Blob) → W → Reading) → Option (ℕ × Blob) → Option (ℕ × Blob) → W → Reading
  compared again prev none w = again prev w
  compared again none (some cur) w = again (some cur) w
  compared again (some p) (some cur) w =
      if same_answer p cur then (some cur, w) else again (some cur) w

  abbrev pub received :
      (Option (ℕ × Blob) → W → Reading) → Option (ℕ × Blob) → Option (List ℕ) × W → Reading
  received again prev (none, w) = (none, w)
  received again prev (some raw, w) = compared again prev (config_answer raw) w

  abbrev pub asked : (Option (ℕ × Blob) → W → Reading) → Option (ℕ × Blob) → Bool × W → Reading
  asked again prev (false, w) = (none, w)
  asked again prev (true, w) = received again prev (link.receive w)

  unfoldable pub read_rounds : ℕ → Option (ℕ × Blob) → W → Reading
  read_rounds zero prev w = (none, w)
  read_rounds (suc n) prev w = asked (read_rounds n) prev (link.send (0x55 ∷ []) w)

  abbrev pub read_raw : W → Reading
  read_raw = read_rounds 6 none

  -- The block that is read back, beside the one that was sent.
  abbrev pub judged : ℕ → Blob → Blob → Reading → Outcome × W
  judged fw current target (none, w) = (failed raised true, w)
  judged fw current target (some after, w) =
      if text_eq (compared_bytes after.1) (compared_bytes target)
      then (replied (verified (parse fw current) (parse fw after.1) target), w)
      else (replied (mismatch (parse fw current) (parse fw after.1) target), w)

  abbrev pub sent : ℕ → Blob → Blob → Bool × W → Outcome × W
  sent fw current target (false, w) = (failed raised true, w)
  sent fw current target (true, w) = judged fw current target (read_raw w)

  -- Only a `ValueError` is caught there; a `TypeError` ends the attempt like a lost connection.
  abbrev pub refused : Option Error → W → Outcome × W
  refused (some type_error) w = (failed raised true, w)
  refused (some value_error) w = (replied invalid, w)
  refused none w = (replied invalid, w)

  abbrev pub built : ℕ → Blob → Changes → Option Blob → W → Outcome × W
  built fw current ch none w = refused (error_of (layout_of fw) ch) w
  built fw current ch (some target) w =
      if text_eq (to_bytes target) (to_bytes current)
      then (replied (unchanged (parse fw current)), w)
      else sent fw current target (link.send (0x55 ∷ to_bytes target) w)

  abbrev pub modified : Changes → Reading → Outcome × W
  modified ch (none, w) = (failed raised true, w)
  modified ch (some current, w) = built current.0 current.1 ch (build current.0 ch current.1) w

  abbrev pub disconnected : Outcome × W → Outcome × W
  disconnected (o, w) = (o, link.disconnect w)

  abbrev pub connected : Changes → Bool × W → Outcome × W
  connected ch (false, w) = (failed raised false, w)
  connected ch (true, w) = disconnected (modified ch (read_raw w))

  abbrev pub found : Changes → Bool × W → Outcome × W
  found ch (false, w) = (failed no_connectable false, w)
  found ch (true, w) = connected ch (link.connect w)

  abbrev pub unless_replied : (Failure → Bool → W → Reply × W) → Outcome × W → Reply × W
  unless_replied again (replied r, w) = (r, w)
  unless_replied again (failed e reached, w) = again e reached w

  -- The attempts that are left, with the last failure.
  unfoldable pub attempts : Changes → ℕ → Failure → Bool → W → Reply × W
  attempts ch zero e reached w = (unreachable e reached, w)
  attempts ch (suc n) e reached w = unless_replied (attempts ch n) (found ch (link.find w))

  abbrev pub async_write : Changes → ℕ → W → Reply × W
  async_write ch retries w = attempts ch retries no_attempt false w
