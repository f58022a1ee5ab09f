-- ===== src/Restoring.antt =====
-- Putting a snapshot back (custom_components/telink_manager/gatt.py: `_cmd`, `_read_all_fields`,
-- `_with_client` and `async_restore`, for the snapshot of a thermometer). The values of the commands are the
-- bytes that are sent; how numbers and names are packed into them, and the texts that the device information
-- service is read for, are left out.
pub mod Parts
pub mod Keeping
pub mod Blocks
pub mod Flag
pub mod Through
mod Tests
use ha_telink_manager.Prelude.{
  ℕ, zero, suc, ◌==◌, ◌&&◌, leb, Bool, true, false, Option, none, some, List, [], ◌∷◌, ◌++◌, all,
  length, if◌then◌else◌, text_eq,
}
use ha_telink_manager.Blob.{Blob, of_bytes, to_bytes, parse, with_adv_crypto}
use ha_telink_manager.Writing.{
  Link, Reading, read_raw, compared_bytes, Failure, no_attempt, no_connectable, raised,
}
use ha_telink_manager.Restoring.Parts.{
  Part, config, device_name, comfort, bind_key, sensor, Done, Names, starts_with, payload_of,
  went_well, code_of,
}

-- What the stack has beside the requests of a `Link`: subscribing, the next notification that repeats a
-- request's code, which may not come in time, unsubscribing, and whether the device is a repeater.
pub record Notices (W : Type 0) : Type 0 where
  pub subscribe : W → Bool × W
  pub notified : ℕ → W → Option (List ℕ) × W
  pub unsubscribe : W → W
  pub is_repeater : W → Bool

-- What is read before anything is written: the version, the block, and the answers to the commands, each
-- if there was one.
pub record Before : Type 0 where
  pub fw_byte : ℕ
  pub block : Blob
  pub name : Option (List ℕ)
  pub comfort : Option (List ℕ)
  pub time : Option (List ℕ)
  pub sensor : Option (List ℕ)
  pub bind_key : Option (List ℕ)

-- The parts that are asked for, with what the snapshot has for them: 11 bytes, the name, and the values of
-- the commands. A clone asks for no key but learns that it was refused.
pub record Wanted : Type 0 where
  pub config : Option Blob
  pub name : Option (List ℕ)
  pub comfort : Option (List ℕ)
  pub bind_key : Option (List ℕ)
  pub refuse_key : Bool
  pub sensor : Option (List ℕ)

pub data Reply : Type 0 where
  kind_mismatch : Reply
  parts : List Done → Option Before → Reply

-- What a caller of `_with_client` gets.
pub data Answer : Type 0 where
  returned : Reply → Answer
  unreached : Failure → (reached : Bool) → Answer

module _ {W : Type 0} (link : Link W) (notices : Notices W) (names : Names) where
  -- `_cmd`; `none` is an exception.
  abbrev pub fallback : ℕ → Option (List ℕ) × W → Option (List ℕ) × W
  fallback code (none, w) = (none, w)
  fallback code (some raw, w) = (some (if starts_with code raw then raw else []), w)

  abbrev pub awaited : ℕ → Option (List ℕ) × W → Option (List ℕ) × W
  awaited code (none, w) = fallback code (link.receive w)
  awaited code (some raw, w) = (some raw, w)

  abbrev pub command_sent : ℕ → Bool × W → Option (List ℕ) × W
  command_sent code (false, w) = (none, w)
  command_sent code (true, w) = awaited code (notices.notified code w)

  abbrev pub unsubscribed : Option (List ℕ) × W → Option (List ℕ) × W
  unsubscribed (o, w) = (o, notices.unsubscribe w)

  abbrev pub subscribed : ℕ → List ℕ → Bool × W → Option (List ℕ) × W
  subscribed code payload (false, w) = (none, w)
  subscribed code payload (true, w) =
      unsubscribed (command_sent code (link.send (code ∷ payload) w))

  unfoldable pub cmd : ℕ → List ℕ → W → Option (List ℕ) × W
  cmd code payload w = subscribed code payload (notices.subscribe w)

  -- The reads behind the block do not raise.
  abbrev pub with_commands : ℕ × Blob → W → Option Before × W
  with_commands current w =
      let name = cmd 0x01 [] w in
      let comfort = cmd 0x20 [] name.1 in
      let time = cmd 0x23 [] comfort.1 in
      let sensor = cmd 0x25 [] time.1 in
      let bind_key = cmd 0x18 [] sensor.1 in
      (
        some (record {
          fw_byte = current.0;
          block = current.1;
          name = name.0;
          comfort = comfort.0;
          time = time.0;
          sensor = sensor.0;
          bind_key = bind_key.0;
        }),
        bind_key.1,
      )

  abbrev pub read_all : Reading link → Option Before × W
  read_all (none, w) = (none, w)
  read_all (some current, w) = with_commands current w

  -- The block that is read back, beside the one that was sent.
  abbrev pub config_kept : Blob → Reading link → Option (List Done) × W
  config_kept target (none, w) = (none, w)
  config_kept target (some after, w) =
      (some ((config, text_eq (compared_bytes after.1) (compared_bytes target)) ∷ []), w)

  abbrev pub config_sent : Blob → Bool × W → Option (List Done) × W
  config_sent target (false, w) = (none, w)
  config_sent target (true, w) = config_kept target (read_raw link w)

  -- The flag of the encryption stays the device's own.
  abbrev pub config_built : Option Blob → W → Option (List Done) × W
  config_built none w = (none, w)
  config_built (some target) w = config_sent target (link.send (0x55 ∷ to_bytes target) w)

  abbrev pub put_config : Option Blob → Option Before → W → Option (List Done) × W
  put_config none before w = (some [], w)
  put_config (some blob) none w = (some ((config, false) ∷ []), w)
  put_config (some blob) (some b) w =
      config_built (with_adv_crypto 0 (parse b.fw_byte b.block).adv_crypto blob) w

  abbrev pub put_judged : Part → List ℕ → Option (List ℕ) × W → Option (List Done) × W
  put_judged p value (none, w) = (none, w)
  put_judged p value (some raw, w) = (some ((p, went_well names p value raw) ∷ []), w)

  abbrev pub put : Part → Option (List ℕ) → W → Option (List Done) × W
  put p none w = (some [], w)
  put p (some value) w = put_judged p value (cmd (code_of p) (payload_of names p value) w)

  abbrev pub put_key : Bool → Option (List ℕ) → W → Option (List Done) × W
  put_key true key w = (some ((bind_key, false) ∷ []), w)
  put_key false key w = put bind_key key w

  -- The next part, unless an exception has ended the restore.
  abbrev pub before_that : List Done → Option (List Done) × W → Option (List Done) × W
  before_that done (none, w) = (none, w)
  before_that done (some more, w) = (some (done ++ more), w)

  abbrev pub next_part :
      (W → Option (List Done) × W) → Option (List Done) × W → Option (List Done) × W
  next_part f (none, w) = (none, w)
  next_part f (some done, w) = before_that done (f w)

  abbrev pub put_all : Wanted → Option Before → W → Option (List Done) × W
  put_all wanted before w = next_part (put sensor wanted.sensor) (
      next_part (put_key wanted.refuse_key wanted.bind_key) (
        next_part (put comfort wanted.comfort)
          (next_part (put device_name wanted.name) (put_config wanted.config before w))))

  abbrev pub restored : Option Before → Option (List Done) × W → Option Reply × W
  restored before (none, w) = (none, w)
  restored before (some done, w) = (some (parts done before), w)

  abbrev pub with_before : Wanted → Option Before × W → Option Reply × W
  with_before wanted (before, w) = restored before (put_all wanted before w)

  unfoldable pub restore_fn : Wanted → W → Option Reply × W
  restore_fn wanted w =
      if notices.is_repeater w
      then (some kind_mismatch, w)
      else with_before wanted (read_all (read_raw link w))

  -- An attempt that ended in an exception is followed by another.
  abbrev pub done_or : (Failure → Bool → W → Answer × W) → Option Reply × W → Answer × W
  done_or again (none, w) = again raised true (link.disconnect w)
  done_or again (some r, w) = (returned r, link.disconnect w)

  abbrev pub client_connected : Wanted → (Failure → Bool → W → Answer × W) → Bool × W → Answer × W
  client_connected wanted again (false, w) = again raised false w
  client_connected wanted again (true, w) = done_or again (restore_fn wanted w)

  abbrev pub client_found : Wanted → (Failure → Bool → W → Answer × W) → Bool × W → Answer × W
  client_found wanted again (false, w) = again no_connectable false w
  client_found wanted again (true, w) = client_connected wanted again (link.connect w)

  unfoldable pub with_client : Wanted → ℕ → Failure → Bool → W → Answer × W
  with_client wanted zero e reached w = (unreached e reached, w)
  with_client wanted (suc n) e reached w = client_found wanted (with_client wanted n) (link.find w)

  -- `async_restore`, for parts that are in the snapshot and a block that is not too short.
  abbrev pub async_restore : Wanted → W → Answer × W
  async_restore wanted w = with_client wanted 2 no_attempt false w
