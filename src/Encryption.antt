-- ===== src/Encryption.antt =====
-- Turning the encrypted advertising on or off (custom_components/telink_manager/gatt.py:
-- `async_set_encryption` behind the check of the key and of the firmware's family). What the device answers
-- is an argument; keys are hex texts.
pub mod Confirmed
mod Tests
use ha_telink_manager.Prelude.{
  ℕ, ◌==◌, Bool, true, false, not, ◌&&◌, ◌||◌, Option, none, some, List, [], ◌∷◌, ◌++◌, String,
  if◌then◌else◌, str_eq,
}
use ha_telink_manager.Blob.{Blob, parse, with_adv_crypto}
use ha_telink_manager.Job.{Ha, not_bthome}

-- What comes of setting the key: an exception before it is sent, one behind that, or the answer's key.
pub data Echo : Type 0 where
  unsent lost : Echo
  echoed : Option String → Echo

-- What comes of writing the block: an exception before or behind the request, or none.
pub data BlockWrite : Type 0 where
  unsent_block lost_block wrote_block : BlockWrite

-- The answers of the device: the key it stores, setting the key, writing the block, and the flag and the
-- key of the read-back. `none` is a request that raises.
pub record Answers : Type 0 where
  pub stored : Option (Option String)
  pub echo : Echo
  pub block : BlockWrite
  pub after : Option (Bool × Option String)

-- What is sent to the device that changes it.
pub data Write : Type 0 where
  key_sent : String → Write
  block_sent : Blob → Write

-- What the caller gets: an exception, a refusal before anything is sent, `maybe_changed`, `ok` false, or
-- `ok`; the last three with the key, if any.
pub data Reply : Type 0 where
  raises refused : Reply
  maybe_changed not_kept done : Option String → Reply

abbrev pub same_key : Option String → Option String → Bool
same_key none none = true
same_key (some a) (some b) = str_eq a b
same_key _ _ = false

-- `ok`.
abbrev pub is_confirmed : Bool → Option String → Bool × Option String → Bool
is_confirmed enable key after =
    (if after.0 then enable else not enable) && (not enable || same_key after.1 key)

-- The read-back and what is made of it.
abbrev pub judged : Bool → Bool → Option String → Option (Bool × Option String) → Reply
judged touched enable key none = if touched then maybe_changed key else raises
judged touched enable key (some after) =
    if is_confirmed enable key after
    then done key
    else if touched
    then maybe_changed key
    else not_kept key

abbrev pub is_any : List Write → Bool
is_any [] = false
is_any (w ∷ ws) = true

-- The write of the block, behind `written`, and the read-back. One that raises counts as a touch even if
-- it was not sent.
abbrev pub write_block :
    Bool
    → Option String
    → Blob
    → Option (Bool × Option String)
    → List Write
    → BlockWrite
    → Reply × List Write
write_block enable key target after written unsent_block = (maybe_changed key, written)
write_block enable key target after written lost_block =
    (maybe_changed key, written ++ (block_sent target ∷ []))
write_block enable key target after written wrote_block =
    (judged true enable key after, written ++ (block_sent target ∷ []))

-- From `if target != current` on; `written` has what was sent so far.
abbrev pub put_block :
    Bool → Option String → Bool → Blob → Answers → List Write → Reply × List Write
put_block enable key changed target ans written =
    if changed
    then write_block enable key target ans.after written ans.block
    else (judged (is_any written) enable key ans.after, written)

-- Setting the key; a device may answer without echoing it.
abbrev pub put_key : String → Bool → Blob → Answers → Echo → Reply × List Write
put_key key changed target ans unsent = (maybe_changed (some key), [])
put_key key changed target ans lost = (maybe_changed (some key), key_sent key ∷ [])
put_key key changed target ans (echoed echo) =
    if same_key echo (some key)
    then put_block true (some key) changed target ans (key_sent key ∷ [])
    else (maybe_changed (some key), key_sent key ∷ [])

abbrev pub or_new : Option String → String → String
or_new none fresh = fresh
or_new (some key) fresh = key

-- The key to enable with: the given one, that of a device that encrypts already, or a new one.
abbrev pub enable_with :
    Option String
    → Bool
    → String
    → Bool
    → Blob
    → Answers
    → Option (Option String)
    → Reply × List Write
enable_with (some key) was fresh changed target ans stored = put_key key changed target ans ans.echo
enable_with none false fresh changed target ans stored = put_key fresh changed target ans ans.echo
enable_with none true fresh changed target ans none = (raises, [])
enable_with none true fresh changed target ans (some stored) =
    put_key (or_new stored fresh) changed target ans ans.echo

abbrev pub change_to :
    Bool → Option String → Bool → String → Bool → Answers → Option Blob → Reply × List Write
change_to enable want was fresh changed ans none = (refused, [])
change_to true want was fresh changed ans (some target) =
    enable_with want was fresh changed target ans ans.stored
change_to false want was fresh changed ans (some target) =
    put_block false none changed target ans []

-- `target != current`: only the byte with the flag can differ.
abbrev pub differs_from : Blob → Option Blob → Bool
differs_from current none = false
differs_from current (some target) = not (target.flg2 == current.flg2)

-- `fn`: whether to enable, the given key, the version byte, the block, and the key that would be new.
unfoldable pub set_encryption :
    Bool → Option String → ℕ → Blob → String → Answers → Reply × List Write
set_encryption enable want fw current fresh ans =
    change_to enable want (parse fw current).adv_crypto fresh
      (differs_from current (with_adv_crypto fw enable current)) ans
      (with_adv_crypto fw enable current)

-- Home Assistant's entry is changed behind an `ok` alone, where the device advertises BTHome: the key that
-- `async_sync_bthome` is called with, if it is.
abbrev pub synced_with : Bool → Option String → Option (Option String)
synced_with true key = some key
synced_with false key = none

unfoldable pub sync : Bool → Reply → Option (Option String)
sync is_bthome (done key) = synced_with is_bthome key
sync is_bthome _ = none
