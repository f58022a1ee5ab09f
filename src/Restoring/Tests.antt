-- ===== src/Restoring/Tests.antt =====
-- A restore whose first attempt is cut off behind the configuration.
use ha_telink_manager.Prelude.{true, false, Option, none, some, [], ◌∷◌, ◌≡◌, refl}
use ha_telink_manager.Blob.{Blob, bit, of_bytes, to_bytes, parse, with_adv_crypto}
use ha_telink_manager.Writing.{read_rounds, config_answer}
use ha_telink_manager.Writing.Bench.{
  Bench, passes, lost, device, lossy, device-IsBlob, lossy-IsLinked, lossy_commanding, reliable,
  reliable-IsReliable, blob,
}
use ha_telink_manager.Restoring.{
  Notices, Wanted, parts, Answer, returned, cmd, restore_fn, with_client, async_restore,
}
use ha_telink_manager.Restoring.Parts.{Names}
use ha_telink_manager.Restoring.Keeping.{IsQuiet, flagged}
use ha_telink_manager.Restoring.Through.{IsAnswering, IsComplete, async_restore-IsComplete}
use ha_telink_manager.Restoring.Flag.{IsKeptBy, async_restore-IsKeptBy}

-- A device that echoes a request.
abbrev notices : Notices Bench
notices = record {
  subscribe = λ w. (true, w);
  notified = λ code w. (some (code ∷ 0 ∷ 0 ∷ 0 ∷ 0 ∷ 0 ∷ 0 ∷ 0 ∷ 0 ∷ []), w);
  unsubscribe = λ w. w;
  is_repeater = λ w. false;
}

quiet : IsQuiet lossy notices device
quiet = record {
  subscribing = λ w. refl;
  notifying = λ code w. refl;
  unsubscribing = λ w. refl;
  commanding = lossy_commanding;
}

abbrev names : Names
names = record { encode = λ s. s; decode = λ s. s }

abbrev bench : Bench
bench = (blob, passes ∷ lost ∷ [])

-- The device encrypts, and keeps doing so; the snapshot's block does not.
abbrev old_block : Blob
old_block = device (record blob { adv_interval = 80; flg2 = 16 }, [])

abbrev wanted : Wanted
wanted = record {
  config = some old_block;
  name = none;
  comfort = some (1 ∷ 2 ∷ 3 ∷ 4 ∷ 5 ∷ 6 ∷ 7 ∷ 8 ∷ []);
  bind_key = none;
  refuse_key = false;
  sensor = none;
}

abbrev saved_block : Answer → Option Blob
saved_block (returned (parts done (some b))) = some b.block
saved_block _ = none

-- The second attempt takes its copy from the device that the first has written to.
copy_too_late :
    saved_block (async_restore lossy notices names wanted bench).0 ≡ some (flagged true old_block)
unfolding with_client restore_fn cmd read_rounds config_answer of_bytes to_bytes parse
    with_adv_crypto
copy_too_late = refl

async_restore-IsKeptBy_example :
    IsKeptBy
      (bit 3 (device bench).flg2)
      (some old_block)
      (device (async_restore lossy notices names wanted bench).1)
      (async_restore lossy notices names wanted bench).0
async_restore-IsKeptBy_example =
    async_restore-IsKeptBy lossy notices names 0x56 device lossy-IsLinked quiet wanted bench
      (device-IsBlob (record blob { adv_interval = 80; flg2 = 16 }, []))

answering : IsAnswering notices
answering = record {
  subscribes = λ w. refl;
  notifies = λ code w. (code ∷ 0 ∷ 0 ∷ 0 ∷ 0 ∷ 0 ∷ 0 ∷ 0 ∷ 0 ∷ [], refl);
  thermometer = λ w. refl;
}

async_restore-IsComplete_example :
    IsComplete 0x56 (device bench) (async_restore reliable notices names wanted bench).0
async_restore-IsComplete_example =
    async_restore-IsComplete reliable notices names 0x56 device reliable-IsReliable answering wanted
      old_block (device-IsBlob (record blob { adv_interval = 80; flg2 = 16 }, [])) refl bench
