-- ===== src/Writing/Tests.antt =====
-- A device behind a link that raises and loses requests, and one behind a link that does not.
use ha_telink_manager.Prelude.{some, [], ◌∷◌, ◌≡◌, refl}
use ha_telink_manager.Blob.{
  Changes, layout_of, of_bytes, to_bytes, parse, build, put_flags, put_flags2,
}
use ha_telink_manager.Blob.Refused.{in_range}
use ha_telink_manager.Blob.Panel.{no_changes}
use ha_telink_manager.Writing.{config_answer, unchanged, async_write, attempts, read_rounds}
use ha_telink_manager.Writing.Bench.{
  Bench, lost, raises_late, device, lossy, reliable, reliable-IsReliable, blob,
}
use ha_telink_manager.Writing.Reliable.{is_ok, async_write-is_ok}

abbrev quiet : Changes
quiet = record no_changes { smiley = some 5; adv_interval_raw = some (some 80) }

-- The block is lost, then it is stored although the request raises, and then there is nothing to write.
abbrev bench : Bench
bench = (blob, lost ∷ raises_late ∷ [])

written_at_last :
    (async_write lossy quiet 3 bench).0
    ≡ unchanged (parse 0x56 (record blob { flg2 = 29; adv_interval = 80 }))
unfolding attempts read_rounds config_answer of_bytes to_bytes build parse layout_of put_flags
    put_flags2
written_at_last = refl

async_write-is_ok_example :
    is_ok (async_write reliable quiet 3 bench).0 ≡ in_range (layout_of 0x56) quiet
async_write-is_ok_example = async_write-is_ok reliable 0x56 device reliable-IsReliable quiet 2 bench
