-- ===== src/Editor/Tests.antt =====
-- A form in which the interval and the unit were changed, and one that has just been opened.
use ha_telink_manager.Prelude.{some, true, false, none, [], ◌≡◌, ◌≢◌, ◌↔◌, ◌⊎◌, arith}
use ha_telink_manager.Samples.{config, form}
use ha_telink_manager.Editor.{collect_changes}
use ha_telink_manager.Editor.Opening.{form_of, opening_saves_nothing}
use ha_telink_manager.Editor.Apply.{wanted}
use ha_telink_manager.Editor.Write.{write_all, write_all-collect_changes}

write_all-collect_changes_example :
    write_all (collect_changes form config) config ≡ some (wanted form config)
write_all-collect_changes_example = write_all-collect_changes form config

opening_saves_nothing_example :
    (collect_changes (form_of false config) config ≡ [])
    ↔ ((false ≡ true) ⊎ ((config.adv_delay_raw ≢ none) × (config.event_adv_cnt ≢ none)))
opening_saves_nothing_example = opening_saves_nothing false config (omega arith) (omega arith)
