-- ===== src/Html/Tests.antt =====
-- Escaping on concrete texts.
use ha_telink_manager.Prelude.{some, true, false, ◌++◌, codes, All, ◌≡◌, ◌↔◌}
use ha_telink_manager.Html.{Text, esc_html, mstatus, name_set_line, or_default, clock_note}
use ha_telink_manager.Html.Safety.{IsPlain, shown}
use ha_telink_manager.Html.Twice.{shown-name_set_line}

abbrev tag : Text
tag = codes "<b title=\"it's\">&amp;</b>"

abbrev renamed : Text
renamed = codes "A&B"

shown-name_set_line_example :
    (shown (mstatus (name_set_line renamed (some true)) false)
      ≡ codes "✅ Device name set: " ++ (or_default (esc_html renamed) ++ clock_note (some true)))
    × ((shown (mstatus (name_set_line renamed (some true)) false)
          ≡ codes "✅ Device name set: " ++ (or_default renamed ++ clock_note (some true)))
        ↔ All IsPlain renamed)
shown-name_set_line_example = shown-name_set_line renamed (some true)
