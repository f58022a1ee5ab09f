-- ===== src/Html.antt =====
-- HTML escaping (custom_components/telink_manager/www/telink-manager-panel.js): `escHtml`,
-- `_mstatus`, and the result line that `_runCmd` writes. A text is the list of its code points.
pub mod Safety
pub mod Twice
mod Tests
use ha_telink_manager.Prelude.{
  Option, none, some, true, false, ℕ, ◌==◌, if◌then◌else◌, Bool, true, false, List, [], ◌∷◌, ◌++◌,
  codes, Option, none, some,
}

abbrev pub Text : Type 0
Text = List ℕ

-- `s.replace(/c/g, by)` for a single character.
unfoldable pub replace_all : ℕ → Text → Text → Text
replace_all c by [] = []
replace_all c by (x ∷ s) = let rest = replace_all c by s in if x == c then by ++ rest else x ∷ rest

abbrev pub amp : Text
amp = codes "&amp;"

abbrev pub lt : Text
lt = codes "&lt;"

abbrev pub gt : Text
gt = codes "&gt;"

abbrev pub quot : Text
quot = codes "&quot;"

abbrev pub apos : Text
apos = codes "&#39;"

-- The five replacements, in the source's order.
unfoldable pub esc_html : Text → Text
esc_html s =
    replace_all b'\'' apos
      (replace_all b'"' quot (replace_all b'>' gt (replace_all b'<' lt (replace_all b'&' amp s))))

abbrev pub spinner : Text
spinner = codes "<span class=\"spinner\"></span>"

-- `_mstatus(t, busy)`: the markup that is put into `#m-status`.
unfoldable pub mstatus : Text → Bool → Text
mstatus t busy = (if busy then spinner else []) ++ esc_html t

-- `text || "(default)"`.
abbrev pub or_default : Text → Text
or_default [] = codes "(default)"
or_default (c ∷ s) = c ∷ s

-- What is said of the clock after a rename.
abbrev pub clock_note : (restored : Option Bool) → Text
clock_note none = []
clock_note (some false) =
    codes
      " ⚠\u{fe0f} The rename restarted the device and its clock could not be set back — use “Set clock”."
clock_note (some true) = codes " Clock re-applied after the restart."

-- The line that `_runCmd` shows for a rename that went well: its callback escapes the name, and
-- `_mstatus` escapes the line.
unfoldable pub name_set_line : Text → Option Bool → Text
name_set_line device_name restored =
    codes "✅ Device name set: " ++ (or_default (esc_html device_name) ++ clock_note restored)
