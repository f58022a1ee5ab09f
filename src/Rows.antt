-- ===== src/Rows.antt =====
-- The page of a device that was read (custom_components/telink_manager/www/telink-manager-panel.js: the
-- helpers `t`, `row` and `h` of `_viewRows` and `_viewRowsBlethr`). The help texts are a function of their
-- key, with the empty text for a key that has none. The white space between two rows is left out.
pub mod Places
pub mod Markup
pub mod Thermometer
pub mod Repeating
mod Tests
use ha_telink_manager.Prelude.{Bool, if◌then◌else◌, List, [], ◌∷◌, ◌++◌, codes}
use ha_telink_manager.Html.{Text, quot, replace_all, esc_html}

-- A heading, or a row with its label, the key of its help text, its value and its dimmed note.
pub data Piece : Type 0 where
  heading : (s : Text) → Piece
  row : (lab tip val note : Text) → Piece

-- A row without a note.
abbrev pub plain_row : Text → Text → Text → Piece
plain_row lab tip val = row lab tip val []

-- A row that stands only where its text is there.
abbrev pub if_any : Text → Piece → List Piece
if_any [] p = []
if_any (c ∷ s) p = p ∷ []

abbrev pub yn : Bool → Text
yn b = if b then codes "yes" else codes "no"

-- `s || "—"`.
abbrev pub or_dash : Text → Text
or_dash [] = codes "—"
or_dash (c ∷ s) = c ∷ s

-- `t`: the attribute with the help text.
abbrev pub titled : Text → Text
titled [] = []
titled (c ∷ s) = codes " title=\"" ++ (replace_all b'"' quot (c ∷ s) ++ codes "\"")

-- `n`.
abbrev pub dimmed : Text → Text
dimmed [] = []
dimmed (c ∷ s) = codes "<span class=\"muted\">" ++ (esc_html (c ∷ s) ++ codes "</span>")

-- A space, if there are a value and a note.
abbrev pub gap : Text → Text → Text
gap [] note = []
gap (c ∷ val) [] = []
gap (c ∷ val) (d ∷ note) = codes " "

-- `h` and `row`.
abbrev pub render : (Text → Text) → Piece → Text
render tips (heading s) = codes "<h3>" ++ (s ++ codes "</h3>")
render tips (row lab tip val note) =
    codes "<div class=\"fld\"><span class=\"lab\""
    ++ (titled (tips tip)
        ++ (codes ">"
            ++ (lab
                ++ (codes "</span><b>"
                    ++ (esc_html val ++ (gap val note ++ (dimmed note ++ codes "</b></div>")))))))

abbrev pub render_all : (Text → Text) → List Piece → Text
render_all tips [] = []
render_all tips (p ∷ ps) = render tips p ++ render_all tips ps

unfoldable pub page : (Text → Text) → List Piece → Text
page tips ps = codes "<div class=\"ro\">" ++ (render_all tips ps ++ codes "</div>")
