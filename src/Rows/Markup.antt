-- ===== src/Rows/Markup.antt =====
-- What is seen of a page of rows, and its markup.
use ha_telink_manager.Prelude.{
  ℕ, ◌==◌, Bool, true, not, ◌&&◌, all, List, [], ◌∷◌, ◌++◌, codes, ◌≡◌, refl, arith, ap, sym, subst,
  ◌∙◌, All, Bool-cases, inl, inr, append-nil, append_assoc,
}
use ha_telink_manager.Html.{Text, replace_all, esc_html}
use ha_telink_manager.Html.Safety.{IsInert, IsPlain, esc_html-IsInert, shown, shown-esc_html_append}
use ha_telink_manager.Html.Twice.{esc_html-eq_iff}
use ha_telink_manager.Rows.{Piece, heading, row, dimmed, gap, render, render_all, page, if_any}
use ha_telink_manager.Rows.Places.{
  in_text, is_text, is_markup, kept, ends, seen, markup, Reads, parts, join, text_part, titled_part,
  title_frame,
}

-- What is seen of a piece before its references are read, and its markup.
abbrev escaped : Piece → Text
escaped (heading s) = s ++ []
escaped (row lab tip val note) = lab ++ (esc_html val ++ (gap val note ++ (esc_html note ++ [])))

abbrev pub note_frame : Text → Text
note_frame [] = []
note_frame (c ∷ s) = codes "<span class=\"\"></span>"

abbrev pub frame : (Text → Text) → Piece → Text
frame tips (heading s) = codes "<h3></h3>"
frame tips (row lab tip val note) =
    codes "<div class=\"\"><span class=\"\""
    ++ (title_frame (tips tip) ++ (codes "></span><b>" ++ (note_frame note ++ codes "</b></div>")))

esc_part : (s : Text) → Reads in_text (esc_html s) (esc_html s) [] in_text
esc_part s = text_part (esc_html s) (esc_html-IsInert s)

dimmed_part : (s : Text) → Reads in_text (dimmed s) (esc_html s) (note_frame s) in_text
unfolding kept ends
dimmed_part [] = unfold esc_html replace_all in parts refl refl refl
dimmed_part (c ∷ s) =
    subst (λ w. Reads in_text (dimmed (c ∷ s)) w (note_frame (c ∷ s)) in_text)
      (append-nil (esc_html (c ∷ s)))
      (join {s = codes "<span class=\"muted\">"} (parts refl refl refl)
        (join (esc_part (c ∷ s)) (parts refl refl refl)))

gap_part : (val note : Text) → Reads in_text (gap val note) (gap val note) [] in_text
unfolding kept ends
gap_part [] note = parts refl refl refl
gap_part (c ∷ val) [] = parts refl refl refl
gap_part (c ∷ val) (d ∷ note) = parts refl refl refl

-- The labels and headings are texts of the source.
pub IsLabelled : Piece → Type 0
IsLabelled (heading s) = All IsPlain s
IsLabelled (row lab tip val note) = All IsPlain lab

plain-IsInert : (s : Text) → All IsPlain s → All IsInert s
plain-IsInert [] h = tt
plain-IsInert (c ∷ s) ((a, b, d, q, p), hs) = ((b, d, q, p), plain-IsInert s hs)

plain_part : (s : Text) → All IsPlain s → Reads in_text s s [] in_text
plain_part s h = text_part s (plain-IsInert s h)

render_part :
    (tips : Text → Text) (p : Piece)
    → IsLabelled p
    → Reads in_text (render tips p) (escaped p) (frame tips p) in_text
unfolding kept ends IsLabelled
render_part tips (heading s) h =
    join {s = codes "<h3>"} (parts refl refl refl) (join (plain_part s h) (parts refl refl refl))
render_part tips (row lab tip val note) h =
    join {s = codes "<div class=\"fld\"><span class=\"lab\""} (parts refl refl refl) (
      join (titled_part (tips tip)) (
        join {s = codes ">"} (parts refl refl refl) (
          join (plain_part lab h) (
            join {s = codes "</span><b>"} (parts refl refl refl) (
              join (esc_part val)
                (join (gap_part val note) (join (dimmed_part note) (parts refl refl refl))))))))

-- Something of each piece, one behind the other.
abbrev pub each : (Piece → Text) → List Piece → Text
each g [] = []
each g (p ∷ ps) = g p ++ each g ps

render_all_part :
    (tips : Text → Text) (ps : List Piece)
    → All IsLabelled ps
    → Reads in_text (render_all tips ps) (each escaped ps) (each (frame tips) ps) in_text
unfolding kept ends
render_all_part tips [] h = parts refl refl refl
render_all_part tips (p ∷ ps) (h, hs) = join (render_part tips p h) (render_all_part tips ps hs)

-- What a reader sees of a piece.
abbrev pub words : Piece → Text
words (heading s) = s
words (row lab tip val note) = lab ++ (val ++ (gap val note ++ note))

shown-plain : (s r : Text) → All IsPlain s → shown (s ++ r) ≡ s ++ shown r
shown-plain s r h =
    ap (λ t. shown (t ++ r)) (sym ((esc_html-eq_iff s).1 h)) ∙ shown-esc_html_append s r

shown-gap : (val note r : Text) → shown (gap val note ++ r) ≡ gap val note ++ shown r
unfolding shown
shown-gap [] note r = refl
shown-gap (c ∷ val) [] r = refl
shown-gap (c ∷ val) (d ∷ note) r = refl

shown-escaped : (p : Piece) (r : Text) → IsLabelled p → shown (escaped p ++ r) ≡ words p ++ shown r
unfolding IsLabelled
shown-escaped (heading s) r h = rw (append-nil s) (shown-plain s r h)
shown-escaped (row lab tip val note) r h =
    simp (append_assoc, append-nil)
      (shown-plain lab _ h
        ∙ ap (λ t. lab ++ t)
            (shown-esc_html_append val _
              ∙ ap (λ t. val ++ t)
                  (shown-gap val note _
                    ∙ ap (λ t. gap val note ++ t) (shown-esc_html_append note r))))

shown-each : (ps : List Piece) → All IsLabelled ps → shown (each escaped ps ++ []) ≡ each words ps
shown-each [] h = unfold shown in refl
shown-each (p ∷ ps) (h, hs) =
    ap shown (append_assoc (escaped p) (each escaped ps) [])
    ∙ shown-escaped p (each escaped ps ++ []) h
    ∙ ap (λ t. words p ++ t) (shown-each ps hs)

-- The same, as a test.
abbrev pub is_plain : ℕ → Bool
is_plain c =
    not (c == b'&')
    && (not (c == b'<') && (not (c == b'>') && (not (c == b'"') && not (c == b'\''))))

abbrev pub is_labelled : Piece → Bool
is_labelled (heading s) = all is_plain s
is_labelled (row lab tip val note) = all is_plain lab

IsPlain-sound : (s : Text) → all is_plain s ≡ true → All IsPlain s
IsPlain-sound [] h = tt
IsPlain-sound (c ∷ s) h = elim (Bool-cases (is_plain c)) [
  | inl e ↦ (ground (arith, e), IsPlain-sound s (ground (arith, e, h)))
  | inr e ↦ absurd (ground (arith, e, h))
]

IsLabelled-sound : (ps : List Piece) → all is_labelled ps ≡ true → All IsLabelled ps
unfolding IsLabelled
IsLabelled-sound [] h = tt
IsLabelled-sound (heading s ∷ ps) h = elim (Bool-cases (all is_plain s)) [
  | inl e ↦ (IsPlain-sound s e, IsLabelled-sound ps (ground (arith, e, h)))
  | inr e ↦ absurd (ground (arith, e, h))
]
IsLabelled-sound (row lab tip val note ∷ ps) h = elim (Bool-cases (all is_plain lab)) [
  | inl e ↦ (IsPlain-sound lab e, IsLabelled-sound ps (ground (arith, e, h)))
  | inr e ↦ absurd (ground (arith, e, h))
]

pub if_any_labelled :
    (s : Text) (p : Piece) → is_labelled p ≡ true → all is_labelled (if_any s p) ≡ true
if_any_labelled [] p h = refl
if_any_labelled (c ∷ s) p h = rw (h) refl

pub all-append :
    (xs ys : List Piece)
    → all is_labelled xs ≡ true
    → all is_labelled ys ≡ true
    → all is_labelled (xs ++ ys) ≡ true
all-append [] ys h k = k
all-append (x ∷ xs) ys h k = elim (Bool-cases (is_labelled x)) [
  | inl e ↦ rw (e) (all-append xs ys (ground (arith, e, h)) k)
  | inr e ↦ absurd (ground (arith, e, h))
]

-- What is seen of a page, and its markup: whatever the values, the notes and the help texts are.
abbrev pub page_frame : (Text → Text) → List Piece → Text
page_frame tips ps = codes "<div class=\"\">" ++ (each (frame tips) ps ++ codes "</div>")

pub page_lem :
    (tips : Text → Text) (ps : List Piece)
    → all is_labelled ps ≡ true
    → (seen (page tips ps) ≡ each words ps) × (markup (page tips ps) ≡ page_frame tips ps)
unfolding seen markup page kept ends
page_lem tips ps h' = go (
    join {s = codes "<div class=\"ro\">"} (parts refl refl refl)
      (join (render_all_part tips ps h) (parts refl refl refl)))
  where
    h : All IsLabelled ps
    h = IsLabelled-sound ps h'

    go :
        Reads in_text
          (codes "<div class=\"ro\">" ++ (render_all tips ps ++ codes "</div>"))
          (each escaped ps ++ [])
          (page_frame tips ps)
          in_text
        → (shown (
              kept is_text in_text
                (codes "<div class=\"ro\">" ++ (render_all tips ps ++ codes "</div>")))
            ≡ each words ps)
          × (kept is_markup in_text
                (codes "<div class=\"ro\">" ++ (render_all tips ps ++ codes "</div>"))
              ≡ page_frame tips ps)
    go (parts a b c) = (ap shown a ∙ shown-each ps h, b)
