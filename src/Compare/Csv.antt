-- ===== src/Compare/Csv.antt =====
-- Reading the exported file again: a reader of quoted fields, character by character.
use ha_telink_manager.Prelude.{
  ℕ, ◌==◌, Bool, true, false, Option, none, some, List, [], ◌∷◌, ◌++◌, append-nil, append_assoc,
  if◌then◌else◌, map, All, subst, ◌≡◌, refl, sym, ap, arith, ◌∙◌,
}
use ha_telink_manager.Html.{Text}
use ha_telink_manager.Compare.{
  Column, quote, doubled, esc, join, csv_line, csv_lines, cells, export_csv,
}

-- Where the reader is: before a field, inside one, behind a quote inside one, or between the two
-- characters that end a line; with the field, the line and the lines that it has read so far.
pub data Reader : Type 0 where
  before : (line : List Text) (lines : List (List Text)) → Reader
  inside behind : (field : Text) (line : List Text) (lines : List (List Text)) → Reader
  between : (lines : List (List Text)) → Reader
  broken : Reader

unfoldable pub take_in : Reader → ℕ → Reader
take_in (before line lines) c = if c == quote then inside [] line lines else broken
take_in (inside field line lines) c =
    if c == quote then behind field line lines else inside (field ++ (c ∷ [])) line lines
take_in (behind field line lines) c =
    if c == quote
    then inside (field ++ (quote ∷ [])) line lines
    else if c == b','
    then before (line ++ (field ∷ [])) lines
    else if c == 13
    then between (lines ++ ((line ++ (field ∷ [])) ∷ []))
    else broken
take_in (between lines) c = if c == 10 then before [] lines else broken
take_in broken c = broken

unfoldable pub feed : Reader → Text → Reader
unfolding take_in
feed r [] = r
feed r (c ∷ s) = feed (take_in r c) s

abbrev pub finish : Reader → Option (List (List Text))
finish (behind field line lines) = some (lines ++ ((line ++ (field ∷ [])) ∷ []))
finish _ = none

-- What the file holds, behind its byte order mark.
abbrev pub read_csv : Text → Option (List (List Text))
read_csv [] = none
read_csv (c ∷ s) = if c == 0xfeff then finish (feed (before [] []) s) else none

feed-append : (r : Reader) (s t : Text) → feed r (s ++ t) ≡ feed (feed r s) t
unfolding feed
feed-append r [] t = refl
feed-append r (c ∷ s) t = feed-append (take_in r c) s t

take_in_plain :
    (c : ℕ) (field : Text) (line : List Text) (lines : List (List Text))
    → (c == quote) ≡ false
    → take_in (inside field line lines) c ≡ inside (field ++ (c ∷ [])) line lines
unfolding take_in
take_in_plain c field line lines e = rw (e) refl

is_quote : (c : ℕ) → (c == quote) ≡ true → quote ≡ c
is_quote c e = ground arith

-- The reader undoes the doubling of the quotes.
feed-doubled :
    (s field : Text) (line : List Text) (lines : List (List Text))
    → feed (inside field line lines) (doubled s) ≡ inside (field ++ s) line lines
unfolding feed take_in doubled
feed-doubled [] field line lines = rw (append-nil field) refl
feed-doubled (c ∷ s) field line lines =
    go (λ x. feed-doubled s (field ++ (x ∷ [])) line lines) (c == quote) refl
  where
    go :
        ((x : ℕ)
          → feed (inside (field ++ (x ∷ [])) line lines) (doubled s)
            ≡ inside ((field ++ (x ∷ [])) ++ s) line lines)
        → (b : Bool) → (c == quote) ≡ b
        → feed (inside field line lines) (if b then quote ∷ quote ∷ doubled s else c ∷ doubled s)
          ≡ inside (field ++ (c ∷ s)) line lines
    go again true e =
        again quote
        ∙ ap (λ (f : Text). inside f line lines)
            (append_assoc field (quote ∷ []) s ∙ ap (λ (x : ℕ). field ++ (x ∷ s)) (is_quote c e))
    go again false e =
        ap (λ (r : Reader). feed r (doubled s)) (take_in_plain c field line lines e)
        ∙ (again c ∙ ap (λ (f : Text). inside f line lines) (append_assoc field (c ∷ []) s))

feed-esc :
    (s : Text) (line : List Text) (lines : List (List Text))
    → feed (before line lines) (esc s) ≡ behind s line lines
unfolding feed take_in
feed-esc s line lines =
    feed-append (inside [] line lines) (doubled s) (quote ∷ [])
    ∙ ap (λ (r : Reader). feed r (quote ∷ [])) (feed-doubled s [] line lines)

-- The reader is behind the last field of this line.
abbrev AtEnd : List Text → List (List Text) → Reader → Type 0
AtEnd whole lines r =
    (f : Text) × (l : List Text) × (r ≡ behind f l lines) × (l ++ (f ∷ []) ≡ whole)

feed-csv_line :
    (f : Text) (fs line : List Text) (lines : List (List Text))
    → AtEnd (line ++ (f ∷ fs)) lines (feed (before line lines) (csv_line (f ∷ fs)))
unfolding join feed take_in
feed-csv_line f [] line lines = (f, line, feed-esc f line lines, refl)
feed-csv_line f (g ∷ fs) line lines =
    let rest = b',' ∷ csv_line (g ∷ fs) in
    let p : feed (before line lines) (esc f ++ rest) ≡ feed (behind f line lines) rest =
      feed-append (before line lines) (esc f) rest
      ∙ ap (λ (r : Reader). feed r rest) (feed-esc f line lines) in
    subst (λ (r : Reader). AtEnd (line ++ (f ∷ g ∷ fs)) lines r) (sym p)
      (subst (λ (w : List Text). AtEnd w lines (feed (behind f line lines) rest))
        (append_assoc line (f ∷ []) (g ∷ fs)) (feed-csv_line g fs (line ++ (f ∷ [])) lines))

abbrev pub IsFilled : List Text → Type 0
IsFilled [] = ⊥
IsFilled (f ∷ fs) = Unit

feed-csv_lines :
    (row : List Text) (table lines : List (List Text))
    → IsFilled row
    → All IsFilled table
    → finish (feed (before [] lines) (csv_lines (row ∷ table))) ≡ some (lines ++ (row ∷ table))
unfolding join feed take_in
feed-csv_lines [] table lines h hs = absurd h
feed-csv_lines (f ∷ fs) [] lines h hs =
    let (g, l, p, q) = feed-csv_line f fs [] lines in
    ap finish p ∙ ap (λ (w : List Text). some (lines ++ (w ∷ []))) q
feed-csv_lines (f ∷ fs) (row ∷ table) lines h hs =
    let (g, l, p, q) = feed-csv_line f fs [] lines in
    let rest = csv_lines (row ∷ table) in
    ap finish (feed-append (before [] lines) (csv_line (f ∷ fs)) (13 ∷ 10 ∷ rest))
    ∙ (ap (λ (r : Reader). finish (feed r (13 ∷ 10 ∷ rest))) p
        ∙ (ap (λ (w : List Text). finish (feed (before [] (lines ++ (w ∷ []))) rest)) q
            ∙ (feed-csv_lines row table (lines ++ ((f ∷ fs) ∷ [])) hs.0 hs.1
                ∙ ap some (append_assoc lines ((f ∷ fs) ∷ []) (row ∷ table)))))

module _ {ℓ} {A : Type ℓ} where
  cells-IsFilled :
      (c : Column A) (cols : List (Column A)) (rows : List A) → All IsFilled (cells (c ∷ cols) rows)
  cells-IsFilled c cols [] = tt
  cells-IsFilled c cols (r ∷ rows) = (tt, cells-IsFilled c cols rows)

  -- The exported file of a matrix with a column reads back as the labels and the rows' values,
  -- whatever quotes, commas and line ends are in them.
  pub read_csv-export_csv :
      (c : Column A) (cols : List (Column A)) (rows : List A)
      → read_csv (export_csv (c ∷ cols) rows)
        ≡ some (map (λ (k : Column A). k.label) (c ∷ cols) ∷ cells (c ∷ cols) rows)
  unfolding export_csv
  read_csv-export_csv c cols rows =
      feed-csv_lines (map (λ (k : Column A). k.label) (c ∷ cols)) (cells (c ∷ cols) rows) [] tt
        (cells-IsFilled c cols rows)
