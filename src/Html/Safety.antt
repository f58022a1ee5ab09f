-- ===== src/Html/Safety.antt =====
-- Escaped text is inert markup, and a browser shows it as the text it was made from.
use ha_telink_manager.Prelude.{
  ℕ, zero, suc, ◌==◌, if◌then◌else◌, Bool, true, false, [], ◌∷◌, ◌++◌, ◌≡◌, ◌≢◌, refl, inl, inr,
  arith, All, All-append, Bool-cases, append_assoc, ◌&&◌, ap, sym, ◌∙◌,
}
use ha_telink_manager.Html.{Text, replace_all, esc_html, amp, lt, gt, quot, apos}

-- The characters with a meaning in HTML text or in a quoted attribute, but for `&`.
abbrev pub IsInert : ℕ → Type 0
IsInert x = (x ≢ b'<') × (x ≢ b'>') × (x ≢ b'"') × (x ≢ b'\'')

-- The characters that `escHtml` leaves alone.
abbrev pub IsPlain : ℕ → Type 0
IsPlain x = (x ≢ b'&') × (x ≢ b'<') × (x ≢ b'>') × (x ≢ b'"') × (x ≢ b'\'')

-- The specification: each character by itself.
unfoldable pub esc_char : ℕ → Text
esc_char x =
    if x == b'&'
    then amp
    else if x == b'<'
    then lt
    else if x == b'>'
    then gt
    else if x == b'"'
    then quot
    else if x == b'\''
    then apos
    else x ∷ []

pub data Kind (x : ℕ) : Type 0 where
  is_amp : x ≡ b'&' → Kind x
  is_lt : x ≡ b'<' → Kind x
  is_gt : x ≡ b'>' → Kind x
  is_quot : x ≡ b'"' → Kind x
  is_apos : x ≡ b'\'' → Kind x
  is_plain : IsPlain x → Kind x

pub kind : (x : ℕ) → Kind x
kind x = elim (Bool-cases (x == b'&')) [
  | inl h ↦ is_amp (ground arith)
  | inr h1 ↦ elim (Bool-cases (x == b'<')) [
    | inl h ↦ is_lt (ground arith)
    | inr h2 ↦ elim (Bool-cases (x == b'>')) [
      | inl h ↦ is_gt (ground arith)
      | inr h3 ↦ elim (Bool-cases (x == b'"')) [
        | inl h ↦ is_quot (ground arith)
        | inr h4 ↦ elim (Bool-cases (x == b'\'')) [
          | inl h ↦ is_apos (ground arith)
          | inr h5 ↦ is_plain (ground arith, ground arith, ground arith, ground arith, ground arith)
        ]
      ]
    ]
  ]
]

replace_all-append :
    (c : ℕ) (by xs ys : Text)
    → replace_all c by (xs ++ ys) ≡ replace_all c by xs ++ replace_all c by ys
unfolding replace_all
replace_all-append c by [] ys = refl
replace_all-append c by (x ∷ xs) ys = elim (Bool-cases (x == c)) [
  | inl h ↦ rw (h, replace_all-append c by xs ys) (sym (append_assoc by _ _))
  | inr h ↦ rw (h, replace_all-append c by xs ys)
]

pub esc_html-append : (xs ys : Text) → esc_html (xs ++ ys) ≡ esc_html xs ++ esc_html ys
unfolding esc_html
esc_html-append xs ys = simp replace_all-append

esc_html-singleton : (x : ℕ) → Kind x → esc_html (x ∷ []) ≡ esc_char x
unfolding esc_html replace_all esc_char
esc_html-singleton x (is_amp h) = rw h
esc_html-singleton x (is_lt h) = rw h
esc_html-singleton x (is_gt h) = rw h
esc_html-singleton x (is_quot h) = rw h
esc_html-singleton x (is_apos h) = rw h
esc_html-singleton x (is_plain h) = ground arith

pub esc_html-cons : (x : ℕ) (s : Text) → esc_html (x ∷ s) ≡ esc_char x ++ esc_html s
esc_html-cons x s =
    esc_html-append (x ∷ []) s ∙ ap (λ t. t ++ esc_html s) (esc_html-singleton x (kind x))

esc_char-IsInert : (x : ℕ) → Kind x → All IsInert (esc_char x)
unfolding esc_char
esc_char-IsInert x (is_amp h) = rw h (omega arith)
esc_char-IsInert x (is_lt h) = rw h (omega arith)
esc_char-IsInert x (is_gt h) = rw h (omega arith)
esc_char-IsInert x (is_quot h) = rw h (omega arith)
esc_char-IsInert x (is_apos h) = rw h (omega arith)
esc_char-IsInert x (is_plain h) = rw plain ((h.1, h.2, h.3, h.4), tt)
  where
    plain : esc_char x ≡ x ∷ []
    plain = ground arith

-- No character of an escaped text opens or closes a tag or ends a quoted attribute.
pub esc_html-IsInert : (s : Text) → All IsInert (esc_html s)
esc_html-IsInert [] = esc_html-nil
  where
    esc_html-nil : All IsInert (esc_html [])
    esc_html-nil = unfold esc_html replace_all in tt
esc_html-IsInert (x ∷ s) = rw (esc_html-cons x s) (
    All-append IsInert (esc_char x) (esc_html s) (esc_char-IsInert x (kind x)) (esc_html-IsInert s))

-- How a browser reads text: each of the five references stands for its character.
abbrev starts : Text → Text → Bool
starts [] s = true
starts (p ∷ ps) [] = false
starts (p ∷ ps) (x ∷ s) = x == p && starts ps s

-- The character that a text begins with, and how many characters of a reference are left.
abbrev first_char : ℕ → Text → ℕ × ℕ
first_char x s =
    if starts amp s
    then (b'&', 4)
    else if starts lt s
    then (b'<', 3)
    else if starts gt s
    then (b'>', 3)
    else if starts quot s
    then (b'"', 5)
    else if starts apos s
    then (b'\'', 4)
    else (x, 0)

read_from : ℕ → Text → Text
read_from n [] = []
read_from (suc n) (x ∷ s) = read_from n s
read_from zero (x ∷ s) = (first_char x (x ∷ s)).0 ∷ read_from (first_char x (x ∷ s)).1 s

unfoldable pub shown : Text → Text
unfolding read_from
shown s = read_from 0 s

read_from-esc_char : (x : ℕ) (s : Text) → Kind x → read_from 0 (esc_char x ++ s) ≡ x ∷ read_from 0 s
unfolding read_from esc_char
read_from-esc_char x s (is_amp h) = rw h
read_from-esc_char x s (is_lt h) = rw h
read_from-esc_char x s (is_gt h) = rw h
read_from-esc_char x s (is_quot h) = rw h
read_from-esc_char x s (is_apos h) = rw h
read_from-esc_char x s (is_plain h) = rw plain (ground arith)
  where
    plain : esc_char x ≡ x ∷ []
    plain = ground arith

-- An escaped text is shown as itself also before another text.
pub shown-esc_html_append : (s r : Text) → shown (esc_html s ++ r) ≡ s ++ shown r
unfolding shown
shown-esc_html_append [] r = unfold esc_html replace_all in refl
shown-esc_html_append (x ∷ s) r =
    rw
      (
        esc_html-cons x s,
        append_assoc (esc_char x) (esc_html s) r,
        read_from-esc_char x (esc_html s ++ r) (kind x),
      )
      (ap (x ∷◌) (shown-esc_html_append s r))

-- A browser shows an escaped text as the text itself, whatever its characters are.
pub shown-esc_html : (s : Text) → shown (esc_html s) ≡ s
unfolding shown
shown-esc_html [] = unfold esc_html replace_all in refl
shown-esc_html (x ∷ s) =
    rw (esc_html-cons x s, read_from-esc_char x (esc_html s) (kind x))
      (ap (x ∷◌) (shown-esc_html s))
