-- ===== src/Html/Twice.antt =====
-- What escaping twice does to the line that `_runCmd` shows.
use ha_telink_manager.Prelude.{
  Option, Bool, ℕ, ◌+◌, ◌≤◌, false, [], ◌∷◌, ◌++◌, codes, ◌≡◌, refl, ◌↔◌, arith, All, length,
  length-append, ap, sym, ◌∙◌,
}
use mathlib.Core.List.{append_cancel_left, append_cancel_right}
use ha_telink_manager.Html.{
  Text, replace_all, esc_html, mstatus, name_set_line, or_default, clock_note,
}
use ha_telink_manager.Html.Safety.{
  IsPlain, Kind, is_amp, is_lt, is_gt, is_quot, is_apos, is_plain, kind, esc_char, esc_html-cons,
  shown, shown-esc_html,
}

-- A character that is not plain becomes four characters at least.
length-esc_char :
    (x : ℕ) → Kind x → (1 ≤ length (esc_char x)) × (length (esc_char x) ≤ 3 → IsPlain x)
unfolding esc_char
length-esc_char x (is_amp h) = rw h (omega arith, λ e. absurd (omega arith))
length-esc_char x (is_lt h) = rw h (omega arith, λ e. absurd (omega arith))
length-esc_char x (is_gt h) = rw h (omega arith, λ e. absurd (omega arith))
length-esc_char x (is_quot h) = rw h (omega arith, λ e. absurd (omega arith))
length-esc_char x (is_apos h) = rw h (omega arith, λ e. absurd (omega arith))
length-esc_char x (is_plain h) = (ground arith, λ e. h)

length-esc_html-cons :
    (x : ℕ) (s : Text) → length (esc_html (x ∷ s)) ≡ length (esc_char x) + length (esc_html s)
length-esc_html-cons x s = rw (esc_html-cons x s) (length-append (esc_char x) (esc_html s))

length-le-esc_html : (s : Text) → length s ≤ length (esc_html s)
length-le-esc_html [] = omega arith
length-le-esc_html (x ∷ s) =
    omega (arith, length-esc_html-cons x s, (length-esc_char x (kind x)).0, length-le-esc_html s)

IsPlain-of_length : (s : Text) → length (esc_html s) ≤ length s → All IsPlain s
IsPlain-of_length [] h = tt
IsPlain-of_length (x ∷ s) h = (
  (length-esc_char x (kind x)).1 (omega (arith, length-esc_html-cons x s, length-le-esc_html s)),
  IsPlain-of_length s (omega (arith, length-esc_html-cons x s, (length-esc_char x (kind x)).0)),
)

esc_char-plain : (x : ℕ) → IsPlain x → esc_char x ≡ x ∷ []
unfolding esc_char
esc_char-plain x h = ground arith

-- Exactly the texts without special characters are their own escape.
pub esc_html-eq_iff : (s : Text) → (esc_html s ≡ s) ↔ All IsPlain s
esc_html-eq_iff s = (λ e. IsPlain-of_length s (omega (arith, ap length e)), same s)
  where
    nil : esc_html [] ≡ []
    nil = unfold esc_html replace_all in refl

    same : (t : Text) → All IsPlain t → esc_html t ≡ t
    same [] h = nil
    same (x ∷ t) h = rw (esc_html-cons x t, esc_char-plain x h.0) (ap (x ∷◌) (same t h.1))

-- An escaped text is empty only if the text is.
or_default-esc_html : (c : ℕ) (s : Text) → or_default (esc_html (c ∷ s)) ≡ esc_html (c ∷ s)
or_default-esc_html c s = of_length (esc_html (c ∷ s)) (length-le-esc_html (c ∷ s))
  where
    of_length : (t : Text) → length (c ∷ s) ≤ length t → or_default t ≡ t
    of_length [] h = absurd (omega arith)
    of_length (d ∷ t) h = refl

or_default-esc_html_iff :
    (name : Text) → (or_default (esc_html name) ≡ or_default name) ↔ All IsPlain name
or_default-esc_html_iff [] = (λ e. tt, λ h. unfold esc_html replace_all in refl)
or_default-esc_html_iff (c ∷ s) = rw (or_default-esc_html c s) (esc_html-eq_iff (c ∷ s))

-- After a rename the dialog reads "✅ Device name set: ", the escaped name or "(default)" where the
-- name is empty, and what is said of the clock. It has the name itself in that place exactly when
-- the name has none of the characters & < > " '.
pub shown-name_set_line :
    (name : Text) (restored : Option Bool)
    → (shown (mstatus (name_set_line name restored) false)
        ≡ codes "✅ Device name set: " ++ (or_default (esc_html name) ++ clock_note restored))
      × ((shown (mstatus (name_set_line name restored) false)
            ≡ codes "✅ Device name set: " ++ (or_default name ++ clock_note restored))
          ↔ All IsPlain name)
unfolding mstatus name_set_line
shown-name_set_line name restored = (
  shown-esc_html _,
  (
    λ e.
        (or_default-esc_html_iff name).0 (
          append_cancel_right _ _ note
            (append_cancel_left prefix _ _ (sym (shown-esc_html _) ∙ e))),
    λ h. shown-esc_html _ ∙ ap (λ t. prefix ++ (t ++ note)) ((or_default-esc_html_iff name).1 h),
  ),
)
  where
    prefix : Text
    prefix = codes "✅ Device name set: "

    note : Text
    note = clock_note restored
