-- ===== src/Rows/Places.antt =====
-- How a browser takes a text apart: what is seen of it, and the markup around that.
use ha_telink_manager.Prelude.{
  ℕ, ◌==◌, Bool, true, false, [], ◌∷◌, ◌++◌, codes, if◌then◌else◌, ◌≡◌, ◌≢◌, refl, arith, ap, All,
  All-append, Bool-cases, inl, inr,
}
use ha_telink_manager.Html.{Text, quot, replace_all}
use ha_telink_manager.Html.Safety.{IsInert, shown}
use ha_telink_manager.Rows.{titled}

-- Where a character stands: in text, in a tag, or in a quoted attribute of a tag.
pub data Place : Type 0 where
  in_text in_tag in_quotes : Place

abbrev pub after : Place → ℕ → Place
after in_text c = if c == b'<' then in_tag else in_text
after in_tag c = if c == b'>' then in_text else if c == b'"' then in_quotes else in_tag
after in_quotes c = if c == b'"' then in_tag else in_quotes

-- Is it part of the text?
abbrev pub is_text : Place → ℕ → Bool
is_text in_text c = if c == b'<' then false else true
is_text _ c = false

-- Is it markup? What stands between the quotes of an attribute is not.
abbrev pub is_markup : Place → ℕ → Bool
is_markup in_text c = c == b'<'
is_markup in_tag c = true
is_markup in_quotes c = c == b'"'

unfoldable pub kept : (Place → ℕ → Bool) → Place → Text → Text
kept p m [] = []
kept p m (c ∷ s) = let rest = kept p (after m c) s in if p m c then c ∷ rest else rest

-- What is seen: the text, with its references read.
unfoldable pub seen : Text → Text
seen s = shown (kept is_text in_text s)

unfoldable pub markup : Text → Text
markup s = kept is_markup in_text s

-- Where a text ends.
unfoldable pub ends : Place → Text → Place
ends m [] = m
ends m (c ∷ s) = ends (after m c) s

kept-append :
    (p : Place → ℕ → Bool) (m : Place) (s r : Text)
    → kept p m (s ++ r) ≡ kept p m s ++ kept p (ends m s) r
unfolding kept ends
kept-append p m [] r = refl
kept-append p m (c ∷ s) r = elim (Bool-cases (p m c)) [
  | inl e ↦ rw (e) (ap (λ t. c ∷ t) (kept-append p (after m c) s r))
  | inr e ↦ rw (e) (kept-append p (after m c) s r)
]

ends-append : (m : Place) (s r : Text) → ends m (s ++ r) ≡ ends (ends m s) r
unfolding ends
ends-append m [] r = refl
ends-append m (c ∷ s) r = ends-append (after m c) s r

-- From `m`, what is seen of `s` is `w` and its markup is `k`, and it ends at `n`.
pub data Reads : Place → Text → Text → Text → Place → Type 0 where
  parts :
      {m n : Place} {s w k : Text}
      → kept is_text m s ≡ w
      → kept is_markup m s ≡ k
      → ends m s ≡ n
      → Reads m s w k n

pub join :
    {m n o : Place} {s r w v k l : Text}
    → Reads m s w k n
    → Reads n r v l o
    → Reads m (s ++ r) (w ++ v) (k ++ l) o
join {m} {s = s} {r} (parts a b c) (parts a' b' c') =
    parts (rw (kept-append is_text m s r, a, c, a') refl)
      (rw (kept-append is_markup m s r, b, c, b') refl) (rw (ends-append m s r, c) c')

-- Text that opens no tag is seen as it is, and is no markup.
pub text_part : (s : Text) → All IsInert s → Reads in_text s s [] in_text
unfolding kept ends
text_part [] h = parts refl refl refl
text_part (c ∷ s) (h, hs) = go (text_part s hs)
  where
    e : (c == b'<') ≡ false
    e = ground (arith, h.0)

    go : Reads in_text s s [] in_text → Reads in_text (c ∷ s) (c ∷ s) [] in_text
    go (parts x y z) = parts (rw (e) (ap (λ t. c ∷ t) x)) (rw (e) y) (rw (e) z)

abbrev NoQuote : ℕ → Type 0
NoQuote c = c ≢ b'"'

replace_all-NoQuote : (s : Text) → All NoQuote (replace_all b'"' quot s)
unfolding replace_all
replace_all-NoQuote [] = tt
replace_all-NoQuote (c ∷ s) = elim (Bool-cases (c == b'"')) [
  | inl e ↦ rw (e) (All-append NoQuote quot _ (omega arith) (replace_all-NoQuote s))
  | inr e ↦ rw (e) (ground (arith, e), replace_all-NoQuote s)
]

-- An attribute without quotes is neither, and does not end.
quoted_part : (s : Text) → All NoQuote s → Reads in_quotes s [] [] in_quotes
unfolding kept ends
quoted_part [] h = parts refl refl refl
quoted_part (c ∷ s) (h, hs) = go (quoted_part s hs)
  where
    e : (c == b'"') ≡ false
    e = ground (arith, h)

    go : Reads in_quotes s [] [] in_quotes → Reads in_quotes (c ∷ s) [] [] in_quotes
    go (parts x y z) = parts (rw (e) x) (rw (e) y) (rw (e) z)

abbrev pub title_frame : Text → Text
title_frame [] = []
title_frame (c ∷ s) = codes " title=\"\""

pub titled_part : (s : Text) → Reads in_tag (titled s) [] (title_frame s) in_tag
unfolding kept ends
titled_part [] = parts refl refl refl
titled_part (c ∷ s) = join {s = codes " title=\""} (parts refl refl refl) (
    join (quoted_part (replace_all b'"' quot (c ∷ s)) (replace_all-NoQuote (c ∷ s)))
      (parts refl refl refl))
