-- ===== src/Repeater/Mac.antt =====
-- The MAC address typed into the repeater editor.
use ha_telink_manager.Prelude.{
  ℕ, ◌-◌, ◌*◌, ◌==◌, Bool, true, false, ◌&&◌, Option, none, some, List, [], ◌∷◌, if◌then◌else◌,
  length, all, any, text_eq, text_eq_iff, ◌≡◌, ◌≢◌, inl, inr, refl, arith, Bool-cases, ap, sym, ◌∙◌,
}
use mathlib.Core.Bool.{false≢true}
use mathlib.Core.Option.{some-injective, none-ne-some}
use ha_telink_manager.Html.{Text}
use ha_telink_manager.Repeater.{
  is_space, is_separator, is_hex, upper, upper_case, hex_of, join_pairs, is_mac_hex, norm_mac,
  known, unseen, zero_mac, check_custom, blank, itself, all_zeroes, address_of, judge,
}

abbrev is_even : Text → Bool
is_even [] = true
is_even (a ∷ []) = false
is_even (a ∷ b ∷ s) = is_even s

hex_not_separator : (c : ℕ) → is_hex c ≡ true → is_separator c ≡ false
hex_not_separator c h = ground arith

hex_upper : (c : ℕ) → is_hex c ≡ true → (upper c ≡ c) × ((c == 0xfb00) ≡ false)
hex_upper c h = ground arith

hex_of-hex : (c : ℕ) (s : Text) → is_hex c ≡ true → hex_of (c ∷ s) ≡ c ∷ hex_of s
unfolding hex_of upper_case
hex_of-hex c s h = rw (hex_not_separator c h, (hex_upper c h).0, (hex_upper c h).1) refl

-- Joining pairs and dropping the separators again changes nothing.
hex_of-join_pairs : (h : Text) → all is_hex h ≡ true → is_even h ≡ true → hex_of (join_pairs h) ≡ h
unfolding hex_of join_pairs upper_case
hex_of-join_pairs [] a e = refl
hex_of-join_pairs (a ∷ []) h e = cc
hex_of-join_pairs (a ∷ b ∷ []) h e =
    rw (hex_of-hex a (b ∷ []) (ground arith), hex_of-hex b [] (ground arith)) refl
hex_of-join_pairs (a ∷ b ∷ c ∷ s) h e =
    rw
      (
        hex_of-hex a _ (ground arith),
        hex_of-hex b _ (ground arith),
        hex_of-join_pairs (c ∷ s) (ground arith) e,
      )
      refl

of_pairs-is_even : (h : Text) (n : ℕ) → length h ≡ n * 2 → is_even h ≡ true
of_pairs-is_even [] n e = refl
of_pairs-is_even (a ∷ []) n e = absurd (omega arith)
of_pairs-is_even (a ∷ b ∷ s) n e = of_pairs-is_even s (n - 1) (omega arith)

both : (a b : Bool) → (a && b) ≡ true → (a ≡ true) × (b ≡ true)
both a b h = ground arith

equal_numbers : (a b : ℕ) → (a == b) ≡ true → a ≡ b
equal_numbers a b h = ground arith

pub joined_again : (h : Text) → is_mac_hex h ≡ true → hex_of (join_pairs h) ≡ h
joined_again h e =
    let p = both (length h == 12) (all is_hex h) e in
    hex_of-join_pairs h p.1 (of_pairs-is_even h 6 (equal_numbers (length h) 12 p.0))

-- An accepted address is in the form that is accepted unchanged.
pub norm_mac-twice : (s m : Text) → norm_mac s ≡ some m → norm_mac m ≡ some m
unfolding norm_mac
norm_mac-twice s m h = elim (Bool-cases (is_mac_hex (hex_of s))) [
  | inl e ↦
      let p : join_pairs (hex_of s) ≡ m = some-injective _ _ (rw (e) at h) in
      let q : hex_of m ≡ hex_of s = rw (← p) (joined_again (hex_of s) e) in rw (q, e, p) refl
  | inr e ↦ absurd (none-ne-some m (rw (e) at h))
]

differs : (n mac m : Text) → text_eq n mac ≡ false → n ≡ m → m ≢ mac
differs n mac m e p q = false≢true (sym e ∙ (text_eq_iff n mac).1 (p ∙ q))

judge-address :
    (mac : Text) (fleet : List Text) (n m : Text)
    → address_of (judge mac fleet (some n)) ≡ some m
    → (n ≡ m) × (m ≢ mac) × (m ≢ zero_mac)
judge-address mac fleet n m h =
    go (text_eq n mac) refl (text_eq n zero_mac) refl (any (text_eq n) fleet) h
  where
    go :
        (a : Bool)
        → text_eq n mac ≡ a
        → (b : Bool) → text_eq n zero_mac ≡ b
        → (c : Bool)
        → address_of
            (if a then itself else if b then all_zeroes else if c then known n else unseen n)
          ≡ some m
        → (n ≡ m) × (m ≢ mac) × (m ≢ zero_mac)
    go true e b k c h = cc
    go false e true k c h = cc
    go false e false k true h = (
      some-injective _ _ h,
      differs n mac m e (some-injective _ _ h),
      differs n zero_mac m k (some-injective _ _ h),
    )
    go false e false k false h = (
      some-injective _ _ h,
      differs n mac m e (some-injective _ _ h),
      differs n zero_mac m k (some-injective _ _ h),
    )

-- An address is returned only where the text is one, and never the repeater's own or all zeroes.
pub check_custom-address :
    (mac : Text) (fleet : List Text) (raw m : Text)
    → address_of (check_custom mac fleet raw) ≡ some m
    → (norm_mac raw ≡ some m) × (m ≢ mac) × (m ≢ zero_mac)
unfolding check_custom
check_custom-address mac fleet raw m h = go (all is_space raw) (norm_mac raw) h
  where
    go :
        (b : Bool) (o : Option Text)
        → address_of (if b then blank else judge mac fleet o) ≡ some m
        → (o ≡ some m) × (m ≢ mac) × (m ≢ zero_mac)
    go true o h = cc
    go false none h = cc
    go false (some n) h = let p = judge-address mac fleet n m h in (ap some p.0, p.1, p.2)
