-- ===== src/Commands/Random.antt =====
-- The two buttons that fill in random values (`randHex` of `_modalCommands`).
use ha_telink_manager.Prelude.{
  ℕ, ◌+◌, ◌-◌, ◌*◌, ◌/◌, ◌%◌, ◌<◌, leb, true, ◌&&◌, Option, none, some, List, [], ◌∷◌, ◌++◌, codes,
  length, all, All, if◌then◌else◌, ◌≡◌, refl, arith, ap, sym, ◌∙◌, subst,
}
use ha_telink_manager.Html.{Text}
use ha_telink_manager.Blob.Bits.{all_under_sound}
use ha_telink_manager.Repeater.{is_hex, join_pairs, hex_of, is_mac_hex, norm_mac}
use ha_telink_manager.Repeater.Mac.{joined_again}
use ha_telink_manager.Repeater.{upper}

-- `randHex`, of random bytes, and what the two buttons put into their inputs.
abbrev pub hex_digit : ℕ → ℕ
hex_digit d = if leb d 9 then d + b'0' else d - 10 + b'a'

abbrev pub hex_byte : ℕ → Text
hex_byte b = hex_digit (b / 16) ∷ hex_digit (b % 16) ∷ []

unfoldable pub rand_hex : List ℕ → Text
rand_hex [] = []
rand_hex (b ∷ bs) = hex_byte b ++ rand_hex bs

abbrev pub hex_upper : ℕ → Text
hex_upper b = upper (hex_digit (b / 16)) ∷ upper (hex_digit (b % 16)) ∷ []

abbrev pub random_mac : ℕ → ℕ → ℕ → Text
random_mac a b c =
    codes "A4:C1:38:" ++ (hex_upper a ++ (b':' ∷ (hex_upper b ++ (b':' ∷ hex_upper c))))

hex_upper-hex : (b : ℕ) → b < 256 → all is_hex (hex_upper b) ≡ true
hex_upper-hex b h = all_under_sound 256 (λ x. all is_hex (hex_upper x)) b refl h

-- The twelve digits of a random address.
abbrev digits : ℕ → ℕ → ℕ → Text
digits a b c = codes "A4C138" ++ (hex_upper a ++ (hex_upper b ++ hex_upper c))

digits-MacHex : (a b c : ℕ) → a < 256 → b < 256 → c < 256 → is_mac_hex (digits a b c) ≡ true
digits-MacHex a b c ha hb hc =
    ground (arith, hex_upper-hex a ha, hex_upper-hex b hb, hex_upper-hex c hc)

digits-joined : (a b c : ℕ) → join_pairs (digits a b c) ≡ random_mac a b c
unfolding join_pairs
digits-joined a b c = refl

-- A random address is one that the panel's own check takes as it is.
pub norm_mac-random_mac :
    (a b c : ℕ)
    → a < 256
    → b < 256
    → c < 256
    → norm_mac (random_mac a b c) ≡ some (random_mac a b c)
unfolding norm_mac
norm_mac-random_mac a b c ha hb hc =
    let h = digits-MacHex a b c ha hb hc in
    let e : hex_of (random_mac a b c) ≡ digits a b c =
      ap hex_of (sym (digits-joined a b c)) ∙ joined_again (digits a b c) h in
    subst (λ d. (if is_mac_hex d then some (join_pairs d) else none) ≡ some (random_mac a b c))
      (sym e)
      (subst (λ w. (if w then some (join_pairs (digits a b c)) else none) ≡ some (random_mac a b c))
        (sym h) (ap some (digits-joined a b c)))

-- The value of a digit, and the bytes that a text of digits stands for.
abbrev pub digit_value : ℕ → Option ℕ
digit_value c =
    if leb b'0' c && leb c b'9'
    then some (c - b'0')
    else if leb b'a' c && leb c b'f'
    then some (c - b'a' + 10)
    else none

abbrev byte_value : Option ℕ → Option ℕ → Option (List ℕ) → Option (List ℕ)
byte_value (some h) (some l) (some rest) = some ((h * 16 + l) ∷ rest)
byte_value _ _ _ = none

abbrev pub from_hex : Text → Option (List ℕ)
from_hex [] = some []
from_hex (c ∷ []) = none
from_hex (c ∷ d ∷ s) = byte_value (digit_value c) (digit_value d) (from_hex s)

digit_value-hex_digit : (d : ℕ) → d < 16 → digit_value (hex_digit d) ≡ some d
digit_value-hex_digit d h = ground arith

byte_value-joined :
    (b : ℕ) (bs : List ℕ) → byte_value (some (b / 16)) (some (b % 16)) (some bs) ≡ some (b ∷ bs)
byte_value-joined b bs = ap (λ x. some (x ∷ bs)) (omega arith)

-- A random key has two digits for each byte, and they stand for exactly those bytes.
pub from_hex-rand_hex :
    (bs : List ℕ)
    → All (λ (b : ℕ). b < 256) bs
    → (from_hex (rand_hex bs) ≡ some bs) × (length (rand_hex bs) ≡ length bs * 2)
unfolding rand_hex
from_hex-rand_hex [] h = (refl, refl)
from_hex-rand_hex (b ∷ bs) (h, others) =
    let (p, q) = from_hex-rand_hex bs others in
    (
      rw
          (
            digit_value-hex_digit (b / 16) (omega arith),
            digit_value-hex_digit (b % 16) (omega arith),
            p,
          )
          (byte_value-joined b bs),
      omega (arith, q),
    )
