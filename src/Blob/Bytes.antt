-- ===== src/Blob/Bytes.antt =====
-- What a write of the configuration block leaves in each of its bytes (custom_components/
-- telink_manager/pvvx_struct.py: `build`).
use mathlib.Core.Option.{none-ne-some}
use Prim.Native.Nat.{bit_and}
use ha_telink_manager.Prelude.{ℕ, ◌<◌, Bool, Option, none, some, get_or_else, ◌≡◌, refl, arith}
use ha_telink_manager.Blob.{
  bit, Changes, put_low, put_byte, put_int, put_measure, put_flags, put_flags2, ◌>>=◌,
}
use ha_telink_manager.Blob.Bits.{
  Reading, own_Reading, from_2, from_3, from_4, put_bit-Reading, put_low-Reading, flags_1, flags_1b,
  flags_2, low_2, low_3, low_4, with_bit,
}

-- A successful chain has a successful head.
pub after {ℓ κ} :
    {A : Type ℓ} {B : Type κ} {P : Type 0} (o : Option A) (f : A → Option B) {y : B}
    → (o >>= f) ≡ some y
    → ((x : A) → o ≡ some x → f x ≡ some y → P)
    → P
after none f e k = absurd (none-ne-some _ e)
after (some x) f e k = k x refl e

-- The bits of the first two bytes after each of the flags.
module _ (ch : Changes) (x : ℕ) where
  abbrev own : ℕ → Bool
  own j = bit j x

  abbrev bits_2 : ℕ → Bool
  bits_2 = with_bit 2 ch.comfort_smiley own

  abbrev bits_3 : ℕ → Bool
  bits_3 = with_bit 3 ch.blinking_time_smile bits_2

  abbrev bits_4 : ℕ → Bool
  bits_4 = with_bit 4 ch.temp_F bits_3

  abbrev bits_5 : ℕ → Bool
  bits_5 = with_bit 5 ch.show_batt bits_4

  abbrev bits_6 : ℕ → Bool
  bits_6 = with_bit 6 ch.tx_measures bits_5

  abbrev bits_7 : ℕ → Bool
  bits_7 = with_bit 7 ch.lp_measures bits_6

  abbrev second_4 : ℕ → Bool
  second_4 = with_bit 4 ch.adv_flags own

  abbrev second_7 : ℕ → Bool
  second_7 = with_bit 7 ch.screen_off second_4

  pub first_byte :
      {y : ℕ}
      → x < 256
      → put_low 0xfc 3 ch.adv_type_raw (put_flags ch x) ≡ some y
      → Reading 3 from_2 (get_or_else ch.adv_type_raw (bit_and x 3)) bits_7 y
  unfolding put_flags
  first_byte h e =
      let (f2, f3, f4) = flags_1 in
      let (f5, f6, f7) = flags_1b in
      let r2 =
        put_bit-Reading 3 from_2 2 0x04 f2 ch.comfort_smiley own (own_Reading 3 from_2 x h) in
      let r3 = put_bit-Reading 3 from_2 3 0x08 f3 ch.blinking_time_smile bits_2 r2 in
      let r4 = put_bit-Reading 3 from_2 4 0x10 f4 ch.temp_F bits_3 r3 in
      let r5 = put_bit-Reading 3 from_2 5 0x20 f5 ch.show_batt bits_4 r4 in
      let r6 = put_bit-Reading 3 from_2 6 0x40 f6 ch.tx_measures bits_5 r5 in
      let r7 = put_bit-Reading 3 from_2 7 0x80 f7 ch.lp_measures bits_6 r6 in
      put_low-Reading 0xfc 3 from_2 low_2 ch.adv_type_raw bits_7 e r7

  pub second_byte :
      {y : ℕ}
      → x < 256
      → put_low 0xf8 7 ch.smiley x ≡ some y
      → Reading 7 from_3 (get_or_else ch.smiley (bit_and x 7)) second_7 (put_flags2 ch y)
  unfolding put_flags2
  second_byte h e =
      let (f3, f4, f7) = flags_2 in
      let r = put_low-Reading 0xf8 7 from_3 low_3 ch.smiley own e (own_Reading 7 from_3 x h) in
      let r4 = put_bit-Reading 7 from_3 4 0x10 f4 ch.adv_flags own r in
      put_bit-Reading 7 from_3 7 0x80 f7 ch.screen_off second_4 r4

  pub delay_byte :
      {y : ℕ}
      → x < 256
      → put_low 0xf0 15 ch.adv_delay_raw x ≡ some y
      → Reading 15 from_4 (get_or_else ch.adv_delay_raw (bit_and x 15)) own y
  delay_byte h e =
      put_low-Reading 0xf0 15 from_4 low_4 ch.adv_delay_raw own e (own_Reading 15 from_4 x h)

-- The other bytes hold what is given.
pub put_byte-value :
    (least : ℕ) (v : Option ℕ) (x : ℕ) {y : ℕ} → put_byte least v x ≡ some y → y ≡ get_or_else v x
put_byte-value least none x e = ground (arith, e)
put_byte-value least (some v) x e = ground (arith, e)

pub put_int-value :
    (least : ℕ) (v : Option (Option ℕ)) (x : ℕ) {y : ℕ}
    → put_int least v x ≡ some y
    → y ≡ get_or_else (get_or_else v none) x
put_int-value least none x e = ground (arith, e)
put_int-value least (some none) x e = absurd (none-ne-some _ e)
put_int-value least (some (some v)) x e = put_byte-value least (some v) x e

pub put_measure-value :
    (v : Option (Option ℕ)) (x : ℕ) {y : ℕ}
    → put_measure v x ≡ some y
    → y ≡ get_or_else (get_or_else v none) x
put_measure-value none x e = ground (arith, e)
put_measure-value (some none) x e = ground (arith, e)
put_measure-value (some (some v)) x e = put_byte-value 1 (some v) x e
