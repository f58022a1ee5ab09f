-- ===== src/Blob/Crypto.antt =====
-- The flag of the encrypted advertising (custom_components/telink_manager/pvvx_struct.py:
-- `with_adv_crypto`), and that the updates of a block leave bytes.
use mathlib.Core.Option.{some-injective, none-ne-some}
use Prim.Native.Nat.{bit_and}
use ha_telink_manager.Prelude.{
  ℕ, ◌<◌, ◌==◌, ltb, ℤ, pos, negsuc, Bool, true, false, not, ◌&&◌, Option, none, some, ◌≡◌, refl,
  arith, subst, if◌then◌else◌,
}
use ha_telink_manager.Blob.{
  Blob, Layout, legacy, transitional, modern, layout_of, bit, parse, parse_as, Changes, measured,
  put_bit, put_offset, put_byte, put_int, put_measure, put_byte2, put_byte3, build, build_as,
  with_adv_crypto,
}
use ha_telink_manager.Blob.Bits.{Reading, own_Reading, from_3, put_bit-Reading, flags_2}
use ha_telink_manager.Blob.Build.{IsBlob, bytes}
use ha_telink_manager.Blob.Bytes.{after, first_byte, second_byte, delay_byte}

crypto_byte :
    (x : ℕ) (enabled : Bool)
    → x < 256
    → Reading 7 from_3
        (bit_and x 7)
        (λ j. if j == 3 then enabled else bit j x)
        (put_bit 0x08 (some enabled) x)
crypto_byte x enabled h =
    let (f3, f4, f7) = flags_2 in
    put_bit-Reading 7 from_3 3 0x08 f3 (some enabled) (λ j. bit j x) (own_Reading 7 from_3 x h)

crypto_parse :
    (l : Layout) (enabled : Bool) (b : Blob)
    → IsBlob b
    → parse_as l (record b { flg2 = put_bit 0x08 (some enabled) b.flg2 })
      ≡ record (parse_as l b) { adv_crypto = enabled }
crypto_parse l enabled b (bytes h0 h1 h2) =
    let (c3, (c4, (c5, (c6, (c7, c8))))) = (crypto_byte b.flg2 enabled h1).1.1 in
    rw ((crypto_byte b.flg2 enabled h1).1.0, c3, c4, c5, c6, c7) refl

-- Where the firmware has the flag, setting it changes exactly the flag in what the next read returns.
pub parse-with_adv_crypto :
    (fw : ℕ) (enabled : Bool) (b : Blob) {b' : Blob}
    → IsBlob b
    → with_adv_crypto fw enabled b ≡ some b'
    → parse fw b' ≡ record (parse fw b) { adv_crypto = enabled }
unfolding with_adv_crypto parse
parse-with_adv_crypto fw enabled b {b'} h e = go (not (fw == 0) && ltb fw 0x22) e
  where
    go :
        (old : Bool)
        → (if old then none else some (record b { flg2 = put_bit 0x08 (some enabled) b.flg2 }))
          ≡ some b'
        → parse_as (layout_of fw) b' ≡ record (parse_as (layout_of fw) b) { adv_crypto = enabled }
    go true e' = absurd (none-ne-some _ e')
    go false e' =
        subst
          (λ z.
            parse_as (layout_of fw) z ≡ record (parse_as (layout_of fw) b) { adv_crypto = enabled })
          (some-injective _ _ e') (crypto_parse (layout_of fw) enabled b h)

pub adv_crypto-IsBlob :
    (enabled : Bool) (b : Blob)
    → IsBlob b
    → IsBlob (record b { flg2 = put_bit 0x08 (some enabled) b.flg2 })
adv_crypto-IsBlob enabled b (bytes h0 h1 h2) = bytes h0 (crypto_byte b.flg2 enabled h1).0 h2

put_offset-bound : (v : Option ℤ) (x : ℕ) {y : ℕ} → x < 256 → put_offset v x ≡ some y → y < 256
put_offset-bound none x h e = subst (λ z. z < 256) (some-injective _ _ e) h
put_offset-bound (some (pos n)) x h e = ground (arith, e)
put_offset-bound (some (negsuc n)) x h e = ground (arith, e)

byte2_bound :
    (l : Layout) (ch : Changes) (x : ℕ) {y : ℕ} → x < 256 → put_byte2 l ch x ≡ some y → y < 256
byte2_bound legacy ch x h e = put_offset-bound ch.temp_offset x h e
byte2_bound transitional ch x h e = subst (λ z. z < 256) (some-injective _ _ e) h
byte2_bound modern ch x h e = (delay_byte ch x h e).0

build_as-IsBlob :
    (l : Layout) (ch : Changes) (b : Blob) {b' : Blob}
    → IsBlob b
    → build_as l ch b ≡ some b'
    → IsBlob b'
build_as-IsBlob l ch b {b'} (bytes h0 h1 h2) e = after _ _ e (λ flg e0 k0.
    after _ _ k0 (λ smiley e1 k1. after (put_byte2 l ch b.byte2) _ k1 (λ byte2 e2 k2.
      after (put_byte3 l ch b.byte3) _ k2 (λ byte3 e3 k3.
        after (put_int 1 ch.adv_interval_raw b.adv_interval) _ k3 (λ adv e4 k4.
          after (put_measure (measured ch) b.measure_interval) _ k4 (λ measure e5 k5.
            after (put_byte 0 ch.rf_tx_power b.rf_tx_power) _ k5 (λ tx e6 k6.
              after (put_byte 0 ch.connect_latency_raw b.connect_latency) _ k6 (λ latency e7 k7.
                after (put_byte 1 ch.lcd_refresh_raw b.lcd_refresh) _ k7 (λ lcd e8 k8.
                  after (put_byte 0 ch.averaging b.averaging) _ k8 (λ avg e9 k9.
                    subst IsBlob (some-injective _ _ k9) (
                      bytes (first_byte ch b.flg h0 e0).0 (second_byte ch b.flg2 h1 e1).0
                        (byte2_bound l ch b.byte2 h2 e2))))))))))))

-- A write that is not refused makes bytes of bytes, so that it can be followed by another.
pub build-IsBlob :
    (fw : ℕ) (ch : Changes) (b : Blob) {b' : Blob} → IsBlob b → build fw ch b ≡ some b' → IsBlob b'
unfolding build
build-IsBlob fw ch b h e = build_as-IsBlob (layout_of fw) ch b h e
