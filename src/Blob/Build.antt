-- ===== src/Blob/Build.antt =====
-- What a write of the configuration block does to what is read from it (custom_components/
-- telink_manager/pvvx_struct.py: `build`, `parse`).
use mathlib.Core.Option.{some-injective}
use Prim.Native.Nat.{bit_and}
use ha_telink_manager.Prelude.{
  ℕ, ◌<◌, ℤ, pos, negsuc, Option, none, some, get_or_else, ◌≡◌, refl, arith, sym, ap, subst,
}
use ha_telink_manager.Device.{Config}
use ha_telink_manager.Blob.{
  Blob, Layout, legacy, transitional, modern, layout_of, bit, in_modern, in_legacy, i8, Parsed,
  parse, parse_as, build_as, Changes, measured, put_offset, put_byte2, put_byte3, build,
}
use ha_telink_manager.Blob.Bytes.{
  after, first_byte, second_byte, delay_byte, put_byte-value, put_int-value, put_measure-value,
}

-- A value that the layout does not have stays absent.
abbrev pub over {ℓ} : {A : Type ℓ} → Option A → Option A → Option A
over v none = none
over v (some old) = some (get_or_else v old)

put_offset-i8 :
    (v : Option ℤ) (x : ℕ) {y : ℕ} → put_offset v x ≡ some y → i8 y ≡ get_or_else v (i8 x)
put_offset-i8 none x e = ap i8 (sym (some-injective _ _ e))
put_offset-i8 (some (pos n)) x e = ground (arith, e)
put_offset-i8 (some (negsuc n)) x e = ground (arith, e)

-- The two bytes whose meaning depends on the layout.
module _ (ch : Changes) (x : ℕ) where
  byte2_delay :
      (l : Layout) {y : ℕ}
      → x < 256
      → put_byte2 l ch x ≡ some y
      → in_modern l (bit_and y 15) ≡ over ch.adv_delay_raw (in_modern l (bit_and x 15))
  byte2_delay legacy h e = refl
  byte2_delay transitional h e = refl
  byte2_delay modern h e = ap some (delay_byte ch x h e).1.0

  byte2_bits :
      (l : Layout) {y : ℕ}
      → x < 256
      → put_byte2 l ch x ≡ some y
      → (in_modern l (bit 6 y) ≡ in_modern l (bit 6 x))
        × (in_modern l (bit 7 y) ≡ in_modern l (bit 7 x))
  byte2_bits legacy h e = (refl, refl)
  byte2_bits transitional h e = (refl, refl)
  byte2_bits modern h e =
      let (p4, (p5, (p6, (p7, done)))) = (delay_byte ch x h e).1.1 in (ap some p6, ap some p7)

  byte2_offset :
      (l : Layout) {y : ℕ}
      → put_byte2 l ch x ≡ some y
      → in_legacy l (i8 y) ≡ over ch.temp_offset (in_legacy l (i8 x))
  byte2_offset legacy e = ap some (put_offset-i8 ch.temp_offset x e)
  byte2_offset transitional e = refl
  byte2_offset modern e = refl

  byte3_event :
      (l : Layout) {y : ℕ}
      → put_byte3 l ch x ≡ some y
      → in_modern l y ≡ over (get_or_else ch.event_adv_cnt none) (in_modern l x)
  byte3_event legacy e = refl
  byte3_event transitional e = refl
  byte3_event modern e = ap some (put_int-value 0 ch.event_adv_cnt x e)

  byte3_offset :
      (l : Layout) {y : ℕ}
      → put_byte3 l ch x ≡ some y
      → in_legacy l (i8 y) ≡ over ch.humi_offset (in_legacy l (i8 x))
  byte3_offset legacy e = ap some (put_offset-i8 ch.humi_offset x e)
  byte3_offset transitional e = refl
  byte3_offset modern e = refl

-- The settings that the changes ask for.
abbrev pub requested : Changes → Config → Config
requested ch c = record {
  adv_interval_raw = get_or_else (get_or_else ch.adv_interval_raw none) c.adv_interval_raw;
  measure_mult = get_or_else (get_or_else (measured ch) none) c.measure_mult;
  temp_F = get_or_else ch.temp_F c.temp_F;
  screen_off = get_or_else ch.screen_off c.screen_off;
  lcd_refresh_raw = get_or_else ch.lcd_refresh_raw c.lcd_refresh_raw;
  smiley = get_or_else ch.smiley c.smiley;
  comfort_smiley = get_or_else ch.comfort_smiley c.comfort_smiley;
  blinking_time_smile = get_or_else ch.blinking_time_smile c.blinking_time_smile;
  show_batt = get_or_else ch.show_batt c.show_batt;
  lp_measures = get_or_else ch.lp_measures c.lp_measures;
  tx_measures = get_or_else ch.tx_measures c.tx_measures;
  averaging = get_or_else ch.averaging c.averaging;
  adv_flags = get_or_else ch.adv_flags c.adv_flags;
  adv_delay_raw = over ch.adv_delay_raw c.adv_delay_raw;
  event_adv_cnt = over (get_or_else ch.event_adv_cnt none) c.event_adv_cnt;
  rf_tx_power = get_or_else ch.rf_tx_power c.rf_tx_power;
  connect_latency_raw = get_or_else ch.connect_latency_raw c.connect_latency_raw;
  adv_type_raw = get_or_else ch.adv_type_raw c.adv_type_raw;
}

-- The same for all that is read: nothing else changes but the offsets.
abbrev pub requested_all : Changes → Parsed → Parsed
requested_all ch p = record p {
  config = requested ch p.config;
  temp_offset = over ch.temp_offset p.temp_offset;
  humi_offset = over ch.humi_offset p.humi_offset;
}

-- The three bytes whose bits are updated are bytes.
pub data IsBlob (b : Blob) : Type 0 where
  bytes : b.flg < 256 → b.flg2 < 256 → b.byte2 < 256 → IsBlob b

pub parse_as-build_as :
    (l : Layout) (ch : Changes) (b : Blob) {b' : Blob}
    → IsBlob b
    → build_as l ch b ≡ some b'
    → parse_as l b' ≡ requested_all ch (parse_as l b)
parse_as-build_as l ch b {b'} (bytes h0 h1 h2) e = after _ _ e (λ flg e0 k0.
    after _ _ k0 (λ smiley e1 k1. after (put_byte2 l ch b.byte2) _ k1 (λ byte2 e2 k2.
      after (put_byte3 l ch b.byte3) _ k2 (λ byte3 e3 k3. after _ _ k3 (λ adv e4 k4.
        after _ _ k4 (λ measure e5 k5. after _ _ k5 (λ tx e6 k6. after _ _ k6 (λ latency e7 k7.
          after _ _ k7 (λ lcd e8 k8. after _ _ k8 (λ avg e9 k9.
            let (a2, (a3, (a4, (a5, (a6, (a7, a8)))))) = (first_byte ch b.flg h0 e0).1.1 in
            let (c3, (c4, (c5, (c6, (c7, c8))))) = (second_byte ch b.flg2 h1 e1).1.1 in
            subst (λ z. parse_as l z ≡ requested_all ch (parse_as l b)) (some-injective _ _ k9)
              (rw
                (
                  (first_byte ch b.flg h0 e0).1.0,
                  a2,
                  a3,
                  a4,
                  a5,
                  a6,
                  a7,
                  (second_byte ch b.flg2 h1 e1).1.0,
                  c3,
                  c4,
                  c5,
                  c6,
                  c7,
                  byte2_delay ch b.byte2 l h2 e2,
                  (byte2_bits ch b.byte2 l h2 e2).0,
                  (byte2_bits ch b.byte2 l h2 e2).1,
                  byte2_offset ch b.byte2 l e2,
                  byte3_event ch b.byte3 l e3,
                  byte3_offset ch b.byte3 l e3,
                  put_int-value 1 ch.adv_interval_raw b.adv_interval e4,
                  put_measure-value (measured ch) b.measure_interval e5,
                  put_byte-value 0 ch.rf_tx_power b.rf_tx_power e6,
                  put_byte-value 0 ch.connect_latency_raw b.connect_latency e7,
                  put_byte-value 1 ch.lcd_refresh_raw b.lcd_refresh e8,
                  put_byte-value 0 ch.averaging b.averaging e9,
                )
                refl)))))))))))

-- After a write that is not refused, a read returns what was asked for, each other setting as it was
-- before, and everything that is not a setting unchanged but for the two offsets, if they were given.
-- The multiplier goes by `measure_interval`, if that is given, and else by `measure_mult`.
pub parse-build :
    (fw : ℕ) (ch : Changes) (b : Blob) {b' : Blob}
    → IsBlob b
    → build fw ch b ≡ some b'
    → parse fw b' ≡ requested_all ch (parse fw b)
unfolding build parse
parse-build fw ch b h e = parse_as-build_as (layout_of fw) ch b h e
