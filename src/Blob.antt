-- ===== src/Blob.antt =====
-- The firmware's 11-byte configuration block (custom_components/telink_manager/pvvx_struct.py):
-- `parse`, `build` and `with_adv_crypto`. Values are natural numbers: a negative one would be
-- refused like one that is too large. The names of the hardware and the values in seconds, which
-- `parse` derives, are left out.
pub mod Bits
pub mod Bytes
pub mod Build
pub mod Refused
pub mod Panel
pub mod Crypto
mod Tests
use Prim.Native.Nat.{bit_and, bit_or}
use ha_telink_manager.Prelude.{
  ℕ, ◌+◌, ◌-◌, ◌*◌, ◌/◌, ◌%◌, ◌==◌, ltb, leb, ℤ, pos, negsuc, sub_ℕ, Bool, true, false, not, ◌&&◌,
  ◌||◌, Option, none, some, ◌^◌, List, [], ◌∷◌, if◌then◌else◌,
}
use ha_telink_manager.Device.{Config}

-- The bytes, and what a longer block has behind them.
pub record Blob : Type 0 where
  pub flg : ℕ
  pub flg2 : ℕ
  pub byte2 : ℕ
  pub byte3 : ℕ
  pub adv_interval : ℕ
  pub measure_interval : ℕ
  pub rf_tx_power : ℕ
  pub connect_latency : ℕ
  pub lcd_refresh : ℕ
  pub hw_ver : ℕ
  pub averaging : ℕ
  pub tail : List ℕ

-- A block of less than 11 bytes is none.
unfoldable pub of_bytes : List ℕ → Option Blob
of_bytes (b0 ∷ b1 ∷ b2 ∷ b3 ∷ b4 ∷ b5 ∷ b6 ∷ b7 ∷ b8 ∷ b9 ∷ b10 ∷ rest) = some (record {
  flg = b0;
  flg2 = b1;
  byte2 = b2;
  byte3 = b3;
  adv_interval = b4;
  measure_interval = b5;
  rf_tx_power = b6;
  connect_latency = b7;
  lcd_refresh = b8;
  hw_ver = b9;
  averaging = b10;
  tail = rest;
})
of_bytes _ = none

unfoldable pub to_bytes : Blob → List ℕ
to_bytes b =
    b.flg ∷ b.flg2 ∷ b.byte2 ∷ b.byte3 ∷ b.adv_interval ∷ b.measure_interval ∷ b.rf_tx_power
    ∷ b.connect_latency ∷ b.lcd_refresh ∷ b.hw_ver ∷ b.averaging ∷ b.tail

-- The layouts that the version byte tells apart; 0 is an unknown version, which is taken for modern.
pub data Layout : Type 0 where
  legacy transitional modern : Layout

unfoldable pub layout_of : ℕ → Layout
layout_of fw =
    if fw == 0
    then modern
    else if ltb fw 0x47
    then legacy
    else if ltb 0x50 fw
    then modern
    else transitional

-- `bool((x >> k) & 1)`.
abbrev pub bit : ℕ → ℕ → Bool
bit k x = bit_and (x / 2 ^ k) 1 == 1

-- `_i8`.
abbrev pub i8 : ℕ → ℤ
i8 b = if leb 128 b then sub_ℕ b 256 else pos b

abbrev pub in_modern {ℓ} : {A : Type ℓ} → Layout → A → Option A
in_modern modern a = some a
in_modern legacy a = none
in_modern transitional a = none

abbrev pub in_legacy {ℓ} : {A : Type ℓ} → Layout → A → Option A
in_legacy legacy a = some a
in_legacy modern a = none
in_legacy transitional a = none

-- What `parse` returns. The legacy offsets are in tenths.
pub record Parsed : Type 0 where
  pub layout : Layout
  pub config : Config
  pub adv_crypto : Bool
  pub bt5phy : Bool
  pub longrange : Bool
  pub hw_ver : ℕ
  pub temp_offset : Option ℤ
  pub humi_offset : Option ℤ
  pub date_ddmm : Option Bool
  pub weekday_off : Option Bool

abbrev pub config_of : Layout → Blob → Config
config_of l b = record {
  adv_interval_raw = b.adv_interval;
  measure_mult = b.measure_interval;
  temp_F = bit 4 b.flg;
  screen_off = bit 7 b.flg2;
  lcd_refresh_raw = b.lcd_refresh;
  smiley = bit_and b.flg2 0x07;
  comfort_smiley = bit 2 b.flg;
  blinking_time_smile = bit 3 b.flg;
  show_batt = bit 5 b.flg;
  lp_measures = bit 7 b.flg;
  tx_measures = bit 6 b.flg;
  averaging = b.averaging;
  adv_flags = bit 4 b.flg2;
  adv_delay_raw = in_modern l (bit_and b.byte2 0x0f);
  event_adv_cnt = in_modern l b.byte3;
  rf_tx_power = b.rf_tx_power;
  connect_latency_raw = b.connect_latency;
  adv_type_raw = bit_and b.flg 0x03;
}

abbrev pub parse_as : Layout → Blob → Parsed
parse_as l b = record {
  layout = l;
  config = config_of l b;
  adv_crypto = bit 3 b.flg2;
  bt5phy = bit 5 b.flg2;
  longrange = bit 6 b.flg2;
  hw_ver = b.hw_ver;
  temp_offset = in_legacy l (i8 b.byte2);
  humi_offset = in_legacy l (i8 b.byte3);
  date_ddmm = in_modern l (bit 6 b.byte2);
  weekday_off = in_modern l (bit 7 b.byte2);
}

unfoldable pub parse : ℕ → Blob → Parsed
parse fw b = parse_as (layout_of fw) b

-- The dictionary of changes, by its keys. `adv_interval_raw`, `event_adv_cnt`, `measure_interval` and
-- `measure_mult` may be `None`, which the panel sends for a number that it could not read.
pub record Changes : Type 0 where
  pub comfort_smiley : Option Bool
  pub blinking_time_smile : Option Bool
  pub temp_F : Option Bool
  pub show_batt : Option Bool
  pub tx_measures : Option Bool
  pub lp_measures : Option Bool
  pub adv_type_raw : Option ℕ
  pub smiley : Option ℕ
  pub adv_flags : Option Bool
  pub screen_off : Option Bool
  pub temp_offset : Option ℤ
  pub humi_offset : Option ℤ
  pub adv_delay_raw : Option ℕ
  pub event_adv_cnt : Option (Option ℕ)
  pub adv_interval_raw : Option (Option ℕ)
  pub measure_interval : Option (Option ℕ)
  pub measure_mult : Option (Option ℕ)
  pub rf_tx_power : Option ℕ
  pub connect_latency_raw : Option ℕ
  pub lcd_refresh_raw : Option ℕ
  pub averaging : Option ℕ

-- `_bit`, on the byte.
abbrev pub put_bit : ℕ → Option Bool → ℕ → ℕ
put_bit mask none x = x
put_bit mask (some true) x = bit_or x mask
put_bit mask (some false) x = bit_and x (255 - mask)

-- The bits of `x` that the mask keeps, with `v` in the place of the others.
abbrev pub put_low : ℕ → ℕ → Option ℕ → ℕ → Option ℕ
put_low keep top none x = some x
put_low keep top (some v) x = if leb v top then some (bit_or (bit_and x keep) v) else none

-- A byte whose value is given as it is, from `least` to 255.
abbrev pub put_byte : ℕ → Option ℕ → ℕ → Option ℕ
put_byte least none x = some x
put_byte least (some v) x = if leb least v && leb v 255 then some v else none

abbrev first_of : Option (Option ℕ) → Option (Option ℕ) → Option (Option ℕ)
first_of none mult = mult
first_of (some v) mult = some v

-- `int(None)` raises.
abbrev pub put_int : ℕ → Option (Option ℕ) → ℕ → Option ℕ
put_int least none x = some x
put_int least (some none) x = none
put_int least (some (some v)) x = put_byte least (some v) x

-- `changes.get("measure_interval", changes.get("measure_mult"))`; a missing `measure_mult` is `None`.
abbrev pub measured : Changes → Option (Option ℕ)
measured ch = first_of ch.measure_interval ch.measure_mult

abbrev pub put_measure : Option (Option ℕ) → ℕ → Option ℕ
put_measure none x = some x
put_measure (some v) x = put_byte 1 v x

abbrev pub put_offset : Option ℤ → ℕ → Option ℕ
put_offset none x = some x
put_offset (some (pos n)) x = if leb n 127 then some n else none
put_offset (some (negsuc n)) x = if leb (n + 1) 127 then some (256 - (n + 1)) else none

abbrev pub put_byte2 : Layout → Changes → ℕ → Option ℕ
put_byte2 legacy ch x = put_offset ch.temp_offset x
put_byte2 transitional ch x = some x
put_byte2 modern ch x = put_low 0xf0 15 ch.adv_delay_raw x

abbrev pub put_byte3 : Layout → Changes → ℕ → Option ℕ
put_byte3 legacy ch x = put_offset ch.humi_offset x
put_byte3 transitional ch x = some x
put_byte3 modern ch x = put_int 0 ch.event_adv_cnt x

-- The six flags of the first byte, and the two of the second.
unfoldable pub put_flags : Changes → ℕ → ℕ
put_flags ch x = put_bit 0x80 ch.lp_measures (
    put_bit 0x40 ch.tx_measures (
      put_bit 0x20 ch.show_batt (
        put_bit 0x10 ch.temp_F
          (put_bit 0x08 ch.blinking_time_smile (put_bit 0x04 ch.comfort_smiley x)))))

unfoldable pub put_flags2 : Changes → ℕ → ℕ
put_flags2 ch x = put_bit 0x80 ch.screen_off (put_bit 0x10 ch.adv_flags x)

infixl 5 ◌>>=◌
abbrev pub ◌>>=◌ {ℓ κ} : {A : Type ℓ} {B : Type κ} → Option A → (A → Option B) → Option B
none >>= f = none
some a >>= f = f a

-- `build` for a layout; `none` is an exception.
abbrev pub build_as : Layout → Changes → Blob → Option Blob
build_as l ch b = do
  flg ← put_low 0xfc 3 ch.adv_type_raw (put_flags ch b.flg)
  smiley ← put_low 0xf8 7 ch.smiley b.flg2
  byte2 ← put_byte2 l ch b.byte2
  byte3 ← put_byte3 l ch b.byte3
  adv ← put_int 1 ch.adv_interval_raw b.adv_interval
  measure ← put_measure (measured ch) b.measure_interval
  tx ← put_byte 0 ch.rf_tx_power b.rf_tx_power
  latency ← put_byte 0 ch.connect_latency_raw b.connect_latency
  lcd ← put_byte 1 ch.lcd_refresh_raw b.lcd_refresh
  avg ← put_byte 0 ch.averaging b.averaging
  some (record b {
    flg = flg;
    flg2 = put_flags2 ch smiley;
    byte2 = byte2;
    byte3 = byte3;
    adv_interval = adv;
    measure_interval = measure;
    rf_tx_power = tx;
    connect_latency = latency;
    lcd_refresh = lcd;
    averaging = avg;
  })

-- What the exception is: a value out of its range, or `int(None)`. The first in the order of `build` is
-- the one that is raised.
pub data Error : Type 0 where
  value_error type_error : Error

abbrev pub or_error : Option Error → Option Error → Option Error
or_error none e = e
or_error (some e) f = some e

abbrev pub range_error : ℕ → ℕ → Option ℕ → Option Error
range_error least top none = none
range_error least top (some v) = if leb least v && leb v top then none else some value_error

abbrev pub int_error : ℕ → Option (Option ℕ) → Option Error
int_error least none = none
int_error least (some none) = some type_error
int_error least (some (some v)) = range_error least 255 (some v)

abbrev pub measure_error : Option (Option ℕ) → Option Error
measure_error none = none
measure_error (some v) = range_error 1 255 v

abbrev pub offset_error : Option ℤ → Option Error
offset_error none = none
offset_error (some (pos n)) = if leb n 127 then none else some value_error
offset_error (some (negsuc n)) = if leb (n + 1) 127 then none else some value_error

abbrev pub layout_error : Layout → Changes → Option Error
layout_error legacy ch = or_error (offset_error ch.temp_offset) (offset_error ch.humi_offset)
layout_error transitional ch = none
layout_error modern ch = or_error (range_error 0 15 ch.adv_delay_raw) (int_error 0 ch.event_adv_cnt)

unfoldable pub error_of : Layout → Changes → Option Error
error_of l ch = or_error (range_error 0 3 ch.adv_type_raw) (
    or_error (range_error 0 7 ch.smiley) (
      or_error (layout_error l ch) (
        or_error (int_error 1 ch.adv_interval_raw) (
          or_error (measure_error (measured ch)) (
            or_error (range_error 0 255 ch.rf_tx_power) (
              or_error (range_error 0 255 ch.connect_latency_raw) (
                or_error (range_error 1 255 ch.lcd_refresh_raw)
                  (range_error 0 255 ch.averaging))))))))

unfoldable pub build : ℕ → Changes → Blob → Option Blob
build fw ch b = build_as (layout_of fw) ch b

-- `with_adv_crypto`.
unfoldable pub with_adv_crypto : ℕ → Bool → Blob → Option Blob
with_adv_crypto fw enabled b =
    if not (fw == 0) && ltb fw 0x22
    then none
    else some (record b { flg2 = put_bit 0x08 (some enabled) b.flg2 })
