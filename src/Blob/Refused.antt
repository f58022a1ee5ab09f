-- ===== src/Blob/Refused.antt =====
-- When a write of the configuration block is refused (custom_components/telink_manager/
-- pvvx_struct.py: the ranges of `build`).
use ha_telink_manager.Prelude.{
  ℕ, leb, ℤ, pos, negsuc, Bool, true, false, ◌&&◌, ◌+◌, Option, none, some, ◌≡◌, ◌↔◌, ◌∙◌, refl,
  arith, sym, subst, Bool-cases, inl, inr,
}
use mathlib.Core.Bool.{false≢true}
use mathlib.Core.Option.{none-ne-some}
use ha_telink_manager.Blob.{
  Blob, Layout, legacy, transitional, modern, layout_of, Changes, measured, Error, or_error,
  range_error, int_error, measure_error, offset_error, layout_error, error_of, put_low, put_byte,
  put_int, put_measure, put_offset, put_byte2, put_byte3, ◌>>=◌, build, build_as,
}

-- The values that a change may have, each where it is given.
abbrev pub fits : ℕ → ℕ → Option ℕ → Bool
fits least top none = true
fits least top (some v) = leb least v && leb v top

abbrev pub fits_int : ℕ → ℕ → Option (Option ℕ) → Bool
fits_int least top none = true
fits_int least top (some none) = false
fits_int least top (some (some v)) = leb least v && leb v top

abbrev pub fits_measure : Option (Option ℕ) → Bool
fits_measure none = true
fits_measure (some v) = fits 1 255 v

abbrev pub fits_offset : Option ℤ → Bool
fits_offset none = true
fits_offset (some (pos n)) = leb n 127
fits_offset (some (negsuc n)) = leb (n + 1) 127

abbrev pub fits_layout : Layout → Changes → Bool
fits_layout legacy ch = fits_offset ch.temp_offset && fits_offset ch.humi_offset
fits_layout transitional ch = true
fits_layout modern ch = fits 0 15 ch.adv_delay_raw && fits_int 0 255 ch.event_adv_cnt

abbrev pub in_range : Layout → Changes → Bool
in_range l ch =
    fits 0 3 ch.adv_type_raw
    && (fits 0 7 ch.smiley
        && (fits_layout l ch
            && (fits_int 1 255 ch.adv_interval_raw
                && (fits_measure (measured ch)
                    && (fits 0 255 ch.rf_tx_power
                        && (fits 0 255 ch.connect_latency_raw
                            && (fits 1 255 ch.lcd_refresh_raw && fits 0 255 ch.averaging)))))))

-- Whether a chain gets past its head.
abbrev is_some {ℓ} : {A : Type ℓ} → Option A → Bool
is_some none = false
is_some (some a) = true

past {ℓ κ} :
    {A : Type ℓ} {B : Type κ} (o : Option A) (f : A → Option B) (p q : Bool)
    → is_some o ≡ p
    → ((x : A) → is_some (f x) ≡ q)
    → is_some (o >>= f) ≡ (p && q)
past none f p q e h = subst (λ w. false ≡ (w && q)) e refl
past (some x) f p q e h = h x ∙ subst (λ w. q ≡ (w && q)) e refl

put_low-fits : (keep top : ℕ) (v : Option ℕ) (x : ℕ) → is_some (put_low keep top v x) ≡ fits 0 top v
put_low-fits keep top none x = refl
put_low-fits keep top (some v) x = ground arith

put_byte-fits : (least : ℕ) (v : Option ℕ) (x : ℕ) → is_some (put_byte least v x) ≡ fits least 255 v
put_byte-fits least none x = refl
put_byte-fits least (some v) x = ground arith

put_int-fits :
    (least : ℕ) (v : Option (Option ℕ)) (x : ℕ) → is_some (put_int least v x) ≡ fits_int least 255 v
put_int-fits least none x = refl
put_int-fits least (some none) x = refl
put_int-fits least (some (some v)) x = ground arith

put_measure-fits : (v : Option (Option ℕ)) (x : ℕ) → is_some (put_measure v x) ≡ fits_measure v
put_measure-fits none x = refl
put_measure-fits (some v) x = put_byte-fits 1 v x

put_offset-fits : (v : Option ℤ) (x : ℕ) → is_some (put_offset v x) ≡ fits_offset v
put_offset-fits none x = refl
put_offset-fits (some (pos n)) x = ground arith
put_offset-fits (some (negsuc n)) x = ground arith

and_assoc : (a b c : Bool) → (a && (b && c)) ≡ ((a && b) && c)
and_assoc a b c = ground arith

and_true : (a : Bool) → (a && true) ≡ a
and_true a = ground arith

-- The two bytes whose meaning depends on the layout.
past_layout {ℓ} :
    {B : Type ℓ} (l : Layout) (ch : Changes) (x y : ℕ) (f : ℕ → ℕ → Option B) (q : Bool)
    → ((v w : ℕ) → is_some (f v w) ≡ q)
    → is_some (put_byte2 l ch x >>= λ v. put_byte3 l ch y >>= λ w. f v w) ≡ (fits_layout l ch && q)
past_layout legacy ch x y f q h =
    past _ _ _ _ (put_offset-fits ch.temp_offset x)
      (λ v. past _ _ _ q (put_offset-fits ch.humi_offset y) (λ w. h v w))
    ∙ and_assoc (fits_offset ch.temp_offset) _ q
past_layout transitional ch x y f q h = h x y
past_layout modern ch x y f q h =
    past _ _ _ _ (put_low-fits 0xf0 15 ch.adv_delay_raw x)
      (λ v. past _ _ _ q (put_int-fits 0 ch.event_adv_cnt y) (λ w. h v w))
    ∙ and_assoc (fits 0 15 ch.adv_delay_raw) _ q

build_as-is_some :
    (l : Layout) (ch : Changes) (b : Blob) → is_some (build_as l ch b) ≡ in_range l ch
build_as-is_some l ch b = past _ _ _ _ (put_low-fits 0xfc 3 ch.adv_type_raw _) (λ flg.
    past _ _ _ _ (put_low-fits 0xf8 7 ch.smiley b.flg2) (λ smiley.
      past_layout l ch b.byte2 b.byte3 _ _ (λ byte2 byte3.
        past _ _ _ _ (put_int-fits 1 ch.adv_interval_raw b.adv_interval) (λ adv.
          past _ _ _ _ (put_measure-fits (measured ch) b.measure_interval) (λ measure.
            past _ _ _ _ (put_byte-fits 0 ch.rf_tx_power b.rf_tx_power) (λ tx.
              past _ _ _ _ (put_byte-fits 0 ch.connect_latency_raw b.connect_latency) (λ latency.
                past _ _ _ _ (put_byte-fits 1 ch.lcd_refresh_raw b.lcd_refresh) (λ lcd.
                  past _ _ _ true (put_byte-fits 0 ch.averaging b.averaging) (λ avg. refl)
                  ∙ and_true (fits 0 255 ch.averaging)))))))))

is_some-none {ℓ} : {A : Type ℓ} (o : Option A) → (o ≡ none) ↔ (is_some o ≡ false)
is_some-none none = ((λ e. refl), (λ e. refl))
is_some-none (some a) = ((λ e. absurd (none-ne-some _ (sym e))), (λ e. absurd (false≢true (sym e))))

-- A write is refused exactly if one of the given values is out of its range, or is no number where one is
-- needed; of the two version-dependent bytes, only the values that the layout has count.
pub build-refused :
    (fw : ℕ) (ch : Changes) (b : Blob)
    → (build fw ch b ≡ none) ↔ (in_range (layout_of fw) ch ≡ false)
unfolding build
build-refused fw ch b =
    let (to, back) = is_some-none (build_as (layout_of fw) ch b) in
    let e = build_as-is_some (layout_of fw) ch b in ((λ h. sym e ∙ to h), (λ h. back (e ∙ h)))

pub build-in_range :
    (fw : ℕ) (ch : Changes) (b : Blob) {b' : Blob}
    → build fw ch b ≡ some b'
    → in_range (layout_of fw) ch ≡ true
build-in_range fw ch b e = elim (Bool-cases (in_range (layout_of fw) ch)) [
  | inl h ↦ h
  | inr h ↦ absurd (none-ne-some _ (sym ((build-refused fw ch b).1 h) ∙ e))
]

-- The exception that `error_of` names is there exactly if a value is not in its range.
abbrev no_error : Option Error → Bool
no_error none = true
no_error (some e) = false

no_error-or : (a b : Option Error) → no_error (or_error a b) ≡ (no_error a && no_error b)
no_error-or none b = refl
no_error-or (some e) b = refl

both :
    (a b : Option Error) {p q : Bool}
    → no_error a ≡ p
    → no_error b ≡ q
    → no_error (or_error a b) ≡ (p && q)
both a b h k = no_error-or a b ∙ rw (h, k) refl

range_error-fits :
    (least top : ℕ) (v : Option ℕ) → no_error (range_error least top v) ≡ fits least top v
range_error-fits least top none = refl
range_error-fits least top (some v) = ground arith

int_error-fits :
    (least : ℕ) (v : Option (Option ℕ)) → no_error (int_error least v) ≡ fits_int least 255 v
int_error-fits least none = refl
int_error-fits least (some none) = refl
int_error-fits least (some (some v)) = range_error-fits least 255 (some v)

measure_error-fits : (v : Option (Option ℕ)) → no_error (measure_error v) ≡ fits_measure v
measure_error-fits none = refl
measure_error-fits (some v) = range_error-fits 1 255 v

offset_error-fits : (v : Option ℤ) → no_error (offset_error v) ≡ fits_offset v
offset_error-fits none = refl
offset_error-fits (some (pos n)) = ground arith
offset_error-fits (some (negsuc n)) = ground arith

layout_error-fits : (l : Layout) (ch : Changes) → no_error (layout_error l ch) ≡ fits_layout l ch
layout_error-fits legacy ch =
    both _ _ (offset_error-fits ch.temp_offset) (offset_error-fits ch.humi_offset)
layout_error-fits transitional ch = refl
layout_error-fits modern ch =
    both _ _ (range_error-fits 0 15 ch.adv_delay_raw) (int_error-fits 0 ch.event_adv_cnt)

error_of-in_range : (l : Layout) (ch : Changes) → no_error (error_of l ch) ≡ in_range l ch
unfolding error_of
error_of-in_range l ch = both _ _ (range_error-fits 0 3 ch.adv_type_raw) (
    both _ _ (range_error-fits 0 7 ch.smiley) (
      both _ _ (layout_error-fits l ch) (
        both _ _ (int_error-fits 1 ch.adv_interval_raw) (
          both _ _ (measure_error-fits (measured ch)) (
            both _ _ (range_error-fits 0 255 ch.rf_tx_power) (
              both _ _ (range_error-fits 0 255 ch.connect_latency_raw) (
                both _ _ (range_error-fits 1 255 ch.lcd_refresh_raw)
                  (range_error-fits 0 255 ch.averaging))))))))
