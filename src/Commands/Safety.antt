-- ===== src/Commands/Safety.antt =====
-- What the commands leave alone, and what they send (the handlers of `_modalCommands`).
use ha_telink_manager.Prelude.{
  ℕ, ◌≤◌, Bool, true, false, Option, none, some, [], ◌≡◌, refl, arith, if◌then◌else◌, Bool-cases,
  inl, inr, sym, ap, subst, ◌∙◌,
}
use mathlib.Core.Bool.{false≢true}
use mathlib.Core.Option.{some-injective, none-ne-some}
use ha_telink_manager.Html.{Text}
use ha_telink_manager.Commands.{
  Factory, Typed, Modal, Button, c_name, c_comfort, c_sensor, c_sensor_def, c_time, c_lcd,
  c_lcd_clear, c_raw, c_mac_read, c_mac_set, c_bk_read, c_bk_set, c_enc_on, c_enc_off, c_reboot,
  c_factory, Message, set_sensor, sensor_default, raw, set_mac, set_bind_key, set_encryption,
  reboot, factory_reset, Reply, press, message, asks, or_nat, add_ℤ,
}
use ha_telink_manager.Commands.Answer.{answered, failed_key, failed, succeeded, no_answer}

abbrev pub is_ok : Option Reply → Bool
is_ok none = false
is_ok (some r) = r.ok

-- What is left when the two texts that a failure may show are taken away.
abbrev pub unshown : Modal → Modal
unshown m = record m { rawout = []; enc_key = [] }

failed_key-unshown : (r : Reply) (m : Modal) → unshown (failed_key r m) ≡ unshown m
failed_key-unshown r m = elim (Bool-cases r.maybe_changed) [
  | inl e ↦ rw (e) refl
  | inr e ↦ rw (e) refl
]

failed-unshown : (b : Button) (r : Reply) (m : Modal) → unshown (failed b r m) ≡ unshown m
failed-unshown c_name r m = refl
failed-unshown c_comfort r m = refl
failed-unshown c_sensor r m = refl
failed-unshown c_sensor_def r m = refl
failed-unshown c_time r m = refl
failed-unshown c_lcd r m = refl
failed-unshown c_lcd_clear r m = refl
failed-unshown c_raw r m = refl
failed-unshown c_mac_read r m = refl
failed-unshown c_mac_set r m = refl
failed-unshown c_bk_read r m = refl
failed-unshown c_bk_set r m = refl
failed-unshown c_enc_on r m = failed_key-unshown r m
failed-unshown c_enc_off r m = failed_key-unshown r m
failed-unshown c_reboot r m = refl
failed-unshown c_factory r m = refl

no_answer-unshown : (b : Button) (m : Modal) → unshown (no_answer b m) ≡ unshown m
no_answer-unshown c_name m = refl
no_answer-unshown c_comfort m = refl
no_answer-unshown c_sensor m = refl
no_answer-unshown c_sensor_def m = refl
no_answer-unshown c_time m = refl
no_answer-unshown c_lcd m = refl
no_answer-unshown c_lcd_clear m = refl
no_answer-unshown c_raw m = refl
no_answer-unshown c_mac_read m = refl
no_answer-unshown c_mac_set m = refl
no_answer-unshown c_bk_read m = refl
no_answer-unshown c_bk_set m = refl
no_answer-unshown c_enc_on m = refl
no_answer-unshown c_enc_off m = refl
no_answer-unshown c_reboot m = refl
no_answer-unshown c_factory m = refl

-- A command that failed, was overtaken or had no answer changes nothing that the panel holds of the
-- device: at most the reply's label and the key's input show something else.
pub answered-failed :
    (mac key : Text) (t : Typed) (b : Button) (a : Option Reply) (m : Modal)
    → is_ok a ≡ false
    → unshown (answered mac key t b a m) ≡ unshown m
unfolding answered
answered-failed mac key t b none m h = no_answer-unshown b m
answered-failed mac key t b (some r) m h =
    subst (λ w. unshown (if w then succeeded mac key t b r m else failed b r m) ≡ unshown m) (sym h)
      (failed-unshown b r m)

-- The requests that lose settings, need a key or cut the connection.
abbrev pub is_drastic : Message → Bool
is_drastic sensor_default = true
is_drastic (raw hex expect_reply) = true
is_drastic (set_mac new_mac) = true
is_drastic (set_bind_key key) = true
is_drastic (set_encryption enable key) = true
is_drastic reboot = true
is_drastic factory_reset = true
is_drastic _ = false

unasked-mild :
    (f : Factory) (t : Typed) (m : Modal) (b : Button)
    → asks b ≡ false
    → is_drastic (message f t m b) ≡ false
unfolding message
unasked-mild f t m c_name h = refl
unasked-mild f t m c_comfort h = refl
unasked-mild f t m c_sensor h = refl
unasked-mild f t m c_sensor_def h = absurd (false≢true (sym h))
unasked-mild f t m c_time h = refl
unasked-mild f t m c_lcd h = refl
unasked-mild f t m c_lcd_clear h = refl
unasked-mild f t m c_raw h = absurd (false≢true (sym h))
unasked-mild f t m c_mac_read h = refl
unasked-mild f t m c_mac_set h = absurd (false≢true (sym h))
unasked-mild f t m c_bk_read h = refl
unasked-mild f t m c_bk_set h = absurd (false≢true (sym h))
unasked-mild f t m c_enc_on h = absurd (false≢true (sym h))
unasked-mild f t m c_enc_off h = absurd (false≢true (sym h))
unasked-mild f t m c_reboot h = absurd (false≢true (sym h))
unasked-mild f t m c_factory h = absurd (false≢true (sym h))

-- Whichever button is pressed, a drastic request is sent only after its question was answered with yes.
pub press-confirmed :
    (f : Factory) (t : Typed) (m : Modal) (b : Button) (confirmed : Bool) (msg : Message)
    → press f t m b confirmed ≡ some msg
    → is_drastic msg ≡ true
    → confirmed ≡ true
unfolding press
press-confirmed f t m b true msg h d = refl
press-confirmed f t m b false msg h d = elim (Bool-cases (asks b)) [
  | inl e ↦ absurd (none-ne-some msg (rw (e) at h))
  | inr e ↦
      let p : message f t m b ≡ msg = some-injective _ _ (rw (e) at h) in
      sym (unasked-mild f t m b e) ∙ ap is_drastic p ∙ d
]

or_nat-positive : (a b : ℕ) → 1 ≤ b → 1 ≤ or_nat a b
or_nat-positive a b h = ground (arith, h)

slope-positive : (a b : ℕ) → 1 ≤ or_nat a (or_nat b 65536)
slope-positive a b = or_nat-positive a (or_nat b 65536) (or_nat-positive b 65536 (omega arith))

-- The offset button sends slopes that are not 0, which the backend would refuse, and, once it is done,
-- the fine offsets that the panel shows are those that it sent on top of the factory's.
pub sensor-offsets :
    (f : Factory) (t : Typed) (m : Modal) (mac key : Text) (r : Reply)
    → r.ok ≡ true
    → (ts : ℕ) × ((hs : ℕ) × ((1 ≤ ts)
          × (1 ≤ hs)
          × (press f t m c_sensor true
              ≡ some (
                  set_sensor ts
                    (add_ℤ f.t_z_default_c
                      (answered mac key t c_sensor (some r) m).loaded.t_fine_offset_c)
                    hs
                    (add_ℤ f.h_z_default_pct
                      (answered mac key t c_sensor (some r) m).loaded.h_fine_offset_pct)))))
unfolding press message answered
sensor-offsets f t m mac key r ok = (
  or_nat f.t_slope_default (or_nat f.t_slope 65536),
  (
    or_nat f.h_slope_default (or_nat f.h_slope 65536),
    (
      slope-positive f.t_slope_default f.t_slope,
      slope-positive f.h_slope_default f.h_slope,
      subst
          (λ w.
            some (message f t m c_sensor)
            ≡ some (
                set_sensor (or_nat f.t_slope_default (or_nat f.t_slope 65536))
                  (add_ℤ f.t_z_default_c
                    (if w then succeeded mac key t c_sensor r m else m).loaded.t_fine_offset_c)
                  (or_nat f.h_slope_default (or_nat f.h_slope 65536))
                  (add_ℤ f.h_z_default_pct
                    (if w then succeeded mac key t c_sensor r m else m).loaded.h_fine_offset_pct)))
          (sym ok) refl,
    ),
  ),
)
