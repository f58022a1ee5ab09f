-- ===== src/Store/Signature.antt =====
-- What the comparison of two snapshots' blocks ignores (`_state_sig`, on the hex text of a block).
use ha_telink_manager.Prelude.{ℕ, ◌<◌, List, [], ◌∷◌, All, ◌≡◌, ◌↔◌, refl, sym, ap, ◌∙◌}
use mathlib.Core.Option.{some-injective}
use ha_telink_manager.Blob.{Blob, to_bytes}
use ha_telink_manager.Commands.Random.{rand_hex, from_hex, from_hex-rand_hex}
use ha_telink_manager.Store.{take, drop, raw_norm}

-- The bytes of a block of 11 but for the hardware version.
abbrev state_bytes : Blob → List ℕ
state_bytes b =
    b.flg ∷ b.flg2 ∷ b.byte2 ∷ b.byte3 ∷ b.adv_interval ∷ b.measure_interval ∷ b.rf_tx_power
    ∷ b.connect_latency ∷ b.lcd_refresh ∷ b.averaging ∷ []

raw_norm-state_bytes :
    (b : Blob) → b.tail ≡ [] → raw_norm (rand_hex (to_bytes b)) ≡ rand_hex (state_bytes b)
unfolding raw_norm take drop rand_hex to_bytes
raw_norm-state_bytes b h = rw (h) refl

-- A block with these bytes and the hardware version 0.
abbrev block_of : List ℕ → Blob
block_of (b0 ∷ b1 ∷ b2 ∷ b3 ∷ b4 ∷ b5 ∷ b6 ∷ b7 ∷ b8 ∷ b10 ∷ rest) = record {
  flg = b0;
  flg2 = b1;
  byte2 = b2;
  byte3 = b3;
  adv_interval = b4;
  measure_interval = b5;
  rf_tx_power = b6;
  connect_latency = b7;
  lcd_refresh = b8;
  hw_ver = 0;
  averaging = b10;
  tail = rest;
}
block_of _ = record {
  flg = 0;
  flg2 = 0;
  byte2 = 0;
  byte3 = 0;
  adv_interval = 0;
  measure_interval = 0;
  rf_tx_power = 0;
  connect_latency = 0;
  lcd_refresh = 0;
  hw_ver = 0;
  averaging = 0;
  tail = [];
}

abbrev pub AreBytes : List ℕ → Type 0
AreBytes bs = All (λ (x : ℕ). x < 256) bs

state_bytes-AreBytes : (b : Blob) → AreBytes (to_bytes b) → AreBytes (state_bytes b)
unfolding to_bytes
state_bytes-AreBytes b (h0, (h1, (h2, (h3, (h4, (h5, (h6, (h7, (h8, (h9, (h10, rest))))))))))) =
    (h0, (h1, (h2, (h3, (h4, (h5, (h6, (h7, (h8, (h10, tt))))))))))

rand_hex-injective :
    (xs ys : List ℕ) → AreBytes xs → AreBytes ys → rand_hex xs ≡ rand_hex ys → xs ≡ ys
rand_hex-injective xs ys h k e =
    some-injective _ _ (sym (from_hex-rand_hex xs h).0 ∙ ap from_hex e ∙ (from_hex-rand_hex ys k).0)

block_of-state_bytes : (b : Blob) → b.tail ≡ [] → block_of (state_bytes b) ≡ record b { hw_ver = 0 }
block_of-state_bytes b h = rw (h) refl

-- The hex texts of two blocks of 11 bytes count as the same state exactly if the blocks differ in nothing
-- but the hardware version.
pub raw_norm-to_bytes :
    (b c : Blob)
    → AreBytes (to_bytes b)
    → AreBytes (to_bytes c)
    → b.tail ≡ []
    → c.tail ≡ []
    → (raw_norm (rand_hex (to_bytes b)) ≡ raw_norm (rand_hex (to_bytes c)))
      ↔ (record b { hw_ver = 0 } ≡ record c { hw_ver = 0 })
raw_norm-to_bytes b c h k p q = (
  (λ e.
      sym (block_of-state_bytes b p)
      ∙ ap block_of (
          rand_hex-injective (state_bytes b) (state_bytes c) (state_bytes-AreBytes b h)
            (state_bytes-AreBytes c k)
            (sym (raw_norm-state_bytes b p) ∙ e ∙ raw_norm-state_bytes c q))
      ∙ block_of-state_bytes c q),
  (λ e.
      raw_norm-state_bytes b p
      ∙ ap (λ (d : Blob). rand_hex (state_bytes d)) e
      ∙ sym (raw_norm-state_bytes c q)),
)
