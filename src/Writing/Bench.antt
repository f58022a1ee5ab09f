-- ===== src/Writing/Bench.antt =====
-- A device behind a link that raises and loses requests.
use mathlib.Core.Option.{some-injective}
use ha_telink_manager.Prelude.{
  ℕ, ◌%◌, ◌<◌, ◌==◌, Bool, true, false, Option, none, some, List, [], ◌∷◌, ◌≡◌, ◌⊎◌, inl, inr, refl,
  arith, ap, sym, ◌∙◌, if◌then◌else◌,
}
use ha_telink_manager.Blob.{Blob, of_bytes, to_bytes}
use ha_telink_manager.Blob.Build.{IsBlob, bytes}
use ha_telink_manager.Writing.{Link, config_answer, compared_bytes}
use ha_telink_manager.Writing.Reading.{IsLinked}
use ha_telink_manager.Writing.Reliable.{IsReliable}

-- A loss is a block that is sent in vain, or one that is stored although the request raises; a command
-- with a value raises either way.
pub data Loss : Type 0 where
  passes lost raises_late : Loss

abbrev pub Bench : Type 0
Bench = Blob × List Loss

abbrev pub device : Bench → Blob
device (b, losses) = record b {
  flg = b.flg % 256;
  flg2 = b.flg2 % 256;
  byte2 = b.byte2 % 256;
  tail = [];
}

abbrev store : Option Blob → Bench → Bool × Bench
store none w = (true, w)
store (some b) (old, []) = (true, (b, []))
store (some b) (old, passes ∷ losses) = (true, (b, losses))
store (some b) (old, lost ∷ losses) = (false, (old, losses))
store (some b) (old, raises_late ∷ losses) = (false, (b, losses))

abbrev command : List ℕ → Bench → Bool × Bench
command [] w = (true, w)
command (b ∷ bs) (old, []) = (true, (old, []))
command (b ∷ bs) (old, passes ∷ losses) = (true, (old, losses))
command (b ∷ bs) (old, lost ∷ losses) = (false, (old, losses))
command (b ∷ bs) (old, raises_late ∷ losses) = (false, (old, losses))

abbrev pub take_in : List ℕ → Bench → Bool × Bench
take_in [] w = (true, w)
take_in (code ∷ bs) w = if code == 0x55 then store (of_bytes bs) w else command bs w

abbrev answer : Bench → Option (List ℕ) × Bench
answer w = (some (0x55 ∷ 0x56 ∷ to_bytes (device w)), w)

abbrev pub lossy : Link Bench
lossy = record {
  find = λ w. (true, w);
  connect = λ w. (true, w);
  send = take_in;
  receive = answer;
  disconnect = λ w. w;
}

pub device-IsBlob : (w : Bench) → IsBlob (device w)
device-IsBlob (b, losses) = bytes (omega arith) (omega arith) (omega arith)

pub device_stored :
    (b : Blob)
    → IsBlob b
    → (losses : List Loss) → compared_bytes (device (b, losses)) ≡ compared_bytes b
device_stored b (bytes h0 h1 h2) losses = rw (below h0, below h1, below h2) refl
  where
    below : {x : ℕ} → x < 256 → x % 256 ≡ x
    below h = omega arith

lossy_storing :
    (b : Blob)
    → IsBlob b
    → (w : Bench)
    → (compared_bytes (device (take_in (0x55 ∷ to_bytes b) w).1) ≡ compared_bytes (device w))
      ⊎ (compared_bytes (device (take_in (0x55 ∷ to_bytes b) w).1) ≡ compared_bytes b)
unfolding of_bytes to_bytes
lossy_storing b whole (old, []) = inr (device_stored b whole [])
lossy_storing b whole (old, passes ∷ losses) = inr (device_stored b whole losses)
lossy_storing b whole (old, lost ∷ losses) = inl refl
lossy_storing b whole (old, raises_late ∷ losses) = inr (device_stored b whole losses)

pub answered :
    (w : Bench) → config_answer (0x55 ∷ 0x56 ∷ to_bytes (device w)) ≡ some (0x56, device w)
unfolding of_bytes to_bytes config_answer
answered w = refl

asked_lem : (w : Bench) → (take_in (0x55 ∷ []) w).1 ≡ w
unfolding of_bytes
asked_lem w = refl

pub lossy-IsLinked : IsLinked lossy 0x56 device
lossy-IsLinked = record {
  whole = device-IsBlob;
  finding = λ w. refl;
  connecting = λ w. refl;
  leaving = λ w. refl;
  receiving = λ w. refl;
  asking = λ w. ap (λ x. compared_bytes (device x)) (asked_lem w);
  storing = lossy_storing;
  answering = λ w raw e. inr (ap config_answer (sym (some-injective _ _ e)) ∙ answered w);
}

commanded : (b : Blob) (losses : List Loss) (bs : List ℕ) → (command bs (b, losses)).1.0 ≡ b
commanded b losses [] = refl
commanded b [] (c ∷ bs) = refl
commanded b (passes ∷ losses) (c ∷ bs) = refl
commanded b (lost ∷ losses) (c ∷ bs) = refl
commanded b (raises_late ∷ losses) (c ∷ bs) = refl

pub lossy_commanding :
    (code : ℕ) (payload : List ℕ) (w : Bench)
    → (code == 0x55) ≡ false
    → compared_bytes (device (lossy.send (code ∷ payload) w).1) ≡ compared_bytes (device w)
lossy_commanding code payload (b, losses) e =
    rw (e) (ap (λ x. compared_bytes (device (x, losses))) (commanded b losses payload))

-- The same device behind a link that ignores the losses.
abbrev pub reliable : Link Bench
reliable = record lossy { send = λ bs w. (true, (take_in bs (w.0, [])).1) }

pub reliable-IsReliable : IsReliable reliable 0x56 device
unfolding of_bytes to_bytes
reliable-IsReliable = record {
  whole = device-IsBlob;
  finds = λ w. refl;
  finding = λ w. refl;
  connects = λ w. refl;
  connecting = λ w. refl;
  sends = λ bs w. refl;
  answers = λ w. (0x55 ∷ 0x56 ∷ to_bytes (device w), refl, answered w);
  asks = λ w. refl;
  receives = λ w. refl;
  stores = λ b whole w. device_stored b whole [];
}

abbrev pub blob : Blob
blob = record {
  flg = 167;
  flg2 = 24;
  byte2 = 64;
  byte3 = 5;
  adv_interval = 40;
  measure_interval = 4;
  rf_tx_power = 191;
  connect_latency = 49;
  lcd_refresh = 49;
  hw_ver = 3;
  averaging = 180;
  tail = [];
}
