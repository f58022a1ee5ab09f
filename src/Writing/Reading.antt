-- ===== src/Writing/Reading.antt =====
-- What `async_write` reads from a device that keeps its block (custom_components/telink_manager/gatt.py:
-- `_read_raw`), and what its settings are.
use ha_telink_manager.Prelude.{
  ℕ, zero, suc, Bool, true, false, Option, none, some, List, [], ◌∷◌, get_or_else, ◌≡◌, ◌⊎◌, inl,
  inr, refl, ap, ◌∙◌, Bool-cases,
}
use ha_telink_manager.Blob.{Blob, Parsed, Changes, measured, parse, to_bytes}
use ha_telink_manager.Blob.Build.{IsBlob, over, requested_all}
use ha_telink_manager.Writing.{
  Link, config_answer, same_answer, compared_bytes, Reading, compared, received, asked, read_rounds,
}

-- A link to a device that holds a block. Only what is sent as a new block changes it, but for the byte that
-- is the device's own, and such a block is stored as a whole or not at all, whether or not the request ends
-- in an exception. A good answer is the version and the block; any other may come in its place.
pub record IsLinked {W : Type 0} (link : Link W) (version : ℕ) (device : W → Blob) : Type 0 where
  pub whole : (w : W) → IsBlob (device w)
  pub finding : (w : W) → compared_bytes (device (link.find w).1) ≡ compared_bytes (device w)
  pub connecting : (w : W) → compared_bytes (device (link.connect w).1) ≡ compared_bytes (device w)
  pub leaving : (w : W) → compared_bytes (device (link.disconnect w)) ≡ compared_bytes (device w)
  pub receiving : (w : W) → compared_bytes (device (link.receive w).1) ≡ compared_bytes (device w)
  pub asking :
      (w : W) → compared_bytes (device (link.send (0x55 ∷ []) w).1) ≡ compared_bytes (device w)
  pub storing :
      (b : Blob)
      → IsBlob b
      → (w : W)
      → (compared_bytes (device (link.send (0x55 ∷ to_bytes b) w).1) ≡ compared_bytes (device w))
        ⊎ (compared_bytes (device (link.send (0x55 ∷ to_bytes b) w).1) ≡ compared_bytes b)
  pub answering :
      (w : W) (raw : List ℕ)
      → (link.receive w).0 ≡ some raw
      → (config_answer raw ≡ none) ⊎ (config_answer raw ≡ some (version, device w))

-- What is read from a block, without the device's own byte.
abbrev pub of_compared : List ℕ → Blob
of_compared (b0 ∷ b1 ∷ b2 ∷ b3 ∷ b4 ∷ b5 ∷ b6 ∷ b7 ∷ b8 ∷ b10 ∷ []) = record {
  flg = b0;
  flg2 = b1;
  byte2 = b2;
  byte3 = b3;
  adv_interval = b4;
  measure_interval = b5;
  rf_tx_power = b6;
  connect_latency = b7;
  lcd_refresh = b8;
  hw_ver = 0;
  averaging = b10;
  tail = [];
}
of_compared _ = record {
  flg = 0;
  flg2 = 0;
  byte2 = 0;
  byte3 = 0;
  adv_interval = 0;
  measure_interval = 0;
  rf_tx_power = 0;
  connect_latency = 0;
  lcd_refresh = 0;
  hw_ver = 0;
  averaging = 0;
  tail = [];
}

abbrev pub settled : Parsed → Parsed
settled p = record p { hw_ver = 0 }

-- Asking for the same twice is asking once.
get_or_else_twice {ℓ} :
    {A : Type ℓ} (o : Option A) (a : A) → get_or_else o (get_or_else o a) ≡ get_or_else o a
get_or_else_twice none a = refl
get_or_else_twice (some b) a = refl

over_twice {ℓ} : {A : Type ℓ} (v o : Option A) → over v (over v o) ≡ over v o
over_twice v none = refl
over_twice v (some a) = ap some (get_or_else_twice v a)

pub requested_all_twice :
    (ch : Changes) (p : Parsed) → requested_all ch (requested_all ch p) ≡ requested_all ch p
requested_all_twice ch p =
    rw
      (
        get_or_else_twice (get_or_else ch.adv_interval_raw none) p.config.adv_interval_raw,
        get_or_else_twice (get_or_else (measured ch) none) p.config.measure_mult,
        get_or_else_twice ch.temp_F p.config.temp_F,
        get_or_else_twice ch.screen_off p.config.screen_off,
        get_or_else_twice ch.lcd_refresh_raw p.config.lcd_refresh_raw,
        get_or_else_twice ch.smiley p.config.smiley,
        get_or_else_twice ch.comfort_smiley p.config.comfort_smiley,
        get_or_else_twice ch.blinking_time_smile p.config.blinking_time_smile,
        get_or_else_twice ch.show_batt p.config.show_batt,
        get_or_else_twice ch.lp_measures p.config.lp_measures,
        get_or_else_twice ch.tx_measures p.config.tx_measures,
        get_or_else_twice ch.averaging p.config.averaging,
        get_or_else_twice ch.adv_flags p.config.adv_flags,
        over_twice ch.adv_delay_raw p.config.adv_delay_raw,
        over_twice (get_or_else ch.event_adv_cnt none) p.config.event_adv_cnt,
        get_or_else_twice ch.rf_tx_power p.config.rf_tx_power,
        get_or_else_twice ch.connect_latency_raw p.config.connect_latency_raw,
        get_or_else_twice ch.adv_type_raw p.config.adv_type_raw,
        over_twice ch.temp_offset p.temp_offset,
        over_twice ch.humi_offset p.humi_offset,
      )
      refl

module _ {W : Type 0} (link : Link W) (version : ℕ) (device : W → Blob) where
  abbrev pub bytes : W → List ℕ
  bytes w = compared_bytes (device w)

  abbrev pub shown : List ℕ → Parsed
  shown bs = parse version (of_compared bs)

  pub data IsReading (s : List ℕ) : Reading link → Type 0 where
    read_none : {w : W} → bytes w ≡ s → IsReading s (none, w)
    read_some :
        (u : W) {w : W} → bytes u ≡ s → bytes w ≡ s → IsReading s (some (version, device u), w)

  pub shown-compared_bytes : (b : Blob) → shown (compared_bytes b) ≡ settled (parse version b)
  unfolding parse
  shown-compared_bytes b = refl

  module _ (linked : IsLinked link version device) where
    module _ (s : List ℕ) (again : Option (ℕ × Blob) → W → Reading link) where
      compared-IsReading :
          (more : (prev : Option (ℕ × Blob)) (w : W) → bytes w ≡ s → IsReading s (again prev w))
          (prev : Option (ℕ × Blob)) (u w : W)
          → bytes u ≡ s
          → bytes w ≡ s
          → IsReading s (compared link again prev (some (version, device u)) w)
      compared-IsReading more none u w k h = more _ w h
      compared-IsReading more (some p) u w k h =
          elim (Bool-cases (same_answer p (version, device u))) [
            | inl e ↦ rw (e) (read_some u k h)
            | inr e ↦ rw (e) (more _ w h)
          ]

      received-IsReading :
          (more : (prev : Option (ℕ × Blob)) (w : W) → bytes w ≡ s → IsReading s (again prev w))
          (prev : Option (ℕ × Blob)) (u : W) (o : Option (List ℕ)) (w : W)
          → bytes u ≡ s
          → bytes w ≡ s
          → ((raw : List ℕ)
              → o ≡ some raw
              → (config_answer raw ≡ none) ⊎ (config_answer raw ≡ some (version, device u)))
          → IsReading s (received link again prev (o, w))
      received-IsReading more prev u none w k h true_answer = read_none h
      received-IsReading more prev u (some raw) w k h true_answer = elim (true_answer raw refl) [
        | inl e ↦ rw (e) (more prev w h)
        | inr e ↦ rw (e) (compared-IsReading more prev u w k h)
      ]

      asked-IsReading :
          (more : (prev : Option (ℕ × Blob)) (w : W) → bytes w ≡ s → IsReading s (again prev w))
          (prev : Option (ℕ × Blob)) (ok : Bool) (w : W)
          → bytes w ≡ s
          → IsReading s (asked link again prev (ok, w))
      asked-IsReading more prev false w h = read_none h
      asked-IsReading more prev true w h =
          received-IsReading more prev w (link.receive w).0 (link.receive w).1 h
            (linked.receiving w ∙ h) (linked.answering w)

    pub read_rounds-IsReading :
        (s : List ℕ) (n : ℕ) (prev : Option (ℕ × Blob)) (w : W)
        → bytes w ≡ s
        → IsReading s (read_rounds link n prev w)
    unfolding read_rounds
    read_rounds-IsReading s zero prev w h = read_none h
    read_rounds-IsReading s (suc n) prev w h =
        asked-IsReading s (read_rounds link n) (read_rounds-IsReading s n) prev
          (link.send (0x55 ∷ []) w).0 (link.send (0x55 ∷ []) w).1 (linked.asking w ∙ h)
