-- ===== src/Restoring/Blocks.antt =====
-- What the parts of a restore do to the block, one behind the other (custom_components/telink_manager/
-- gatt.py: `async_restore`).
use ha_telink_manager.Prelude.{
  text_eq, Bool-cases, ℕ, Bool, true, false, Option, none, some, List, ◌∷◌, text_eq_iff, ◌≡◌, inl,
  inr, refl, sym, ap, subst, ◌∙◌,
}
use ha_telink_manager.Blob.{Blob, bit, parse, to_bytes, with_adv_crypto}
use ha_telink_manager.Blob.Build.{IsBlob}
use ha_telink_manager.Blob.Crypto.{adv_crypto-IsBlob}
use ha_telink_manager.Writing.{Link, Reading, read_raw, compared_bytes}
use ha_telink_manager.Writing.Reading.{
  IsLinked, IsReading, read_none, read_some, read_rounds-IsReading,
}
use ha_telink_manager.Restoring.{
  Notices, Before, Wanted, config_kept, config_sent, config_built, put_config, put_all,
}
use ha_telink_manager.Restoring.Parts.{device_name, comfort, sensor, Done, Names}
use ha_telink_manager.Restoring.Keeping.{
  IsQuiet, flagged, crypto_of, flag-flagged, config_ok, block, IsGood, next_part-IsGood, put-IsPart,
  put_key-IsPart,
}

-- The snapshot's block is bytes.
abbrev pub IsWhole : Option Blob → Type 0
IsWhole none = Unit
IsWhole (some blob) = IsBlob blob

module _ {W : Type 0} (link : Link W) (notices : Notices W) (names : Names) (version : ℕ)
    (device : W → Blob) (linked : IsLinked link version device)
    (quiet : IsQuiet link notices device) (flag : Bool) where
  abbrev pub held : W → List ℕ
  held w = block link notices names version device linked quiet w

  abbrev pub Good : Option Blob → Option (List Done) × W → Type 0
  Good c p = IsGood link notices names version device linked quiet flag c p

  config_kept-IsGood :
      (blob : Blob) (s : List ℕ) (r : Reading link)
      → IsReading link version device s r
      → crypto_of s ≡ flag
      → Good (some blob) (config_kept link notices names (flagged flag blob) r)
  unfolding config_ok
  config_kept-IsGood blob s _ (read_none e) h = ap crypto_of e ∙ h
  config_kept-IsGood blob s _ (read_some u {w} d e) h = (
    ap crypto_of e ∙ h,
    elim (Bool-cases (text_eq (compared_bytes (device u)) (compared_bytes (flagged flag blob)))) [
      | inl k ↦ inr (
          e
          ∙ (sym d
              ∙ (text_eq_iff (compared_bytes (device u)) (compared_bytes (flagged flag blob))).0 k))
      | inr k ↦ inl k
    ],
  )

  config_sent-IsGood :
      (blob : Blob) (p : Bool × W)
      → crypto_of (held p.1) ≡ flag
      → Good (some blob) (config_sent link notices names (flagged flag blob) p)
  config_sent-IsGood blob (false, w) h = h
  config_sent-IsGood blob (true, w) h =
      config_kept-IsGood blob (held w) (read_raw link w)
        (read_rounds-IsReading link version device linked (held w) 6 none w refl) h

  -- The block that is sent has the device's own flag.
  config_built-IsGood :
      (blob : Blob) (w : W)
      → IsBlob blob
      → crypto_of (held w) ≡ flag
      → Good (some blob) (config_built link notices names (with_adv_crypto 0 flag blob) w)
  unfolding with_adv_crypto
  config_built-IsGood blob w whole h =
      config_sent-IsGood blob (link.send (0x55 ∷ to_bytes (flagged flag blob)) w)
        (elim (linked.storing (flagged flag blob) (adv_crypto-IsBlob flag blob whole) w) [
          | inl e ↦ ap crypto_of e ∙ h
          | inr e ↦ ap crypto_of e ∙ flag-flagged flag blob whole
        ])

  put_config-IsGood :
      (c : Option Blob) (o : Option Before) (w : W)
      → IsWhole c
      → crypto_of (held w) ≡ flag
      → ((b : Before) → o ≡ some b → bit 3 b.block.flg2 ≡ flag)
      → Good c (put_config link notices names c o w)
  unfolding config_ok parse
  put_config-IsGood none o w whole h k = (h, refl)
  put_config-IsGood (some blob) none w whole h k = (h, inl refl)
  put_config-IsGood (some blob) (some b) w whole h k =
      subst (λ f. Good (some blob) (config_built link notices names (with_adv_crypto 0 f blob) w))
        (sym (k b refl)) (config_built-IsGood blob w whole h)

  pub put_all-IsGood :
      (wanted : Wanted) (o : Option Before) (w : W)
      → IsWhole wanted.config
      → crypto_of (held w) ≡ flag
      → ((b : Before) → o ≡ some b → bit 3 b.block.flg2 ≡ flag)
      → Good wanted.config (put_all link notices names wanted o w)
  unfolding config_ok
  put_all-IsGood wanted o w whole h k =
      next_part-IsGood link notices names version device linked quiet flag wanted.config _
        (λ v.
          put-IsPart link notices names version device linked quiet sensor wanted.sensor v refl
            (λ ok. refl))
        _
        (next_part-IsGood link notices names version device linked quiet flag wanted.config _
          (λ v.
            put_key-IsPart link notices names version device linked quiet wanted.refuse_key
              wanted.bind_key v)
          _
          (next_part-IsGood link notices names version device linked quiet flag wanted.config _
            (λ v.
              put-IsPart link notices names version device linked quiet comfort wanted.comfort v
                refl (λ ok. refl))
            _
            (next_part-IsGood link notices names version device linked quiet flag wanted.config _
              (λ v.
                put-IsPart link notices names version device linked quiet device_name wanted.name v
                  refl (λ ok. refl))
              _ (put_config-IsGood wanted.config o w whole h k))))
