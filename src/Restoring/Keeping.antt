-- ===== src/Restoring/Keeping.antt =====
-- What the requests of a restore do to the block of the device (custom_components/telink_manager/gatt.py:
-- `_cmd`, `_read_all_fields`, and the parts of `async_restore`).
use mathlib.Core.Bool.{false≢true}
use mathlib.Core.Option.{some-injective, none-ne-some}
use ha_telink_manager.Prelude.{
  ℕ, ◌==◌, Bool, true, false, Option, none, some, List, [], ◌∷◌, ◌++◌, ◌≡◌, inl, inr, refl, sym, ap,
  subst, ◌∙◌, Bool-cases, ◌⊎◌,
}
use ha_telink_manager.Blob.{Blob, bit, put_bit, parse, with_adv_crypto}
use ha_telink_manager.Blob.Build.{IsBlob}
use ha_telink_manager.Blob.Crypto.{parse-with_adv_crypto}
use ha_telink_manager.Writing.{Link, Reading, compared_bytes}
use ha_telink_manager.Writing.Reading.{IsLinked, bytes, IsReading, read_none, read_some}
use ha_telink_manager.Restoring.{
  Notices, Before, fallback, awaited, command_sent, subscribed, cmd, read_all, put_judged, put,
  put_key, before_that, next_part,
}
use ha_telink_manager.Restoring.Parts.{
  Part, config, device_name, comfort, bind_key, sensor, Done, Names, code_of, payload_of,
}

-- The other requests leave the block as it is.
pub record IsQuiet {W : Type 0} (link : Link W) (notices : Notices W) (device : W → Blob)
    : Type 0 where
  pub subscribing :
      (w : W) → compared_bytes (device (notices.subscribe w).1) ≡ compared_bytes (device w)
  pub notifying :
      (code : ℕ) (w : W)
      → compared_bytes (device (notices.notified code w).1) ≡ compared_bytes (device w)
  pub unsubscribing :
      (w : W) → compared_bytes (device (notices.unsubscribe w)) ≡ compared_bytes (device w)
  pub commanding :
      (code : ℕ) (payload : List ℕ) (w : W)
      → (code == 0x55) ≡ false
      → compared_bytes (device (link.send (code ∷ payload) w).1) ≡ compared_bytes (device w)

-- The snapshot's block, with the encryption flag of the device.
abbrev pub flagged : Bool → Blob → Blob
flagged flag b = record b { flg2 = put_bit 0x08 (some flag) b.flg2 }

abbrev pub crypto_of : List ℕ → Bool
crypto_of (flg ∷ flg2 ∷ bs) = bit 3 flg2
crypto_of _ = false

pub flag-flagged : (flag : Bool) (b : Blob) → IsBlob b → bit 3 (flagged flag b).flg2 ≡ flag
unfolding parse with_adv_crypto
flag-flagged flag b h =
    ap (λ p. p.adv_crypto) (parse-with_adv_crypto 0 flag b {b' = flagged flag b} h refl)

-- The reply says that the configuration went well.
unfoldable pub config_ok : List Done → Bool
config_ok ((config, ok) ∷ done) = ok
config_ok _ = false

config_ok-append :
    (done more : List Done)
    → config_ok more ≡ false
    → config_ok (done ++ more) ≡ true
    → config_ok done ≡ true
unfolding config_ok
config_ok-append [] more h e = absurd (false≢true (sym h ∙ e))
config_ok-append ((config, ok) ∷ done) more h e = e
config_ok-append ((device_name, ok) ∷ done) more h e = e
config_ok-append ((comfort, ok) ∷ done) more h e = e
config_ok-append ((bind_key, ok) ∷ done) more h e = e
config_ok-append ((sensor, ok) ∷ done) more h e = e

config_not_ok :
    (done more : List Done)
    → config_ok more ≡ false
    → config_ok done ≡ false
    → config_ok (done ++ more) ≡ false
config_not_ok done more h k = elim (Bool-cases (config_ok (done ++ more))) [
  | inl e ↦ absurd (false≢true (sym k ∙ config_ok-append done more h e))
  | inr e ↦ e
]

-- What a list of parts says of the block that the device holds then.
abbrev pub IsKept : Bool → Option Blob → List ℕ → List Done → Type 0
IsKept flag none bs done = config_ok done ≡ false
IsKept flag (some blob) bs done =
    (config_ok done ≡ false) ⊎ (bs ≡ compared_bytes (flagged flag blob))

IsKept-append :
    (flag : Bool) (c : Option Blob) (bs : List ℕ) (done more : List Done)
    → config_ok more ≡ false
    → IsKept flag c bs done
    → IsKept flag c bs (done ++ more)
IsKept-append flag none bs done more h k = config_not_ok done more h k
IsKept-append flag (some blob) bs done more h (inl k) = inl (config_not_ok done more h k)
IsKept-append flag (some blob) bs done more h (inr k) = inr k

module _ {W : Type 0} (link : Link W) (notices : Notices W) (names : Names) (version : ℕ)
    (device : W → Blob) (linked : IsLinked link version device)
    (quiet : IsQuiet link notices device) where
  abbrev pub block : W → List ℕ
  block w = bytes link version device w

  module _ (code : ℕ) (s : List ℕ) where
    awaited_keeps :
        (p : Option (List ℕ) × W) → block p.1 ≡ s → block (awaited link notices names code p).1 ≡ s
    awaited_keeps (some raw, w) h = h
    awaited_keeps (none, w) h = fallen (link.receive w) (linked.receiving w ∙ h)
      where
        fallen :
            (p : Option (List ℕ) × W)
            → block p.1 ≡ s
            → block (fallback link notices names code p).1 ≡ s
        fallen (none, w) k = k
        fallen (some raw, w) k = k

    command_sent_keeps :
        (p : Bool × W) → block p.1 ≡ s → block (command_sent link notices names code p).1 ≡ s
    command_sent_keeps (false, w) h = h
    command_sent_keeps (true, w) h =
        awaited_keeps (notices.notified code w) (quiet.notifying code w ∙ h)

    subscribed_keeps :
        (payload : List ℕ) (p : Bool × W)
        → (code == 0x55) ≡ false
        → block p.1 ≡ s
        → block (subscribed link notices names code payload p).1 ≡ s
    subscribed_keeps payload (false, w) e h = h
    subscribed_keeps payload (true, w) e h =
        quiet.unsubscribing _
        ∙ command_sent_keeps (link.send (code ∷ payload) w) (quiet.commanding code payload w e ∙ h)

  cmd_keeps :
      (code : ℕ) (payload : List ℕ) (w : W)
      → (code == 0x55) ≡ false
      → block (cmd link notices names code payload w).1 ≡ block w
  unfolding cmd
  cmd_keeps code payload w e =
      subscribed_keeps code (block w) payload (notices.subscribe w) e (quiet.subscribing w)

  unfoldable pub IsBefore : List ℕ → Option Before × W → Type 0
  IsBefore s (o, w) = (block w ≡ s) × ((b : Before) → o ≡ some b → bit 3 b.block.flg2 ≡ crypto_of s)

  pub read_all-IsBefore :
      (s : List ℕ) (r : Reading link)
      → IsReading link version device s r
      → IsBefore s (read_all link notices names r)
  unfolding IsBefore
  read_all-IsBefore s _ (read_none e) = (e, λ b k. absurd (none-ne-some _ k))
  read_all-IsBefore s _ (read_some u {w} d e) = (
    cmd_keeps 0x18 [] _ refl
        ∙ (cmd_keeps 0x25 [] _ refl
            ∙ (cmd_keeps 0x23 [] _ refl
                ∙ (cmd_keeps 0x20 [] _ refl ∙ (cmd_keeps 0x01 [] w refl ∙ e)))),
    λ b k. sym (ap (λ x. bit 3 x.block.flg2) (some-injective _ _ k)) ∙ ap crypto_of d,
  )

  -- A part behind the configuration.
  abbrev pub IsPart : W → Option (List Done) × W → Type 0
  IsPart v (none, w) = block w ≡ block v
  IsPart v (some more, w) = (block w ≡ block v) × (config_ok more ≡ false)

  module _ (flag : Bool) (c : Option Blob) where
    abbrev pub IsGood : Option (List Done) × W → Type 0
    IsGood (none, w) = crypto_of (block w) ≡ flag
    IsGood (some done, w) = (crypto_of (block w) ≡ flag) × IsKept flag c (block w) done

    pub next_part-IsGood :
        (f : W → Option (List Done) × W)
        → ((w : W) → IsPart w (f w))
        → (p : Option (List Done) × W) → IsGood p
        → IsGood (next_part link notices names f p)
    next_part-IsGood f part (none, w) h = h
    next_part-IsGood f part (some done, w) h = go (f w) (part w)
      where
        go :
            (q : Option (List Done) × W)
            → IsPart w q
            → IsGood (before_that link notices names done q)
        go (none, v) e = ap crypto_of e ∙ h.0
        go (some more, v) e = (
          ap crypto_of e.0 ∙ h.0,
          subst (λ bs. IsKept flag c bs (done ++ more)) (sym e.0)
              (IsKept-append flag c (block w) done more e.1 h.1),
        )

  put_judged-IsPart :
      (p : Part) (value : List ℕ) (v : W) (q : Option (List ℕ) × W)
      → ((ok : Bool) → config_ok ((p, ok) ∷ []) ≡ false)
      → block q.1 ≡ block v
      → IsPart v (put_judged link notices names p value q)
  put_judged-IsPart p value v (none, w) k e = e
  put_judged-IsPart p value v (some raw, w) k e = (e, k _)

  pub put-IsPart :
      (p : Part) (o : Option (List ℕ)) (w : W)
      → (code_of p == 0x55) ≡ false
      → ((ok : Bool) → config_ok ((p, ok) ∷ []) ≡ false)
      → IsPart w (put link notices names p o w)
  unfolding config_ok
  put-IsPart p none w e k = (refl, refl)
  put-IsPart p (some value) w e k =
      put_judged-IsPart p value w (cmd link notices names (code_of p) (payload_of names p value) w)
        k (cmd_keeps (code_of p) (payload_of names p value) w e)

  pub put_key-IsPart :
      (refuse : Bool) (key : Option (List ℕ)) (w : W)
      → IsPart w (put_key link notices names refuse key w)
  unfolding config_ok
  put_key-IsPart true key w = (refl, refl)
  put_key-IsPart false key w = put-IsPart bind_key key w refl (λ ok. refl)
