-- ===== src/Restoring/Flag.antt =====
-- What a restore says of the device, and what it never does to it (custom_components/telink_manager/gatt.py:
-- `async_restore`).
use ha_telink_manager.Prelude.{
  ℕ, zero, suc, Bool, true, false, Option, none, some, List, ◌≡◌, inl, inr, refl, sym, ap, subst,
  ◌∙◌, Bool-cases,
}
use ha_telink_manager.Blob.{Blob, bit}
use ha_telink_manager.Writing.{Link, read_raw, compared_bytes, Failure, no_attempt}
use ha_telink_manager.Writing.Reading.{IsLinked, read_rounds-IsReading}
use ha_telink_manager.Restoring.{
  Notices, Before, Wanted, Reply, kind_mismatch, parts, Answer, returned, read_all, put_all,
  restored, with_before, restore_fn, done_or, client_connected, client_found, with_client,
  async_restore,
}
use ha_telink_manager.Restoring.Parts.{Done, Names}
use ha_telink_manager.Restoring.Keeping.{IsQuiet, crypto_of, IsKept, IsBefore, read_all-IsBefore}
use ha_telink_manager.Restoring.Blocks.{IsWhole, held, Good, put_all-IsGood}

-- What is true of a reply, of the flag of the encryption before and the block that the device holds now.
abbrev pub IsKeptBy : Bool → Option Blob → Blob → Answer → Type 0
IsKeptBy flag c now (returned (parts done before)) =
    (bit 3 now.flg2 ≡ flag) × IsKept flag c (compared_bytes now) done
IsKeptBy flag c now _ = bit 3 now.flg2 ≡ flag

module _ {W : Type 0} (link : Link W) (notices : Notices W) (names : Names) (version : ℕ)
    (device : W → Blob) (linked : IsLinked link version device)
    (quiet : IsQuiet link notices device) (flag : Bool) where
  abbrev held_by : W → List ℕ
  held_by w = held link notices names version device linked quiet flag w

  abbrev GoodFor : Option Blob → Option (List Done) × W → Type 0
  GoodFor c p = Good link notices names version device linked quiet flag c p

  abbrev IsReplied : Option Blob → Option Reply × W → Type 0
  IsReplied c (none, w) = crypto_of (held_by w) ≡ flag
  IsReplied c (some r, w) = IsKeptBy flag c (device w) (returned r)

  restored-IsReplied :
      (c : Option Blob) (o : Option Before) (p : Option (List Done) × W)
      → GoodFor c p
      → IsReplied c (restored link notices names o p)
  restored-IsReplied c o (none, w) h = h
  restored-IsReplied c o (some done, w) h = h

  with_before-IsReplied :
      (wanted : Wanted) (s : List ℕ) (p : Option Before × W)
      → IsWhole wanted.config
      → crypto_of s ≡ flag
      → IsBefore link notices names version device linked quiet s p
      → IsReplied wanted.config (with_before link notices names wanted p)
  unfolding IsBefore
  with_before-IsReplied wanted s (o, w) whole h (e, k) =
      restored-IsReplied wanted.config o (put_all link notices names wanted o w) (
        put_all-IsGood link notices names version device linked quiet flag wanted o w whole
          (ap crypto_of e ∙ h) (λ b q. k b q ∙ h))

  restore_fn-IsReplied :
      (wanted : Wanted) (w : W)
      → IsWhole wanted.config
      → crypto_of (held_by w) ≡ flag
      → IsReplied wanted.config (restore_fn link notices names wanted w)
  unfolding restore_fn
  restore_fn-IsReplied wanted w whole h = elim (Bool-cases (notices.is_repeater w)) [
    | inl e ↦ rw (e) h
    | inr e ↦ rw (e) (
        with_before-IsReplied wanted (held_by w) (read_all link notices names (read_raw link w))
          whole h
          (read_all-IsBefore link notices names version device linked quiet (held_by w)
            (read_raw link w)
            (read_rounds-IsReading link version device linked (held_by w) 6 none w refl)))
  ]

  module _ (wanted : Wanted) (whole : IsWhole wanted.config) where
    abbrev Ends : Answer × W → Type 0
    Ends p = IsKeptBy flag wanted.config (device p.1) p.0

    kept_answer :
        (r : Reply) (a b : Blob)
        → compared_bytes a ≡ compared_bytes b
        → IsKeptBy flag wanted.config b (returned r)
        → IsKeptBy flag wanted.config a (returned r)
    kept_answer kind_mismatch a b e h = ap crypto_of e ∙ h
    kept_answer (parts done o) a b e h =
        (ap crypto_of e ∙ h.0, subst (λ bs. IsKept flag wanted.config bs done) (sym e) h.1)

    module _ (again : Failure → Bool → W → Answer × W)
        (more : (e : Failure) (r : Bool) (w : W)
          → crypto_of (held_by w) ≡ flag
          → Ends (again e r w)) where
      done_or-Ends :
          (p : Option Reply × W)
          → IsReplied wanted.config p
          → Ends (done_or link notices names again p)
      done_or-Ends (none, w) h = more _ _ _ (ap crypto_of (linked.leaving w) ∙ h)
      done_or-Ends (some r, w) h =
          kept_answer r (device (link.disconnect w)) (device w) (linked.leaving w) h

      client_connected-Ends :
          (p : Bool × W)
          → crypto_of (held_by p.1) ≡ flag
          → Ends (client_connected link notices names wanted again p)
      client_connected-Ends (false, w) h = more _ _ w h
      client_connected-Ends (true, w) h = done_or-Ends _ (restore_fn-IsReplied wanted w whole h)

      client_found-Ends :
          (p : Bool × W)
          → crypto_of (held_by p.1) ≡ flag
          → Ends (client_found link notices names wanted again p)
      client_found-Ends (false, w) h = more _ _ w h
      client_found-Ends (true, w) h =
          client_connected-Ends (link.connect w) (ap crypto_of (linked.connecting w) ∙ h)

    with_client-Ends :
        (n : ℕ) (e : Failure) (r : Bool) (w : W)
        → crypto_of (held_by w) ≡ flag
        → Ends (with_client link notices names wanted n e r w)
    unfolding with_client
    with_client-Ends zero e r w h = h
    with_client-Ends (suc n) e r w h =
        client_found-Ends (with_client link notices names wanted n) (with_client-Ends n)
          (link.find w) (ap crypto_of (linked.finding w) ∙ h)

module _ {W : Type 0} (link : Link W) (notices : Notices W) (names : Names) (version : ℕ)
    (device : W → Blob) where
  -- Over a link to a device that stores a block as a whole or not at all and whose other commands leave the
  -- block alone, whatever is lost: a restore or a clone leaves the flag of the encryption as it was, and if its
  -- reply says that the configuration went well, the device holds the snapshot's with the flag that it had.
  pub async_restore-IsKeptBy :
      (linked : IsLinked link version device) (quiet : IsQuiet link notices device)
      (wanted : Wanted) (w : W)
      → IsWhole wanted.config
      → IsKeptBy
          (bit 3 (device w).flg2)
          wanted.config
          (device (async_restore link notices names wanted w).1)
          (async_restore link notices names wanted w).0
  async_restore-IsKeptBy linked quiet wanted w whole =
      with_client-Ends link notices names version device linked quiet (bit 3 (device w).flg2) wanted
        whole 2 no_attempt false w refl
