-- ===== src/Restoring/Through.antt =====
-- That a restore gets through to a device that answers (custom_components/telink_manager/gatt.py:
-- `async_restore`).
use mathlib.Core.Bool.{false≢true}
use ha_telink_manager.Prelude.{
  refl, ◌∙◌, ℕ, Bool, true, false, Option, none, some, List, [], ◌∷◌, ◌++◌, text_eq_iff, ◌≡◌, sym,
  subst,
}
use ha_telink_manager.Blob.{Blob, to_bytes, with_adv_crypto}
use ha_telink_manager.Blob.Build.{IsBlob}
use ha_telink_manager.Blob.Crypto.{adv_crypto-IsBlob}
use ha_telink_manager.Writing.{Link, compared_bytes, Failure}
use ha_telink_manager.Writing.Reliable.{IsReliable, read_raw_lem}
use ha_telink_manager.Restoring.{
  Notices, Before, Wanted, Reply, parts, Answer, returned, awaited, command_sent, subscribed, cmd,
  config_kept, config_sent, config_built, put_config, put_judged, put, put_key, before_that,
  next_part, put_all, restored, restore_fn, done_or, client_connected, client_found, with_client,
  async_restore,
}
use ha_telink_manager.Restoring.Parts.{
  Part, config, device_name, comfort, bind_key, sensor, Done, Names, code_of, payload_of,
}
use ha_telink_manager.Restoring.Keeping.{flagged, config_ok}

-- A thermometer whose answers to the commands all come in time.
pub record IsAnswering {W : Type 0} (notices : Notices W) : Type 0 where
  pub subscribes : (w : W) → (notices.subscribe w).0 ≡ true
  pub notifies : (code : ℕ) (w : W) → (raw : List ℕ) × ((notices.notified code w).0 ≡ some raw)
  pub thermometer : (w : W) → notices.is_repeater w ≡ false

-- A reply with a configuration that went well, and with a copy of this version and block.
abbrev pub IsComplete : ℕ → Blob → Answer → Type 0
IsComplete version held (returned (parts done (some copy))) =
    (config_ok done ≡ true) × (copy.fw_byte ≡ version) × (copy.block ≡ held)
IsComplete version held _ = ⊥

config_ok-append : (done more : List Done) → config_ok done ≡ true → config_ok (done ++ more) ≡ true
unfolding config_ok
config_ok-append [] more h = absurd (false≢true h)
config_ok-append ((config, ok) ∷ done) more h = h
config_ok-append ((device_name, ok) ∷ done) more h = h
config_ok-append ((comfort, ok) ∷ done) more h = h
config_ok-append ((bind_key, ok) ∷ done) more h = h
config_ok-append ((sensor, ok) ∷ done) more h = h

-- No exception.
abbrev IsAny {ℓ} : {A : Type ℓ} → Option A → Type 0
IsAny none = ⊥
IsAny (some a) = Unit

module _ {W : Type 0} (link : Link W) (notices : Notices W) (names : Names) (version : ℕ)
    (device : W → Blob) (reliable : IsReliable link version device)
    (answering : IsAnswering notices) where
  awaited-IsAny :
      (code : ℕ) (p : Option (List ℕ) × W) {raw : List ℕ}
      → p.0 ≡ some raw
      → IsAny (awaited link notices names code p).0
  awaited-IsAny code (o, w) e =
      subst (λ x. IsAny (awaited link notices names code (x, w)).0) (sym e) tt

  command_sent-IsAny :
      (code : ℕ) (p : Bool × W) → p.0 ≡ true → IsAny (command_sent link notices names code p).0
  command_sent-IsAny code (false, w) e = absurd (false≢true e)
  command_sent-IsAny code (true, w) e =
      awaited-IsAny code (notices.notified code w) (answering.notifies code w).1

  subscribed-IsAny :
      (code : ℕ) (payload : List ℕ) (p : Bool × W)
      → p.0 ≡ true
      → IsAny (subscribed link notices names code payload p).0
  subscribed-IsAny code payload (false, w) e = absurd (false≢true e)
  subscribed-IsAny code payload (true, w) e =
      command_sent-IsAny code (link.send (code ∷ payload) w) (reliable.sends (code ∷ payload) w)

  put-IsAny : (p : Part) (o : Option (List ℕ)) (w : W) → IsAny (put link notices names p o w).0
  unfolding cmd
  put-IsAny p none w = tt
  put-IsAny p (some value) w =
      go
        (subscribed link notices names (code_of p) (payload_of names p value) (notices.subscribe w))
        (subscribed-IsAny (code_of p) (payload_of names p value) (notices.subscribe w)
          (answering.subscribes w))
    where
      go : (q : Option (List ℕ) × W) → IsAny q.0 → IsAny (put_judged link notices names p value q).0
      go (none, v) h = h
      go (some raw, v) h = tt

  put_key-IsAny :
      (refuse : Bool) (key : Option (List ℕ)) (w : W)
      → IsAny (put_key link notices names refuse key w).0
  put_key-IsAny true key w = tt
  put_key-IsAny false key w = put-IsAny bind_key key w

  abbrev IsThrough : Option (List Done) × W → Type 0
  IsThrough (none, w) = ⊥
  IsThrough (some done, w) = config_ok done ≡ true

  next_part-IsThrough :
      (f : W → Option (List Done) × W)
      → ((w : W) → IsAny (f w).0)
      → (p : Option (List Done) × W) → IsThrough p
      → IsThrough (next_part link notices names f p)
  next_part-IsThrough f any (none, w) h = h
  next_part-IsThrough f any (some done, w) h = go (f w) (any w)
    where
      go :
          (q : Option (List Done) × W)
          → IsAny q.0
          → IsThrough (before_that link notices names done q)
      go (none, v) k = k
      go (some more, v) k = config_ok-append done more h

  config_sent-IsThrough :
      (target : Blob) (p : Bool × W)
      → p.0 ≡ true
      → compared_bytes (device p.1) ≡ compared_bytes target
      → IsThrough (config_sent link notices names target p)
  unfolding config_ok
  config_sent-IsThrough target (false, w) e h = absurd (false≢true e)
  config_sent-IsThrough target (true, w) e h =
      subst (λ r. IsThrough (config_kept link notices names target r))
        (sym (read_raw_lem link version device reliable w))
        ((text_eq_iff (compared_bytes (device w)) (compared_bytes target)).1 h)

  config_built-IsThrough :
      (flag : Bool) (blob : Blob) (w : W)
      → IsBlob blob
      → IsThrough (config_built link notices names (with_adv_crypto 0 flag blob) w)
  unfolding with_adv_crypto
  config_built-IsThrough flag blob w whole =
      config_sent-IsThrough (flagged flag blob) (link.send (0x55 ∷ to_bytes (flagged flag blob)) w)
        (reliable.sends (0x55 ∷ to_bytes (flagged flag blob)) w)
        (reliable.stores (flagged flag blob) (adv_crypto-IsBlob flag blob whole) w)

  module _ (wanted : Wanted) (blob : Blob) (whole : IsBlob blob)
      (chosen : wanted.config ≡ some blob) where
    put_all-IsThrough :
        (b : Before) (w : W) → IsThrough (put_all link notices names wanted (some b) w)
    put_all-IsThrough b w = next_part-IsThrough _ (put-IsAny sensor wanted.sensor) _ (
        next_part-IsThrough _ (put_key-IsAny wanted.refuse_key wanted.bind_key) _ (
          next_part-IsThrough _ (put-IsAny comfort wanted.comfort) _ (
            next_part-IsThrough _ (put-IsAny device_name wanted.name) _ (
              subst (λ c. IsThrough (put_config link notices names c (some b) w)) (sym chosen)
                (config_built-IsThrough _ blob w whole)))))

    -- An attempt has a reply, with a copy.
    abbrev IsReplied : Blob → Option Reply × W → Type 0
    IsReplied held (none, w) = ⊥
    IsReplied held (some r, w) = IsComplete version held (returned r)

    restored-IsReplied :
        (b : Before) (p : Option (List Done) × W)
        → IsThrough p
        → b.fw_byte ≡ version
        → IsReplied b.block (restored link notices names (some b) p)
    restored-IsReplied b (none, w) h e = h
    restored-IsReplied b (some done, w) h e = (h, e, refl)

    restore_fn-IsReplied : (w : W) → IsReplied (device w) (restore_fn link notices names wanted w)
    unfolding restore_fn
    restore_fn-IsReplied w =
        rw (answering.thermometer w, read_raw_lem link version device reliable w)
          (restored-IsReplied _ _ (put_all-IsThrough _ _) refl)

    module _ (held : Blob) (again : Failure → Bool → W → Answer × W) where
      done_or-through :
          (p : Option Reply × W)
          → IsReplied held p
          → IsComplete version held (done_or link notices names again p).0
      done_or-through (none, w) h = absurd h
      done_or-through (some r, w) h = h

      client_connected-through :
          (p : Bool × W)
          → p.0 ≡ true
          → device p.1 ≡ held
          → IsComplete version held (client_connected link notices names wanted again p).0
      client_connected-through (false, w) e k = absurd (false≢true e)
      client_connected-through (true, w) e k =
          done_or-through (restore_fn link notices names wanted w) (
            subst (λ b. IsReplied b (restore_fn link notices names wanted w)) k
              (restore_fn-IsReplied w))

      client_found-through :
          (p : Bool × W)
          → p.0 ≡ true
          → device p.1 ≡ held
          → IsComplete version held (client_found link notices names wanted again p).0
      client_found-through (false, w) e k = absurd (false≢true e)
      client_found-through (true, w) e k =
          client_connected-through (link.connect w) (reliable.connects w)
            (reliable.connecting w ∙ k)

    -- Over a link that loses nothing, to a thermometer that stores what it is sent and answers in time, a
    -- restore of the configuration ends with a reply that the configuration went well, with a copy of the
    -- version and the block that the device held before, whatever other parts are asked for.
    pub async_restore-IsComplete :
        (w : W) → IsComplete version (device w) (async_restore link notices names wanted w).0
    unfolding with_client
    async_restore-IsComplete w =
        client_found-through (device w) (with_client link notices names wanted 1) (link.find w)
          (reliable.finds w) (reliable.finding w)
