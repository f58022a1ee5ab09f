-- ===== src/Writing/Reliable.antt =====
-- That `async_write` gets through to a device that answers.
use mathlib.Core.Bool.{false≢true}
use ha_telink_manager.Prelude.{
  zero, ℕ, suc, Bool, true, false, Option, none, some, List, [], ◌∷◌, text_eq, text_eq_iff, ◌≡◌,
  inl, inr, refl, sym, ap, subst, ◌∙◌, Bool-cases,
}
use ha_telink_manager.Blob.{
  Blob, layout_of, Changes, Error, value_error, type_error, error_of, build, to_bytes,
}
use ha_telink_manager.Blob.Build.{IsBlob}
use ha_telink_manager.Blob.Crypto.{build-IsBlob}
use ha_telink_manager.Blob.Refused.{in_range, build-refused, build-in_range}
use ha_telink_manager.Writing.{
  Link, config_answer, compared_bytes, Failure, Reply, unchanged, verified, Outcome, replied,
  failed, Reading, compared, received, asked, read_rounds, read_raw, judged, sent, refused, built,
  modified, disconnected, connected, found, unless_replied, attempts, async_write,
}

-- A link over which no request is lost, to a device that stores what it is sent.
pub record IsReliable {W : Type 0} (link : Link W) (version : ℕ) (device : W → Blob) : Type 0 where
  pub whole : (w : W) → IsBlob (device w)
  pub finds : (w : W) → (link.find w).0 ≡ true
  pub finding : (w : W) → device (link.find w).1 ≡ device w
  pub connects : (w : W) → (link.connect w).0 ≡ true
  pub connecting : (w : W) → device (link.connect w).1 ≡ device w
  pub sends : (bs : List ℕ) (w : W) → (link.send bs w).0 ≡ true
  pub answers :
      (w : W)
      → (raw : List ℕ) × ((link.receive w).0 ≡ some raw)
        × (config_answer raw ≡ some (version, device w))
  pub asks : (w : W) → device (link.send (0x55 ∷ []) w).1 ≡ device w
  pub receives : (w : W) → device (link.receive w).1 ≡ device w
  pub stores :
      (b : Blob)
      → IsBlob b
      → (w : W) → compared_bytes (device (link.send (0x55 ∷ to_bytes b) w).1) ≡ compared_bytes b

-- The `ok` of a reply.
unfoldable pub is_ok : Reply → Bool
is_ok (unchanged current) = true
is_ok (verified before after target) = true
is_ok _ = false

-- A reply that says whether it is done; an attempt fails only if the write cannot succeed.
abbrev IsReplied : {W : Type 0} → Bool → Outcome × W → Type 0
IsReplied ok (replied r, w) = is_ok r ≡ ok
IsReplied ok (failed e reached, w) = ok ≡ false

module _ {W : Type 0} (link : Link W) (again : Option (ℕ × Blob) → W → Reading link) where
  asked_onward :
      (prev : Option (ℕ × Blob)) (p : Bool × W)
      → p.0 ≡ true
      → asked link again prev p ≡ received link again prev (link.receive p.1)
  asked_onward prev (true, w) e = refl
  asked_onward prev (false, w) e = absurd (false≢true e)

  received_answer :
      (prev : Option (ℕ × Blob)) (p : Option (List ℕ) × W) (raw : List ℕ) {cur : ℕ × Blob}
      → p.0 ≡ some raw
      → config_answer raw ≡ some cur
      → received link again prev p ≡ compared link again prev (some cur) p.1
  received_answer prev (o, w) raw e k =
      ap (λ x. received link again prev (x, w)) e ∙ ap (λ x. compared link again prev x w) k

module _ {W : Type 0} (link : Link W) (version : ℕ) (device : W → Blob)
    (reliable : IsReliable link version device) where
  -- The state behind a request and its answer.
  abbrev pub turn : W → W
  turn w = (link.receive (link.send (0x55 ∷ []) w).1).1

  turn_keeps : (w : W) → device (turn w) ≡ device w
  turn_keeps w = reliable.receives (link.send (0x55 ∷ []) w).1 ∙ reliable.asks w

  read_round :
      (n : ℕ) (prev : Option (ℕ × Blob)) (w : W)
      → read_rounds link (suc n) prev w
        ≡ compared link (read_rounds link n) prev (some (version, device w)) (turn w)
  unfolding read_rounds
  read_round n prev w =
      let u = (link.send (0x55 ∷ []) w).1 in
      let (raw, e, k) = reliable.answers u in
      asked_onward link (read_rounds link n) prev (link.send (0x55 ∷ []) w)
        (reliable.sends (0x55 ∷ []) w)
      ∙ received_answer link (read_rounds link n) prev (link.receive u) raw e
          (k ∙ ap (λ b. some (version, b)) (reliable.asks w))

  pub read_raw_lem : (w : W) → read_raw link w ≡ (some (version, device w), turn (turn w))
  read_raw_lem w =
      read_round 5 none w
      ∙ (read_round 4 (some (version, device w)) (turn w)
          ∙ rw
              (
                turn_keeps w,
                (text_eq_iff (version ∷ to_bytes (device w)) (version ∷ to_bytes (device w))).1
                    refl,
              )
              refl)

  module _ (ch : Changes) where
    judged_done :
        (current target : Blob) (v w : W) (r : Reading link)
        → r ≡ (some (version, device v), w)
        → compared_bytes (device v) ≡ compared_bytes target
        → IsReplied true (judged link version current target r)
    unfolding is_ok
    judged_done current target v w r e k =
        subst (λ x. IsReplied true (judged link version current target x)) (sym e)
          (rw ((text_eq_iff (compared_bytes (device v)) (compared_bytes target)).1 k) refl)

    sent_done :
        (current target : Blob) (p : Bool × W)
        → p.0 ≡ true
        → compared_bytes (device p.1) ≡ compared_bytes target
        → IsReplied true (sent link version current target p)
    sent_done current target (false, w) e k = absurd (false≢true e)
    sent_done current target (true, w) e k =
        judged_done current target w (turn (turn w)) (read_raw link w) (read_raw_lem w) k

    refused_done :
        (x : Option Error) (w : W)
        → in_range (layout_of version) ch ≡ false
        → IsReplied (in_range (layout_of version) ch) (refused link x w)
    unfolding is_ok
    refused_done none w e = sym e
    refused_done (some value_error) w e = sym e
    refused_done (some type_error) w e = e

    built_done :
        (u w : W) (o : Option Blob)
        → build version ch (device u) ≡ o
        → IsReplied (in_range (layout_of version) ch) (built link version (device u) ch o w)
    unfolding is_ok
    built_done u w none e =
        refused_done (error_of (layout_of version) ch) w ((build-refused version ch (device u)).0 e)
    built_done u w (some target) e =
        subst (λ b. IsReplied b (built link version (device u) ch (some target) w))
          (sym (build-in_range version ch (device u) e))
          (elim (Bool-cases (text_eq (to_bytes target) (to_bytes (device u)))) [
            | inl q ↦ rw (q) refl
            | inr q ↦ rw (q) (
                sent_done (device u) target (link.send (0x55 ∷ to_bytes target) w)
                  (reliable.sends (0x55 ∷ to_bytes target) w)
                  (reliable.stores target (build-IsBlob version ch (device u) (reliable.whole u) e)
                    w))
          ])

    modified_done :
        (w : W) → IsReplied (in_range (layout_of version) ch) (modified link ch (read_raw link w))
    modified_done w =
        subst (λ r. IsReplied (in_range (layout_of version) ch) (modified link ch r))
          (sym (read_raw_lem w)) (built_done w (turn (turn w)) _ refl)

    disconnected_done :
        (ok : Bool) (p : Outcome × W) → IsReplied ok p → IsReplied ok (disconnected link p)
    disconnected_done ok (replied r, w) h = h
    disconnected_done ok (failed e reached, w) h = h

    connected_done :
        (p : Bool × W)
        → p.0 ≡ true
        → IsReplied (in_range (layout_of version) ch) (connected link ch p)
    connected_done (false, w) e = absurd (false≢true e)
    connected_done (true, w) e = disconnected_done _ _ (modified_done w)

    found_done :
        (p : Bool × W) → p.0 ≡ true → IsReplied (in_range (layout_of version) ch) (found link ch p)
    found_done (false, w) e = absurd (false≢true e)
    found_done (true, w) e = connected_done (link.connect w) (reliable.connects w)

    unless_replied_done :
        (ok : Bool) (again : Failure → Bool → W → Reply × W) (p : Outcome × W)
        → IsReplied ok p
        → (ok ≡ false
            → (e : Failure) (reached : Bool) (w : W) → is_ok (again e reached w).0 ≡ false)
        → is_ok (unless_replied link again p).0 ≡ ok
    unless_replied_done ok again (replied r, w) h never = h
    unless_replied_done ok again (failed e reached, w) h never = never h e reached w ∙ sym h

    attempts_never :
        in_range (layout_of version) ch ≡ false
        → (n : ℕ) (e : Failure) (reached : Bool) (w : W)
        → is_ok (attempts link ch n e reached w).0 ≡ false
    unfolding attempts is_ok
    attempts_never h zero e reached w = refl
    attempts_never h (suc n) e reached w =
        unless_replied_done (in_range (layout_of version) ch) (attempts link ch n)
          (found link ch (link.find w)) (found_done (link.find w) (reliable.finds w))
          (λ k. attempts_never h n)
        ∙ h

    -- Over a link that loses nothing, to a device that stores what it is sent, a write with one attempt or
    -- more has a reply that is a success exactly if every value that is given is in its range.
    pub async_write-is_ok :
        (n : ℕ) (w : W) → is_ok (async_write link ch (suc n) w).0 ≡ in_range (layout_of version) ch
    unfolding attempts
    async_write-is_ok n w =
        unless_replied_done _ (attempts link ch n) (found link ch (link.find w))
          (found_done (link.find w) (reliable.finds w)) (λ h. attempts_never h n)
