-- ===== src/Writing/Building.antt =====
-- What an attempt of `async_write` makes of a block that was read (custom_components/telink_manager/
-- gatt.py).
use mathlib.Core.Bool.{false≢true}
use ha_telink_manager.Prelude.{
  ℕ, Bool, true, false, Option, none, some, List, [], ◌∷◌, text_eq, text_eq_iff, ◌≡◌, ◌⊎◌, inl, inr,
  refl, sym, ap, subst, ◌∙◌, Bool-cases,
}
use ha_telink_manager.Blob.{
  Blob, layout_of, Parsed, Changes, Error, value_error, type_error, error_of, build, to_bytes,
}
use ha_telink_manager.Blob.Build.{IsBlob, requested_all, parse-build}
use ha_telink_manager.Blob.Crypto.{build-IsBlob}
use ha_telink_manager.Blob.Refused.{in_range, build-refused, build-in_range}
use ha_telink_manager.Writing.{
  Link, compared_bytes, Failure, Reply, invalid, unchanged, verified, mismatch, unreachable,
  Outcome, replied, failed, Reading, read_raw, judged, refused, sent, built,
}
use ha_telink_manager.Writing.Reading.{
  IsLinked, settled, requested_all_twice, bytes, shown, IsReading, read_none, read_some,
  shown-compared_bytes, read_rounds-IsReading,
}

-- What the device holds afterwards, beside what it held: nothing of it has changed, or all that was asked for.
abbrev pub IsOldOrNew : Changes → Parsed → Parsed → Type 0
IsOldOrNew ch old now = (now ≡ old) ⊎ (now ≡ requested_all ch old)

-- What a reply says, of what the device held before and holds now.
abbrev pub IsHonest : Changes → Parsed → Parsed → Reply → Type 0
IsHonest ch old now invalid = now ≡ old
IsHonest ch old now (unchanged current) = (settled current ≡ now) × (now ≡ requested_all ch old)
IsHonest ch old now (verified before after target) =
    (settled after ≡ now) × (now ≡ requested_all ch old)
IsHonest ch old now (mismatch before after target) = (settled after ≡ now) × IsOldOrNew ch old now
IsHonest ch old now (unreachable e reached) = IsOldOrNew ch old now

abbrev all_but_own : List ℕ → List ℕ
all_but_own (b0 ∷ b1 ∷ b2 ∷ b3 ∷ b4 ∷ b5 ∷ b6 ∷ b7 ∷ b8 ∷ b9 ∷ b10 ∷ rest) =
    b0 ∷ b1 ∷ b2 ∷ b3 ∷ b4 ∷ b5 ∷ b6 ∷ b7 ∷ b8 ∷ b10 ∷ []
all_but_own _ = []

module _ {W : Type 0} (link : Link W) (version : ℕ) (device : W → Blob) where
  abbrev pub now : W → Parsed
  now w = shown link version device (bytes link version device w)

  -- A write is retried only behind changes that are in their ranges.
  abbrev pub IsRetryable : Changes → Parsed → Parsed → Type 0
  IsRetryable ch old p =
      (p ≡ old) ⊎ ((in_range (layout_of version) ch ≡ true) × (p ≡ requested_all ch old))

  pub data IsOutcome (ch : Changes) (old : Parsed) : Outcome × W → Type 0 where
    on_failure :
        {w : W} {e : Failure} {reached : Bool}
        → IsRetryable ch old (now w)
        → IsOutcome ch old (failed e reached, w)
    on_reply : {w : W} {r : Reply} → IsHonest ch old (now w) r → IsOutcome ch old (replied r, w)

  retried :
      (ch : Changes) (old p : Parsed)
      → IsRetryable ch old p
      → requested_all ch p ≡ requested_all ch old
  retried ch old p (inl e) = ap (requested_all ch) e
  retried ch old p (inr (k, e)) = ap (requested_all ch) e ∙ requested_all_twice ch old

  pub old_or_new : (ch : Changes) (old p : Parsed) → IsRetryable ch old p → IsOldOrNew ch old p
  old_or_new ch old p (inl e) = inl e
  old_or_new ch old p (inr (k, e)) = inr e

  -- What is sent has all the bytes that are compared.
  same_bytes : (a b : Blob) → to_bytes a ≡ to_bytes b → compared_bytes a ≡ compared_bytes b
  unfolding to_bytes
  same_bytes a b e = ap all_but_own e

  module _ (linked : IsLinked link version device) (ch : Changes) (old : Parsed) where
    -- The block that is read back.
    judged-IsOutcome :
        (current target : Blob) (r : Reading link) (s : List ℕ)
        → IsReading link version device s r
        → IsRetryable ch old (shown link version device s)
        → shown link version device (compared_bytes target) ≡ requested_all ch old
        → IsOutcome ch old (judged link version current target r)
    judged-IsOutcome current target _ s (read_none {w} e) h k =
        on_failure (subst (λ x. IsRetryable ch old (shown link version device x)) (sym e) h)
    judged-IsOutcome current target _ s (read_some u {w} d e) h k =
        let held : shown link version device (compared_bytes (device u)) ≡ now w =
          ap (shown link version device) (d ∙ sym e) in
        elim (Bool-cases (text_eq (compared_bytes (device u)) (compared_bytes target))) [
          | inl q ↦ rw (q) (
              on_reply (
                sym (shown-compared_bytes link version device (device u)) ∙ held,
                sym held
                    ∙ (ap (shown link version device)
                          ((text_eq_iff (compared_bytes (device u)) (compared_bytes target)).0 q)
                        ∙ k),
              ))
          | inr q ↦ rw (q) (
              on_reply (
                sym (shown-compared_bytes link version device (device u)) ∙ held,
                old_or_new ch old (now w)
                    (subst (λ x. IsRetryable ch old (shown link version device x)) (sym e) h),
              ))
        ]

    sent-IsOutcome :
        (current target : Blob) (ok : Bool) (w : W)
        → IsRetryable ch old (now w)
        → shown link version device (compared_bytes target) ≡ requested_all ch old
        → IsOutcome ch old (sent link version current target (ok, w))
    sent-IsOutcome current target false w h k = on_failure h
    sent-IsOutcome current target true w h k =
        judged-IsOutcome current target (read_raw link w) (bytes link version device w)
          (read_rounds-IsReading link version device linked (bytes link version device w) 6 none w
            refl)
          h k

    -- The block that is sent is stored or it is not.
    stored :
        (target : Blob) (w : W)
        → IsBlob target
        → in_range (layout_of version) ch ≡ true
        → IsRetryable ch old (now w)
        → shown link version device (compared_bytes target) ≡ requested_all ch old
        → IsRetryable ch old (now (link.send (0x55 ∷ to_bytes target) w).1)
    stored target w whole fits h k = elim (linked.storing target whole w) [
      | inl e ↦ subst (λ x. IsRetryable ch old (shown link version device x)) (sym e) h
      | inr e ↦ inr (fits, ap (shown link version device) e ∙ k)
    ]

    -- A `TypeError` leads to another attempt.
    refused-IsOutcome :
        (x : Option Error) (w : W)
        → in_range (layout_of version) ch ≡ false
        → IsRetryable ch old (now w)
        → IsOutcome ch old (refused link x w)
    refused-IsOutcome (some type_error) w e h = on_failure h
    refused-IsOutcome (some value_error) w e (inl h) = on_reply h
    refused-IsOutcome (some value_error) w e (inr (fits, h)) = absurd (false≢true (sym e ∙ fits))
    refused-IsOutcome none w e (inl h) = on_reply h
    refused-IsOutcome none w e (inr (fits, h)) = absurd (false≢true (sym e ∙ fits))

    pub built-IsOutcome :
        (u w : W) (o : Option Blob)
        → build version ch (device u) ≡ o
        → bytes link version device u ≡ bytes link version device w
        → IsRetryable ch old (now w)
        → IsOutcome ch old (built link version (device u) ch o w)
    built-IsOutcome u w none e d h =
        refused-IsOutcome (error_of (layout_of version) ch) w
          ((build-refused version ch (device u)).0 e) h
    built-IsOutcome u w (some target) e d h =
        let k : shown link version device (compared_bytes target) ≡ requested_all ch old =
          shown-compared_bytes link version device target
          ∙ (ap settled (parse-build version ch (device u) (linked.whole u) e)
              ∙ (ap (requested_all ch) (
                    sym (shown-compared_bytes link version device (device u))
                    ∙ ap (shown link version device) d)
                  ∙ retried ch old (now w) h)) in
        elim (Bool-cases (text_eq (to_bytes target) (to_bytes (device u)))) [
          | inl q ↦ rw (q) (
              on_reply (
                sym (shown-compared_bytes link version device (device u))
                    ∙ ap (shown link version device) d,
                sym (ap (shown link version device) d)
                    ∙ (ap (shown link version device)
                          (sym (same_bytes target (device u) ((text_eq_iff _ _).0 q)))
                        ∙ k),
              ))
          | inr q ↦ rw (q) (
              sent-IsOutcome (device u) target (link.send (0x55 ∷ to_bytes target) w).0
                (link.send (0x55 ∷ to_bytes target) w).1
                (stored target w (build-IsBlob version ch (device u) (linked.whole u) e)
                  (build-in_range version ch (device u) e) h k)
                k)
        ]
