-- ===== src/Encryption/Confirmed.antt =====
-- What an answer of `async_set_encryption` says of the device.
use ha_telink_manager.Prelude.{
  ℕ, Bool, true, false, not, ◌&&◌, Option, none, some, List, [], ◌∷◌, ◌++◌, String, if◌then◌else◌,
  eq_refl, subst, ◌≡◌, inl, inr, refl, arith, Bool-cases, ap,
}
use mathlib.Core.Option.{some-injective, none-ne-some}
use ha_telink_manager.Blob.{Blob, with_adv_crypto}
use ha_telink_manager.Encryption.{
  Answers, Write, key_sent, block_sent, Echo, unsent, lost, echoed, BlockWrite, unsent_block,
  lost_block, wrote_block, write_block, Reply, raises, refused, maybe_changed, not_kept, done,
  same_key, is_confirmed, judged, is_any, put_block, put_key, or_new, enable_with, change_to,
  set_encryption, sync,
}

-- A reply that is honest about what was sent: a plain failure means that nothing was, a doubtful one
-- carries every key that was, if any, and a good one that the read-back agreed with it.
abbrev pub has_key : Option String → List Write → Bool
has_key key [] = true
has_key key (key_sent k ∷ ws) = same_key key (some k) && has_key key ws
has_key key (block_sent b ∷ ws) = has_key key ws

abbrev pub agrees : Bool → Option String → Option (Bool × Option String) → Bool
agrees enable key none = false
agrees enable key (some after) = is_confirmed enable key after

unfoldable pub is_honest : Bool → Option (Bool × Option String) → Reply × List Write → Bool
is_honest enable after (raises, ws) = not (is_any ws)
is_honest enable after (refused, ws) = not (is_any ws)
is_honest enable after (not_kept key, ws) = not (is_any ws)
is_honest enable after (maybe_changed key, ws) = has_key key ws
is_honest enable after (done key, ws) = has_key key ws && agrees enable key after

same_key-itself : (key : Option String) → same_key key key ≡ true
same_key-itself none = refl
same_key-itself (some key) = eq_refl key

judged_honest :
    (enable : Bool) (key : Option String) (after : Option (Bool × Option String)) (ws : List Write)
    → has_key key ws ≡ true
    → is_honest enable after (judged (is_any ws) enable key after, ws) ≡ true
unfolding is_honest
judged_honest enable key none [] h = refl
judged_honest enable key none (w ∷ ws) h = h
judged_honest enable key (some after) ws h = elim (Bool-cases (is_confirmed enable key after)) [
  | inl e ↦ rw (e, h) e
  | inr e ↦ rw (e) (go ws h)
]
  where
    go :
        (ws : List Write)
        → has_key key ws ≡ true
        → is_honest enable (some after) (if is_any ws then maybe_changed key else not_kept key, ws)
          ≡ true
    go [] k = refl
    go (w ∷ ws) k = k

-- The block is sent after what is written so far.
has_key-snoc :
    (key : Option String) (ws : List Write) (b : Blob)
    → has_key key ws ≡ true
    → has_key key (ws ++ (block_sent b ∷ [])) ≡ true
has_key-snoc key [] b h = refl
has_key-snoc key (key_sent k ∷ ws) b h = elim (Bool-cases (same_key key (some k))) [
  | inl e ↦ rw (e) (has_key-snoc key ws b (ground (arith, e, h)))
  | inr e ↦ absurd (ground (arith, e, h))
]
has_key-snoc key (block_sent c ∷ ws) b h = has_key-snoc key ws b h

is_any-snoc : (ws : List Write) (w : Write) → is_any (ws ++ (w ∷ [])) ≡ true
is_any-snoc [] w = refl
is_any-snoc (v ∷ ws) w = refl

write_block_honest :
    (enable : Bool) (key : Option String) (target : Blob) (after : Option (Bool × Option String))
    (ws : List Write) (w : BlockWrite)
    → has_key key ws ≡ true
    → is_honest enable after (write_block enable key target after ws w) ≡ true
unfolding is_honest
write_block_honest enable key target after ws unsent_block h = h
write_block_honest enable key target after ws lost_block h = has_key-snoc key ws target h
write_block_honest enable key target after ws wrote_block h =
    subst
      (λ t.
        is_honest enable after (judged t enable key after, ws ++ (block_sent target ∷ [])) ≡ true)
      (is_any-snoc ws (block_sent target))
      (judged_honest enable key after (ws ++ (block_sent target ∷ []))
        (has_key-snoc key ws target h))

put_block_honest :
    (enable : Bool) (key : Option String) (changed : Bool) (target : Blob) (ans : Answers)
    (ws : List Write)
    → has_key key ws ≡ true
    → is_honest enable ans.after (put_block enable key changed target ans ws) ≡ true
unfolding is_honest
put_block_honest enable key false target ans ws h = judged_honest enable key ans.after ws h
put_block_honest enable key true target ans ws h =
    write_block_honest enable key target ans.after ws ans.block h

sent_key : (key : String) → has_key (some key) (key_sent key ∷ []) ≡ true
sent_key key = rw (eq_refl key) refl

put_key_honest :
    (key : String) (changed : Bool) (target : Blob) (ans : Answers) (echo : Echo)
    → is_honest true ans.after (put_key key changed target ans echo) ≡ true
unfolding is_honest
put_key_honest key changed target ans unsent = refl
put_key_honest key changed target ans lost = sent_key key
put_key_honest key changed target ans (echoed echo) = elim (Bool-cases (same_key echo (some key))) [
  | inl e ↦
      rw (e)
        (put_block_honest true (some key) changed target ans (key_sent key ∷ []) (sent_key key))
  | inr e ↦ rw (e) (sent_key key)
]

enable_with_honest :
    (want : Option String) (was : Bool) (fresh : String) (changed : Bool) (target : Blob)
    (ans : Answers) (stored : Option (Option String))
    → is_honest true ans.after (enable_with want was fresh changed target ans stored) ≡ true
unfolding is_honest
enable_with_honest (some key) was fresh changed target ans stored =
    put_key_honest key changed target ans ans.echo
enable_with_honest none false fresh changed target ans stored =
    put_key_honest fresh changed target ans ans.echo
enable_with_honest none true fresh changed target ans none = refl
enable_with_honest none true fresh changed target ans (some stored) =
    put_key_honest (or_new stored fresh) changed target ans ans.echo

change_to_honest :
    (enable : Bool) (want : Option String) (was : Bool) (fresh : String) (changed : Bool)
    (ans : Answers) (target : Option Blob)
    → is_honest enable ans.after (change_to enable want was fresh changed ans target) ≡ true
unfolding is_honest
change_to_honest enable want was fresh changed ans none = refl
change_to_honest true want was fresh changed ans (some target) =
    enable_with_honest want was fresh changed target ans ans.stored
change_to_honest false want was fresh changed ans (some target) =
    put_block_honest false none changed target ans [] refl

-- Whatever the device answers, the reply is honest about what was sent: an exception, a refusal and a plain
-- failure mean that nothing was sent; a reply that the device may have changed carries every key that was
-- sent, if any was; and an `ok` carries every key that was sent, and the read-back agreed with it
-- on the flag and, when enabling, on the key.
pub set_encryption_honest :
    (enable : Bool) (want : Option String) (fw : ℕ) (current : Blob) (fresh : String)
    (ans : Answers)
    → is_honest enable ans.after (set_encryption enable want fw current fresh ans) ≡ true
unfolding set_encryption
set_encryption_honest enable want fw current fresh ans =
    change_to_honest enable want _ fresh _ ans (with_adv_crypto fw enable current)

-- Home Assistant's entry is changed only behind a read-back that agreed.
sync-done :
    (is_bthome : Bool) (reply : Reply) {key : Option String}
    → sync is_bthome reply ≡ some key
    → reply ≡ done key
unfolding sync
sync-done true (done k) e = ap done (some-injective _ _ e)
sync-done false (done k) e = absurd (none-ne-some _ e)
sync-done is_bthome raises e = absurd (none-ne-some _ e)
sync-done is_bthome refused e = absurd (none-ne-some _ e)
sync-done is_bthome (maybe_changed k) e = absurd (none-ne-some _ e)
sync-done is_bthome (not_kept k) e = absurd (none-ne-some _ e)
