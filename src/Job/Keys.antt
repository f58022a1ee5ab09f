-- ===== src/Job/Keys.antt =====
-- No key is lost in a bulk change of the encryption (`_encrypt_one`).
use ha_telink_manager.Prelude.{
  Bool, true, false, not, ◌&&◌, ◌||◌, some, List, [], ◌∷◌, String, if◌then◌else◌, ◌≡◌, refl, sym,
  subst,
}
use ha_telink_manager.Job.{
  Outcome, fine, error, Ha, updated, no_entry, not_bthome, failed, Encrypted, Why, is_updated,
  is_failed, encrypt_one,
}

abbrev pub is_fine : Outcome → Bool
is_fine fine = true
is_fine (error e) = false

-- The device may hold the key, and Home Assistant was not given it.
abbrev pub is_stranded : Encrypted → Bool
is_stranded r = r.maybe_changed || (r.ok && not (is_updated r.ha))

abbrev pub keys : List (String × Why) → List String
keys [] = []
keys ((k, w) ∷ rest) = k ∷ keys rest

abbrev Told : String → Encrypted → Type 0
Told key r =
    (keys (encrypt_one true r).1 ≡ (if is_stranded r then key ∷ [] else []))
    × (is_fine (encrypt_one true r).0 ≡ (r.ok && (not r.maybe_changed && not (is_failed r.ha))))

encrypt_one-Told :
    (maybe ok : Bool) (ha : Ha) (key message : String)
    → Told key
        (record { ok = ok; maybe_changed = maybe; bind_key = some key; ha = ha; message = message })
unfolding encrypt_one
encrypt_one-Told true true ha key message = (refl, refl)
encrypt_one-Told true false ha key message = (refl, refl)
encrypt_one-Told false false ha key message = (refl, refl)
encrypt_one-Told false true updated key message = (refl, refl)
encrypt_one-Told false true no_entry key message = (refl, refl)
encrypt_one-Told false true not_bthome key message = (refl, refl)
encrypt_one-Told false true failed key message = (refl, refl)

-- Enabling the encryption of a device whose answer has a key: the key is listed for the user exactly if the
-- device may hold it while Home Assistant was not given it. The device counts as done exactly if the change
-- went well, without doubt, and Home Assistant's entry did not fail to follow.
pub encrypt_one_lem :
    (r : Encrypted) (key : String)
    → r.bind_key ≡ some key
    → (keys (encrypt_one true r).1 ≡ (if is_stranded r then key ∷ [] else []))
      × (is_fine (encrypt_one true r).0 ≡ (r.ok && (not r.maybe_changed && not (is_failed r.ha))))
encrypt_one_lem r key h =
    subst (λ b. Told key (record r { bind_key = b })) (sym h)
      (encrypt_one-Told r.maybe_changed r.ok r.ha key r.message)
