-- ===== src/Session/Scan.antt =====
-- The selection after a scan.
use ha_telink_manager.Prelude.{
  ℕ, Bool, true, Option, none, some, List, [], ◌∷◌, String, ◌≡◌, refl, inl, inr, ◌↔◌, any, str_eq,
  eq_iff, arith, Bool-cases,
}
use ha_telink_manager.Device.{Device}
use ha_telink_manager.Session.{Panel, scan_devices}
use ha_telink_manager.Session.Tasks.{device_with, keep, resume, rssi_of, scanned}

abbrev pub listed : String → List Device → Bool
listed mac devs = any (λ (d : Device). str_eq d.mac mac) devs

device_with-listed :
    (mac : String) (devs : List Device)
    → listed mac devs ≡ true
    → (d : Device) × (device_with mac devs ≡ some d) × (d.mac ≡ mac)
device_with-listed mac [] h = cc
device_with-listed mac (d ∷ devs) h = elim (Bool-cases (str_eq d.mac mac)) [
  | inl e ↦ (d, rw e refl, (eq_iff d.mac mac).0 e)
  | inr e ↦
      let (d', found, same) = device_with-listed mac devs (ground arith) in (d', rw e found, same)
]

keep-listed :
    (prev : Option String) (devs : List Device) (mac : String)
    → keep prev devs ≡ some mac
    → listed mac devs ≡ true
unfolding keep
keep-listed none [] mac h = cc
keep-listed none (d ∷ devs) mac h = ground (arith, eq_iff d.mac mac)
keep-listed (some prev) [] mac h = cc
keep-listed (some prev) (d ∷ devs) mac h = ground (arith, eq_iff d.mac mac)

rssi_of_found :
    (mac : String) (devs : List Device) (d : Device)
    → device_with mac devs ≡ some d
    → rssi_of (some mac) devs ≡ d.rssi
rssi_of_found mac devs d h = rw (h, rssi_of)

keep-self_iff :
    (prev : String) (devs : List Device)
    → (keep (some prev) devs ≡ some prev) ↔ (listed prev devs ≡ true)
keep-self_iff prev devs = (keep-listed (some prev) devs prev, kept)
  where
    kept : listed prev devs ≡ true → keep (some prev) devs ≡ some prev
    kept h = unfold keep in (rw h refl)

keep-none_iff : (prev : Option String) (devs : List Device) → (keep prev devs ≡ none) ↔ (devs ≡ [])
unfolding keep
keep-none_iff none [] = (λ e. refl, λ e. refl)
keep-none_iff none (d ∷ devs) = (λ e. cc, λ e. cc)
keep-none_iff (some prev) [] = (λ e. refl, λ e. refl)
keep-none_iff (some prev) (d ∷ devs) = (λ e. ground arith, λ e. cc)

abbrev pub after_scan : ℕ → Option String → List Device → Panel → Panel
after_scan token prev devs p = (resume (scan_devices token prev) (some devs) p).0

after_scan-scanned :
    (token : ℕ) (prev : Option String) (devs : List Device) (p : Panel)
    → token ≡ p.op
    → after_scan token prev devs p ≡ scanned devs prev p
unfolding resume
after_scan-scanned token prev devs p h = ground arith

-- When the current scan's devices arrive: the previous selection is kept exactly if its device is
-- still listed; no row is selected exactly if the list is empty; and the selected row is a device of
-- the new list, whose RSSI the panel takes over.
pub scan_devices-selection :
    (token : ℕ) (prev : Option String) (devs : List Device) (p : Panel)
    → token ≡ p.op
    → ((mac : String)
        → prev ≡ some mac
        → ((after_scan token prev devs p).selected ≡ some mac) ↔ (listed mac devs ≡ true))
      × (((after_scan token prev devs p).selected ≡ none) ↔ (devs ≡ []))
      × ((mac : String)
          → (after_scan token prev devs p).selected ≡ some mac
          → (d : Device) × (device_with mac (after_scan token prev devs p).devs ≡ some d)
            × (d.mac ≡ mac)
            × ((after_scan token prev devs p).selected_rssi ≡ d.rssi))
scan_devices-selection token prev devs p h = rw (after_scan-scanned token prev devs p h) (
    unfold scanned in
    (
      λ mac e. rw e (keep-self_iff mac devs),
      keep-none_iff prev devs,
      λ mac e.
          let (d, found, same) = device_with-listed mac devs (keep-listed prev devs mac e) in
          (d, found, same, rw e (rssi_of_found mac devs d found)),
    ))
