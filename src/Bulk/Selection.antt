-- ===== src/Bulk/Selection.antt =====
-- Which devices a bulk job is started on.
use ha_telink_manager.Prelude.{
  ℕ, ℤ, Bool, true, false, ◌&&◌, ◌||◌, Option, none, some, List, [], ◌∷◌, String, str_eq, eq_iff,
  has, has-nil, add, has-add, has-delete, map, any, ◌≡◌, ◌≢◌, inl, inr, refl, arith, Bool-cases, ap,
  subst,
}
use mathlib.Core.Option.{some-injective}
use ha_telink_manager.Device.{Device}
use ha_telink_manager.Bulk.{
  Preset, custom, is_picked, pick_all, ra_default_sel, ReadAll, choose_preset, choose_threshold,
  pick, Request, entries, start_bulk, request_for,
}

-- Is a device of the list with this MAC one that passes the test?
abbrev pub some_with : (Device → Bool) → String → List Device → Bool
some_with test mac devs = any (λ (d : Device). test d && str_eq d.mac mac) devs

has-pick_all :
    (counts : List (String × ℕ)) (preset : Preset) (th : ℤ) (devs : List Device) (sel : List String)
    (mac : String)
    → has mac (pick_all counts preset th devs sel)
      ≡ (has mac sel || some_with (is_picked counts preset th) mac devs)
unfolding pick_all
has-pick_all counts preset th [] sel mac = ground arith
has-pick_all counts preset th (d ∷ devs) sel mac =
    elim (Bool-cases (is_picked counts preset th d)) [
      | inl e ↦
          rw (e, has-pick_all counts preset th devs (add d.mac sel) mac, has-add d.mac mac sel)
            (or_swap (str_eq d.mac mac) (has mac sel) _)
      | inr e ↦ rw (e, has-pick_all counts preset th devs sel mac) refl
    ]
  where
    or_swap : (a b c : Bool) → ((a || b) || c) ≡ (b || (a || c))
    or_swap a b c = ground arith

-- The default selection has exactly the devices that are connectable, not below the threshold and,
-- for the preset "only without snapshot", without one.
pub has-ra_default_sel :
    (counts : List (String × ℕ)) (preset : Preset) (th : ℤ) (devs : List Device) (mac : String)
    → has mac (ra_default_sel counts preset th devs)
      ≡ some_with (is_picked counts preset th) mac devs
unfolding ra_default_sel
has-ra_default_sel counts preset th devs mac =
    rw (has-pick_all counts preset th devs [] mac, has-nil mac) refl

-- Every selected device is a connectable device of the list.
abbrev pub IsReadable : List Device → List String → Type 0
IsReadable devs sel =
    (mac : String) → has mac sel ≡ true → some_with (λ (d : Device). d.connectable) mac devs ≡ true

picked_readable :
    (counts : List (String × ℕ)) (preset : Preset) (th : ℤ) (mac : String) (devs : List Device)
    → some_with (is_picked counts preset th) mac devs ≡ true
    → some_with (λ (d : Device). d.connectable) mac devs ≡ true
picked_readable counts preset th mac [] h = cc
picked_readable counts preset th mac (d ∷ devs) h =
    ground (arith, picked_readable counts preset th mac devs)

default-IsReadable :
    (counts : List (String × ℕ)) (preset : Preset) (th : ℤ) (devs : List Device)
    → IsReadable devs (ra_default_sel counts preset th devs)
default-IsReadable counts preset th devs mac h =
    picked_readable counts preset th mac devs
      (rw (has-ra_default_sel counts preset th devs mac) at h)

-- What can be done in the dialog: a checkbox is disabled for a device that is not connectable.
pub data Edit : Type 0 where
  preset_to : Preset → Edit
  threshold_to : Option ℤ → Edit
  set_box : Bool → String → Edit

abbrev pub Allowed : List Device → Edit → Type 0
Allowed devs (set_box checked mac) = some_with (λ (d : Device). d.connectable) mac devs ≡ true
Allowed devs _ = Unit

abbrev pub edit : List (String × ℕ) → List Device → Edit → ReadAll → ReadAll
edit counts devs (preset_to p) r = choose_preset counts devs p r
edit counts devs (threshold_to v) r = choose_threshold counts devs v r
edit counts devs (set_box checked mac) r = pick checked mac r

-- Where the selection has only connectable devices of the list, it still does after any edit that
-- the dialog allows: a preset, a threshold or the checkbox of a connectable device.
pub edit-IsReadable :
    (counts : List (String × ℕ)) (devs : List Device) (e : Edit) (r : ReadAll)
    → Allowed devs e
    → IsReadable devs r.sel
    → IsReadable devs (edit counts devs e r).sel
unfolding choose_preset choose_threshold pick
edit-IsReadable counts devs (preset_to p) r a h = default-IsReadable counts p r.threshold devs
edit-IsReadable counts devs (threshold_to v) r a h = by_preset r.preset
  where
    by_preset :
        (p : Preset)
        → IsReadable devs (choose_threshold counts devs v (record r { preset = p })).sel
    by_preset custom = h
    by_preset Preset.nobk = default-IsReadable counts Preset.nobk _ devs
    by_preset Preset.all = default-IsReadable counts Preset.all _ devs
edit-IsReadable counts devs (set_box true m) r a h = λ mac k. elim (Bool-cases (str_eq m mac)) [
  | inl e ↦
      subst (λ (i : String). some_with (λ (d : Device). d.connectable) i devs ≡ true)
        ((eq_iff m mac).0 e) a
  | inr e ↦ h mac (ground (arith, has-add m mac r.sel))
]
edit-IsReadable counts devs (set_box false m) r a h =
    λ mac k. h mac (ground (arith, has-delete m mac r.sel))

unfoldable pub macs_of : List (String × String) → List String
macs_of es = map (λ (e : String × String). e.0) es

macs_of-entries : (devs : List Device) (macs : List String) → macs_of (entries devs macs) ≡ macs
unfolding entries macs_of
macs_of-entries devs [] = refl
macs_of-entries devs (mac ∷ macs) = ap (mac ∷◌) (macs_of-entries devs macs)

abbrev entries_of : Request → List (String × String)
entries_of (Request.read_all es) = es
entries_of (Request.encrypt_all es enable) = es

-- Does the request ask for the mode that was chosen?
abbrev IsMode : Option Bool → Request → Type 0
IsMode none (Request.read_all es) = Unit
IsMode none (Request.encrypt_all es enable) = ⊥
IsMode (some on) (Request.read_all es) = ⊥
IsMode (some on) (Request.encrypt_all es enable) = enable ≡ on

-- A job is started for exactly the selected devices, in their order and in the chosen mode, and
-- none for an empty selection.
pub start_bulk_lem :
    (devs : List Device) (macs : List String) (encrypt : Option Bool) (r : Request)
    → start_bulk devs macs encrypt ≡ some r
    → (macs ≢ []) × (macs_of (entries_of r) ≡ macs) × IsMode encrypt r
unfolding start_bulk
start_bulk_lem devs [] encrypt r e = cc
start_bulk_lem devs (mac ∷ macs) encrypt r e =
    subst
      (λ (q : Request).
        (mac ∷ macs ≢ []) × (macs_of (entries_of q) ≡ mac ∷ macs) × IsMode encrypt q)
      (some-injective _ _ e) (asked encrypt)
  where
    asked :
        (m : Option Bool)
        → (mac ∷ macs ≢ [])
          × (macs_of (entries_of (request_for m (entries devs (mac ∷ macs)))) ≡ mac ∷ macs)
          × IsMode m (request_for m (entries devs (mac ∷ macs)))
    asked none = ((λ k. cc), macs_of-entries devs (mac ∷ macs), tt)
    asked (some on) = ((λ k. cc), macs_of-entries devs (mac ∷ macs), refl)
