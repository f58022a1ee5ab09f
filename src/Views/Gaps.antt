-- ===== src/Views/Gaps.antt =====
-- The parts of a read that did not answer.
use ha_telink_manager.Prelude.{
  Bool, true, false, not, ◌&&◌, ◌||◌, List, [], ◌∷◌, ◌++◌, ◌≡◌, refl, Bool-cases, inl, inr, any,
  text_eq, if◌then◌else◌,
}
use ha_telink_manager.Html.{Text}
use ha_telink_manager.Views.{
  Blethr, Notice, Reason, no_source, scanning_off, idle, lost, notices, which, is_empty, is_false,
  unset, idle_box, lost_box, interval_box,
}

abbrev is_no_source : Reason → Bool
is_no_source no_source = true
is_no_source scanning_off = false

abbrev is_scanning_off : Reason → Bool
is_scanning_off no_source = false
is_scanning_off scanning_off = true

-- Whether a notice says that no source is set, that scanning is off, or that part of the read is missing.
abbrev pub says_no_source : Notice → Bool
says_no_source (idle rs) = any is_no_source rs
says_no_source _ = false

abbrev pub says_scanning_off : Notice → Bool
says_scanning_off (idle rs) = any is_scanning_off rs
says_scanning_off _ = false

abbrev pub says_lost : Notice → Bool
says_lost (lost gaps) = true
says_lost _ = false

abbrev some_reasons : Bool → Bool → List Reason
some_reasons a b = (if a then no_source ∷ [] else []) ++ (if b then scanning_off ∷ [] else [])

abbrev boxes : Bool → Bool → List Text → Bool → Notice → List Notice
boxes a b gaps bad box =
    if is_empty (some_reasons a b) && bad
    then box ∷ []
    else idle_box (some_reasons a b) ++ lost_box gaps

abbrev Said : Bool → Bool → List Text → Bool → List Notice → Type 0
Said a b gaps bad ns =
    (any says_no_source ns ≡ a)
    × (any says_scanning_off ns ≡ b)
    × (any says_lost ns ≡ (not (is_empty gaps) && (a || b || not bad)))

-- A box that is about the interval only.
abbrev Other : Notice → Type 0
Other n = (says_no_source n ≡ false) × (says_scanning_off n ≡ false) × (says_lost n ≡ false)

boxes-Said :
    (a b : Bool) (gaps : List Text) (bad : Bool) (box : Notice)
    → Other box
    → Said a b gaps bad (boxes a b gaps bad box)
boxes-Said true true [] bad box h = (refl, refl, refl)
boxes-Said true true (g ∷ gs) bad box h = (refl, refl, refl)
boxes-Said true false [] bad box h = (refl, refl, refl)
boxes-Said true false (g ∷ gs) bad box h = (refl, refl, refl)
boxes-Said false true [] bad box h = (refl, refl, refl)
boxes-Said false true (g ∷ gs) bad box h = (refl, refl, refl)
boxes-Said false false [] true box (p, q, r) = rw (p, q, r) (refl, refl, refl)
boxes-Said false false (g ∷ gs) true box (p, q, r) = rw (p, q, r) (refl, refl, refl)
boxes-Said false false [] false box h = (refl, refl, refl)
boxes-Said false false (g ∷ gs) false box h = (refl, refl, refl)

interval_box-Other : (f : Blethr) → Other (interval_box f)
interval_box-Other f = elim (Bool-cases f.source_interval_unusable) [
  | inl e ↦ rw (e) (refl, refl, refl)
  | inr e ↦ rw (e) (refl, refl, refl)
]

abbrev pub claims_no_source : Blethr → Bool
claims_no_source f = not (any (text_eq which) f.read_gaps) && unset f.ext_mac

abbrev pub claims_scanning_off : Blethr → Bool
claims_scanning_off f = is_empty f.read_gaps && is_false f.scanning

-- The notices say that no source is set exactly if that part of the read answered and the address is empty
-- or all zeroes, and that scanning is off exactly if every part answered and it is. That part of the read
-- is missing is said exactly if it is, and one of the other two is said or the interval is not judged
-- wrong: a notice about the interval replaces it.
pub notices_lem :
    (f : Blethr)
    → (any says_no_source (notices f) ≡ claims_no_source f)
      × (any says_scanning_off (notices f) ≡ claims_scanning_off f)
      × (any says_lost (notices f) ≡ (
          not (is_empty f.read_gaps)
          && (claims_no_source f || claims_scanning_off f || not (is_false f.source_interval_ok))))
unfolding notices
notices_lem f =
    boxes-Said (claims_no_source f) (claims_scanning_off f) f.read_gaps
      (is_false f.source_interval_ok) (interval_box f) (interval_box-Other f)
