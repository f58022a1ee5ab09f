-- ===== src/Screen/Late.antt =====
-- The answer of a re-read that comes when the Compare window is gone.
use ha_telink_manager.Prelude.{
  true, false, none, some, List, [], ◌∷◌, String, str_eq, has, eq_refl, ◌≡◌, refl,
}
use ha_telink_manager.Screen.{
  Screen, shell, draw, rescanned, open_compare, compare_loaded, open_snapshots, toggle,
  snapshots_loaded, history_loaded, acted, start,
}
use ha_telink_manager.Screen.Own.{
  owner, Reach, begin, compare_opens, compare_answers, snapshots_open, snapshots_answer, presses,
  history_answers,
}

-- The Compare window, where a device is read again; then the list of two devices with `a` expanded, `a`'s history loaded, and `b` expanded after it.
abbrev pub asked : String → String → Screen
asked a b = toggle a (
    snapshots_loaded (a ∷ b ∷ []) none
      (open_snapshots (compare_loaded (a ∷ b ∷ []) (open_compare start))))

abbrev pub looked_at : String → String → List String → List String → Screen
looked_at a b rows ids = history_loaded a 0 rows ids (asked a b)

abbrev pub moved_on : String → String → List String → List String → Screen
moved_on a b rows ids = toggle b (looked_at a b rows ids)

owner-asked : (a b : String) → owner 0 (asked a b).views ≡ some a
unfolding toggle snapshots_loaded open_snapshots shell has compare_loaded open_compare draw
owner-asked a b = rw (eq_refl a) refl

pub looked_at-Reach : (a b : String) (rows ids : List String) → Reach (looked_at a b rows ids)
looked_at-Reach a b rows ids =
    history_answers a 0 rows ids
      (presses a (
        snapshots_answer (a ∷ b ∷ []) none
          (snapshots_open (compare_answers (a ∷ b ∷ []) (compare_opens begin)))))
      (owner-asked a b)

moved_on-Reach : (a b : String) (rows ids : List String) → Reach (moved_on a b rows ids)
moved_on-Reach a b rows ids = presses b (looked_at-Reach a b rows ids)

-- The history of a device is shown, another device is expanded, and before its history is there, a re-read of
-- the Compare window is answered. Then the rows of the first device stand in the view of the second, and a
-- click on one of them takes the first device's snapshot.
pub rescanned_late :
    (a b row : String) (rows ids : List String)
    → str_eq a b ≡ false
    → has row ids ≡ true
    → Reach (moved_on a b (row ∷ rows) ids)
      × (acted row (rescanned (moved_on a b (row ∷ rows) ids)) ≡ some (b, a))
unfolding acted rescanned draw history_loaded toggle snapshots_loaded open_snapshots shell has
    compare_loaded open_compare
rescanned_late a b row rows ids h k =
    (moved_on-Reach a b (row ∷ rows) ids, rw (eq_refl a, eq_refl b, h, eq_refl row, k) refl)
