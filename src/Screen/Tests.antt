-- ===== src/Screen/Tests.antt =====
-- Two devices with snapshots, and a click that acts on one of them.
use ha_telink_manager.Prelude.{some, [], ◌∷◌, String, has, ◌≡◌, refl}
use ha_telink_manager.Screen.{
  Matrix, Screen, shell, draw, open_compare, compare_loaded, rescanned, open_snapshots, toggle,
  snapshots_loaded, history_loaded, acted,
}
use ha_telink_manager.Screen.Own.{Reach, Reach-acted}
use ha_telink_manager.Screen.Late.{looked_at, looked_at-Reach, moved_on, rescanned_late}

abbrev cellar : String
cellar = "A4:C1:38:00:00:01"

abbrev attic : String
attic = "A4:C1:38:00:00:02"

abbrev seen : Screen
seen = looked_at cellar attic ("1-aa" ∷ "2-bb" ∷ []) ("2-bb" ∷ "1-aa" ∷ [])

clicked : acted "1-aa" seen ≡ some (cellar, cellar)
unfolding acted draw history_loaded toggle snapshots_loaded open_snapshots shell has compare_loaded
    open_compare
clicked = refl

Reach-acted_example :
    (cellar ≡ cellar) × ((m : Matrix) → seen.changes ≡ some m → m.device ≡ some cellar)
Reach-acted_example =
    Reach-acted (looked_at-Reach cellar attic ("1-aa" ∷ "2-bb" ∷ []) ("2-bb" ∷ "1-aa" ∷ [])) "1-aa"
      cellar cellar clicked

rescanned_late_example :
    Reach (moved_on cellar attic ("1-aa" ∷ []) ("1-aa" ∷ []))
    × (acted "1-aa" (rescanned (moved_on cellar attic ("1-aa" ∷ []) ("1-aa" ∷ [])))
        ≡ some (attic, cellar))
unfolding has
rescanned_late_example = rescanned_late cellar attic "1-aa" [] ("1-aa" ∷ []) refl refl
