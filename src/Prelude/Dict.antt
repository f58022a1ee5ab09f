-- ===== src/Prelude/Dict.antt =====
-- Sets and maps keyed by text: the program's `Set` and `Map`, which keep the order of insertion.
use Prim.Native.String.{String}
use mathlib.Core.Path.{◌≡◌, refl}
use mathlib.Core.Bool.{Bool, false, ◌||◌}
use mathlib.Core.Option.{Option, none, some}
use mathlib.Core.List.{List, [], ◌∷◌}
use native.Mathlib.Omega.{arith}
use text.Mathlib.Text.{◌==◌ as str_eq}
use text.Mathlib.TextEquality.{eq_iff}
use ha_telink_manager.Prelude.Tests.{if◌then◌else◌}

-- `Set.prototype.has`.
unfoldable pub has : String → List String → Bool
has k [] = false
has k (j ∷ s) = str_eq j k || has k s

-- `Set.prototype.add`: a new item goes last, an old one stays where it is.
unfoldable pub add : String → List String → List String
add k [] = k ∷ []
add k (j ∷ s) = if str_eq j k then j ∷ s else j ∷ add k s

-- `Set.prototype.delete`.
unfoldable pub delete : String → List String → List String
delete k [] = []
delete k (j ∷ s) = let rest = delete k s in if str_eq j k then rest else j ∷ rest

pub has-nil : (k : String) → has k [] ≡ false
unfolding has
has-nil k = refl

pub has-add : (k j : String) (s : List String) → has j (add k s) ≡ (str_eq k j || has j s)
unfolding has add
has-add k j [] = refl
has-add k j (i ∷ s) = ground (arith, eq_iff i k, eq_iff i j, eq_iff k j, has-add k j s)

pub has-delete :
    (k j : String) (s : List String) → has j (delete k s) ≡ (if str_eq k j then false else has j s)
unfolding has delete
has-delete k j [] = ground arith
has-delete k j (i ∷ s) = ground (arith, eq_iff i k, eq_iff i j, eq_iff k j, has-delete k j s)

module _ {ℓ} {A : Type ℓ} where
  -- `Map.prototype.get`, with `none` for `undefined`.
  unfoldable pub lookup : (key : String) (entries : List (String × A)) → Option A
  lookup key [] = none
  lookup key ((other, value) ∷ entries) =
      let below = lookup key entries in if str_eq other key then some value else below

  -- `Map.prototype.set`: a key that is there keeps its place.
  unfoldable pub insert :
      (key : String) (value : A) (entries : List (String × A)) → List (String × A)
  insert key value [] = (key, value) ∷ []
  insert key value ((other, old) ∷ entries) =
      let below = insert key value entries in
      if str_eq other key then (key, value) ∷ entries else (other, old) ∷ below

  -- What is read after a write: the value that was written, or what was there.
  pub lookup-insert :
      (written read : String) (value : A) (entries : List (String × A))
      → lookup read (insert written value entries)
        ≡ (if str_eq written read then some value else lookup read entries)
  unfolding insert lookup
  lookup-insert written read value [] = refl
  lookup-insert written read value ((other, old) ∷ entries) =
      let below = lookup-insert written read value entries in
      ground (eq_iff other read, below, arith, eq_iff other written, eq_iff written read)
