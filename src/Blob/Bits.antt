-- ===== src/Blob/Bits.antt =====
-- What the updates of a byte do to the bits that are read from it, by going through all bytes.
use Prim.Native.Nat.{zero, suc, bit_and, bit_or}
use mathlib.Core.Option.{some-injective, none-ne-some}
use ha_telink_manager.Prelude.{
  ℕ, ◌+◌, ◌<◌, ◌==◌, ltb, leb, Bool, true, false, not, ◌&&◌, Option, none, some, get_or_else, List,
  [], ◌∷◌, all, All, if◌then◌else◌, ◌≡◌, refl, arith, ◌∙◌, ap, subst,
}
use ha_telink_manager.Blob.{bit, put_bit, put_low}

abbrev pub all_under : ℕ → (ℕ → Bool) → Bool
all_under zero p = true
all_under (suc n) p = let rest = all_under n p in p n && rest

pub all_under_sound : (n : ℕ) (p : ℕ → Bool) (x : ℕ) → all_under n p ≡ true → x < n → p x ≡ true
all_under_sound zero p x h lt = absurd (omega arith)
all_under_sound (suc n) p x h lt = ground (arith, all_under_sound n p x)

abbrev same : Bool → Bool → Bool
same true b = b
same false b = not b

same_sound : (a b : Bool) → same a b ≡ true → a ≡ b
same_sound a b h = ground arith

and_sound : (a b : Bool) → (a && b) ≡ true → (a ≡ true) × (b ≡ true)
and_sound a b h = ground arith

ltb_sound : (a b : ℕ) → ltb a b ≡ true → a < b
ltb_sound a b h = ground arith

==_sound : (a b : ℕ) → (a == b) ≡ true → a ≡ b
==_sound a b h = ground arith

leb_sound : (a b : ℕ) → leb a b ≡ true → a < b + 1
leb_sound a b h = ground arith

-- The bits from the second on, and from the third on.
abbrev pub from_2 : List ℕ
from_2 = 2 ∷ 3 ∷ 4 ∷ 5 ∷ 6 ∷ 7 ∷ []

abbrev pub from_3 : List ℕ
from_3 = 3 ∷ 4 ∷ 5 ∷ 6 ∷ 7 ∷ []

abbrev pub from_4 : List ℕ
from_4 = 4 ∷ 5 ∷ 6 ∷ 7 ∷ []

-- What is read from a byte: its low bits as a number and each of the other bits.
abbrev pub Reading : ℕ → List ℕ → ℕ → (ℕ → Bool) → ℕ → Type 0
Reading low js l want y = (y < 256) × ((bit_and y low ≡ l) × All (λ (j : ℕ). bit j y ≡ want j) js)

abbrev reading_test : ℕ → List ℕ → ℕ → (ℕ → Bool) → ℕ → Bool
reading_test low js l want y =
    ltb y 256 && (bit_and y low == l && all (λ j. same (bit j y) (want j)) js)

every_sound :
    (want : ℕ → Bool) (y : ℕ) (js : List ℕ)
    → all (λ j. same (bit j y) (want j)) js ≡ true
    → All (λ (j : ℕ). bit j y ≡ want j) js
every_sound want y [] h = tt
every_sound want y (j ∷ js) h =
    let (p, q) = and_sound _ _ h in (same_sound _ _ p, every_sound want y js q)

reading_test_sound :
    (low : ℕ) (js : List ℕ) (l : ℕ) (want : ℕ → Bool) (y : ℕ)
    → reading_test low js l want y ≡ true
    → Reading low js l want y
reading_test_sound low js l want y h =
    let (p, q) = and_sound _ _ h in
    let (r, t) = and_sound _ _ q in (ltb_sound _ _ p, (==_sound _ _ r, every_sound want y js t))

pub own_Reading :
    (low : ℕ) (js : List ℕ) (x : ℕ) → x < 256 → Reading low js (bit_and x low) (λ j. bit j x) x
own_Reading low js x h = (h, (refl, own js))
  where
    own : (ks : List ℕ) → All (λ (j : ℕ). bit j x ≡ bit j x) ks
    own [] = tt
    own (k ∷ ks) = (refl, own ks)

-- The bits with one of them replaced, unless nothing is asked for.
abbrev pub with_bit : ℕ → Option Bool → (ℕ → Bool) → ℕ → Bool
with_bit k v want j = if j == k then get_or_else v (want j) else want j

-- The same reading of the old byte gives the reading of the new one.
rebase :
    (f : ℕ → Bool → Bool) (x y : ℕ) (want : ℕ → Bool) (js : List ℕ)
    → All (λ (j : ℕ). bit j x ≡ want j) js
    → All (λ (j : ℕ). bit j y ≡ f j (bit j x)) js
    → All (λ (j : ℕ). bit j y ≡ f j (want j)) js
rebase f x y want [] p q = tt
rebase f x y want (j ∷ js) (p, ps) (q, qs) = (q ∙ ap (f j) p, rebase f x y want js ps qs)

-- A flag is set or cleared without a change of anything else, for every byte.
abbrev flag_test : ℕ → List ℕ → ℕ → ℕ → Bool → ℕ → Bool
flag_test low js k mask v x =
    reading_test low js (bit_and x low) (with_bit k (some v) (λ j. bit j x))
      (put_bit mask (some v) x)

abbrev pub FlagTable : ℕ → List ℕ → ℕ → ℕ → Type 0
FlagTable low js k mask =
    (all_under 256 (flag_test low js k mask true) ≡ true)
    × (all_under 256 (flag_test low js k mask false) ≡ true)

unset :
    (k : ℕ) (x : ℕ) (want : ℕ → Bool) (js : List ℕ)
    → All (λ (j : ℕ). bit j x ≡ want j) js
    → All (λ (j : ℕ). bit j x ≡ with_bit k none want j) js
unset k x want [] p = tt
unset k x want (j ∷ js) (p, ps) = (ground (arith, p), unset k x want js ps)

pub put_bit-Reading :
    (low : ℕ) (js : List ℕ) (k mask : ℕ)
    → FlagTable low js k mask
    → (v : Option Bool) {l : ℕ} (want : ℕ → Bool) {x : ℕ} → Reading low js l want x
    → Reading low js l (with_bit k v want) (put_bit mask v x)
put_bit-Reading low js k mask (on, off) none want (p, (q, r)) = (p, (q, unset k _ _ js r))
put_bit-Reading low js k mask (on, off) (some true) {l} want {x} (p, (q, r)) =
    let (p', (q', r')) =
      reading_test_sound low js _ _ _ (all_under_sound 256 (flag_test low js k mask true) x on p) in
    (p', (q' ∙ q, rebase (λ j w. if j == k then true else w) x _ want js r r'))
put_bit-Reading low js k mask (on, off) (some false) {l} want {x} (p, (q, r)) =
    let (p', (q', r')) =
      reading_test_sound low js _ _ _
        (all_under_sound 256 (flag_test low js k mask false) x off p) in
    (p', (q' ∙ q, rebase (λ j w. if j == k then false else w) x _ want js r r'))

-- The low bits are replaced without a change of the others, for every byte and every number that fits.
abbrev low_test : ℕ → ℕ → List ℕ → ℕ → ℕ → Bool
low_test keep top js v x = reading_test top js v (λ j. bit j x) (bit_or (bit_and x keep) v)

abbrev pub LowTable : ℕ → ℕ → List ℕ → Type 0
LowTable keep top js = all_under (top + 1) (λ v. all_under 256 (low_test keep top js v)) ≡ true

pub put_low-Reading :
    (keep top : ℕ) (js : List ℕ)
    → LowTable keep top js
    → (v : Option ℕ) {l : ℕ} (want : ℕ → Bool) {x y : ℕ} → put_low keep top v x ≡ some y
    → Reading top js l want x
    → Reading top js (get_or_else v l) want y
put_low-Reading keep top js h none {l} want e (p, (q, r)) =
    subst (Reading top js l want) (some-injective _ _ e) (p, (q, r))
put_low-Reading keep top js h (some v) {l} want {x} {y} e (p, (q, r)) = go (leb v top) refl e
  where
    go :
        (fits : Bool)
        → leb v top ≡ fits
        → (if fits then some (bit_or (bit_and x keep) v) else none) ≡ some y
        → Reading top js v want y
    go false f e' = absurd (none-ne-some _ e')
    go true f e' =
        let rows =
          all_under_sound (top + 1) (λ w. all_under 256 (low_test keep top js w)) v h
            (leb_sound v top f) in
        let (p', (q', r')) =
          reading_test_sound top js _ _ _ (all_under_sound 256 (low_test keep top js v) x rows p) in
        subst (Reading top js v want) (some-injective _ _ e')
          (p', (q', rebase (λ j w. w) x _ want js r r'))

pub flags_1 : FlagTable 3 from_2 2 0x04 × FlagTable 3 from_2 3 0x08 × FlagTable 3 from_2 4 0x10
flags_1 = ((refl, refl), (refl, refl), (refl, refl))

pub flags_1b : FlagTable 3 from_2 5 0x20 × FlagTable 3 from_2 6 0x40 × FlagTable 3 from_2 7 0x80
flags_1b = ((refl, refl), (refl, refl), (refl, refl))

pub flags_2 : FlagTable 7 from_3 3 0x08 × FlagTable 7 from_3 4 0x10 × FlagTable 7 from_3 7 0x80
flags_2 = ((refl, refl), (refl, refl), (refl, refl))

pub low_2 : LowTable 0xfc 3 from_2
low_2 = refl

pub low_3 : LowTable 0xf8 7 from_3
low_3 = refl

pub low_4 : LowTable 0xf0 15 from_4
low_4 = refl
