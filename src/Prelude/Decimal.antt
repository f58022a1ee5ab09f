-- ===== src/Prelude/Decimal.antt =====
-- Numbers as the program prints them: `String(n)` of a whole number, and of one that has at most four
-- decimal places and counts its ten-thousandths.
use Prim.Native.Nat.{ℕ, zero, suc, ◌+◌, ◌-◌, ◌*◌, ◌/◌, ◌%◌, ◌≤◌}
use mathlib.Core.Path.{◌≡◌, refl, ap, sym, ◌∙◌}
use mathlib.Core.Logic.{◌≢◌, inl, inr}
use mathlib.Core.Bool.{Bool, true, false}
use mathlib.Core.Bool.{false≢true}
use mathlib.Core.List.{List, [], ◌∷◌, ◌++◌}
use native.Mathlib.Omega.{arith}
use ha_telink_manager.Prelude.Tests.{if◌then◌else◌, ltb, ◌==◌, Bool-cases}
use ha_telink_manager.Prelude.Lists.{All, All-append}

abbrev digit : ℕ → ℕ
digit d = b'0' + d % 10

-- The digits of a number; `fuel` is at least the number.
abbrev pub digits : ℕ → ℕ → List ℕ
digits zero n = digit n ∷ []
digits (suc fuel) n = elim (ltb n 10) [
  | true ↦ digit n ∷ []
  | false ↦ digits fuel (n / 10) ++ (digit n ∷ [])
]

unfoldable pub decimal : ℕ → List ℕ
decimal n = digits n n

-- The places behind the point, without zeros at the end.
abbrev places : ℕ → List ℕ
places x =
    if x % 1000 == 0
    then digit (x / 1000) ∷ []
    else if x % 100 == 0
    then digit (x / 1000) ∷ digit (x / 100) ∷ []
    else if x % 10 == 0
    then digit (x / 1000) ∷ digit (x / 100) ∷ digit (x / 10) ∷ []
    else digit (x / 1000) ∷ digit (x / 100) ∷ digit (x / 10) ∷ digit x ∷ []

abbrev fraction : ℕ → List ℕ
fraction x = if x == 0 then [] else b'.' ∷ places x

unfoldable pub fixed : ℕ → List ℕ
unfolding decimal
fixed n = decimal (n / 10000) ++ fraction (n % 10000)

-- The way back.
abbrev read : ℕ → List ℕ → ℕ
read acc [] = acc
read acc (c ∷ s) = read (acc * 10 + (c - b'0')) s

read-append : (acc : ℕ) (s t : List ℕ) → read acc (s ++ t) ≡ read (read acc s) t
read-append acc [] t = refl
read-append acc (c ∷ s) t = read-append (acc * 10 + (c - b'0')) s t

read-digits : (fuel n : ℕ) → n ≤ fuel → read 0 (digits fuel n) ≡ n
read-digits zero n h = omega (arith, h)
read-digits (suc fuel) n h = elim (Bool-cases (ltb n 10)) [
  | inl e ↦ rw (digits, e) (ground (arith, e))
  | inr e ↦
      rw
        (
          digits,
          e,
          read-append 0 (digits fuel (n / 10)) (digit n ∷ []),
          read-digits fuel (n / 10) (ground (arith, e, h)),
        )
        (omega arith)
]

abbrev NoPoint : ℕ → Type 0
NoPoint c = c ≢ b'.'

digits-NoPoint : (fuel n : ℕ) → All NoPoint (digits fuel n)
digits-NoPoint zero n = (omega arith, tt)
digits-NoPoint (suc fuel) n = elim (Bool-cases (ltb n 10)) [
  | inl e ↦ rw (digits, e) (omega arith, tt)
  | inr e ↦
      rw (digits, e)
        (All-append NoPoint (digits fuel (n / 10)) (digit n ∷ []) (digits-NoPoint fuel (n / 10))
          (omega arith, tt))
]

abbrev whole : List ℕ → List ℕ
whole [] = []
whole (c ∷ s) = let rest = whole s in if c == b'.' then [] else c ∷ rest

abbrev behind : List ℕ → List ℕ
behind [] = []
behind (c ∷ s) = let rest = behind s in if c == b'.' then s else rest

abbrev read_places : List ℕ → ℕ
read_places [] = 0
read_places (a ∷ []) = (a - b'0') * 1000
read_places (a ∷ b ∷ []) = (a - b'0') * 1000 + (b - b'0') * 100
read_places (a ∷ b ∷ c ∷ []) = (a - b'0') * 1000 + ((b - b'0') * 100 + (c - b'0') * 10)
read_places (a ∷ b ∷ c ∷ d ∷ s) =
    (a - b'0') * 1000 + ((b - b'0') * 100 + ((c - b'0') * 10 + (d - b'0')))

read-places : (x : ℕ) → x ≤ 9999 → read_places (places x) ≡ x
read-places x h = elim (Bool-cases (x % 1000 == 0)) [
  | inl e ↦ rw (e) (ground (arith, e, h))
  | inr e ↦ elim (Bool-cases (x % 100 == 0)) [
    | inl f ↦ rw (e, f) (ground (arith, f, h))
    | inr f ↦ elim (Bool-cases (x % 10 == 0)) [
      | inl g ↦ rw (e, f, g) (ground (arith, g, h))
      | inr g ↦ rw (e, f, g) (omega (arith, h))
    ]
  ]
]

split_nil : (x : ℕ) → x ≤ 9999 → (whole (fraction x) ≡ []) × (read_places (behind (fraction x)) ≡ x)
split_nil x h = elim (Bool-cases (x == 0)) [
  | inl e ↦ rw (e) (refl, ground (arith, e))
  | inr e ↦ rw (e) (refl, read-places x h)
]

split_point :
    (s : List ℕ) (x : ℕ)
    → All NoPoint s
    → x ≤ 9999
    → (whole (s ++ fraction x) ≡ s) × (read_places (behind (s ++ fraction x)) ≡ x)
split_point [] x h k = split_nil x k
split_point (c ∷ s) x (h, hs) k =
    let e : (c == b'.') ≡ false = ground (arith, h) in
    let (p, q) = split_point s x hs k in rw (e) (ap (λ t. c ∷ t) p, q)

pub decimal-injective : (m n : ℕ) → decimal m ≡ decimal n → m ≡ n
unfolding decimal
decimal-injective m n e =
    sym (read-digits m m (omega arith)) ∙ ap (read 0) e ∙ read-digits n n (omega arith)

abbrev read_fixed : List ℕ → ℕ
read_fixed s = read 0 (whole s) * 10000 + read_places (behind s)

read-fixed : (n : ℕ) → read_fixed (fixed n) ≡ n
unfolding fixed decimal
read-fixed n =
    let (p, q) =
      split_point (digits (n / 10000) (n / 10000)) (n % 10000)
        (digits-NoPoint (n / 10000) (n / 10000)) (omega arith) in
    rw (p, q, read-digits (n / 10000) (n / 10000) (omega arith)) (omega arith)

pub fixed-injective : (m n : ℕ) → fixed m ≡ fixed n → m ≡ n
fixed-injective m n e = sym (read-fixed m) ∙ ap read_fixed e ∙ read-fixed n

-- A printed number is not empty.
abbrev is_nonempty : List ℕ → Bool
is_nonempty [] = false
is_nonempty (c ∷ s) = true

snoc_nonempty : (s : List ℕ) (c : ℕ) → is_nonempty (s ++ (c ∷ [])) ≡ true
snoc_nonempty [] c = refl
snoc_nonempty (d ∷ s) c = refl

digits_nonempty : (fuel n : ℕ) → is_nonempty (digits fuel n) ≡ true
digits_nonempty zero n = refl
digits_nonempty (suc fuel) n = elim (Bool-cases (ltb n 10)) [
  | inl e ↦ rw (digits, e) refl
  | inr e ↦ rw (digits, e) (snoc_nonempty (digits fuel (n / 10)) (digit n))
]

pub decimal_nonempty : (n : ℕ) → decimal n ≢ []
unfolding decimal
decimal_nonempty n e = false≢true (sym (ap is_nonempty e) ∙ digits_nonempty n n)

append_nonempty : (s t : List ℕ) → is_nonempty s ≡ true → is_nonempty (s ++ t) ≡ true
append_nonempty [] t h = absurd (false≢true h)
append_nonempty (c ∷ s) t h = refl

pub fixed_nonempty : (n : ℕ) → fixed n ≢ []
unfolding fixed decimal
fixed_nonempty n e = false≢true (
    sym (ap is_nonempty e)
    ∙ append_nonempty (digits (n / 10000) (n / 10000)) (fraction (n % 10000))
        (digits_nonempty (n / 10000) (n / 10000)))
