-- ===== src/Base/Bits.antt =====
-- The bit operations of `u32` on a map of flags: `1 << n`, `|`, `& !`, `leading_zeros`.
use Prim.Native.Nat.{ℕ, zero, suc, ◌+◌, ◌-◌, ◌*◌, ◌/◌, ◌%◌, ◌^◌, ◌≤◌, ◌<◌, min, max}
use Prim.Native.Nat.{bit_and, bit_or, digits, bitwise, bit_and-bitwise, bit_or-bitwise}
use mathlib.Core.Path.{◌≡◌, refl, ap, ◌∙◌}
use mathlib.Core.Logic.{inl, inr}
use mathlib.Core.Bool.{Bool}
use native.Mathlib.Omega.{arith}
use native.Mathlib.Nat.{pow-suc, one-le-pow}
use taskette.Base.Tests.{if◌then◌else◌, ◌==◌, bit, Bool-cases, eqb→eq}

-- Bit `n` of a number, 0 or 1.
unfoldable pub digit : ℕ → ℕ → ℕ
digit x zero = x % 2
digit x (suc n) = digit (x / 2) n

-- `(x & (1 << n)) != 0`
abbrev pub has_bit : ℕ → ℕ → Bool
has_bit x n = digit x n == 1

-- `!x` on a word of `w` bits.
abbrev pub bit_not : ℕ → ℕ → ℕ
bit_not w x = 2 ^ w - 1 - x

-- `x.leading_zeros()` on a word of `w` bits: the zeros above the highest one.
unfoldable pub leading_zeros : ℕ → ℕ → ℕ
leading_zeros zero x = 0
leading_zeros (suc w) x = let rest = leading_zeros w x in if has_bit x w then 0 else suc rest

-- The library reads the bits of its operands with fuel; fuel that is left over changes nothing.
spare_fuel :
    (rest : ℕ → ℕ) (op : ℕ → ℕ → ℕ) (fuel x y : ℕ)
    → x ≤ fuel
    → digits rest op (suc fuel) x y ≡ digits rest op fuel x y
spare_fuel rest op zero zero y h = refl
spare_fuel rest op (suc fuel) zero y h = refl
spare_fuel rest op zero (suc x) y h = absurd (omega arith)
spare_fuel rest op (suc fuel) (suc x) y h =
    ap (λ (r : ℕ). r * 2 + op (suc x % 2) (y % 2))
      (spare_fuel rest op fuel (suc x / 2) (y / 2) (omega arith))

left_fuel :
    (rest : ℕ → ℕ) (op : ℕ → ℕ → ℕ) (k x y : ℕ) → digits rest op (k + x) x y ≡ digits rest op x x y
left_fuel rest op zero x y =
    ap (λ (fuel : ℕ). digits rest op fuel x y) {x = 0 + x} {y = x} (omega arith)
left_fuel rest op (suc k) x y =
    ap (λ (fuel : ℕ). digits rest op fuel x y) {x = suc k + x} {y = suc (k + x)} (omega arith)
    ∙ spare_fuel rest op (k + x) x y (omega arith)
    ∙ left_fuel rest op k x y

lowest_of :
    (rest : ℕ → ℕ) (op : ℕ → ℕ → ℕ) (x y : ℕ)
    → bitwise rest op (suc x) y ≡ bitwise rest op (suc x / 2) (y / 2) * 2 + op (suc x % 2) (y % 2)
lowest_of rest op x y =
    let gap : x ≡ x - suc x / 2 + suc x / 2 = omega arith in
    ap (λ (r : ℕ). r * 2 + op (suc x % 2) (y % 2))
      (ap (λ (fuel : ℕ). digits rest op fuel (suc x / 2) (y / 2)) gap
        ∙ left_fuel rest op (x - suc x / 2) (suc x / 2) (y / 2))

bit_or-lowest : (a b : ℕ) → bit_or a b ≡ bit_or (a / 2) (b / 2) * 2 + max (a % 2) (b % 2)
bit_or-lowest zero b = simp bit_or-bitwise (omega arith)
bit_or-lowest (suc a) b = simp bit_or-bitwise (lowest_of (λ y. y) max a b)

bit_and-lowest : (a b : ℕ) → bit_and a b ≡ bit_and (a / 2) (b / 2) * 2 + min (a % 2) (b % 2)
bit_and-lowest zero b = simp bit_and-bitwise (omega arith)
bit_and-lowest (suc a) b = simp bit_and-bitwise (lowest_of (λ y. 0) min a b)

pub digit-bit_or : (a b n : ℕ) → digit (bit_or a b) n ≡ max (digit a n) (digit b n)
unfolding digit
digit-bit_or a b zero = omega (arith, bit_or-lowest a b)
digit-bit_or a b (suc n) =
    let half : bit_or a b / 2 ≡ bit_or (a / 2) (b / 2) = omega (arith, bit_or-lowest a b) in
    rw half (digit-bit_or (a / 2) (b / 2) n)

pub digit-bit_and : (a b n : ℕ) → digit (bit_and a b) n ≡ min (digit a n) (digit b n)
unfolding digit
digit-bit_and a b zero = omega (arith, bit_and-lowest a b)
digit-bit_and a b (suc n) =
    let half : bit_and a b / 2 ≡ bit_and (a / 2) (b / 2) = omega (arith, bit_and-lowest a b) in
    rw half (digit-bit_and (a / 2) (b / 2) n)

pub digit-le : (a n : ℕ) → digit a n ≤ 1
unfolding digit
digit-le a zero = omega arith
digit-le a (suc n) = digit-le (a / 2) n

digit-zero : (n : ℕ) → digit 0 n ≡ 0
unfolding digit
digit-zero zero = refl
digit-zero (suc n) = digit-zero n

-- `1 << p` has bit `p` and no other.
pub digit-pow : (p n : ℕ) → digit (2 ^ p) n ≡ bit (p == n)
unfolding digit
digit-pow zero zero = refl
digit-pow zero (suc n) = ground (arith, digit-zero n)
digit-pow (suc p) zero = ground (arith, pow-suc 2 p)
digit-pow (suc p) (suc n) =
    let half : 2 ^ suc p / 2 ≡ 2 ^ p = omega (arith, pow-suc 2 p) in
    rw half (ground (arith, digit-pow p n))

-- `!x` has the bits below its width that `x` has not.
pub digit-bit_not : (w x n : ℕ) → x < 2 ^ w → n < w → digit (bit_not w x) n + digit x n ≡ 1
unfolding digit
digit-bit_not zero x n small h = absurd (omega arith)
digit-bit_not (suc w) x zero small h = omega (arith, pow-suc 2 w)
digit-bit_not (suc w) x (suc n) small h =
    let half : (2 ^ suc w - 1 - x) / 2 ≡ 2 ^ w - 1 - x / 2 = omega (arith, pow-suc 2 w) in
    rw half (digit-bit_not w (x / 2) n (omega (arith, pow-suc 2 w)) (omega arith))

pub leading_zeros-le : (w x : ℕ) → leading_zeros w x ≤ w
unfolding leading_zeros
leading_zeros-le zero x = omega arith
leading_zeros-le (suc w) x = ground (arith, leading_zeros-le w x)

-- The bits counted by `leading_zeros` are zero.
pub leading_zeros-above : (w x n : ℕ) → n < w → w ≤ n + leading_zeros w x → digit x n ≡ 0
unfolding leading_zeros
leading_zeros-above zero x n h k = absurd (omega arith)
leading_zeros-above (suc w) x n h k =
    ground
      (arith, digit-le x w, digit-le x n, leading_zeros-above w x n, ap (digit x) {x = n} {y = w})

-- The bit under them is a one, if there is one.
pub leading_zeros-highest :
    (w x : ℕ) → leading_zeros w x < w → digit x (w - 1 - leading_zeros w x) ≡ 1
unfolding leading_zeros
leading_zeros-highest zero x h = absurd (omega arith)
leading_zeros-highest (suc w) x h = elim (Bool-cases (has_bit x w)) [
  | inl top ↦
      let here : suc w - 1 - 0 ≡ w = omega arith in
      rw top (ap (digit x) here ∙ eqb→eq (digit x w) 1 top)
  | inr low ↦
      let there : suc w - 1 - suc (leading_zeros w x) ≡ w - 1 - leading_zeros w x = omega arith in
      rw low (ap (digit x) there ∙ leading_zeros-highest w x (ground arith))
]

-- With some bit set, bit `w - 1 - x.leading_zeros()` is set, and none above it.
pub record Highest (w x : ℕ) : Type 0 where
  pub in_range : leading_zeros w x < w
  pub set : digit x (w - 1 - leading_zeros w x) ≡ 1
  pub above : (n : ℕ) → n < w → digit x n ≡ 1 → n ≤ w - 1 - leading_zeros w x

pub Highest-intro : (w x n : ℕ) → n < w → digit x n ≡ 1 → Highest w x
Highest-intro w x n h one = record {
  in_range = found;
  set = leading_zeros-highest w x found;
  above = λ m k e. ground (arith, leading_zeros-above w x m);
}
  where
    found : leading_zeros w x < w
    found = ground (arith, leading_zeros-above w x n, leading_zeros-le w x)

-- Setting a flag: `map |= 1 << p`.
pub digit-set : (x p n : ℕ) → digit (bit_or x (2 ^ p)) n ≡ (if p == n then 1 else digit x n)
digit-set x p n = ground (arith, digit-bit_or x (2 ^ p) n, digit-pow p n, digit-le x n)

-- Clearing a flag of a word of `w` bits: `map &= !(1 << p)`.
pub digit-clear :
    (w x p n : ℕ)
    → p < w
    → (w ≤ n → digit x n ≡ 0)
    → digit (bit_and x (bit_not w (2 ^ p))) n ≡ (if p == n then 0 else digit x n)
digit-clear w x p n h high = ground (
  arith,
  digit-bit_and x (bit_not w (2 ^ p)) n,
  digit-pow p n,
  digit-le x n,
  digit-bit_not w (2 ^ p) n (pow-lt p w h),
  digit-le (bit_not w (2 ^ p)) n,
)
  where
    pow-lt : (a b : ℕ) → a < b → 2 ^ a < 2 ^ b
    pow-lt a zero k = absurd (omega arith)
    pow-lt zero (suc b) k = omega (arith, pow-suc 2 b, one-le-pow b 2)
    pow-lt (suc a) (suc b) k = omega (arith, pow-suc 2 a, pow-suc 2 b, pow-lt a b (omega arith))
