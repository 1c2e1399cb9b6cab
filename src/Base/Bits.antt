-- ===== src/Base/Bits.antt =====
-- The native bit operations at variables: `|` of disjoint fields is a sum, `&` with ones a
-- remainder, and over a byte a table decides.
use Prim.Native.Nat.{
  ℕ, zero, suc, ◌+◌, ◌-◌, ◌*◌, ◌/◌, ◌%◌, ◌^◌, ◌≤◌, ◌<◌, min, max, digits, bit_and, bit_or,
  bit_and-bitwise, bit_or-bitwise,
}
use mathlib.Core.Path.{◌≡◌, refl, ap}
use native.Mathlib.Nat.{pow-suc, one-le-pow}
use mathlib.Core.Bool.{Bool, true, ◌&&◌}
use sedona_vm_debug.Base.Tests.{ltb, ltb→lt}
use native.Mathlib.Omega.{arith}

-- `digits` recurs on fuel; any fuel not below the first number gives the same result.
module _ (rest : ℕ → ℕ) (digit : ℕ → ℕ → ℕ) where
  digits-fuel : (f g x y : ℕ) → x ≤ f → x ≤ g → digits rest digit f x y ≡ digits rest digit g x y
  digits-fuel (suc f) (suc g) (suc x) y hf hg =
      let halves = digits-fuel f g (suc x / 2) (y / 2) (omega arith) (omega arith) in rw halves
  digits-fuel f zero (suc x) y hf hg = absurd (omega arith)
  digits-fuel zero (suc g) (suc x) y hf hg = absurd (omega arith)
  digits-fuel zero zero zero y hf hg = refl
  digits-fuel zero (suc g) zero y hf hg = refl
  digits-fuel (suc f) zero zero y hf hg = refl
  digits-fuel (suc f) (suc g) zero y hf hg = refl

-- The lowest digit of each operation.
bit_or-digit : (a b : ℕ) → bit_or a b ≡ bit_or (a / 2) (b / 2) * 2 + max (a % 2) (b % 2)
bit_or-digit zero b = omega (arith, bit_or-bitwise 0 b, bit_or-bitwise 0 (b / 2))
bit_or-digit (suc a) b = omega (
  arith,
  bit_or-bitwise (suc a) b,
  bit_or-bitwise (suc a / 2) (b / 2),
  digits-fuel (λ y. y) max a (suc a / 2) (suc a / 2) (b / 2) (omega arith) (omega arith),
)

bit_and-digit : (a b : ℕ) → bit_and a b ≡ bit_and (a / 2) (b / 2) * 2 + min (a % 2) (b % 2)
bit_and-digit zero b = omega (arith, bit_and-bitwise 0 b, bit_and-bitwise 0 (b / 2))
bit_and-digit (suc a) b = omega (
  arith,
  bit_and-bitwise (suc a) b,
  bit_and-bitwise (suc a / 2) (b / 2),
  digits-fuel (λ y. 0) min a (suc a / 2) (suc a / 2) (b / 2) (omega arith) (omega arith),
)

bit_or-zero_below : (bound a : ℕ) → a ≤ bound → bit_or a 0 ≡ a
bit_or-zero_below bound zero h = refl
bit_or-zero_below zero (suc a) h = absurd (omega arith)
bit_or-zero_below (suc bound) (suc a) h =
    omega (arith, bit_or-digit (suc a) 0, bit_or-zero_below bound (suc a / 2) (omega arith))

-- The high field is a multiple of `2 ^ k`, the low one fits `k` bits.
pub bit_or-disjoint :
    (k high low : ℕ) → low < 2 ^ k → bit_or (high * 2 ^ k) low ≡ high * 2 ^ k + low
bit_or-disjoint zero high low h = ground (arith, bit_or-zero_below high high)
bit_or-disjoint (suc k) high low h =
    let shifted : high * 2 ^ suc k ≡ 2 * (high * 2 ^ k) =
      omega (arith, ap (λ (t : ℕ). high * t) (pow-suc 2 k)) in
    ground (
      arith,
      shifted,
      bit_or-digit (high * 2 ^ suc k) low,
      bit_or-disjoint k high (low / 2) (omega (arith, pow-suc 2 k)),
    )

bit_and-zero_left : (b : ℕ) → bit_and 0 b ≡ 0
bit_and-zero_left b = bit_and-bitwise 0 b

mod-twice : (m a : ℕ) → 0 < m → a % (2 * m) ≡ 2 * (a / 2 % m) + a % 2
mod-twice m a h = grind arith

-- A mask of `k` ones on the left keeps the low `k` bits.
pub bit_and-mask_left : (k a : ℕ) → bit_and (2 ^ k - 1) a ≡ a % 2 ^ k
bit_and-mask_left zero a = omega (arith, bit_and-zero_left a)
bit_and-mask_left (suc k) a = ground (
  arith,
  pow-suc 2 k,
  one-le-pow k 2,
  bit_and-digit (2 ^ suc k - 1) a,
  bit_and-mask_left k (a / 2),
  mod-twice (2 ^ k) a,
)

bit_and-zero_below : (bound a : ℕ) → a ≤ bound → bit_and a 0 ≡ 0
bit_and-zero_below bound zero h = refl
bit_and-zero_below zero (suc a) h = absurd (omega arith)
bit_and-zero_below (suc bound) (suc a) h =
    omega (arith, bit_and-digit (suc a) 0, bit_and-zero_below bound (suc a / 2) (omega arith))

bit_and-comm_below : (bound a b : ℕ) → a ≤ bound → b ≤ bound → bit_and a b ≡ bit_and b a
bit_and-comm_below zero zero zero p q = refl
bit_and-comm_below zero zero (suc b) p q = absurd (omega arith)
bit_and-comm_below zero (suc a) b p q = absurd (omega arith)
bit_and-comm_below (suc bound) a b p q = omega (
  arith,
  bit_and-digit a b,
  bit_and-digit b a,
  bit_and-comm_below bound (a / 2) (b / 2) (omega arith) (omega arith),
)

pub bit_and_comm : (a b : ℕ) → bit_and a b ≡ bit_and b a
bit_and_comm a b = bit_and-comm_below (a + b) a b (omega arith) (omega arith)

pub bit_and-mask : (k a : ℕ) → bit_and a (2 ^ k - 1) ≡ a % 2 ^ k
bit_and-mask k a = omega (arith, bit_and_comm a (2 ^ k - 1), bit_and-mask_left k a)

-- Over a small range a test is decided by evaluation.
all_below : ℕ → (ℕ → Bool) → Bool
all_below zero test = true
all_below (suc n) test = test n && all_below n test

all_below_sound :
    (n : ℕ) (test : ℕ → Bool) (x : ℕ) → all_below n test ≡ true → x < n → test x ≡ true
unfolding all_below
all_below_sound zero test x h below = absurd (omega arith)
all_below_sound (suc n) test x h below = ground (arith, all_below_sound n test x)

-- A continuation byte passes the test `& 0xbf`.
continuation_table : all_below 64 (λ x. ltb 0 (bit_and (0x80 + x) 0xbf)) ≡ true
unfolding all_below
continuation_table = refl

pub continuation_ne_zero : (x : ℕ) → x < 64 → 0 < bit_and (0x80 + x) 0xbf
continuation_ne_zero x h = ltb→lt _ _ (all_below_sound 64 _ x continuation_table h)
