-- ===== src/Bits.antt =====
-- `&` and `|` on unsigned numbers as arithmetic: masks, single bits, and fields that do not
-- overlap. The drivers and devices take registers and identifiers apart with these.
mod Step
pub use Step.{and_step, or_step}
use Prim.Native.Nat.{bit_and-bitwise, bit_or-bitwise}
use native.Mathlib.Nat.{
  pow-suc, one-le-pow, div-div-eq-div-mul, mod-eq-sub-div-mul, div-mul-le_self,
}
use linux_qemu.Base.{
  ℕ, zero, suc, ◌+◌, ◌-◌, ◌*◌, ◌/◌, ◌%◌, ◌^◌, ◌<◌, bit_and, bit_or, ◌≡◌, refl, ap, Bool, not, arith,
  ◌==◌, Bool-cases, inl, inr,
}

times_pow_suc : (q k : ℕ) → q * 2 ^ suc k ≡ 2 * (q * 2 ^ k)
times_pow_suc q k = omega (arith, ap (λ (t : ℕ). q * t) (pow-suc 2 k))

and-zero_fuel : (n a : ℕ) → a < n → bit_and a 0 ≡ 0
and-zero_fuel zero a h = elim h [ ]
and-zero_fuel (suc n) zero h = refl
and-zero_fuel (suc n) (suc a) h =
    omega (arith, and_step (suc a) 0, and-zero_fuel n (suc a / 2) (omega arith))

pub and-zero : (a : ℕ) → bit_and a 0 ≡ 0
and-zero a = and-zero_fuel (suc a) a (omega arith)

or-zero_fuel : (n a : ℕ) → a < n → bit_or a 0 ≡ a
or-zero_fuel zero a h = elim h [ ]
or-zero_fuel (suc n) zero h = refl
or-zero_fuel (suc n) (suc a) h =
    omega (arith, or_step (suc a) 0, or-zero_fuel n (suc a / 2) (omega arith))

pub or-zero : (a : ℕ) → bit_or a 0 ≡ a
or-zero a = or-zero_fuel (suc a) a (omega arith)

pub zero-or : (a : ℕ) → bit_or 0 a ≡ a
zero-or a = bit_or-bitwise 0 a

div_pow_suc : (k a : ℕ) → a / 2 / 2 ^ k ≡ a / 2 ^ suc k
div_pow_suc k a = rw (div-div-eq-div-mul) (ap (λ (t : ℕ). a / t) (omega (arith, pow-suc 2 k)))

low_digits : (k a : ℕ) → a % 2 ^ suc k ≡ a / 2 % 2 ^ k * 2 + a % 2
low_digits k a = omega (
  arith,
  mod-eq-sub-div-mul a (2 ^ suc k),
  mod-eq-sub-div-mul (a / 2) (2 ^ k),
  div-mul-le_self (a / 2) (2 ^ k),
  times_pow_suc (a / 2 ^ suc k) k,
  ap (λ (t : ℕ). t * 2 ^ k) (div_pow_suc k a),
)

-- A mask of the `k` low bits takes the remainder.
pub and_mask : (k a : ℕ) → bit_and a (2 ^ k - 1) ≡ a % 2 ^ k
and_mask zero a = ground (arith, and-zero a)
and_mask (suc k) a =
    let low : (2 ^ suc k - 1) / 2 ≡ 2 ^ k - 1 = omega (arith, pow-suc 2 k, one-le-pow k 2) in
    let odd : (2 ^ suc k - 1) % 2 ≡ 1 = omega (arith, pow-suc 2 k, one-le-pow k 2) in
    let rest : a % 2 ^ suc k ≡ a / 2 % 2 ^ k * 2 + a % 2 = low_digits k a in
    rw (and_step, low, odd, and_mask k (a / 2)) (omega arith)

-- Shifting both operands up shifts the result.
pub and_shl : (k a m : ℕ) → bit_and (a * 2 ^ k) (m * 2 ^ k) ≡ bit_and a m * 2 ^ k
and_shl zero a m = ground arith
and_shl (suc k) a m = ground (
  arith,
  and_step (a * 2 ^ suc k) (m * 2 ^ suc k),
  times_pow_suc a k,
  times_pow_suc m k,
  times_pow_suc (bit_and a m) k,
  and_shl k a m,
)

-- `|` adds a field that fits below the other.
pub or_add : (k q r : ℕ) → r < 2 ^ k → bit_or (q * 2 ^ k) r ≡ q * 2 ^ k + r
or_add zero q r h = ground (arith, or-zero q)
or_add (suc k) q r h = ground (
  arith,
  or_step (q * 2 ^ suc k) r,
  times_pow_suc q k,
  or_add k q (r / 2) (omega (arith, pow-suc 2 k)),
)

-- A single bit is tested by its digit.
pub and_bit : (k a : ℕ) → bit_and a (2 ^ k) ≡ a / 2 ^ k % 2 * 2 ^ k
and_bit zero a = omega (arith, and_mask 1 a)
and_bit (suc k) a = ground (
  arith,
  and_step a (2 ^ suc k),
  pow-suc 2 k,
  and_bit k (a / 2),
  div_pow_suc k a,
  times_pow_suc (a / 2 ^ suc k % 2) k,
)

or_comm_fuel : (n a b : ℕ) → a < n → bit_or a b ≡ bit_or b a
or_comm_fuel zero a b h = elim h [ ]
or_comm_fuel (suc n) zero b h = omega (arith, zero-or b, or-zero b)
or_comm_fuel (suc n) (suc a) b h =
    omega (
      arith,
      or_step (suc a) b,
      or_step b (suc a),
      or_comm_fuel n (suc a / 2) (b / 2) (omega arith),
    )

pub or_comm : (a b : ℕ) → bit_or a b ≡ bit_or b a
or_comm a b = or_comm_fuel (suc a) a b (omega arith)

-- `if (x & m)`
unfoldable pub has : ℕ → ℕ → Bool
has x m = not (bit_and x m == 0)

pub has_bit : (k x : ℕ) → has x (2 ^ k) ≡ (x / 2 ^ k % 2 == 1)
unfolding has
has_bit k x = ground (arith, and_bit k x, one-le-pow k 2)

-- A field that fits below the lowest bit of `x` is added, on either side.
pub or_low : (k x r : ℕ) → x % 2 ^ k ≡ 0 → r < 2 ^ k → bit_or x r ≡ x + r
or_low k x r aligned fits =
    let split : x ≡ x / 2 ^ k * 2 ^ k =
      omega (arith, mod-eq-sub-div-mul x (2 ^ k), div-mul-le_self x (2 ^ k)) in
    rw split (or_add k (x / 2 ^ k) r fits)

pub or_high : (k x r : ℕ) → x % 2 ^ k ≡ 0 → r < 2 ^ k → bit_or r x ≡ x + r
or_high k x r aligned fits = rw or_comm (or_low k x r aligned fits)

-- Setting and clearing bit 0 of a byte.
pub or_one : (x : ℕ) → bit_or x 1 ≡ x / 2 * 2 + 1
or_one x = omega (arith, or_step x 1, or-zero (x / 2))

pub and_clear_one : (x : ℕ) → bit_and x 254 ≡ x / 2 % 128 * 2
and_clear_one x = omega (arith, and_step x 254, and_mask 7 (x / 2))

and_comm_fuel : (n a b : ℕ) → a < n → bit_and a b ≡ bit_and b a
and_comm_fuel zero a b h = elim h [ ]
and_comm_fuel (suc n) zero b h = omega (arith, bit_and-bitwise 0 b, and-zero b)
and_comm_fuel (suc n) (suc a) b h = omega (
  arith,
  and_step (suc a) b,
  and_step b (suc a),
  and_comm_fuel n (suc a / 2) (b / 2) (omega arith),
)

pub and_comm : (a b : ℕ) → bit_and a b ≡ bit_and b a
and_comm a b = and_comm_fuel (suc a) a b (omega arith)
