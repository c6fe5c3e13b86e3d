-- ===== src/Common/Bits.antt =====
-- What `&` and `|` of the C code do on numbers: a low mask keeps a remainder, and `|` below a
-- shifted value is a sum.
use Prim.Native.Nat.{
  ℕ, zero, suc, ◌+◌, ◌-◌, ◌*◌, ◌/◌, ◌%◌, ◌^◌, ◌≤◌, ◌<◌, min, max, bit_and, bit_or, digits,
  bit_and-bitwise, bit_or-bitwise,
}
use mathlib.Core.Path.{◌≡◌, refl, ap, ◌∙◌}
use native.Mathlib.Nat.{pow-suc, one-le-pow}
use native.Mathlib.Omega.{arith}

abbrev and_digits : ℕ → ℕ → ℕ → ℕ
and_digits = digits (λ b. 0) min

abbrev or_digits : ℕ → ℕ → ℕ → ℕ
or_digits = digits (λ b. b) max

and_digits-zero : (n a : ℕ) → and_digits n a 0 ≡ 0
and_digits-zero zero a = refl
and_digits-zero (suc n) zero = refl
and_digits-zero (suc n) (suc a) = omega (arith, and_digits-zero n (suc a / 2))

mod-double : (a p : ℕ) → 0 < p → a % (p * 2) ≡ a / 2 % p * 2 + a % 2
mod-double a p h = grind arith

-- Each digit of the mask takes one unit of the fuel `n`, which the number itself supplies.
and_digits-mask : (k n a : ℕ) → a ≤ n → and_digits n a (2 ^ k - 1) ≡ a % 2 ^ k
and_digits-mask zero n a h = omega (arith, and_digits-zero n a)
and_digits-mask (suc k) zero zero h = omega (arith, one-le-pow (suc k) 2)
and_digits-mask (suc k) zero (suc a) h = absurd (omega arith)
and_digits-mask (suc k) (suc n) zero h = omega (arith, one-le-pow (suc k) 2)
and_digits-mask (suc k) (suc n) (suc a) h =
    let ih = and_digits-mask k n (suc a / 2) (omega arith) in
    let half : (2 ^ suc k - 1) / 2 ≡ 2 ^ k - 1 = omega (arith, pow-suc 2 k, one-le-pow k 2) in
    let low : (2 ^ suc k - 1) % 2 ≡ 1 = omega (arith, pow-suc 2 k, one-le-pow k 2) in
    let split = mod-double (suc a) (2 ^ k) (one-le-pow k 2 (omega arith)) in
    rw (half, low, ih, pow-suc 2 k, split) (omega arith)

-- A mask of `k` low bits is the remainder by `2 ^ k`.
pub bit_and_mask : (k a : ℕ) → bit_and a (2 ^ k - 1) ≡ a % 2 ^ k
bit_and_mask k a = bit_and-bitwise a (2 ^ k - 1) ∙ and_digits-mask k a a (omega arith)

or_digits-zero : (n a : ℕ) → a ≤ n → or_digits n a 0 ≡ a
or_digits-zero zero zero h = refl
or_digits-zero zero (suc a) h = absurd (omega arith)
or_digits-zero (suc n) zero h = refl
or_digits-zero (suc n) (suc a) h = omega (arith, or_digits-zero n (suc a / 2) (omega arith))

or_digits-fields : (k n a q r : ℕ) → a ≡ q * 2 ^ k → a ≤ n → r < 2 ^ k → or_digits n a r ≡ a + r
or_digits-fields zero n a q zero e h f = omega (arith, or_digits-zero n a h)
or_digits-fields zero n a q (suc r) e h f = absurd (omega arith)
or_digits-fields (suc k) zero zero q r e h f = omega arith
or_digits-fields (suc k) zero (suc a) q r e h f = absurd (omega arith)
or_digits-fields (suc k) (suc n) zero q r e h f = omega arith
or_digits-fields (suc k) (suc n) (suc a) q r e h f =
    let double : suc a ≡ 2 * (q * 2 ^ k) = omega (arith, ap (λ (t : ℕ). q * t) (pow-suc 2 k)) in
    let ih =
      or_digits-fields k n (suc a / 2) q (r / 2) (omega arith) (omega arith)
        (omega (arith, pow-suc 2 k)) in
    omega arith

-- `(q << k) | r` is a sum when `r` fits `k` bits.
pub bit_or_fields : (k q r : ℕ) → r < 2 ^ k → bit_or (q * 2 ^ k) r ≡ q * 2 ^ k + r
bit_or_fields k q r h =
    bit_or-bitwise (q * 2 ^ k) r
    ∙ or_digits-fields k (q * 2 ^ k) (q * 2 ^ k) q r refl (omega arith) h
