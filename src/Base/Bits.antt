-- ===== src/Base/Bits.antt =====
-- `|` of Go on numbers whose fields do not meet: there it adds.
use Prim.Native.Nat.{ℕ, zero, suc, ◌+◌, ◌*◌, ◌/◌, ◌^◌, ◌≤◌, ◌<◌, max, bit_or}
use Prim.Native.Nat.{digits, bit_or-bitwise}
use mathlib.Core.Path.{◌≡◌, refl, ap, ◌∙◌}
use native.Mathlib.Nat.{le_refl, pow-suc}
use native.Mathlib.Omega.{arith}

-- the digits that `|` joins
abbrev or_digits : ℕ → ℕ → ℕ → ℕ
or_digits fuel = digits (λ y. y) max fuel

high_half : (k q : ℕ) → q * 2 ^ suc k ≡ 2 * (q * 2 ^ k)
high_half k q = omega (arith, ap (λ (t : ℕ). q * t) (pow-suc 2 k))

or_digits_high :
    (fuel k q hi lo : ℕ) → hi ≡ q * 2 ^ k → hi ≤ fuel → lo < 2 ^ k → or_digits fuel hi lo ≡ hi + lo
or_digits_high zero k q zero lo field enough fits = omega arith
or_digits_high zero k q (suc hi) lo field enough fits = absurd (omega arith)
or_digits_high (suc fuel) k q zero lo field enough fits = omega arith
or_digits_high (suc fuel) zero q (suc hi) lo field enough fits = ground (
  arith,
  or_digits_high fuel zero (suc hi / 2) (suc hi / 2) (lo / 2) (omega arith) (omega arith)
      (omega arith),
)
or_digits_high (suc fuel) (suc k) q (suc hi) lo field enough fits = ground (
  arith,
  high_half k q,
  or_digits_high fuel k q (suc hi / 2) (lo / 2) (omega (arith, high_half k q)) (omega arith)
      (omega arith),
)

or_digits_low :
    (fuel k q lo hi : ℕ) → hi ≡ q * 2 ^ k → lo ≤ fuel → lo < 2 ^ k → or_digits fuel lo hi ≡ hi + lo
or_digits_low zero k q zero hi field enough fits = omega arith
or_digits_low zero k q (suc lo) hi field enough fits = absurd (omega arith)
or_digits_low (suc fuel) k q zero hi field enough fits = omega arith
or_digits_low (suc fuel) zero q (suc lo) hi field enough fits = absurd (omega arith)
or_digits_low (suc fuel) (suc k) q (suc lo) hi field enough fits = ground (
  arith,
  high_half k q,
  or_digits_low fuel k q (suc lo / 2) (hi / 2) (omega (arith, high_half k q)) (omega arith)
      (omega arith),
)

-- A high field at bit `k` and a field of `k` bits do not meet: `|` adds them, in either order.
pub bit_or_fields : (k q r : ℕ) → r < 2 ^ k → bit_or (q * 2 ^ k) r ≡ q * 2 ^ k + r
bit_or_fields k q r fits =
    simp bit_or-bitwise (or_digits_high (q * 2 ^ k) k q (q * 2 ^ k) r refl (le_refl _) fits)

pub bit_or_low : (k q r : ℕ) → r < 2 ^ k → bit_or r (q * 2 ^ k) ≡ q * 2 ^ k + r
bit_or_low k q r fits =
    simp bit_or-bitwise (or_digits_low r k q r (q * 2 ^ k) refl (le_refl _) fits)

or_digits_same : (fuel a : ℕ) → a ≤ fuel → or_digits fuel a a ≡ a
or_digits_same zero zero enough = refl
or_digits_same zero (suc a) enough = absurd (omega arith)
or_digits_same (suc fuel) zero enough = refl
or_digits_same (suc fuel) (suc a) enough =
    omega (arith, or_digits_same fuel (suc a / 2) (omega arith))

pub bit_or_same : (a : ℕ) → bit_or a a ≡ a
bit_or_same a = simp bit_or-bitwise (or_digits_same a a (le_refl a))

pub bit_or-zero : (a : ℕ) → bit_or a 0 ≡ a
bit_or-zero a =
    ap (λ t. bit_or t 0) (omega arith) ∙ (bit_or_fields 0 a 0 (omega arith) ∙ omega arith)
