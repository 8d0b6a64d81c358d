-- ===== src/Base/Bits/Fields.antt =====
-- A field of some digits of a byte: masks, and writing a value into it.
use Prim.Native.Nat.{ℕ, zero, suc, ◌+◌, ◌-◌, ◌*◌, ◌/◌, ◌^◌, ◌≤◌, ◌<◌, min, max, bit_and, bit_or}
use mathlib.Core.Path.{◌≡◌, refl, sym, ap, ◌∙◌}
use mathlib.Core.Logic.{◌⊎◌, inl, inr}
use native.Mathlib.Omega.{arith}
use native.Mathlib.Nat.{pow-suc, one-le-pow, pow-le-pow_right, mul-le-mul_right, mod-eq_of_lt}
use openrs.Base.Bits.{
  bit, bit_lt, bit_zero, bit-bit_or, bit-bit_and, bit-mul_low, bit-mul_high, bit-mod_high,
  bit_or_lt, bit_and_lt,
}

-- What a number lacks to a row of ones has the opposite digits.
pub bit-complement : (m j x : ℕ) → j < m → x < 2 ^ m → bit j (2 ^ m - 1 - x) ≡ 1 - bit j x
unfolding bit
bit-complement zero j x h k = absurd (omega arith)
bit-complement (suc m) zero x h k = omega (arith, pow-suc 2 m)
bit-complement (suc m) (suc j) x h k =
    ap (bit j) {x = (2 ^ suc m - 1 - x) / 2} {y = 2 ^ m - 1 - x / 2} (omega (arith, pow-suc 2 m))
    ∙ bit-complement m j (x / 2) (omega arith) (omega (arith, pow-suc 2 m))

-- A row of k ones, moved up by lo.
unfoldable pub mask : ℕ → ℕ → ℕ
mask k lo = (2 ^ k - 1) * 2 ^ lo

bit-ones : (k j : ℕ) → j < k → bit j (2 ^ k - 1) ≡ 1
bit-ones k j h =
    ap (bit j) {x = 2 ^ k - 1} {y = 2 ^ k - 1 - 0} (omega arith)
    ∙ bit-complement k j 0 h (one-le-pow k 2 (omega arith))
    ∙ omega (arith, bit_zero j)

pub bit-mask_inside : (k lo i : ℕ) → i < k → bit (i + lo) (mask k lo) ≡ 1
unfolding mask
bit-mask_inside k lo i h = bit-mul_high lo i (2 ^ k - 1) ∙ bit-ones k i h

-- Digits of a product by a power of two outside of those of a factor with k digits.
pub bit-field_outside :
    (k lo j w : ℕ) → w < 2 ^ k → (j < lo) ⊎ (lo + k ≤ j) → bit j (w * 2 ^ lo) ≡ 0
bit-field_outside k lo j w h (inl p) = bit-mul_low lo j w p
bit-field_outside k lo j w h (inr p) =
    ap (λ i. bit i (w * 2 ^ lo)) {x = j} {y = j - lo + lo} (omega arith)
    ∙ bit-mul_high lo (j - lo) w
    ∙ ap (bit (j - lo)) (sym (mod-eq_of_lt h))
    ∙ bit-mod_high k (j - lo) w (omega arith)

two_pow_sum : (k lo : ℕ) → 2 ^ (k + lo) ≡ 2 ^ k * 2 ^ lo
two_pow_sum k zero = ap (λ (n : ℕ). 2 ^ n) {x = k + 0} {y = k} (omega arith) ∙ omega arith
two_pow_sum k (suc lo) =
    ap (λ (n : ℕ). 2 ^ n) {x = k + suc lo} {y = suc (k + lo)} (omega arith)
    ∙ omega (
      arith,
      pow-suc 2 (k + lo),
      two_pow_sum k lo,
      ap (λ (t : ℕ). 2 ^ k * t) {y = 2 ^ lo * 2} (pow-suc 2 lo),
    )

pub field_lt : (k lo m w : ℕ) → k + lo ≤ m → w < 2 ^ k → w * 2 ^ lo < 2 ^ m
field_lt k lo m w h fits =
    let product : (w + 1) * 2 ^ lo ≤ 2 ^ k * 2 ^ lo = mul-le-mul_right (2 ^ lo) (omega arith) in
    let power : 2 ^ (k + lo) ≤ 2 ^ m = pow-le-pow_right (omega arith) h in
    omega (arith, product, power, two_pow_sum k lo, one-le-pow lo 2 (omega arith))

pub mask_lt : (k lo m : ℕ) → k + lo ≤ m → mask k lo < 2 ^ m
unfolding mask
mask_lt k lo m h = field_lt k lo m (2 ^ k - 1) h (omega (arith, one-le-pow k 2 (omega arith)))

-- `~mask` of a byte, `& c`, and then `|` a value of k digits at lo: the digits of the value replace those
-- of the byte there, and the others stay.
unfoldable pub put_field : ℕ → ℕ → ℕ → ℕ → ℕ
unfolding mask
put_field k lo w c = bit_or (bit_and c (2 ^ 8 - 1 - mask k lo)) (w * 2 ^ lo)

module _ (k lo w c : ℕ) (h : k + lo ≤ 8) (fits : w < 2 ^ k) where
  bit-put_field :
      (j : ℕ)
      → j < 8
      → bit j (put_field k lo w c)
        ≡ max (min (bit j c) (1 - bit j (mask k lo))) (bit j (w * 2 ^ lo))
  unfolding put_field
  bit-put_field j below =
      rw
        (
          bit-bit_or j (bit_and c (2 ^ 8 - 1 - mask k lo)) (w * 2 ^ lo),
          bit-bit_and j c (2 ^ 8 - 1 - mask k lo),
          bit-complement 8 j (mask k lo) below (mask_lt k lo 8 h),
        )
        refl

  pub bit-put_field_inside : (i : ℕ) → i < k → bit (i + lo) (put_field k lo w c) ≡ bit i w
  bit-put_field_inside i below =
      bit-put_field (i + lo) (omega arith)
      ∙ rw (bit-mask_inside k lo i below, bit-mul_high lo i w) (omega arith)

  pub bit-put_field_outside :
      (j : ℕ) → j < 8 → (j < lo) ⊎ (lo + k ≤ j) → bit j (put_field k lo w c) ≡ bit j c
  unfolding mask
  bit-put_field_outside j below out =
      bit-put_field j below
      ∙ rw
          (
            bit-field_outside k lo j (2 ^ k - 1) (omega (arith, one-le-pow k 2 (omega arith))) out,
            bit-field_outside k lo j w fits out,
          )
          (omega (arith, bit_lt j c))

  pub put_field_lt : c < 256 → put_field k lo w c < 256
  unfolding put_field
  put_field_lt byte =
      bit_or_lt 8 (bit_and c (2 ^ 8 - 1 - mask k lo)) (w * 2 ^ lo)
        (bit_and_lt 8 c (2 ^ 8 - 1 - mask k lo) byte (omega arith)) (field_lt k lo 8 w h fits)
