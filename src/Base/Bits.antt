-- ===== src/Base/Bits.antt =====
-- The binary digits of numbers, and what the operations on them do.
pub mod Fields
use Prim.Native.Nat.{
  ℕ, zero, suc, ◌+◌, ◌-◌, ◌*◌, ◌/◌, ◌%◌, ◌^◌, ◌≤◌, ◌<◌, min, max, digits, bitwise, bit_and-bitwise,
  bit_or-bitwise, bit_and, bit_or,
}
use mathlib.Core.Path.{◌≡◌, refl, sym, ap, ap₂, ◌∙◌}
use mathlib.Core.Logic.{◌⊎◌, inl, inr}
use native.Mathlib.Omega.{arith}
use native.Mathlib.Nat.{
  pow-suc, le_refl, one-le-pow, pow-le-pow_right, mul-le-mul_right, mod-eq_of_lt, div-add-mod,
  div-div-eq-div-mul,
}

-- Digit j of a number.
unfoldable pub bit : ℕ → ℕ → ℕ
bit zero a = a % 2
bit (suc j) a = bit j (a / 2)

pub bit_lt : (j a : ℕ) → bit j a < 2
unfolding bit
bit_lt zero a = omega arith
bit_lt (suc j) a = bit_lt j (a / 2)

pub bit_zero : (j : ℕ) → bit j 0 ≡ 0
unfolding bit
bit_zero zero = refl
bit_zero (suc j) = bit_zero j

-- An operation on the digits of two numbers, given by what it does on two digits (f), where a first number
-- that has run out counts as zeros.
module _ (z : ℕ → ℕ) (f : ℕ → ℕ → ℕ) (f_lt : (x y : ℕ) → x < 2 → y < 2 → f x y < 2) where
  bit-digits :
      ((i c : ℕ) → bit i (z c) ≡ f 0 (bit i c))
      → (n j a b : ℕ) → a ≤ n
      → bit j (digits z f n a b) ≡ f (bit j a) (bit j b)
  unfolding bit
  bit-digits ends zero j zero b h = ends j b ∙ ap (λ d. f d (bit j b)) (sym (bit_zero j))
  bit-digits ends zero j (suc a) b h = absurd (omega arith)
  bit-digits ends (suc n) j zero b h = ends j b ∙ ap (λ d. f d (bit j b)) (sym (bit_zero j))
  bit-digits ends (suc n) zero (suc a) b h =
      omega (arith, f_lt (suc a % 2) (b % 2) (omega arith) (omega arith))
  bit-digits ends (suc n) (suc j) (suc a) b h =
      ap (bit j) {y = digits z f n (suc a / 2) (b / 2)}
        (omega (arith, f_lt (suc a % 2) (b % 2) (omega arith) (omega arith)))
      ∙ bit-digits ends n j (suc a / 2) (b / 2) (omega arith)

  digits_lt :
      ((k c : ℕ) → c < 2 ^ k → z c < 2 ^ k)
      → (n m a b : ℕ) → a < 2 ^ m
      → b < 2 ^ m
      → digits z f n a b < 2 ^ m
  digits_lt keeps zero m a b h k = keeps m b k
  digits_lt keeps (suc n) m zero b h k = keeps m b k
  digits_lt keeps (suc n) zero (suc a) b h k = absurd (omega arith)
  digits_lt keeps (suc n) (suc m) (suc a) b h k = omega (
    arith,
    pow-suc 2 m,
    f_lt (suc a % 2) (b % 2) (omega arith) (omega arith),
    digits_lt keeps n m (suc a / 2) (b / 2) (omega (arith, pow-suc 2 m))
        (omega (arith, pow-suc 2 m)),
  )

min_lt : (x y : ℕ) → x < 2 → y < 2 → min x y < 2
min_lt x y h k = omega arith

max_lt : (x y : ℕ) → x < 2 → y < 2 → max x y < 2
max_lt x y h k = omega arith

pub bit-bit_or : (j a b : ℕ) → bit j (bit_or a b) ≡ max (bit j a) (bit j b)
bit-bit_or j a b =
    simp bit_or-bitwise (bit-digits (λ y. y) max max_lt (λ i c. omega arith) a j a b (le_refl a))

pub bit-bit_and : (j a b : ℕ) → bit j (bit_and a b) ≡ min (bit j a) (bit j b)
bit-bit_and j a b =
    simp bit_and-bitwise
      (bit-digits (λ y. 0) min min_lt (λ i c. bit_zero i ∙ omega arith) a j a b (le_refl a))

pub bit_or_lt : (m a b : ℕ) → a < 2 ^ m → b < 2 ^ m → bit_or a b < 2 ^ m
bit_or_lt m a b h k = simp bit_or-bitwise (digits_lt (λ y. y) max max_lt (λ i c l. l) a m a b h k)

pub bit_and_lt : (m a b : ℕ) → a < 2 ^ m → b < 2 ^ m → bit_and a b < 2 ^ m
bit_and_lt m a b h k =
    simp bit_and-bitwise
      (digits_lt (λ y. 0) min min_lt (λ i c l. one-le-pow i 2 (omega arith)) a m a b h k)

half_div : (s a : ℕ) → a / 2 ^ suc s ≡ a / 2 / 2 ^ s
half_div s a =
    ap (λ (t : ℕ). a / t) {x = 2 ^ suc s} {y = 2 * 2 ^ s} (omega (arith, pow-suc 2 s))
    ∙ omega (arith, div-div-eq-div-mul a 2 (2 ^ s))

half_mod : (s a : ℕ) → a % 2 ^ suc s ≡ 2 * (a / 2 % 2 ^ s) + a % 2
half_mod s a = omega (
  arith,
  div-add-mod a (2 ^ suc s),
  div-add-mod (a / 2) (2 ^ s),
  ap (λ (t : ℕ). t * 2 ^ suc s) (half_div s a),
  ap (λ (t : ℕ). a / 2 / 2 ^ s * t) (pow-suc 2 s),
)

-- A shift to the right, a remainder, and a shift to the left.
pub bit-div : (s j a : ℕ) → bit j (a / 2 ^ s) ≡ bit (j + s) a
unfolding bit
bit-div zero j a = ap₂ bit {x = j} {y = j + 0} {u = a / 1} {v = a} (omega arith) (omega arith)
bit-div (suc s) j a =
    ap (bit j) {x = a / 2 ^ suc s} {y = a / 2 / 2 ^ s} (half_div s a)
    ∙ bit-div s j (a / 2)
    ∙ ap (λ i. bit i a) {x = suc (j + s)} {y = j + suc s} (omega arith)

pub bit-mod_low : (k j a : ℕ) → j < k → bit j (a % 2 ^ k) ≡ bit j a
unfolding bit
bit-mod_low zero j a h = absurd (omega arith)
bit-mod_low (suc k) zero a h = omega (arith, half_mod k a)
bit-mod_low (suc k) (suc j) a h =
    ap (bit j) {x = a % 2 ^ suc k / 2} {y = a / 2 % 2 ^ k} (omega (arith, half_mod k a))
    ∙ bit-mod_low k j (a / 2) (omega arith)

pub bit-mod_high : (k j a : ℕ) → k ≤ j → bit j (a % 2 ^ k) ≡ 0
unfolding bit
bit-mod_high zero j a h = ap (bit j) {x = a % 1} {y = 0} (omega arith) ∙ bit_zero j
bit-mod_high (suc k) zero a h = absurd (omega arith)
bit-mod_high (suc k) (suc j) a h =
    ap (bit j) {x = a % 2 ^ suc k / 2} {y = a / 2 % 2 ^ k} (omega (arith, half_mod k a))
    ∙ bit-mod_high k j (a / 2) (omega arith)

pub bit-mul_low : (s j a : ℕ) → j < s → bit j (a * 2 ^ s) ≡ 0
unfolding bit
bit-mul_low zero j a h = absurd (omega arith)
bit-mul_low (suc s) zero a h = omega (arith, ap (λ (t : ℕ). a * t) (pow-suc 2 s))
bit-mul_low (suc s) (suc j) a h =
    ap (bit j) {x = a * 2 ^ suc s / 2} {y = a * 2 ^ s}
      (omega (arith, ap (λ (t : ℕ). a * t) (pow-suc 2 s)))
    ∙ bit-mul_low s j a (omega arith)

pub bit-mul_high : (s j a : ℕ) → bit (j + s) (a * 2 ^ s) ≡ bit j a
unfolding bit
bit-mul_high zero j a = ap₂ bit {x = j + 0} {y = j} {u = a * 1} {v = a} (omega arith) (omega arith)
bit-mul_high (suc s) j a =
    ap (λ i. bit i (a * 2 ^ suc s)) {x = j + suc s} {y = suc (j + s)} (omega arith)
    ∙ ap (bit (j + s)) {x = a * 2 ^ suc s / 2} {y = a * 2 ^ s}
        (omega (arith, ap (λ (t : ℕ). a * t) (pow-suc 2 s)))
    ∙ bit-mul_high s j a

-- One digit more.
pub mod-pow_suc : (n a : ℕ) → bit n a * 2 ^ n + a % 2 ^ n ≡ a % 2 ^ suc n
unfolding bit
mod-pow_suc zero a = omega arith
mod-pow_suc (suc n) a = omega (
  arith,
  mod-pow_suc n (a / 2),
  half_mod n a,
  half_mod (suc n) a,
  ap (λ (t : ℕ). bit n (a / 2) * t) (pow-suc 2 n),
)
