-- ===== src/Base/Bytes.antt =====
-- Numbers as byte sequences: the memory layout of the host (little endian) and network order.
-- `le_bytes n v` is what an n-byte unsigned integer looks like in memory on x86; `be_bytes n v` is
-- the same integer behind `htobe16`, `htobe32` or `htobe64`.
use Prim.Native.Nat.{ℕ, zero, suc, ◌+◌, ◌*◌, ◌/◌, ◌%◌, ◌^◌, ◌<◌}
use mathlib.Core.Path.{◌≡◌, refl, ap, ◌∙◌}
use mathlib.Core.List.{List, [], ◌∷◌}
use native.Mathlib.Omega.{arith}
use native.Mathlib.Nat.{pow-suc, div-add-mod, div-div-eq-div-mul, mod-eq_of_lt}
use openrs.Base.Lists.{length, All}

abbrev pub IsByte : ℕ → Type 0
IsByte b = b < 256

unfoldable pub le_bytes : ℕ → ℕ → List ℕ
le_bytes zero v = []
le_bytes (suc n) v = (v % 256) ∷ le_bytes n (v / 256)

unfoldable pub be_bytes : ℕ → ℕ → List ℕ
be_bytes zero v = []
be_bytes (suc n) v = (v / 256 ^ n % 256) ∷ be_bytes n v

unfoldable pub le_value : List ℕ → ℕ
le_value [] = 0
le_value (b ∷ bs) = b + 256 * le_value bs

unfoldable pub be_from : ℕ → List ℕ → ℕ
be_from acc [] = acc
be_from acc (b ∷ bs) = be_from (acc * 256 + b) bs

unfoldable pub be_value : List ℕ → ℕ
unfolding be_from
be_value bs = be_from 0 bs

pub length-le_bytes : (n v : ℕ) → length (le_bytes n v) ≡ n
unfolding le_bytes
length-le_bytes zero v = refl
length-le_bytes (suc n) v = ap suc (length-le_bytes n (v / 256))

pub length-be_bytes : (n v : ℕ) → length (be_bytes n v) ≡ n
unfolding be_bytes
length-be_bytes zero v = refl
length-be_bytes (suc n) v = ap suc (length-be_bytes n v)

pub le_bytes-IsByte : (n v : ℕ) → All IsByte (le_bytes n v)
unfolding le_bytes
le_bytes-IsByte zero v = tt
le_bytes-IsByte (suc n) v = (omega arith, le_bytes-IsByte n (v / 256))

pub be_bytes-IsByte : (n v : ℕ) → All IsByte (be_bytes n v)
unfolding be_bytes
be_bytes-IsByte zero v = tt
be_bytes-IsByte (suc n) v = (omega arith, be_bytes-IsByte n v)

-- Reading back what was written gives the number, cut to its width.
pub le_value-le_bytes : (n v : ℕ) → v < 256 ^ n → le_value (le_bytes n v) ≡ v
unfolding le_bytes le_value
le_value-le_bytes zero v h = omega arith
le_value-le_bytes (suc n) v h =
    omega (arith, le_value-le_bytes n (v / 256) (omega (arith, pow-suc 256 n)))

mod_digit : (p v : ℕ) → v / p % 256 * p + v % p ≡ v % (p * 256)
mod_digit p v = omega (
  arith,
  div-add-mod v p,
  ap (λ (t : ℕ). t * p) (div-add-mod (v / p) 256),
  div-add-mod v (p * 256),
  ap (λ (t : ℕ). t * p) (div-div-eq-div-mul v p 256),
)

be_from-be_bytes : (n v acc : ℕ) → be_from acc (be_bytes n v) ≡ acc * 256 ^ n + v % 256 ^ n
unfolding be_bytes be_from
be_from-be_bytes zero v acc = omega arith
be_from-be_bytes (suc n) v acc =
    be_from-be_bytes n v (acc * 256 + v / 256 ^ n % 256)
    ∙ omega (
      arith,
      mod_digit (256 ^ n) v,
      ap (λ (t : ℕ). v % t) (pow-suc 256 n),
      ap (λ (t : ℕ). acc * t) (pow-suc 256 n),
    )

pub be_value-be_bytes : (n v : ℕ) → v < 256 ^ n → be_value (be_bytes n v) ≡ v
unfolding be_value
be_value-be_bytes n v h = be_from-be_bytes n v 0 ∙ omega (arith, mod-eq_of_lt h)
