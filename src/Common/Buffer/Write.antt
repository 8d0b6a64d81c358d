-- ===== src/Common/Buffer/Write.antt =====
-- What the writers append, and what the client's decoding of it gives back.
use openrs.Base.{
  ℕ, zero, suc, ◌+◌, ◌-◌, ◌/◌, ◌%◌, ◌^◌, ◌≤◌, ◌<◌, ◌≡◌, refl, ap, ◌∙◌, List, [], ◌∷◌, arith, none,
  ◌≢◌, ◌↔◌,
}
use native.Mathlib.Nat.{mod-eq_of_lt, pow-suc}
use openrs.Common.Buffer.{
  Buffer, shift_negative, shift_positive, swap_pairs, put_c_string, put_data, head_or_zero,
}

-- A byte that was shifted by `ShiftNegative` from 128 is given back by the same shift.
pub shift_negative_twice : (v : ℕ) → v < 256 → shift_negative 1 (shift_negative 1 v 128) 128 ≡ v
unfolding shift_negative
shift_negative_twice v h = omega arith

shift_positive_lem :
    (n v shift : ℕ)
    → v < 256 ^ suc n
    → shift_positive (suc n) v shift ≡ v - v % 256 + (shift + v % 256) % 256
unfolding shift_positive
shift_positive_lem n v shift h = mod-eq_of_lt (omega (arith, pow-suc 256 n))

-- `ShiftPositive` by 128, twice, gives back a number that fits its width, at every width.
pub shift_positive_twice :
    (n v : ℕ) → v < 256 ^ suc n → shift_positive (suc n) (shift_positive (suc n) v 128) 128 ≡ v
shift_positive_twice n v h = rw (shift_positive_lem n v 128 h) (
    shift_positive_lem n (v - v % 256 + (128 + v % 256) % 256) 128 (omega (arith, pow-suc 256 n))
    ∙ omega arith)

-- Of a 16-bit number `ShiftNegative` from 128 keeps the high byte exactly where the low byte is at
-- most 128.
shift_negative_borrow :
    (v : ℕ) → v < 65536 → (shift_negative 2 v 128 / 256 ≡ v / 256) ↔ (v % 256 ≤ 128)
unfolding shift_negative
shift_negative_borrow v h = (λ e. omega arith, λ e. omega arith)

pub swap_pairs_twice : (xs : List ℕ) → swap_pairs (swap_pairs xs) ≡ xs
unfolding swap_pairs
swap_pairs_twice [] = refl
swap_pairs_twice (a ∷ []) = refl
swap_pairs_twice (a ∷ b ∷ rest) = ap (λ t. a ∷ b ∷ t) (swap_pairs_twice rest)

-- `PutString(char*)` has no result, however many rounds it is given, on a text that does not begin
-- with a terminator.
pub put_c_string_loops :
    (fuel : ℕ) (input : List ℕ) (b : Buffer)
    → head_or_zero input ≢ b'\n'
    → head_or_zero input ≢ 0
    → put_c_string fuel input b ≡ none
unfolding put_c_string
put_c_string_loops zero input b p q = refl
put_c_string_loops (suc fuel) input b p q =
    ground (arith, put_c_string_loops fuel input (put_data 1 (head_or_zero input) b))
