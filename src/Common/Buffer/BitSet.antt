-- ===== src/Common/Buffer/BitSet.antt =====
-- `PutBitSetLE` and `PutBitSetBE` of common/include/openrs/common/io/buffer.h: bits packed into bytes.
pub mod Packs
use openrs.Base.{
  ℕ, zero, suc, ◌+◌, ◌-◌, ◌*◌, ◌/◌, ◌%◌, ◌^◌, ◌≤◌, ◌<◌, ◌≡◌, ◌≢◌, inl, inr, refl, ap, ap₂, ◌∙◌,
  List, [], ◌∷◌, ◌++◌, Option, none, some, Bool, true, false, if◌then◌else◌, ◌==◌, ltb, Bool-cases,
  bit_or, min, length, set, get_elem?, replicate, get_elem?-drop, get_elem?-set_self,
  get_elem?-set_ne, length-set, length-replicate, arith, sym, append-nil, append_assoc, All,
  All-replicate, M, ok, undefined,
}
use openrs.Base.Bytes.{IsByte, le_bytes}
use native.Mathlib.Nat.{pow-le-pow_right}
use openrs.Base.Bits.{bit, bit_lt, bit_or_lt, bit-bit_or, bit-mul_low, bit-mul_high, bit_zero}
use openrs.Common.Buffer.{Buffer, append, put_data}
use openrs.Common.BitBuffer.Written.{bit_at, zero_or, All-set}

-- `bytes[k] |= 1 << s`.
unfoldable pub mark : ℕ → ℕ → List ℕ → List ℕ
mark k s bytes = set bytes k (bit_or (zero_or (get_elem? bytes k)) (1 * 2 ^ s))

-- The loop of `PutBitSetBE` from index i on, and that of `PutBitSetLE`, of less than 2 ^ 31 bits.
unfoldable pub bit_set_be : ℕ → List Bool → List ℕ → List ℕ
unfolding mark
bit_set_be i [] bytes = bytes
bit_set_be i (x ∷ input) bytes =
    bit_set_be (i + 1) input (if x then mark (i / 8) (7 - i % 8) bytes else bytes)

unfoldable pub bit_set_le : ℕ → List Bool → List ℕ → List ℕ
unfolding mark
bit_set_le i [] bytes = bytes
bit_set_le i (x ∷ input) bytes =
    bit_set_le (i + 1) input (if x then mark (length bytes - i / 8 - 1) (i % 8) bytes else bytes)

unfoldable pub put_each : List ℕ → Buffer → Buffer
unfolding put_data
put_each [] b = b
put_each (c ∷ bytes) b = put_each bytes (put_data 1 c b)

abbrev pub packed_size : List Bool → ℕ
packed_size input = (length input + 7) / 8

-- The counter of the loops is an `int`, which overflows behind the bit 2 ^ 31 - 1.
abbrev pub if_countable : List Bool → (Buffer → Buffer) → M Buffer (Unit {0})
if_countable input f b = if ltb (length input) (2 ^ 31) then (ok tt, f b) else (undefined, b)

-- `PutBitSetBE`, of a bit set and of a vector.
unfoldable pub put_bit_set_be : List Bool → M Buffer (Unit {0})
unfolding bit_set_be put_each
put_bit_set_be input =
    if_countable input (put_each (bit_set_be 0 input (replicate (packed_size input) 0)))

-- `PutBitSetLE`.
unfoldable pub put_bit_set_le : List Bool → M Buffer (Unit {0})
unfolding bit_set_le put_each
put_bit_set_le input =
    if_countable input (put_each (bit_set_le 0 input (replicate (packed_size input) 0)))

abbrev pub digit : Bool → ℕ
digit x = if x then 1 else 0

bit-one_other : (s m : ℕ) → m ≢ s → bit m (1 * 2 ^ s) ≡ 0
unfolding bit
bit-one_other s m h = elim (Bool-cases (ltb m s)) [
  | inl e ↦ bit-mul_low s m 1 (ground (arith, e))
  | inr e ↦
      let above : s < m = ground (arith, e, h) in
      ap (λ j. bit j (1 * 2 ^ s)) {x = m} {y = suc (m - s - 1) + s} (omega arith)
      ∙ bit-mul_high s (suc (m - s - 1)) 1
      ∙ ap (bit (m - s - 1)) {x = 1 / 2} {y = 0} (omega arith)
      ∙ bit_zero (m - s - 1)
]

bit-one_self : (s : ℕ) → bit s (1 * 2 ^ s) ≡ 1
unfolding bit
bit-one_self s = ap (λ j. bit j (1 * 2 ^ s)) {x = s} {y = 0 + s} (omega arith) ∙ bit-mul_high s 0 1

-- Marking one bit sets it, and leaves the others.
module _ (bytes : List ℕ) (i : ℕ) (here : i / 8 < length bytes) where
  abbrev pub marked : List ℕ
  marked = mark (i / 8) (7 - i % 8) bytes

  marked_byte :
      (j : ℕ)
      → j / 8 ≡ i / 8
      → bit_at j marked
        ≡ bit (7 - j % 8) (bit_or (zero_or (get_elem? bytes (j / 8))) (1 * 2 ^ (7 - i % 8)))
  unfolding bit_at mark
  marked_byte j e = rw e (
      ap (λ o. bit (7 - j % 8) (zero_or o))
        (get_elem?-set_self bytes (i / 8)
          (bit_or (zero_or (get_elem? bytes (i / 8))) (1 * 2 ^ (7 - i % 8))) here))

  pub marked_self : bit_at i marked ≡ 1
  marked_self =
      let c = zero_or (get_elem? bytes (i / 8)) in
      marked_byte i refl
      ∙ bit-bit_or (7 - i % 8) c (1 * 2 ^ (7 - i % 8))
      ∙ omega (arith, bit-one_self (7 - i % 8), bit_lt (7 - i % 8) c)

  pub marked_other : (j : ℕ) → j ≢ i → bit_at j marked ≡ bit_at j bytes
  unfolding bit_at mark
  marked_other j h = elim (Bool-cases (i / 8 == j / 8)) [
    | inl e ↦
        let same : j / 8 ≡ i / 8 = ground (arith, e) in
        let c = zero_or (get_elem? bytes (j / 8)) in
        marked_byte j same
        ∙ bit-bit_or (7 - j % 8) c (1 * 2 ^ (7 - i % 8))
        ∙ omega (
          arith,
          bit-one_other (7 - i % 8) (7 - j % 8) (λ f. absurd (h (omega (arith, f)))),
          bit_lt (7 - j % 8) c,
        )
    | inr e ↦
        ap (λ o. bit (7 - j % 8) (zero_or o))
          (get_elem?-set_ne bytes (bit_or (zero_or (get_elem? bytes (i / 8))) (1 * 2 ^ (7 - i % 8)))
            (λ same. absurd (ground (arith, e, same))))
  ]
