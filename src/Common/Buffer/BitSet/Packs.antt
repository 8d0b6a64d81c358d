-- ===== src/Common/Buffer/BitSet/Packs.antt =====
-- What stands in the bytes of a packed bit set.
use openrs.Base.{
  ℕ, zero, suc, ◌+◌, ◌-◌, ◌*◌, ◌/◌, ◌%◌, ◌^◌, ◌≤◌, ◌<◌, ◌≡◌, refl, ap, ◌∙◌, List, [], ◌∷◌, ◌++◌,
  some, Bool, true, false, bit_or, length, get_elem?, replicate, length-set, length-replicate,
  arith, sym, append-nil, append_assoc, All, All-replicate, ltb, ok,
}
use openrs.Base.Bytes.{IsByte, le_bytes}
use native.Mathlib.Nat.{pow-le-pow_right}
use openrs.Base.Bits.{bit, bit_or_lt, bit_zero}
use openrs.Common.Buffer.{Buffer, append, put_data}
use openrs.Common.BitBuffer.Written.{bit_at, zero_or, All-set}
use openrs.Common.Buffer.BitSet.{
  mark, bit_set_be, put_each, packed_size, put_bit_set_be, digit, marked_self, marked_other,
}

mark-length : (k s : ℕ) (bytes : List ℕ) → length (mark k s bytes) ≡ length bytes
unfolding mark
mark-length k s bytes = length-set bytes k (bit_or (zero_or (get_elem? bytes k)) (1 * 2 ^ s))

zero_or-lt : (bytes : List ℕ) (k : ℕ) → All IsByte bytes → zero_or (get_elem? bytes k) < 256
zero_or-lt [] k a = omega arith
zero_or-lt (c ∷ bytes) zero a = a.0
zero_or-lt (c ∷ bytes) (suc k) a = zero_or-lt bytes k (a.1)

mark-bytes : (k s : ℕ) (bytes : List ℕ) → s < 8 → All IsByte bytes → All IsByte (mark k s bytes)
unfolding mark
mark-bytes k s bytes h a =
    All-set bytes k (bit_or (zero_or (get_elem? bytes k)) (1 * 2 ^ s))
      (bit_or_lt 8 (zero_or (get_elem? bytes k)) (1 * 2 ^ s) (zero_or-lt bytes k a)
        (omega (arith, pow-le-pow_right {n = 2} (omega arith) {i = s} {j = 7} (omega arith))))
      a

-- What is packed from index i on into bytes whose bits are clear from there.
record Packs (i : ℕ) (input : List Bool) (bytes after : List ℕ) : Type 0 where
  same_size : length after ≡ length bytes
  kept : (j : ℕ) → j < i → bit_at j after ≡ bit_at j bytes
  packed : (j : ℕ) (x : Bool) → get_elem? input j ≡ some x → bit_at (i + j) after ≡ digit x
  only_bytes : All IsByte bytes → All IsByte after

Packs-step :
    (i : ℕ) (x : Bool) (input : List Bool) (bytes mid after : List ℕ)
    → length mid ≡ length bytes
    → (All IsByte bytes → All IsByte mid)
    → bit_at i mid ≡ digit x
    → ((j : ℕ) → j < i → bit_at j mid ≡ bit_at j bytes)
    → Packs (i + 1) input mid after
    → Packs i (x ∷ input) bytes after
Packs-step i x input bytes mid after size bytes_too here before p = record {
  same_size = p.same_size ∙ size;
  kept = λ j h. p.kept j (omega arith) ∙ before j h;
  packed = λ j y e. at_index j y e;
  only_bytes = λ a. p.only_bytes (bytes_too a);
}
  where
    at_index :
        (j : ℕ) (y : Bool) → get_elem? (x ∷ input) j ≡ some y → bit_at (i + j) after ≡ digit y
    at_index zero y e =
        ap (λ k. bit_at k after) {x = i + 0} {y = i} (omega arith)
        ∙ p.kept i (omega arith)
        ∙ here
        ∙ ap digit {x = x} {y = y} cc
    at_index (suc j) y e =
        ap (λ k. bit_at k after) {x = i + suc j} {y = i + 1 + j} (omega arith) ∙ p.packed j y e

bit_set_be-Packs :
    (i : ℕ) (input : List Bool) (bytes : List ℕ)
    → i + length input ≤ 8 * length bytes
    → ((j : ℕ) → i ≤ j → bit_at j bytes ≡ 0)
    → Packs i input bytes (bit_set_be i input bytes)
unfolding bit_set_be
bit_set_be-Packs i [] bytes room clear = record {
  same_size = refl;
  kept = λ j h. refl;
  packed = λ j x e. absurd cc;
  only_bytes = λ a. a;
}
bit_set_be-Packs i (false ∷ input) bytes room clear =
    Packs-step i false input bytes bytes (bit_set_be (i + 1) input bytes) refl (λ a. a)
      (clear i (omega arith)) (λ j h. refl)
      (bit_set_be-Packs (i + 1) input bytes (omega arith) (λ j h. clear j (omega arith)))
bit_set_be-Packs i (true ∷ input) bytes room clear =
    let here : i / 8 < length bytes = omega arith in
    let mid = mark (i / 8) (7 - i % 8) bytes in
    let size = mark-length (i / 8) (7 - i % 8) bytes in
    Packs-step i true input bytes mid (bit_set_be (i + 1) input mid) size
      (mark-bytes (i / 8) (7 - i % 8) bytes (omega arith)) (marked_self bytes i here)
      (λ j h. marked_other bytes i here j (λ e. absurd (omega (arith, e))))
      (bit_set_be-Packs (i + 1) input mid (omega (arith, size)) (λ j h.
        marked_other bytes i here j (λ e. absurd (omega (arith, e))) ∙ clear j (omega arith)))

bit_at-zeros : (n j : ℕ) → bit_at j (replicate n 0) ≡ 0
unfolding bit_at
bit_at-zeros n j = ap (bit (7 - j % 8)) (zero_at n (j / 8)) ∙ bit_zero (7 - j % 8)
  where
    zero_at : (n k : ℕ) → zero_or (get_elem? (replicate n 0) k) ≡ 0
    zero_at zero k = refl
    zero_at (suc n) zero = refl
    zero_at (suc n) (suc k) = zero_at n k

put_each_lem : (bytes : List ℕ) (b : Buffer) → All IsByte bytes → put_each bytes b ≡ append bytes b
unfolding put_each put_data le_bytes
put_each_lem [] b a = ap (λ xs. record b { bytes = xs }) (sym (append-nil b.bytes))
put_each_lem (c ∷ bytes) b a =
    put_each_lem bytes (put_data 1 c b) (a.1)
    ∙ ap (λ xs. record b { bytes = xs })
        (append_assoc b.bytes (c % 256 ∷ []) bytes
          ∙ ap (λ d. b.bytes ++ d ∷ bytes) {x = c % 256} {y = c} (omega (arith, a.0)))

-- `PutBitSetBE` appends one byte for each eight bits begun, and in them bit j, the highest bit of the
-- first byte being bit 0, is the j-th of the set. The set has less than 2 ^ 31 bits.
pub put_bit_set_be_lem :
    (input : List Bool) (b : Buffer)
    → length input < 2 ^ 31
    → (packed : List ℕ) × (put_bit_set_be input b ≡ (ok tt, append packed b))
      × (length packed ≡ packed_size input)
      × ((j : ℕ) (x : Bool) → get_elem? input j ≡ some x → bit_at j packed ≡ digit x)
unfolding put_bit_set_be
put_bit_set_be_lem input b few =
    let countable : ltb (length input) (2 ^ 31) ≡ true = ground arith in
    let n = packed_size input in
    let empty_bytes = replicate {A = ℕ} n 0 in
    let long = length-replicate {A = ℕ} n 0 in
    let p = bit_set_be-Packs 0 input empty_bytes (omega (arith, long)) (λ j h. bit_at-zeros n j) in
    (
      bit_set_be 0 input empty_bytes,
      rw countable (
          ap (λ c. (ok tt, c))
            (put_each_lem (bit_set_be 0 input empty_bytes) b
              (p.only_bytes (All-replicate IsByte n 0 (omega arith))))),
      p.same_size ∙ long,
      λ j x e.
          ap (λ k. bit_at k (bit_set_be 0 input empty_bytes)) {x = j} {y = 0 + j} (omega arith)
          ∙ p.packed j x e,
    )
