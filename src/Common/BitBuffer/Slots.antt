-- ===== src/Common/BitBuffer/Slots.antt =====
-- Reading back what was written bit by bit, and what has no room.
use openrs.Base.{
  ℕ, zero, suc, ◌+◌, ◌-◌, ◌*◌, ◌/◌, ◌%◌, ◌^◌, ◌≤◌, ◌<◌, ◌≡◌, ◌⊎◌, inl, inr, refl, ap, ap₂, ◌∙◌,
  List, true, false, ltb, leb, ◌==◌, Bool-cases, Option-cases, get_elem?, length, take, replicate,
  length-append, length-take, length-replicate, get_elem?-beyond, ok, undefined, arith,
}
use openrs.Base.Bits.{bit, mod-pow_suc}
use openrs.Common.Buffer.{size, size_mod}
use openrs.Common.BitBuffer.{
  BitBuffer, put_at, put_last, put_loop, put_back, put_bits, resize, and_then,
}
use openrs.Common.BitBuffer.Written.{bit_at, Wrote, Wrote-ends, put_loop-Wrote, put_at-Wrote}

-- The client's side: the number that n bits from p on are.
unfoldable pub read_bits : ℕ → ℕ → List ℕ → ℕ
unfolding bit_at
read_bits zero p bytes = 0
read_bits (suc n) p bytes = bit_at p bytes * 2 ^ n + read_bits n (p + 1) bytes

read_bits-digits :
    (n p v : ℕ) (bytes : List ℕ)
    → ((i : ℕ) → i < n → bit_at (p + i) bytes ≡ bit (n - 1 - i) v)
    → read_bits n p bytes ≡ v % 2 ^ n
unfolding read_bits
read_bits-digits zero p v bytes h = omega arith
read_bits-digits (suc n) p v bytes h =
    let first : bit_at p bytes ≡ bit n v =
      ap (λ j. bit_at j bytes) {x = p} {y = p + 0} (omega arith)
      ∙ h 0 (omega arith)
      ∙ ap (λ j. bit j v) {x = suc n - 1 - 0} {y = n} (omega arith) in
    let rest : read_bits n (p + 1) bytes ≡ v % 2 ^ n = read_bits-digits n (p + 1) v bytes (λ i low.
      ap (λ j. bit_at j bytes) {x = p + 1 + i} {y = p + suc i} (omega arith)
      ∙ h (suc i) (omega arith)
      ∙ ap (λ j. bit j v) {x = suc n - 1 - suc i} {y = n - 1 - i} (omega arith)) in
    ap₂ (λ d r. d * 2 ^ n + r) first rest ∙ mod-pow_suc n v

read_bits-same :
    (n p : ℕ) (xs ys : List ℕ)
    → ((i : ℕ) → i < n → bit_at (p + i) ys ≡ bit_at (p + i) xs)
    → read_bits n p ys ≡ read_bits n p xs
unfolding read_bits
read_bits-same zero p xs ys h = refl
read_bits-same (suc n) p xs ys h =
    ap₂ (λ d r. d * 2 ^ n + r)
      (ap (λ j. bit_at j ys) {x = p} {y = p + 0} (omega arith)
        ∙ h 0 (omega arith)
        ∙ ap (λ j. bit_at j xs) {x = p + 0} {y = p} (omega arith))
      (read_bits-same n (p + 1) xs ys (λ i low.
        ap (λ j. bit_at j ys) {x = p + 1 + i} {y = p + suc i} (omega arith)
        ∙ h (suc i) (omega arith)
        ∙ ap (λ j. bit_at j xs) {x = p + suc i} {y = p + 1 + i} (omega arith)))

module _ {p k v : ℕ} {xs ys : List ℕ} (w : Wrote p k v xs ys) where
  pub read_bits-Wrote : read_bits k p ys ≡ v % 2 ^ k
  read_bits-Wrote = read_bits-digits k p v ys w.inside

  pub read_bits-elsewhere :
      (m q : ℕ) → (q + m ≤ p) ⊎ (p + k ≤ q) → read_bits m q ys ≡ read_bits m q xs
  read_bits-elsewhere m q h = read_bits-same m q xs ys (λ i low.
      w.outside (q + i) (elim h [ inl a ↦ inl (omega arith) | inr a ↦ inr (omega arith) ]))

pub put_bits-Wrote :
    (width n v : ℕ) (b : BitBuffer)
    → 1 ≤ n
    → n ≤ width
    → b.bit_position + n ≤ 8 * size b.buffer
    → 8 * size b.buffer < size_mod
    → (after : List ℕ) × (put_bits width n v b ≡ (
      ok tt,
      record { buffer = record (b.buffer) { bytes = after }; bit_position = b.bit_position + n },
    ))
      × Wrote b.bit_position n v b.buffer.bytes after
unfolding put_bits
put_bits-Wrote width n v b some_bits wide room fits =
    let p = b.bit_position in
    let (after, h, w) =
      put_loop-Wrote n width n (8 - p % 8) (p / 8) v b.buffer.bytes wide (omega arith) some_bits
        (omega arith) (omega arith) (omega arith) in
    let there : 8 * (p / 8) + (8 - (8 - p % 8)) ≡ p = omega arith in
    (
      after,
      ap (put_back ((p + n) % size_mod) b) h
          ∙ ap
              (λ q.
                (ok tt, record { buffer = record (b.buffer) { bytes = after }; bit_position = q }))
              {x = (p + n) % size_mod} {y = p + n} (omega arith),
      Wrote-ends (8 * (p / 8) + (8 - (8 - p % 8))) p n n v v b.buffer.bytes after there refl refl w,
    )

-- `PutData` of n bits of a number whose type has as many bits, behind the promotion to an `int`, puts the n
-- lowest bits of it at the bit position, if the buffer has that many bits: from there the client reads them back, at any other place it reads what was there,
-- the buffer keeps its size, and the bit position moves by n.
pub put_bits_lem :
    (width n v : ℕ) (b : BitBuffer)
    → 1 ≤ n
    → n ≤ width
    → b.bit_position + n ≤ 8 * size b.buffer
    → 8 * size b.buffer < size_mod
    → let (r, c) = put_bits width n v b in
      (r ≡ ok tt)
      × (c.bit_position ≡ b.bit_position + n)
      × (size c.buffer ≡ size b.buffer)
      × (read_bits n b.bit_position c.buffer.bytes ≡ v % 2 ^ n)
      × ((m q : ℕ)
          → (q + m ≤ b.bit_position) ⊎ (b.bit_position + n ≤ q)
          → read_bits m q c.buffer.bytes ≡ read_bits m q b.buffer.bytes)
put_bits_lem width n v b some_bits wide room fits =
    let (after, e, w) = put_bits-Wrote width n v b some_bits wide room fits in
    rw e (refl, refl, w.same_size, read_bits-Wrote w, read_bits-elsewhere w)

pub length-resize : (n : ℕ) (bytes : List ℕ) → length bytes ≤ n → length (resize n bytes) ≡ n
unfolding resize
length-resize n bytes h = omega (
  arith,
  length-append (take n bytes) (replicate (n - length bytes) 0),
  length-take n bytes,
  length-replicate {A = ℕ} (n - length bytes) 0,
)

put_at_beyond :
    (width k lo shift v q : ℕ) (bytes : List ℕ)
    → length bytes ≤ q
    → put_at width k lo shift v q bytes ≡ undefined
unfolding put_at
put_at_beyond width k lo shift v q bytes h = rw (put_at, get_elem?-beyond bytes q h) refl

put_at_narrow :
    (width k lo shift v q : ℕ) (bytes : List ℕ)
    → ltb shift width ≡ false
    → put_at width k lo shift v q bytes ≡ undefined
unfolding put_at
put_at_narrow width k lo shift v q bytes h = elim (Option-cases (get_elem? bytes q)) [
  | inl e ↦ rw (put_at, e) refl
  | inr (c, e) ↦ rw (put_at, e, h) refl
]

put_last_beyond :
    (width n off q v : ℕ) (bytes : List ℕ)
    → length bytes ≤ q
    → 1 ≤ q
    → put_last width n off q v bytes ≡ undefined
unfolding put_last
put_last_beyond width n off q v bytes h low =
    let full : leb (length bytes) q ≡ true = ground arith in
    let other : (q == 0) ≡ false = ground arith in
    let long = length-resize q bytes h in
    elim (Bool-cases (n == off)) [
      | inl e ↦ rw (full, other, e) (put_at_beyond width off 0 0 v q (resize q bytes) (omega arith))
      | inr e ↦
          rw (full, other, e) (put_at_beyond width n (off - n) 0 v q (resize q bytes) (omega arith))
    ]

put_loop_beyond :
    (fuel width n off q v : ℕ) (bytes : List ℕ)
    → n ≤ fuel
    → 1 ≤ n
    → 1 ≤ off
    → off ≤ 8
    → 1 ≤ length bytes
    → 8 * length bytes < 8 * q + (8 - off) + n
    → put_loop fuel width n off q v bytes ≡ undefined
unfolding put_loop
put_loop_beyond zero width n off q v bytes enough some_bits low top some_bytes over =
    absurd (omega arith)
put_loop_beyond (suc fuel) width n off q v bytes enough some_bits low top some_bytes over =
    elim (Bool-cases (ltb off n)) [
      | inl e ↦
          let more : off < n = ground (arith, e) in
          elim (Bool-cases (leb (length bytes) q)) [
            | inl f ↦
                let behind : length bytes ≤ q = ground (arith, f) in
                rw
                  (
                    e,
                    f,
                    put_at_beyond width off 0 (n - off) v q (resize q bytes)
                        (omega (arith, length-resize q bytes behind)),
                  )
                  refl
            | inr f ↦ elim (Bool-cases (ltb (n - off) width)) [
              | inl g ↦
                  let (mid, h, w) =
                    put_at-Wrote width off 0 (n - off) v q bytes (ground (arith, g)) (omega arith)
                      (ground (arith, f)) in
                  rw (e, f)
                    (ap (λ r. and_then r (put_loop fuel width (n - off) 8 (q + 1) v)) h
                      ∙ put_loop_beyond fuel width (n - off) 8 (q + 1) v mid (omega arith)
                          (omega arith) (omega arith) (omega arith) (omega (arith, w.same_size))
                          (omega (arith, w.same_size)))
              | inr g ↦ rw (e, f, put_at_narrow width off 0 (n - off) v q bytes g) refl
            ]
          ]
      | inr e ↦
          let less : n ≤ off = ground (arith, e) in
          rw e (put_last_beyond width n off q v bytes (omega arith) (omega arith))
    ]

-- `PutData` of bits for which a buffer that is not empty has no room is undefined: `resize` does not make
-- the byte that is then written.
pub put_bits_beyond :
    (width n v : ℕ) (b : BitBuffer)
    → 1 ≤ n
    → 1 ≤ size b.buffer
    → 8 * size b.buffer < b.bit_position + n
    → (put_bits width n v b).0 ≡ undefined
unfolding put_bits
put_bits_beyond width n v b some_bits some_bytes over =
    let p = b.bit_position in
    ap (λ r. (put_back ((p + n) % size_mod) b r).0)
      (put_loop_beyond n width n (8 - p % 8) (p / 8) v b.buffer.bytes (omega arith) some_bits
        (omega arith) (omega arith) some_bytes (omega arith))
