-- ===== src/Common/BitBuffer/Written.antt =====
-- What writing bits does to the bits of a buffer that has room for them.
use openrs.Base.{
  ℕ, zero, suc, ◌+◌, ◌-◌, ◌*◌, ◌/◌, ◌%◌, ◌^◌, ◌≤◌, ◌<◌, ◌≡◌, ◌⊎◌, inl, inr, refl, sym, ap, ap₂, ◌∙◌,
  List, [], ◌∷◌, Option, none, some, true, false, ltb, leb, ◌==◌, Bool-cases, length, set,
  get_elem?, get_elem?-drop, get_elem?-set_self, get_elem?-set_ne, length-set, ok, arith, All,
}
use openrs.Base.Bytes.{IsByte}
use openrs.Base.Bits.{bit, bit-div, bit-mod_low}
use openrs.Base.Bits.Fields.{put_field, bit-put_field_inside, bit-put_field_outside, put_field_lt}
use openrs.Common.BitBuffer.{put_at, put_last, put_loop, and_then}
use native.Mathlib.Nat.{mod-lt, one-le-pow}

abbrev pub zero_or : Option ℕ → ℕ
zero_or none = 0
zero_or (some c) = c

-- The bits of a byte sequence, the highest one of the first byte first.
unfoldable pub bit_at : ℕ → List ℕ → ℕ
unfolding bit
bit_at i bytes = bit (7 - i % 8) (zero_or (get_elem? bytes (i / 8)))

-- The k lowest bits of v stand at p, and nothing else has changed.
pub record Wrote (p k v : ℕ) (before after : List ℕ) : Type 0 where
  pub same_size : length after ≡ length before
  pub inside : (i : ℕ) → i < k → bit_at (p + i) after ≡ bit (k - 1 - i) v
  pub outside : (j : ℕ) → (j < p) ⊎ (p + k ≤ j) → bit_at j after ≡ bit_at j before
  pub all_bytes : All IsByte before → All IsByte after

pub All-set : (xs : List ℕ) (i v : ℕ) → v < 256 → All IsByte xs → All IsByte (set xs i v)
All-set [] i v h a = tt
All-set (x ∷ xs) zero v h a = (h, a.1)
All-set (x ∷ xs) (suc i) v h a = (a.0, All-set xs i v h (a.1))

All-get_elem? : (xs : List ℕ) (i c : ℕ) → get_elem? xs i ≡ some c → All IsByte xs → c < 256
All-get_elem? [] i c e a = absurd cc
All-get_elem? (x ∷ xs) zero c e a = ground (arith, e, a.0)
All-get_elem? (x ∷ xs) (suc i) c e a = All-get_elem? xs i c e (a.1)

bit_at-byte :
    (bytes : List ℕ) (j q r c : ℕ)
    → j ≡ 8 * q + r
    → r < 8
    → get_elem? bytes q ≡ some c
    → bit_at j bytes ≡ bit (7 - r) c
unfolding bit_at
bit_at-byte bytes j q r c e h found =
    ap₂ (λ m k. bit (7 - m) (zero_or (get_elem? bytes k))) {x = j % 8} {y = r} {u = j / 8} {v = q}
      (omega arith) (omega arith)
    ∙ ap (λ o. bit (7 - r) (zero_or o)) found

bit_at-other :
    (xs ys : List ℕ) (j : ℕ)
    → get_elem? xs (j / 8) ≡ get_elem? ys (j / 8)
    → bit_at j xs ≡ bit_at j ys
unfolding bit_at
bit_at-other xs ys j e = ap (λ o. bit (7 - j % 8) (zero_or o)) e

-- Writing one field of a byte that is there.
module _ (k lo v q c : ℕ) (bytes : List ℕ) (fits : k + lo ≤ 8) (here : q < length bytes)
    (found : get_elem? bytes q ≡ some c) where
  put_field_outside :
      (w : ℕ)
      → w < 2 ^ k
      → (j : ℕ) → (j < 8 * q + (8 - lo - k)) ⊎ (8 * q + (8 - lo - k) + k ≤ j)
      → bit_at j (set bytes q (put_field k lo w c)) ≡ bit_at j bytes
  put_field_outside w small j h = elim (Bool-cases (q == j / 8)) [
    | inl e ↦
        let same : q ≡ j / 8 = ground (arith, e) in
        let r = j - 8 * q in
        let out : (7 - r < lo) ⊎ (lo + k ≤ 7 - r) = elim h [
          | inl a ↦ inr (omega arith)
          | inr a ↦ inl (omega arith)
        ] in
        bit_at-byte (set bytes q (put_field k lo w c)) j q r (put_field k lo w c) (omega arith)
          (omega arith) (get_elem?-set_self bytes q (put_field k lo w c) here)
        ∙ bit-put_field_outside k lo w c fits small (7 - r) (omega arith) out
        ∙ sym (bit_at-byte bytes j q r c (omega arith) (omega arith) found)
    | inr e ↦
        bit_at-other (set bytes q (put_field k lo w c)) bytes j
          (get_elem?-set_ne bytes (put_field k lo w c) (λ same. absurd (ground (arith, e, same))))
  ]

  put_field-Wrote :
      Wrote (8 * q + (8 - lo - k)) k v bytes (set bytes q (put_field k lo (v % 2 ^ k) c))
  put_field-Wrote =
      let w = v % 2 ^ k in
      let small : w < 2 ^ k = mod-lt v (one-le-pow k 2 (omega arith)) in
      let new = get_elem?-set_self bytes q (put_field k lo w c) here in
      record {
        same_size = length-set bytes q (put_field k lo w c);
        inside = λ i h.
            bit_at-byte (set bytes q (put_field k lo w c)) (8 * q + (8 - lo - k) + i) q
              (8 - lo - k + i) (put_field k lo w c) (omega arith) (omega arith) new
            ∙ ap (λ m. bit m (put_field k lo w c)) {x = 7 - (8 - lo - k + i)} {y = k - 1 - i + lo}
                (omega arith)
            ∙ bit-put_field_inside k lo w c fits small (k - 1 - i) (omega arith)
            ∙ bit-mod_low k (k - 1 - i) v (omega arith);
        outside = λ j h. put_field_outside w small j h;
        all_bytes = λ a.
            All-set bytes q (put_field k lo w c)
              (put_field_lt k lo w c fits small (All-get_elem? bytes q c found a)) a;
      }

pub put_at-Wrote :
    (width k lo shift v q : ℕ) (bytes : List ℕ)
    → shift < width
    → k + lo ≤ 8
    → q < length bytes
    → (after : List ℕ) × (put_at width k lo shift v q bytes ≡ ok after)
      × Wrote (8 * q + (8 - lo - k)) k (v / 2 ^ shift) bytes after
unfolding put_at
put_at-Wrote width k lo shift v q bytes defined_shift fits here =
    let wide : ltb shift width ≡ true = ground arith in
    let (c, _, found) = get_elem?-drop bytes q here in
    (
      set bytes q (put_field k lo (v / 2 ^ shift % 2 ^ k) c),
      rw (put_at, found, wide) refl,
      put_field-Wrote k lo (v / 2 ^ shift) q c bytes fits here found,
    )

-- The high bits, and then the low ones behind them.
Wrote-then :
    (p k m v : ℕ) (xs ys zs : List ℕ)
    → Wrote p k (v / 2 ^ m) xs ys
    → Wrote (p + k) m v ys zs
    → Wrote p (k + m) v xs zs
Wrote-then p k m v xs ys zs f g = record {
  same_size = g.same_size ∙ f.same_size;
  inside = λ i h. elim (Bool-cases (ltb i k)) [
    | inl e ↦
        let low : i < k = ground (arith, e) in
        g.outside (p + i) (inl (omega arith))
        ∙ f.inside i low
        ∙ bit-div m (k - 1 - i) v
        ∙ ap (λ j. bit j v) {x = k - 1 - i + m} {y = k + m - 1 - i} (omega arith)
    | inr e ↦
        let high : k ≤ i = ground (arith, e) in
        ap (λ j. bit_at j zs) {x = p + i} {y = p + k + (i - k)} (omega arith)
        ∙ g.inside (i - k) (omega arith)
        ∙ ap (λ j. bit j v) {x = m - 1 - (i - k)} {y = k + m - 1 - i} (omega arith)
  ];
  outside = λ j h. elim h [
    | inl a ↦ g.outside j (inl (omega arith)) ∙ f.outside j (inl a)
    | inr a ↦ g.outside j (inr (omega arith)) ∙ f.outside j (inr (omega arith))
  ];
  all_bytes = λ a. g.all_bytes (f.all_bytes a);
}

pub Wrote-ends :
    (p p' k k' v v' : ℕ) (xs ys : List ℕ)
    → p ≡ p'
    → k ≡ k'
    → v ≡ v'
    → Wrote p k v xs ys
    → Wrote p' k' v' xs ys
Wrote-ends p p' k k' v v' xs ys a b c h = rw (← a, ← b, ← c) h

put_last-Wrote :
    (width n off q v : ℕ) (bytes : List ℕ)
    → 1 ≤ width
    → n ≤ off
    → off ≤ 8
    → q < length bytes
    → (after : List ℕ) × (put_last width n off q v bytes ≡ ok after)
      × Wrote (8 * q + (8 - off)) n v bytes after
unfolding put_last
put_last-Wrote width n off q v bytes wide le top here =
    let room : leb (length bytes) q ≡ false = ground arith in
    elim (Bool-cases (n == off)) [
      | inl e ↦
          let same : n ≡ off = ground (arith, e) in
          let (after, h, w) =
            put_at-Wrote width off 0 0 v q bytes (omega arith) (omega arith) here in
          (
            after,
            rw (room, e) h,
            Wrote-ends (8 * q + (8 - 0 - off)) (8 * q + (8 - off)) off n (v / 1) v bytes after
                (omega arith) (omega arith) (omega arith) w,
          )
      | inr e ↦
          let (after, h, w) =
            put_at-Wrote width n (off - n) 0 v q bytes (omega arith) (omega arith) here in
          (
            after,
            rw (room, e) h,
            Wrote-ends (8 * q + (8 - (off - n) - n)) (8 * q + (8 - off)) n n (v / 1) v bytes after
                (omega arith) refl (omega arith) w,
          )
    ]

pub put_loop-Wrote :
    (fuel width n off q v : ℕ) (bytes : List ℕ)
    → n ≤ width
    → n ≤ fuel
    → 1 ≤ n
    → 1 ≤ off
    → off ≤ 8
    → 8 * q + (8 - off) + n ≤ 8 * length bytes
    → (after : List ℕ) × (put_loop fuel width n off q v bytes ≡ ok after)
      × Wrote (8 * q + (8 - off)) n v bytes after
unfolding put_loop
put_loop-Wrote zero width n off q v bytes wide enough some_bits low top room = absurd (omega arith)
put_loop-Wrote (suc fuel) width n off q v bytes wide enough some_bits low top room =
    let here : q < length bytes = omega arith in
    elim (Bool-cases (ltb off n)) [
      | inl e ↦
          let more : off < n = ground (arith, e) in
          let full : leb (length bytes) q ≡ false = ground arith in
          let (mid, h, w) =
            put_at-Wrote width off 0 (n - off) v q bytes (omega arith) (omega arith) here in
          let (after, h', w') =
            put_loop-Wrote fuel width (n - off) 8 (q + 1) v mid (omega arith) (omega arith)
              (omega arith) (omega arith) (omega arith) (omega (arith, w.same_size)) in
          let first : Wrote (8 * q + (8 - off)) off (v / 2 ^ (n - off)) bytes mid =
            Wrote-ends (8 * q + (8 - 0 - off)) (8 * q + (8 - off)) off off (v / 2 ^ (n - off))
              (v / 2 ^ (n - off)) bytes mid (omega arith) refl refl w in
          let second : Wrote (8 * q + (8 - off) + off) (n - off) v mid after =
            Wrote-ends (8 * (q + 1) + (8 - 8)) (8 * q + (8 - off) + off) (n - off) (n - off) v v mid
              after (omega arith) refl refl w' in
          (
            after,
            rw (e, full) (ap (λ r. and_then r (put_loop fuel width (n - off) 8 (q + 1) v)) h ∙ h'),
            Wrote-ends (8 * q + (8 - off)) (8 * q + (8 - off)) (off + (n - off)) n v v bytes after
                refl (omega arith) refl
                (Wrote-then (8 * q + (8 - off)) off (n - off) v bytes mid after first second),
          )
      | inr e ↦
          let (after, h, w) =
            put_last-Wrote width n off q v bytes (omega arith) (ground (arith, e)) top here in
          (after, rw e h, w)
    ]
