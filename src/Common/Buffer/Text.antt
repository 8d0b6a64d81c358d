-- ===== src/Common/Buffer/Text.antt =====
-- Strings: `PutString` and `GetString`.
use openrs.Base.{
  ℕ, ◌+◌, ◌<◌, ◌≡◌, ◌≢◌, refl, ap, ◌∙◌, List, [], ◌∷◌, ◌++◌, arith, length, drop, length-append,
  drop-append, append_assoc, All, some, ok,
}
use native.Mathlib.Nat.{mod-eq_of_lt}
use openrs.Base.Bytes.{le_bytes}
use openrs.Common.Buffer.{
  Buffer, append, size_mod, advance, get_string, get_string_loop, c_str, put_string, put_data,
}
use openrs.Common.Buffer.Read.{at_front, get_data_at}

-- A character that ends no string.
abbrev pub IsText : ℕ → Type 0
IsText c = (c < 256) × (c ≢ 0) × (c ≢ b'\n')

-- `PutString` appends the characters of a text and a zero.
pub put_string_lem :
    (s : List ℕ) (b : Buffer) → All IsText s → put_string s b ≡ append (s ++ 0 ∷ []) b
unfolding put_string le_bytes
put_string_lem [] b h = refl
put_string_lem (c ∷ cs) b h =
    put_string_lem cs (put_data 1 c b) h.1 ∙ rw (append_assoc, mod-eq_of_lt h.0.0)

c_str-text : (s rest : List ℕ) → All IsText s → c_str (s ++ 0 ∷ rest) ≡ some s
unfolding c_str
c_str-text [] rest h = refl
c_str-text (c ∷ cs) rest h = ground (arith, c_str-text cs rest h.1)

get_string_loop-end : (rest : List ℕ) (b : Buffer) → get_string_loop 0 rest b ≡ (ok tt, b)
unfolding get_string_loop
get_string_loop-end [] b = refl
get_string_loop-end (d ∷ rest) b = refl

get_string_loop-text :
    (c : ℕ) (s rest : List ℕ) (b : Buffer)
    → IsText c
    → All IsText s
    → b.position + length s + 1 < size_mod
    → get_string_loop c (s ++ 0 ∷ rest) b
      ≡ (ok tt, record b { position = b.position + length s + 1 })
unfolding get_string_loop
get_string_loop-text c [] rest b hc hs fits = ground (arith, get_string_loop-end rest (advance 1 b))
get_string_loop-text c (d ∷ s) rest b hc hs fits =
    ground (arith, get_string_loop-text d s rest (advance 1 b) hs.0 hs.1)

drop-append_one : (pre t : List ℕ) (c : ℕ) → drop (length pre + 1) (pre ++ c ∷ t) ≡ t
drop-append_one pre t c =
    rw (append_assoc pre (c ∷ []) t) at
      (drop-append (pre ++ c ∷ []) t (length pre + 1) (length-append pre (c ∷ [])))

-- `GetString` gives a zero-terminated text, without line feeds, back and moves behind the zero,
-- whatever stands around it in a buffer that fits in memory.
pub get_string_at :
    (pre s rest : List ℕ)
    → All IsText s
    → length pre + length s + length rest + 16 < size_mod
    → get_string (at_front pre (s ++ 0 ∷ []) rest)
      ≡ (ok s, record (at_front pre (s ++ 0 ∷ []) rest) { position = length pre + length s + 1 })
unfolding get_string
get_string_at pre [] rest h fits =
    rw
      (
        get_data_at pre (0 ∷ []) rest 1 refl (omega arith) (omega arith) (omega arith),
        drop-append_one pre rest 0,
        get_string_loop-end rest _,
        drop-append pre (0 ∷ rest) (length pre) refl,
      )
      (ap (λ p. (ok [], record { bytes = pre ++ 0 ∷ rest; position = p })) (omega arith))
get_string_at pre (c ∷ s) rest h fits =
    let start : Buffer = record { bytes = pre ++ c ∷ (s ++ 0 ∷ rest); position = length pre + 1 } in
    let long : length pre + (1 + length (s ++ 0 ∷ [] ++ rest)) + 8 < size_mod =
      omega (arith, length-append (s ++ 0 ∷ []) rest, length-append s (0 ∷ [])) in
    rw
      (
        get_data_at pre (c ∷ []) (s ++ 0 ∷ [] ++ rest) 1 refl (omega arith) (omega arith) long,
        drop-append_one pre (s ++ 0 ∷ [] ++ rest) c,
        append_assoc s (0 ∷ []) rest,
        get_string_loop-text c s rest start h.0 h.1 (omega arith),
        drop-append pre (c ∷ (s ++ 0 ∷ rest)) (length pre) refl,
      )
      (ground (arith, c_str-text s rest h.1))
