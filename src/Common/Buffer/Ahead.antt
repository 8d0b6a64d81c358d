-- ===== src/Common/Buffer/Ahead.antt =====
-- Reads as parsers: what a sequence of reads gives on the bytes that lie ahead.
use openrs.Base.{
  ℕ, ◌+◌, ◌*◌, ◌^◌, ◌≤◌, ◌<◌, ◌≡◌, refl, ap, ap₂, ◌∙◌, sym, subst, List, [], ◌∷◌, ◌++◌, arith, All,
  length, take, drop, length-append, take-append, drop-append, append_assoc, length-take,
  take-append-drop, length-drop, M, ok, ◌>>=◌, ◌>>◌, return, then_do, le→ltb,
}
use openrs.Base.Bytes.{
  be_bytes, le_bytes, be_value-be_bytes, le_value-le_bytes, length-be_bytes, length-le_bytes,
  le_value,
}
use openrs.Common.Buffer.{Buffer, fresh, size, size_mod, get_data, get_be, get_le, get_string}
use openrs.Common.Buffer.Read.{IsValid, ahead, moved, ahead-moved, get_data_lem, at_front}
use openrs.Common.Buffer.Text.{IsText, get_string_at}

-- The bytes lie ahead of the position of a buffer that exists in memory, with room for sixteen more.
pub record At (b : Buffer) (xs : List ℕ) : Type 0 where
  pub within : b.position ≤ size b
  pub room : size b + 16 < size_mod
  pub front : ahead b ≡ xs

-- A read that consumes just these bytes, wherever they are, and gives a.
pub record Consumes {A : Type 0} (m : M Buffer A) (xs : List ℕ) (a : A) : Type 0 where
  pub run : (b : Buffer) → (rest : List ℕ) → At b (xs ++ rest) → m b ≡ (ok a, moved (length xs) b)

pub At-size : (b : Buffer) (xs : List ℕ) → At b xs → b.position + length xs ≡ size b
At-size b xs h = omega (arith, h.within, length-drop b.position b.bytes, ap length h.front)

pub At-moved : (b : Buffer) (xs rest : List ℕ) → At b (xs ++ rest) → At (moved (length xs) b) rest
At-moved b xs rest h = record {
  within = omega (arith, At-size b (xs ++ rest) h, length-append xs rest);
  room = h.room;
  front =
      ahead-moved (length xs) b
      ∙ ap (drop (length xs)) h.front
      ∙ drop-append xs rest (length xs) refl;
}

pub Consumes-return : {A : Type 0} (a : A) → Consumes (return a) [] a
Consumes-return a = record {
  run = λ b rest h. ap (λ n. (ok a, record b { position = n })) {x = b.position} (omega arith);
}

pub Consumes-bind :
    {A B : Type 0} (m : M Buffer A) (f : A → M Buffer B) (xs ys : List ℕ) (a : A) (c : B)
    → Consumes m xs a
    → Consumes (f a) ys c
    → Consumes (m >>= f) (xs ++ ys) c
Consumes-bind m f xs ys a c hm hf = record {
  run = λ b rest h.
      let whole : xs ++ ys ++ rest ≡ xs ++ (ys ++ rest) = append_assoc xs ys rest in
      let h' : At b (xs ++ (ys ++ rest)) = subst (At b) whole h in
      ap (then_do f) (hm.run b (ys ++ rest) h')
      ∙ hf.run (moved (length xs) b) rest (At-moved b xs (ys ++ rest) h')
      ∙ ap (λ n. (ok c, record b { position = n })) {x = b.position + length xs + length ys}
          (omega (arith, length-append xs ys));
}

pub At-IsValid : (b : Buffer) (xs : List ℕ) → At b xs → IsValid b
At-IsValid b xs h = record { within = h.within; fits = omega (arith, h.room) }

pub get_data-Consumes :
    (n : ℕ) (xs : List ℕ) → length xs ≡ n → 0 < n → n ≤ 8 → Consumes (get_data n) xs xs
get_data-Consumes n xs e lo hi = record {
  run = λ b rest h.
      let there : b.position + n ≤ size b =
        omega (arith, At-size b (xs ++ rest) h, length-append xs rest, e) in
      rw
        (
          get_data_lem n b (At-IsValid b (xs ++ rest) h) lo hi,
          le→ltb (size b) (b.position + n) there,
          h.front,
          take-append xs rest n e,
          e,
        )
        refl;
}

pub get_be-Consumes : (n v : ℕ) → v < 256 ^ n → 0 < n → n ≤ 8 → Consumes (get_be n) (be_bytes n v) v
unfolding get_be
get_be-Consumes n v hv lo hi = record {
  run = λ b rest h. rw (
    (get_data-Consumes n (be_bytes n v) (length-be_bytes n v) lo hi).run b rest h,
    be_value-be_bytes n v hv,
  );
}

pub get_le-Consumes : (n v : ℕ) → v < 256 ^ n → 0 < n → n ≤ 8 → Consumes (get_le n) (le_bytes n v) v
unfolding get_le
get_le-Consumes n v hv lo hi = record {
  run = λ b rest h. rw (
    (get_data-Consumes n (le_bytes n v) (length-le_bytes n v) lo hi).run b rest h,
    le_value-le_bytes n v hv,
  );
}

pub get_byte-Consumes : (c : ℕ) → Consumes (get_le 1) (c ∷ []) c
unfolding get_le le_value
get_byte-Consumes c = record {
  run = λ b rest h.
      rw ((get_data-Consumes 1 (c ∷ []) refl (omega arith) (omega arith)).run b rest h)
        (ap (λ k. (ok k, moved 1 b)) {x = c + 256 * 0} (omega arith));
}

pub get_string-Consumes : (s : List ℕ) → All IsText s → Consumes get_string (s ++ 0 ∷ []) s
get_string-Consumes s text = record {
  run = λ b rest h.
      let pre = take b.position b.bytes in
      let xs = s ++ 0 ∷ [] in
      let placed : length pre ≡ b.position =
        omega (arith, length-take b.position b.bytes, h.within) in
      let whole : b.bytes ≡ pre ++ (xs ++ rest) =
        sym (take-append-drop b.position b.bytes) ∙ ap (λ t. pre ++ t) h.front in
      let same : b ≡ at_front pre xs rest =
        ap₂ (λ bytes p. record { bytes = bytes; position = p }) whole (sym placed) in
      let short : length pre + length s + length rest + 16 < size_mod = omega (
        arith,
        h.room,
        At-size b (xs ++ rest) h,
        length-append xs rest,
        length-append s (0 ∷ []),
        placed,
      ) in
      ap get_string same
      ∙ get_string_at pre s rest text short
      ∙ ap₂ (λ bytes p. (ok s, record { bytes = bytes; position = p })) (sym whole)
          (omega (arith, placed, length-append s (0 ∷ [])));
}

pub Consumes-then :
    {A : Type 0} (m : M Buffer (Unit {0})) (k : M Buffer A) (xs ys : List ℕ) (c : A)
    → Consumes m xs tt
    → Consumes k ys c
    → Consumes (m >> k) (xs ++ ys) c
Consumes-then m k xs ys c hm hk = Consumes-bind m (λ _. k) xs ys tt c hm hk

pub Consumes-map :
    {A B : Type 0} (m : M Buffer A) (g : A → B) (xs : List ℕ) (a : A)
    → Consumes m xs a
    → Consumes (m >>= (λ x. return (g x))) xs (g a)
Consumes-map m g xs a h = record {
  run = λ b rest at. ap (then_do (λ x. return (g x))) (h.run b rest at);
}

pub At-fresh : (xs : List ℕ) → length xs + 16 < size_mod → At (fresh xs) xs
At-fresh xs h = record { within = omega arith; room = h; front = refl }
