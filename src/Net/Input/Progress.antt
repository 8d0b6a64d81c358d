-- ===== src/Net/Input/Progress.antt =====
-- Why `Session::Read` comes to an end, and what it leaves of the input.
use openrs.Base.{
  ℕ, zero, suc, ◌+◌, ◌%◌, ◌^◌, ◌≤◌, ◌<◌, ◌≡◌, ◌⊎◌, inl, inr, refl, ap, sym, subst, append-nil, ◌∙◌,
  List, [], ◌∷◌, ◌++◌, ◌==◌, arith, ltb, Bool-cases, none, some, Option-cases, length, get_elem?,
  get_elem?-beyond, Outcome, ok, fail, throws, undefined, length-append,
}
use openrs.Common.Buffer.{
  Buffer, advance, empty, size, size_mod, get_le, get_data, remaining, seek, append,
}
use openrs.Common.Buffer.Read.{IsValid, remaining_lem}
use openrs.Net.Packet.{Packet}
use openrs.Net.Decoder.{decode, login_decode, world_decode, grab_decode}
use openrs.Net.Decoder.Progress.{
  Decoded, decode-Decoded, login_decode-Decoded, world_decode-Decoded,
}
use openrs.Net.Session.{Session, Stage, initial, grab, login, world, decode_by}
use openrs.Net.Handler.{Server}
use openrs.Net.Input.{Run, with_input, go_handled, go_decoded, handle_by, read_loop, read}
use openrs.Net.Input.Keeps.{ServerKeeps, handle_by-Keeps}

-- The largest input that is considered: half of an address space.
abbrev pub input_limit : ℕ
input_limit = 2 ^ 62

-- Rounds that are enough: one for each byte that is left, one for the end, and one more for a
-- position that the grab decoder put behind the end.
abbrev pub Enough : ℕ → Buffer → Type 0
Enough n b =
    (IsValid b × (size b < input_limit) × (size b + 2 ≤ n + b.position))
    ⊎ ((size b < b.position) × (b.position < 2 ^ 63) × (1 ≤ n))

-- What a decoder leaves for the rounds behind it.
abbrev Leaves : ℕ → Buffer → Outcome Packet × Buffer → Type 0
Leaves n b (ok p, b') = Enough n b' × (b'.bytes ≡ b.bytes)
Leaves n b (fail, b') = b'.bytes ≡ b.bytes
Leaves n b (throws, b') = Unit {0}
Leaves n b (undefined, b') = Unit {0}

Decoded-Leaves :
    (n : ℕ) (b : Buffer) (r : Outcome Packet × Buffer)
    → IsValid b
    → size b < input_limit
    → size b + 2 ≤ suc n + b.position
    → Decoded 1 b r
    → Leaves n b r
Decoded-Leaves n b (ok p, b') v small h (e, hi, (k, lo, q)) =
    let same : size b' ≡ size b = ap length e in
    (
      inl (record { within = omega arith; fits = omega (arith, v.fits) }, omega arith, omega arith),
      e,
    )
Decoded-Leaves n b (fail, b') v small h (e, lo, hi) = e
Decoded-Leaves n b (throws, b') v small h d = tt
Decoded-Leaves n b (undefined, b') v small h d = tt

grab_moved :
    (n : ℕ) (b : Buffer)
    → IsValid b
    → size b < input_limit
    → size b + 2 ≤ suc n + b.position
    → b.position + 6 ≤ size b
    → Enough n (advance (size b) b)
grab_moved n b v small h left =
    let moved : (b.position + size b) % size_mod ≡ b.position + size b = omega arith in
    elim (Bool-cases (b.position == 0)) [
      | inl e ↦
          let start : b.position ≡ 0 = ground (arith, e) in
          inl (record { within = omega arith; fits = omega (arith, v.fits) }, small, omega arith)
      | inr e ↦
          let later : 0 < b.position = ground (arith, e) in
          inr (omega arith, omega arith, omega arith)
    ]

grab-Leaves :
    (n : ℕ) (b : Buffer)
    → IsValid b
    → size b < input_limit
    → size b + 2 ≤ suc n + b.position
    → Leaves n b (grab_decode b)
unfolding grab_decode seek
grab-Leaves n b v small h = elim (Bool-cases (ltb (remaining b) 6)) [
  | inl e ↦ rw e refl
  | inr e ↦ elim (Option-cases (get_elem? b.bytes b.position)) [
    | inl f ↦ rw (e, f) tt
    | inr (priority, f) ↦ elim (Bool-cases (ltb 7 priority)) [
      | inl g ↦ rw (e, f, g) refl
      | inr g ↦ rw (e, f, g) (grab_moved n b v small h (ground (arith, e, remaining_lem b v)), refl)
    ]
  ]
]

module _ (b : Buffer) (behind : size b < b.position) (small : b.position < 2 ^ 63) where
  no_byte : get_le 1 b ≡ (fail, b)
  unfolding get_le get_data
  no_byte = ground arith

  behind-Leaves : (n : ℕ) (stage : Stage) → Leaves n b (decode_by stage b)
  unfolding decode_by decode grab_decode login_decode world_decode remaining
  behind-Leaves n initial = rw no_byte refl
  behind-Leaves n grab = rw (get_elem?-beyond b.bytes b.position (omega arith)) (ground arith)
  behind-Leaves n login = rw no_byte refl
  behind-Leaves n world = rw no_byte refl

decode_by-Leaves :
    (n : ℕ) (stage : Stage) (b : Buffer) → Enough (suc n) b → Leaves n b (decode_by stage b)
unfolding decode_by
decode_by-Leaves n initial b (inl (v, small, h)) =
    Decoded-Leaves n b (decode b) v small h (decode-Decoded b v)
decode_by-Leaves n grab b (inl (v, small, h)) = grab-Leaves n b v small h
decode_by-Leaves n login b (inl (v, small, h)) =
    Decoded-Leaves n b (login_decode b) v small h (login_decode-Decoded b v)
decode_by-Leaves n world b (inl (v, small, h)) =
    Decoded-Leaves n b (world_decode b) v small h (world_decode-Decoded b v)
decode_by-Leaves n stage b (inr (behind, small, h)) = behind-Leaves b behind small n stage

-- The end of a run: it has one, and if nothing was thrown the input is either dropped whole, or kept
-- whole.
abbrev pub Ended : List ℕ → Run → Type 0
Ended bytes none = ⊥
Ended bytes (some (ok u, s)) = (s.buffer_input ≡ empty) ⊎ (s.buffer_input.bytes ≡ bytes)
Ended bytes (some (fail, s)) = ⊥
Ended bytes (some (throws, s)) = Unit {0}
Ended bytes (some (undefined, s)) = Unit {0}

module _ (server : Server) (keeps : ServerKeeps server) (amount : ℕ) where
  handled-Ended :
      (bytes : List ℕ) (more : Session → Run) (r : Outcome (Unit {0}) × Session)
      → ((t : Session) → t.buffer_input ≡ r.1.buffer_input → Ended bytes (more t))
      → Ended bytes (go_handled more r)
  handled-Ended bytes more (ok u, s) k = k s refl
  handled-Ended bytes more (fail, s) k = k s refl
  handled-Ended bytes more (throws, s) k = tt
  handled-Ended bytes more (undefined, s) k = tt

  decoded-Ended :
      (n : ℕ) (s : Session) (r : Outcome Packet × Buffer) (more : Session → Run)
      → Leaves n s.buffer_input r
      → ((t : Session) → Enough n t.buffer_input → Ended t.buffer_input.bytes (more t))
      → Ended s.buffer_input.bytes (go_decoded server more s r)
  decoded-Ended n s (ok p, b) more (enough, e) k =
      let kept = handle_by-Keeps s.packet_handler server p keeps (with_input b s) in
      handled-Ended s.buffer_input.bytes more (handle_by s.packet_handler server p (with_input b s))
        (λ t f.
          let same : t.buffer_input ≡ b = f ∙ kept in
          subst (λ xs. Ended xs (more t)) (ap (λ c. c.bytes) same ∙ e)
            (k t (subst (Enough n) (sym same) enough)))
  decoded-Ended n s (fail, b) more e k = inr e
  decoded-Ended n s (throws, b) more e k = tt
  decoded-Ended n s (undefined, b) more e k = tt

  pub read_loop-Ended :
      (fuel : ℕ) (s : Session)
      → Enough fuel s.buffer_input
      → Ended s.buffer_input.bytes (read_loop server amount fuel s)
  unfolding read_loop
  read_loop-Ended zero s (inl (v, small, h)) = absurd (omega (arith, v.within))
  read_loop-Ended zero s (inr (behind, small, h)) = absurd (omega arith)
  read_loop-Ended (suc n) s enough = elim (Bool-cases (remaining s.buffer_input == 0)) [
    | inl e ↦ rw e (inl refl)
    | inr e ↦ rw e (
        decoded-Ended n s (decode_by s.decoder s.buffer_input) (read_loop server amount n)
          (decode_by-Leaves n s.decoder s.buffer_input enough) (read_loop-Ended n))
  ]

module _ (server : Server) (keeps : ServerKeeps server) where
  -- On a valid input of less than 2 ^ 62 bytes, the new ones included, and where the parts of the
  -- server that the handlers call keep the input, `Session::Read` comes to its end in no more
  -- rounds than there are bytes, and two. Behind it the input is empty, or it still has all the
  -- bytes that it had with the new ones behind them, unless an exception or undefined behaviour
  -- was its end.
  pub read-Ended :
      (received : List ℕ) (fuel : ℕ) (s : Session)
      → IsValid s.buffer_input
      → size s.buffer_input + length received < input_limit
      → size s.buffer_input + length received + 2 ≤ fuel
      → Ended (s.buffer_input.bytes ++ received) (read server fuel received s)
  unfolding read
  read-Ended [] fuel s v small h = inr (sym (append-nil s.buffer_input.bytes))
  read-Ended (x ∷ xs) fuel s v small h =
      let grown : size (append (x ∷ xs) s.buffer_input) ≡ size s.buffer_input + length (x ∷ xs) =
        length-append s.buffer_input.bytes (x ∷ xs) in
      read_loop-Ended server keeps (length (x ∷ xs)) fuel
        (with_input (append (x ∷ xs) s.buffer_input) s)
        (inl (
          record { within = omega (arith, grown, v.within); fits = omega (arith, grown) },
          omega (arith, grown),
          omega (arith, grown, v.within),
        ))
