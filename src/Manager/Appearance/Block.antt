-- ===== src/Manager/Appearance/Block.antt =====
-- The block of a player's appearance has its length in front.
use openrs.Base.{
  ℕ, zero, suc, ◌+◌, ◌-◌, ◌^◌, ◌%◌, ◌≤◌, ◌≡◌, refl, sym, ap, ap₂, ◌∙◌, List, [], ◌∷◌, ◌++◌,
  append-nil, append_assoc, length, length-append, set, some, take-append, drop-append, leb, true,
  arith, ◌▷◌,
}
use openrs.Game.Skills.{get_combat_level}
use openrs.Base.Bytes.{be_bytes, le_bytes, length-be_bytes, length-le_bytes}
use openrs.Common.Buffer.{Buffer, size, append, put_data, put_data_be, put_string}
use openrs.Game.Player.{Player}
use openrs.Net.Encoder.{uint8}
use openrs.Net.Encoder.Client.{read_payload, split}
use openrs.Manager.Appearance.{put_looks, get_player_appearance}

-- A buffer that grew by n bytes.
record Grown (b c : Buffer) (n : ℕ) : Type 0 where
  added : List ℕ
  is_appended : c ≡ append added b
  long : length added ≡ n

Grown-none : (b : Buffer) → Grown b b 0
Grown-none b = record {
  added = [];
  is_appended = ap (λ xs. record b { bytes = xs }) (sym (append-nil b.bytes));
  long = refl;
}

module _ {b c : Buffer} {n : ℕ} (g : Grown b c n) where
  Grown-append : (xs : List ℕ) (k : ℕ) → length xs ≡ k → Grown b (append xs c) (n + k)
  Grown-append xs k e = record {
    added = g.added ++ xs;
    is_appended =
        ap (append xs) g.is_appended
        ∙ ap (λ ys. record b { bytes = ys }) (append_assoc b.bytes g.added xs);
    long = length-append g.added xs ∙ omega (arith, g.long, e);
  }

Grown-le : {b c : Buffer} {n : ℕ} (k v : ℕ) → Grown b c n → Grown b (put_data k v c) (n + k)
unfolding put_data
Grown-le k v g = Grown-append g (le_bytes k v) k (length-le_bytes k v)

Grown-be : {b c : Buffer} {n : ℕ} (k v : ℕ) → Grown b c n → Grown b (put_data_be k v c) (n + k)
unfolding put_data_be
Grown-be k v g = Grown-append g (be_bytes k v) k (length-be_bytes k v)

Grown-size : {b c : Buffer} {n m : ℕ} → n ≡ m → Grown b c n → Grown b c m
Grown-size {b} {c} e g = record { added = g.added; is_appended = g.is_appended; long = g.long ∙ e }

Grown-string :
    (text : List ℕ) {b c : Buffer} {n : ℕ}
    → Grown b c n
    → Grown b (put_string text c) (n + (length text + 1))
unfolding put_string
Grown-string [] g = Grown-le 1 0 g
Grown-string (x ∷ text) {n = n} g =
    Grown-size {n = n + 1 + (length text + 1)} (omega arith) (Grown-string text (Grown-le 1 x g))

looks-Grown :
    {b c : Buffer} {n : ℕ} (player : Player) → Grown b c n → Grown b (put_looks player c) (n + 36)
unfolding put_looks
looks-Grown {n = n} player g = Grown-size (omega arith) (
    g
    ▷ Grown-le _ _
    ▷ Grown-le _ _
    ▷ Grown-le _ _
    ▷ Grown-le _ _
    ▷ Grown-le _ _
    ▷ Grown-le _ _
    ▷ Grown-le _ _
    ▷ Grown-le _ _
    ▷ Grown-be _ _
    ▷ Grown-le _ _
    ▷ Grown-be _ _
    ▷ Grown-be _ _
    ▷ Grown-be _ _
    ▷ Grown-be _ _
    ▷ Grown-be _ _
    ▷ Grown-le _ _
    ▷ Grown-be _ _
    ▷ Grown-le _ _
    ▷ Grown-le _ _
    ▷ Grown-le _ _
    ▷ Grown-le _ _
    ▷ Grown-le _ _
    ▷ Grown-le _ _
    ▷ Grown-le _ _
    ▷ Grown-le _ _
    ▷ Grown-le _ _
    ▷ Grown-le _ _
    ▷ Grown-be _ _)

abbrev filled : Player → Buffer → Buffer
filled player c =
    c
    ▷ put_looks player
    ▷ put_string player.username
    ▷ put_data 1 (get_combat_level player.skills)
    ▷ put_data 1 (get_combat_level player.skills)
    ▷ put_data 1 255
    ▷ put_data 1 0

filled-Grown :
    (player : Player) (c : Buffer) → Grown c (filled player c) (length player.username + 41)
filled-Grown player c =
    Grown-size {n = 0 + 36 + (length player.username + 1) + 1 + 1 + 1 + 1} (omega arith) (
      Grown-none c
      ▷ looks-Grown player
      ▷ Grown-string player.username
      ▷ Grown-le _ _
      ▷ Grown-le _ _
      ▷ Grown-le _ _
      ▷ Grown-le _ _)

set-append : (xs ys : List ℕ) (x v n : ℕ) → length xs ≡ n → set (xs ++ x ∷ ys) n v ≡ xs ++ v ∷ ys
set-append [] ys x v zero e = refl
set-append [] ys x v (suc n) e = absurd (omega arith)
set-append (y ∷ xs) ys x v zero e = absurd (omega arith)
set-append (y ∷ xs) ys x v (suc n) e = ap (◌∷◌ y) (set-append xs ys x v n (omega arith))

split_block : (block rest : List ℕ) → split (length block) (block ++ rest) ≡ some (block, rest)
unfolding split
split_block block rest =
    let enough : leb (length block) (length (block ++ rest)) ≡ true =
      ground (arith, length-append block rest) in
    rw
      (
        enough,
        take-append block rest (length block) refl,
        drop-append block rest (length block) refl,
      )
      refl

-- `GetPlayerAppearance` appends one byte and a block, whose length the byte is, so that the client takes
-- just the block off what follows. The name of the player has no more than 214 characters; the block
-- has 41 bytes more than it.
pub get_player_appearance-block :
    (player : Player) (b : Buffer)
    → length player.username ≤ 214
    → (block : List ℕ) × (get_player_appearance player b ≡ append (length block ∷ block) b)
      × (length block ≡ length player.username + 41)
      × ((rest : List ℕ)
          → read_payload uint8 0 (length block ∷ (block ++ rest)) ≡ some (block, rest))
unfolding get_player_appearance put_data le_bytes read_payload
get_player_appearance-block player b h =
    let begun = put_data 1 0 b in
    let g = filled-Grown player begun in
    let block = g.added in
    let n = size begun in
    let start : n ≡ length b.bytes + 1 = length-append b.bytes (0 ∷ []) in
    let whole = append_assoc b.bytes (0 ∷ []) block in
    let size_of : size (append block begun) - n ≡ length block =
      omega (arith, length-append begun.bytes block) in
    (
      block,
      ap (λ (c : Buffer). record c { bytes = set c.bytes (n - 1) ((size c - n) % 2 ^ 8) })
            g.is_appended
          ∙ ap₂ (λ bytes v. record b { bytes = set bytes (n - 1) (v % 2 ^ 8) }) whole size_of
          ∙ ap (λ bytes. record b { bytes = bytes })
              (set-append b.bytes block 0 (length block % 2 ^ 8) (n - 1) (omega (arith, start))
                ∙ ap (λ v. b.bytes ++ v ∷ block) {x = length block % 2 ^ 8} {y = length block}
                    (omega (arith, g.long))),
      g.long,
      split_block block,
    )
