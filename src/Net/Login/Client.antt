-- ===== src/Net/Login/Client.antt =====
-- What a client writes into the blocks of a login, and that `HandleLoginWorld` reads it.
use openrs.Base.{
  ℕ, ◌+◌, ◌%◌, ◌^◌, ◌<◌, ◌≡◌, refl, ap, List, [], ◌∷◌, ◌++◌, arith, All, Option, none, some, length,
  length-append, ok, ◌==◌,
}
use openrs.Common.Buffer.Text.{IsText}
use openrs.Common.Buffer.Ahead.{
  Consumes, At-size, Consumes-bind, Consumes-then, Consumes-return, get_byte-Consumes,
  get_string-Consumes,
}
use openrs.Net.Login.Block.{skip, skip_string_if, skip_settings}

-- What the server passes over, in its order.
pub record Settings : Type 0 where
  pub byte : ℕ
  pub bytes : List ℕ
  pub settings : List ℕ
  pub int_1 : List ℕ
  pub block : List ℕ
  pub int_2 : List ℕ
  pub long : List ℕ
  pub additional_info : Option (List ℕ)
  pub byte_1 : ℕ
  pub byte_2 : ℕ
  pub byte_3 : ℕ
  pub byte_4 : ℕ
  pub int_3 : List ℕ
  pub string : List ℕ
  pub last_byte : ℕ

abbrev pub IsInfo : Option (List ℕ) → Type 0
IsInfo none = Unit {0}
IsInfo (some text) = All IsText text

pub record Fits (x : Settings) : Type 0 where
  pub bytes : length x.bytes ≡ 24
  pub settings : All IsText x.settings
  pub int_1 : length x.int_1 ≡ 4
  pub block : length x.block < 256
  pub int_2 : length x.int_2 ≡ 4
  pub long : length x.long ≡ 8
  pub additional_info : IsInfo x.additional_info
  pub int_3 : length x.int_3 ≡ 4
  pub string : All IsText x.string

abbrev pub text_bytes : List ℕ → List ℕ
text_bytes s = s ++ 0 ∷ []

abbrev pub info_bytes : Option (List ℕ) → List ℕ
info_bytes none = []
info_bytes (some text) = text_bytes text

abbrev pub info_flag : Option (List ℕ) → ℕ
info_flag none = 0
info_flag (some text) = 1

abbrev pub settings_bytes : Settings → List ℕ
settings_bytes x =
    x.byte ∷ []
    ++ (x.bytes
        ++ (text_bytes x.settings
            ++ (x.int_1
                ++ (length x.block ∷ []
                    ++ (x.block
                        ++ (x.int_2
                            ++ (x.long
                                ++ (info_flag x.additional_info ∷ []
                                    ++ (info_bytes x.additional_info
                                        ++ (x.byte_1 ∷ []
                                            ++ (x.byte_2 ∷ []
                                                ++ (x.byte_3 ∷ []
                                                    ++ (x.byte_4 ∷ []
                                                        ++ (x.int_3
                                                            ++ (text_bytes x.string
                                                            ++ x.last_byte ∷ [])))))))))))))))

pub skip-Consumes : (n : ℕ) (xs : List ℕ) → length xs ≡ n → Consumes (skip n) xs tt
unfolding skip
skip-Consumes n xs e = record {
  run = λ b rest h.
      ap (λ p. (ok tt, record b { position = p })) {x = (b.position + n) % 2 ^ 64}
        (omega (arith, h.room, At-size b (xs ++ rest) h, length-append xs rest, e));
}

skip_string_if-Consumes :
    (info : Option (List ℕ))
    → IsInfo info
    → Consumes (skip_string_if (info_flag info == 1)) (info_bytes info) tt
unfolding skip_string_if
skip_string_if-Consumes none h = Consumes-return tt
skip_string_if-Consumes (some text) h = record {
  run = λ b rest at. rw ((get_string-Consumes text h).run b rest at) refl;
}

pub skip_settings-Consumes : (x : Settings) → Fits x → Consumes skip_settings (settings_bytes x) tt
unfolding skip_settings
skip_settings-Consumes x f = Consumes-then _ _ _ _ _ (skip-Consumes 1 (x.byte ∷ []) refl) (
    Consumes-then _ _ _ _ _ (skip-Consumes 24 x.bytes f.bytes) (
      Consumes-bind _ _ _ _ _ _ (get_string-Consumes x.settings f.settings) (
        Consumes-then _ _ _ _ _ (skip-Consumes 4 x.int_1 f.int_1) (
          Consumes-bind _ _ _ _ _ _ (get_byte-Consumes (length x.block)) (
            Consumes-then _ _ _ _ _ (skip-Consumes (length x.block) x.block refl) (
              Consumes-then _ _ _ _ _ (skip-Consumes 4 x.int_2 f.int_2) (
                Consumes-then _ _ _ _ _ (skip-Consumes 8 x.long f.long) (
                  Consumes-bind _ _ _ _ _ _ (get_byte-Consumes (info_flag x.additional_info)) (
                    Consumes-then _ _ _ _ _
                      (skip_string_if-Consumes x.additional_info f.additional_info)
                      (Consumes-then _ _ _ _ _ (skip-Consumes 1 (x.byte_1 ∷ []) refl) (
                        Consumes-then _ _ _ _ _ (skip-Consumes 1 (x.byte_2 ∷ []) refl) (
                          Consumes-then _ _ _ _ _ (skip-Consumes 1 (x.byte_3 ∷ []) refl) (
                            Consumes-then _ _ _ _ _ (skip-Consumes 1 (x.byte_4 ∷ []) refl) (
                              Consumes-then _ _ _ _ _ (skip-Consumes 4 x.int_3 f.int_3) (
                                Consumes-bind _ _ _ _ _ _ (get_string-Consumes x.string f.string)
                                  (skip-Consumes 1 (x.last_byte ∷ []) refl))))))))))))))))
