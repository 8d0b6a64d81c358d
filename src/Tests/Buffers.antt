-- ===== src/Tests/Buffers.antt =====
-- The buffer's theorems on small buffers.
use openrs.Base.{ℕ, ◌≡◌, List, [], ◌∷◌, none, All, arith}
use openrs.Common.Buffer.{empty, put_c_string}
use openrs.Common.Buffer.Text.{IsText}
use openrs.Common.Buffer.Write.{put_c_string_loops}

abbrev pub hi : List ℕ
hi = b'h' ∷ b'i' ∷ []

pub hi-IsText : All IsText hi
hi-IsText =
    ((omega arith, ground arith, ground arith), ((omega arith, ground arith, ground arith), tt))

put_c_string_loops_example : put_c_string 3 (b'h' ∷ b'i' ∷ 0 ∷ []) empty ≡ none
put_c_string_loops_example =
    put_c_string_loops 3 (b'h' ∷ b'i' ∷ 0 ∷ []) empty (ground arith) (ground arith)
