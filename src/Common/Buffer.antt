-- ===== src/Common/Buffer.antt =====
-- common/include/openrs/common/io/buffer.h: a byte vector with a read position.
-- `size_t` has 64 bits and the host is little endian. A pointer that `GetData` returns is the list
-- of the bytes behind it. The `Put` functions return true on every path: the model returns the
-- buffer alone.
pub mod Read
pub mod Write
pub mod Text
pub mod Ahead
pub mod BitSet
use openrs.Base.{
  ℕ, zero, suc, ◌+◌, ◌-◌, ◌*◌, ◌/◌, ◌%◌, ◌^◌, List, [], ◌∷◌, ◌++◌, Option, none, some, Bool, ◌||◌,
  ltb, leb, ◌==◌, if◌then◌else◌, length, take, drop, M, Outcome, ok, fail, throws, undefined, ◌>>=◌,
  return,
}
use openrs.Base.Bytes.{le_bytes, be_bytes, le_value, be_value}

abbrev pub size_mod : ℕ
size_mod = 2 ^ 64

pub record Buffer : Type 0 where
  pub bytes : List ℕ
  pub position : ℕ

abbrev pub empty : Buffer
empty = record { bytes = []; position = 0 }

-- A buffer that holds `bytes` and has not been read.
abbrev pub fresh : List ℕ → Buffer
fresh bytes = record { bytes = bytes; position = 0 }

abbrev pub size : Buffer → ℕ
size b = length b.bytes

-- `position_ += n` on a `size_t`.
abbrev pub advance : ℕ → Buffer → Buffer
advance n b = record b { position = (b.position + n) % size_mod }

-- `GetData` for a type of n bytes. `at` throws where the check passes only because the sum wraps.
unfoldable pub get_data : ℕ → M Buffer (List ℕ)
get_data n b =
    if ltb (size b) ((b.position + n) % size_mod)
    then (fail, b)
    else (if ltb b.position (size b)
        then (ok (take n (drop b.position b.bytes)), advance n b)
        else (throws, b))

-- A pointer to an integer of n bytes, dereferenced; and the same behind `be16toh` and its like.
unfoldable pub get_le : ℕ → M Buffer ℕ
get_le n = do bs ← get_data n; return (le_value bs)

unfoldable pub get_be : ℕ → M Buffer ℕ
get_be n = do bs ← get_data n; return (be_value bs)

unfoldable pub get_tri_byte : M Buffer ℕ
unfolding get_be
get_tri_byte = get_be 3

abbrev pub ends_string : ℕ → Bool
ends_string c = c == b'\n' || c == 0

-- The `while` of `GetString(char**)`: `c` was read last, and the list is what follows it.
unfoldable pub get_string_loop : ℕ → List ℕ → M Buffer (Unit {0})
get_string_loop c [] b = if ends_string c then (ok tt, b) else (fail, b)
get_string_loop c (d ∷ rest) b =
    if ends_string c then (ok tt, b) else get_string_loop d rest (advance 1 b)

-- The text at a `char*`, up to its first zero; `none` where the bytes end before one.
unfoldable pub c_str : List ℕ → Option (List ℕ)
c_str [] = none
c_str (c ∷ cs) =
    let rest = c_str cs in
    if c == 0 then some [] else elim rest [ none ↦ none | some s ↦ some (c ∷ s) ]

abbrev pub assign_c_str : List ℕ → M Buffer (List ℕ)
assign_c_str bytes b = elim (c_str bytes) [ none ↦ (undefined, b) | some s ↦ (ok s, b) ]

abbrev pub head_or_zero : List ℕ → ℕ
head_or_zero [] = 0
head_or_zero (c ∷ _) = c

-- `GetString(std::string*)`, which goes by `GetString(char**)`.
unfoldable pub get_string : M Buffer (List ℕ)
unfolding get_string_loop c_str
get_string b =
    (do
      first ← get_data 1
      _ ← get_string_loop (head_or_zero first) (drop (b.position + 1) b.bytes)
      assign_c_str (drop b.position b.bytes))
      b

abbrev pub append : List ℕ → Buffer → Buffer
append bs b = record b { bytes = b.bytes ++ bs }

-- `PutData` of an integer of n bytes.
unfoldable pub put_data : ℕ → ℕ → Buffer → Buffer
put_data n v b = append (le_bytes n v) b

unfoldable pub put_data_be : ℕ → ℕ → Buffer → Buffer
put_data_be n v b = append (be_bytes n v) b

unfoldable pub put_data_le : ℕ → ℕ → Buffer → Buffer
put_data_le n v b = append (le_bytes n v) b

-- `PutString(const std::string&)`.
unfoldable pub put_string : List ℕ → Buffer → Buffer
unfolding put_data
put_string [] b = put_data 1 0 b
put_string (c ∷ cs) b = put_string cs (put_data 1 c b)

-- `PutString(char*)` reads `index` once and never moves it: `none` where the fuel runs out.
unfoldable pub put_c_string : ℕ → List ℕ → Buffer → Option Buffer
unfolding put_data
put_c_string zero input b = none
put_c_string (suc fuel) input b =
    let more = put_c_string fuel input (put_data 1 (head_or_zero input) b) in
    if ends_string (head_or_zero input) then some (put_data 1 0 b) else more

-- `PutSmartBE` for an unsigned type of n bytes.
unfoldable pub put_smart_be : ℕ → ℕ → Buffer → Buffer
unfolding put_data_be
put_smart_be n v b = if leb 127 v then put_data_be n (v + 32768) b else put_data_be 1 v b

-- `ShiftNegative` and `ShiftPositive` for an unsigned type of n bytes. The difference may be
-- negative before it is cut to the type, hence the added modulus.
unfoldable pub shift_negative : ℕ → ℕ → ℕ → ℕ
shift_negative n v shift = (v - v % 256 + (256 ^ n + shift - v % 256)) % 256 ^ n

unfoldable pub shift_positive : ℕ → ℕ → ℕ → ℕ
shift_positive n v shift = (v - v % 256 + (shift + v % 256) % 256) % 256 ^ n

unfoldable pub put_shifted_neg_data_be : ℕ → ℕ → Buffer → Buffer
unfolding put_data_be shift_negative
put_shifted_neg_data_be n v = put_data_be n (shift_negative n v 128)

unfoldable pub put_shifted_neg_data_le : ℕ → ℕ → Buffer → Buffer
unfolding put_data_le shift_negative
put_shifted_neg_data_le n v = put_data_le n (shift_negative n v 128)

unfoldable pub put_shifted_pos_data_be : ℕ → ℕ → Buffer → Buffer
unfolding put_data_be shift_positive
put_shifted_pos_data_be n v = put_data_be n (shift_positive n v 128)

unfoldable pub put_shifted_pos_data_le : ℕ → ℕ → Buffer → Buffer
unfolding put_data_le shift_positive
put_shifted_pos_data_le n v = put_data_le n (shift_positive n v 128)

-- `p[i + 1], p[i]` for even i upwards, and `p[i - 2], p[i - 1]` from the end downwards.
unfoldable pub swap_pairs : List ℕ → List ℕ
swap_pairs [] = []
swap_pairs (a ∷ []) = a ∷ []
swap_pairs (a ∷ b ∷ rest) = b ∷ a ∷ swap_pairs rest

unfoldable pub reverse_pairs : List ℕ → List ℕ
reverse_pairs [] = []
reverse_pairs (a ∷ []) = a ∷ []
reverse_pairs (a ∷ b ∷ rest) = reverse_pairs rest ++ a ∷ b ∷ []

unfoldable pub put_data_vbe : ℕ → ℕ → Buffer → Buffer
unfolding swap_pairs
put_data_vbe n v b = append (swap_pairs (le_bytes n v)) b

unfoldable pub put_data_vle : ℕ → ℕ → Buffer → Buffer
unfolding reverse_pairs
put_data_vle n v b = append (reverse_pairs (le_bytes n v)) b

-- `vector::erase` up to a position behind the end is undefined.
unfoldable pub clear_old_data : M Buffer (Unit {0})
clear_old_data b =
    if ltb (size b) b.position
    then (undefined, b)
    else (ok tt, record { bytes = drop b.position b.bytes; position = 0 })

pub data Direction : Type 0 where
  seek_set seek_end seek_cur : Direction

-- The offset is a `size_t`: -1 is passed as 2 ^ 64 - 1.
unfoldable pub seek : Direction → ℕ → Buffer → Buffer
seek seek_set offset b = record b { position = offset }
seek seek_end offset b = record b { position = (size b + size_mod - offset) % size_mod }
seek seek_cur offset b = advance offset b

abbrev pub clear : Buffer → Buffer
clear b = empty

unfoldable pub remaining : Buffer → ℕ
remaining b = (size b + size_mod - b.position) % size_mod
