-- ===== src/AsciiConvert.antt =====
-- CXXPRIMER/ascii_convert.cpp: strings as texts of '0' and '1', and back. A `std::string` is the list
-- of its bytes; a `char` is its byte, also where the platform reads it as a negative number.
pub mod RoundTrip
pub mod Overread
pub mod Octets
pub mod Bits
use Prim.Native.Nat.{bit_and, bit_or}
use os_study.Prelude.{
  ℕ, zero, suc, ◌+◌, ◌-◌, ◌/◌, ◌^◌, ◌&&◌, Option, none, some, List, [], ◌∷◌, ◌++◌, codes, length,
  ltb, leb, ◌==◌, if◌then◌else◌,
}

abbrev pub Text : Type 0
Text = List ℕ

-- `while (mask)` over one byte, for at most `k` rounds: 8 are enough, as `mask` starts at 128.
unfoldable pub mask_loop : ℕ → ℕ → ℕ → Text
mask_loop zero mask c = []
mask_loop (suc k) mask c =
    let rest = mask_loop k (mask / 2) c in
    if mask == 0 then [] else (if bit_and c mask == 0 then b'0' else b'1') ∷ rest

unfoldable pub string_to_binary : Text → Text
string_to_binary [] = []
string_to_binary (c ∷ str) = mask_loop 9 128 c ++ string_to_binary str

-- `str[i]`: the NUL at the end, and `none` behind it.
unfoldable pub char_at : Text → ℕ → Option ℕ
char_at [] zero = some 0
char_at [] (suc i) = none
char_at (c ∷ str) zero = some c
char_at (c ∷ str) (suc i) = char_at str i

-- `if (str[i + j] == '1') c |= 1 << (7 - j)`
abbrev pub set_bit : ℕ → ℕ → ℕ → ℕ
set_bit j ch c = if ch == b'1' then bit_or c (2 ^ (7 - j)) else c

-- The loop over `j`, with `k` rounds left.
unfoldable pub byte_loop : Text → ℕ → ℕ → ℕ → ℕ → Option ℕ
unfolding char_at
byte_loop str i j zero c = some c
byte_loop str i j (suc k) c = elim (char_at str (i + j)) [
  | none ↦ none
  | some ch ↦ byte_loop str i (j + 1) k (set_bit j ch c)
]

-- The loop over `i`, for at most `k` rounds. `none` is a read behind the NUL.
unfoldable pub string_loop : ℕ → Text → ℕ → Text → Option Text
string_loop zero str i result = some result
string_loop (suc k) str i result =
    if ltb i (length str)
    then elim (byte_loop str i 0 8 0) [
      | none ↦ none
      | some c ↦ string_loop k str (i + 8) (result ++ c ∷ [])
    ]
    else some result

unfoldable pub binary_to_string : Text → Option Text
unfolding string_loop
binary_to_string str = string_loop (length str) str 0 []

-- What `main` prints: the help and status 1, or a line and status 0.
pub data Output : Type 0 where
  help : Output
  line : Text → Output

abbrev pub printed : Option Text → Option Output
printed none = none
printed (some result) = some (Output.line result)

abbrev pub convert : ℕ → Text → Option Output
convert letter str =
    if letter == b'e'
    then some (Output.line (string_to_binary str))
    else if letter == b'd'
    then printed (binary_to_string str)
    else some (Output.line [])

-- The arguments behind the program's name. Any behind the second are not read.
unfoldable pub main : List Text → Option Output
unfolding string_to_binary binary_to_string
main ((c0 ∷ c1 ∷ cs) ∷ str ∷ args) = if c0 == b'-' then convert c1 str else some Output.help
main _ = some Output.help
