-- ===== src/CLib/Buffer.antt =====
-- Char buffers as functions from offsets to bytes, and the functions of <string.h> and
-- <strings.h> over them. A buffer's size is checked where the code writes.
use os_study.Prelude.{
  ℕ, zero, suc, ◌+◌, ◌≤◌, ◌<◌, ◌≡◌, refl, Bool, true, ◌&&◌, Option, none, some, List, [], ◌∷◌,
  arith, leb, ◌==◌, if◌then◌else◌, length,
}

abbrev pub Buffer : Type 0
Buffer = ℕ → ℕ

-- What `calloc` returns.
abbrev pub zeroed : Buffer
zeroed i = 0

-- `b[i] = v`
abbrev pub update : Buffer → ℕ → ℕ → Buffer
update b i v j = if i == j then v else b j

-- The bytes `xs` stored from offset `i` on.
unfoldable pub load : Buffer → ℕ → List ℕ → Buffer
load b i [] = b
load b i (x ∷ xs) = load (update b i x) (i + 1) xs

pub load-eq_of_lt : (b : Buffer) (i : ℕ) (xs : List ℕ) (j : ℕ) → j < i → load b i xs j ≡ b j
unfolding load
load-eq_of_lt b i [] j h = refl
load-eq_of_lt b i (x ∷ xs) j h = ground (arith, load-eq_of_lt (update b i x) (i + 1) xs j)

load-eq_of_le : (b : Buffer) (i : ℕ) (xs : List ℕ) (j : ℕ) → i + length xs ≤ j → load b i xs j ≡ b j
unfolding load
load-eq_of_le b i [] j h = refl
load-eq_of_le b i (x ∷ xs) j h = ground (arith, load-eq_of_le (update b i x) (i + 1) xs j)

-- The C string at an offset: the bytes up to the first NUL, of the next `k` bytes at most.
unfoldable pub c_string : ℕ → Buffer → ℕ → List ℕ
c_string zero b i = []
c_string (suc k) b i = let rest = c_string k b (i + 1) in if b i == 0 then [] else b i ∷ rest

-- tolower of <ctype.h>, over ASCII
unfoldable pub to_lower : ℕ → ℕ
to_lower c = if leb b'A' c && leb c b'Z' then c + 32 else c

-- `strncasecmp(s, b + i, n) == 0`, for a literal `s` (which holds no NUL)
unfoldable pub strncasecmp_eq : List ℕ → Buffer → ℕ → ℕ → Bool
strncasecmp_eq s b i zero = true
strncasecmp_eq [] b i (suc n) = b i == 0
strncasecmp_eq (c ∷ s) b i (suc n) = to_lower c == to_lower (b i) && strncasecmp_eq s b (i + 1) n

-- The offset of the first `ch` among the `k` bytes from `i` on.
unfoldable pub find_char : ℕ → ℕ → Buffer → ℕ → Option ℕ
find_char ch zero b i = none
find_char ch (suc k) b i = let rest = find_char ch k b (i + 1) in if b i == ch then some i else rest
