-- ===== src/CLib/Strtol.antt =====
-- `strtol(s, NULL, 10)`, and the conversion of its `long` to `int`.
use os_study.Prelude.{
  ℕ, zero, suc, ◌+◌, ◌-◌, ◌*◌, ◌%◌, ◌^◌, ◌≡◌, refl, Bool, true, false, ◌&&◌, ◌||◌, List, [], ◌∷◌,
  leb, ltb, ◌==◌, if◌then◌else◌, min,
}
use os_study.Prelude.Int.{ℤ, pos, negsuc}

unfoldable is_space : ℕ → Bool
is_space c = c == 32 || (leb 9 c && leb c 13)

unfoldable is_digit : ℕ → Bool
is_digit c = leb b'0' c && leb c b'9'

-- The value of the leading digits.
unfoldable digits_value : ℕ → List ℕ → ℕ
digits_value acc [] = acc
digits_value acc (c ∷ s) =
    let rest = digits_value (acc * 10 + (c - b'0')) s in if is_digit c then rest else acc

-- LONG_MAX and LONG_MIN where the value is out of range
abbrev signed_long : Bool → ℕ → ℤ
signed_long false n = pos (min n (2 ^ 63 - 1))
signed_long true zero = pos 0
signed_long true (suc n) = negsuc (min n (2 ^ 63 - 1))

unfoldable with_sign : List ℕ → ℤ
unfolding digits_value is_digit
with_sign [] = pos 0
with_sign (c ∷ s) =
    if c == b'-'
    then signed_long true (digits_value 0 s)
    else if c == b'+'
    then signed_long false (digits_value 0 s)
    else signed_long false (digits_value 0 (c ∷ s))

unfoldable pub strtol : List ℕ → ℤ
unfolding is_space with_sign
strtol [] = pos 0
strtol (c ∷ s) = let rest = strtol s in if is_space c then rest else with_sign (c ∷ s)

-- The `int` with the low 32 bits of a `long`.
abbrev int_of_word : ℕ → ℤ
int_of_word w = if ltb w (2 ^ 31) then pos w else negsuc (2 ^ 32 - w - 1)

unfoldable pub to_int : ℤ → ℤ
to_int (pos n) = int_of_word (n % 2 ^ 32)
to_int (negsuc n) = int_of_word (2 ^ 32 - n % 2 ^ 32 - 1)

-- `int` wraps: 4294967295 is read as -1.
wraps_to_minus_one : to_int (pos 4294967295) ≡ negsuc 0
unfolding to_int
wraps_to_minus_one = refl

reads_version : strtol (b'1' ∷ b'1' ∷ b'.' ∷ []) ≡ pos 11
unfolding strtol
reads_version = refl
