-- ===== src/CLib/Decimal.antt =====
-- `%d` of printf, for a value that is not negative.
use os_study.Prelude.{ℕ, zero, suc, ◌+◌, ◌/◌, ◌%◌, ◌≡◌, refl, List, [], ◌∷◌, ltb, if◌then◌else◌}

-- The digits of `n` in front of `acc`, with fuel above the number of digits.
unfoldable pub digits : ℕ → ℕ → List ℕ → List ℕ
digits zero n acc = acc
digits (suc k) n acc =
    let rest = digits k (n / 10) ((b'0' + n % 10) ∷ acc) in
    if ltb n 10 then (b'0' + n) ∷ acc else rest

-- `snprintf(…, "%d", n)`: `n` digits at most
unfoldable pub print_int : ℕ → List ℕ
unfolding digits
print_int n = digits (n + 1) n []

status_text : print_int 404 ≡ b'4' ∷ b'0' ∷ b'4' ∷ []
unfolding print_int
status_text = refl
