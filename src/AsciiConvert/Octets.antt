-- ===== src/AsciiConvert/Octets.antt =====
-- Eight digits and the byte that they make.

use os_study.Prelude.{
  ℕ, ◌≡◌, refl, ap₂, Bool, true, false, ◌&&◌, ◌||◌, [], ◌∷◌, ltb, ltb→lt, ◌==◌, ==_iff, Bool-cases,
  inl, inr,
}
use os_study.AsciiConvert.{Text, mask_loop}
use os_study.AsciiConvert.RoundTrip.{IsByte, packed}

abbrev pub is_digit : ℕ → Bool
is_digit c = (c == b'0') || (c == b'1')

abbrev pub IsDigit : ℕ → Type 0
IsDigit c = is_digit c ≡ true

-- A digit is that of a Boolean.
abbrev bit : Bool → ℕ
bit true = b'1'
bit false = b'0'

digit-bit : (c : ℕ) → IsDigit c → (x : Bool) × (c ≡ bit x)
digit-bit c h = elim (Bool-cases (c == b'0')) [
  | inl e ↦ (false, (==_iff c b'0').0 e)
  | inr e ↦ (true, (==_iff c b'1').0 (rw e at h))
]

both : (a b : Bool) → (a && b) ≡ true → (a ≡ true) × (b ≡ true)
both true b h = (refl, h)
both false b h = cc h

abbrev text_eq : Text → Text → Bool
text_eq [] [] = true
text_eq (x ∷ xs) (y ∷ ys) = (x == y) && text_eq xs ys
text_eq _ _ = false

text_eq_sound : (xs ys : Text) → text_eq xs ys ≡ true → xs ≡ ys
text_eq_sound [] [] h = refl
text_eq_sound [] (y ∷ ys) h = cc h
text_eq_sound (x ∷ xs) [] h = cc h
text_eq_sound (x ∷ xs) (y ∷ ys) h =
    let (e, es) = both (x == y) (text_eq xs ys) h in
    ap₂ (λ (z : ℕ) (zs : Text). z ∷ zs) ((==_iff x y).0 e) (text_eq_sound xs ys es)

-- `test` accepts both Booleans, as a computation.
every : (Bool → Bool) → Bool
every test = test true && test false

every_sound : (test : Bool → Bool) → every test ≡ true → (x : Bool) → test x ≡ true
unfolding every
every_sound test h true = (both (test true) (test false) h).0
every_sound test h false = (both (test true) (test false) h).1

-- The byte of eight digits is below 256 and has these digits.
octet : (a b c d e f g h : Bool) → Bool
octet a b c d e f g h =
    let byte = packed (bit a) (bit b) (bit c) (bit d) (bit e) (bit f) (bit g) (bit h) in
    ltb byte 256
    && text_eq (mask_loop 9 128 byte)
        (bit a ∷ bit b ∷ bit c ∷ bit d ∷ bit e ∷ bit f ∷ bit g ∷ bit h ∷ [])

octets :
    every (λ a. every (λ b.
      every (λ c. every (λ d. every (λ e. every (λ f. every (λ g. every (octet a b c d e f g))))))))
    ≡ true
unfolding every octet mask_loop
octets = refl

octet_all : (a b c d e f g h : Bool) → octet a b c d e f g h ≡ true
octet_all a b c d e f g h =
    every_sound _
      (every_sound _
        (every_sound _
          (every_sound _
            (every_sound _ (every_sound _ (every_sound _ (every_sound _ octets a) b) c) d) e)
          f)
        g)
      h

-- The byte that eight digits make, and back.
module _ (a b c d e f g h : ℕ) where
  abbrev pub Octet : Type 0
  Octet =
      IsByte (packed a b c d e f g h)
      × (mask_loop 9 128 (packed a b c d e f g h) ≡ a ∷ b ∷ c ∷ d ∷ e ∷ f ∷ g ∷ h ∷ [])

pub digits_octet :
    (a b c d e f g h : ℕ)
    → IsDigit a
    → IsDigit b
    → IsDigit c
    → IsDigit d
    → IsDigit e
    → IsDigit f
    → IsDigit g
    → IsDigit h
    → Octet a b c d e f g h
unfolding octet
digits_octet a b c d e f g h ia ib ic id ie if' ig ih =
    let (a', ea) = digit-bit a ia in
    let (b', eb) = digit-bit b ib in
    let (c', ec) = digit-bit c ic in
    let (d', ed) = digit-bit d id in
    let (e', ee) = digit-bit e ie in
    let (f', ef) = digit-bit f if' in
    let (g', eg) = digit-bit g ig in
    let (h', eh) = digit-bit h ih in
    let (small, same) = both _ _ (octet_all a' b' c' d' e' f' g' h') in
    rw (ea, eb, ec, ed, ee, ef, eg, eh) (ltb→lt _ _ small, text_eq_sound _ _ same)
