-- ===== src/AsciiConvert/RoundTrip.antt =====
-- Decoding what was encoded.
use Prim.Native.Nat.{bit_and}
use os_study.Prelude.{
  ℕ, zero, suc, ◌+◌, ◌≤◌, ◌<◌, ◌≡◌, refl, sym, ap, ap₂, codes, ◌∙◌, arith, Bool, true, false,
  Option, none, some, List, [], ◌∷◌, ◌++◌, append_assoc, append-nil, zero-add, length,
  length-append, All, lt→ltb, ltb-eq-false, ◌==◌, ==_iff, if◌then◌else◌,
}
use os_study.AsciiConvert.{
  Text, printed, mask_loop, string_to_binary, char_at, set_bit, byte_loop, string_loop,
  binary_to_string, Output, main,
}

abbrev pub IsByte : ℕ → Type 0
IsByte c = c < 256

-- `test` accepts the bytes from 0 up to `limit`, as a computation.
accepts : (ℕ → Bool) → ℕ → Bool
accepts test zero = true
accepts test (suc limit) = if test limit then accepts test limit else false

accepted :
    (test : ℕ → Bool) (limit byte : ℕ) → byte < limit → accepts test limit ≡ true → test byte ≡ true
unfolding accepts
accepted test zero byte small ok = absurd (omega (arith, small))
accepted test (suc limit) byte small ok = ground (arith, accepted test limit byte)

-- The digit of `c` under a mask.
abbrev pub digit : ℕ → ℕ → ℕ
digit c mask = if bit_and c mask == 0 then b'0' else b'1'

mask_loop-eq :
    (c : ℕ)
    → mask_loop 9 128 c
      ≡ digit c 128
        ∷ digit c 64
        ∷ digit c 32
        ∷ digit c 16
        ∷ digit c 8
        ∷ digit c 4
        ∷ digit c 2
        ∷ digit c 1
        ∷ []
unfolding mask_loop
mask_loop-eq c = refl

-- What the loop over `j` makes of eight characters.
abbrev pub packed : (a b c d e f g h : ℕ) → ℕ
packed a b c d e f g h = set_bit 7 h (
    set_bit 6 g
      (set_bit 5 f (set_bit 4 e (set_bit 3 d (set_bit 2 c (set_bit 1 b (set_bit 0 a 0)))))))

abbrev repacked : ℕ → ℕ
repacked c =
    packed (digit c 128) (digit c 64) (digit c 32) (digit c 16) (digit c 8) (digit c 4) (digit c 2)
      (digit c 1)

table : accepts (λ byte. repacked byte == byte) 256 ≡ true
unfolding accepts
table = refl

repacked-eq : (c : ℕ) → IsByte c → repacked c ≡ c
repacked-eq c h = (==_iff (repacked c) c).0 (accepted (λ byte. repacked byte == byte) 256 c h table)

char_at-append :
    (front str : Text) (j : ℕ) → char_at (front ++ str) (length front + j) ≡ char_at str j
unfolding char_at
char_at-append [] str j = ap (char_at str) (zero-add j)
char_at-append (c ∷ front) str j =
    ap (char_at (c ∷ (front ++ str))) (shift (length front) j) ∙ char_at-append front str j
  where
    shift : (n j : ℕ) → suc n + j ≡ suc (n + j)
    shift n j = omega arith

some_cases :
    (o : Option ℕ) (f g : ℕ → Option ℕ)
    → ((ch : ℕ) → f ch ≡ g ch)
    → elim o [ none ↦ none | some ch ↦ f ch ] ≡ elim o [ none ↦ none | some ch ↦ g ch ]
some_cases none f g h = refl
some_cases (some ch) f g h = h ch

byte_loop-append :
    (front str : Text) (j k c : ℕ)
    → byte_loop (front ++ str) (length front) j k c ≡ byte_loop str 0 j k c
unfolding byte_loop
byte_loop-append front str j zero c = refl
byte_loop-append front str j (suc k) c =
    let f = λ (ch : ℕ). byte_loop (front ++ str) (length front) (j + 1) k (set_bit j ch c) in
    let g = λ (ch : ℕ). byte_loop str 0 (j + 1) k (set_bit j ch c) in
    ap (λ o. elim o [ none ↦ none | some ch ↦ f ch ])
      (char_at-append front str j ∙ ap (char_at str) (sym (zero-add j)))
    ∙ some_cases (char_at str (0 + j)) f g
        (λ ch. byte_loop-append front str (j + 1) k (set_bit j ch c))

-- The eight characters of a byte, whatever stands before and behind them.
byte_read :
    (front rest : Text) (c : ℕ)
    → IsByte c
    → byte_loop (front ++ (mask_loop 9 128 c ++ rest)) (length front) 0 8 0 ≡ some c
unfolding byte_loop
byte_read front rest c h =
    byte_loop-append front (mask_loop 9 128 c ++ rest) 0 8 0
    ∙ (ap (λ b. byte_loop (b ++ rest) 0 0 8 0) (mask_loop-eq c) ∙ ap some (repacked-eq c h))

string_loop_round :
    (k : ℕ) (str : Text) (i c : ℕ) (result : Text)
    → i < length str
    → byte_loop str i 0 8 0 ≡ some c
    → string_loop (suc k) str i result ≡ string_loop k str (i + 8) (result ++ c ∷ [])
unfolding string_loop
string_loop_round k str i c result h e = rw (lt→ltb i (length str) h, e) refl

string_loop_end :
    (k : ℕ) (str : Text) (i : ℕ) (result : Text)
    → i ≡ length str
    → string_loop k str i result ≡ some result
unfolding string_loop
string_loop_end zero str i result e = refl
string_loop_end (suc k) str i result e = rw (ltb-eq-false i (length str) (omega (arith, e))) refl

pub length-mask_loop : (c : ℕ) → length (mask_loop 9 128 c) ≡ 8
length-mask_loop c = ap length (mask_loop-eq c)

module _ (c : ℕ) (front rest : Text) where
  behind : front ++ (mask_loop 9 128 c ++ rest) ≡ (front ++ mask_loop 9 128 c) ++ rest
  behind = sym (append_assoc front (mask_loop 9 128 c) rest)

  length-behind : length front + 8 ≡ length (front ++ mask_loop 9 128 c)
  length-behind = omega (arith, length-append {0} front (mask_loop 9 128 c), length-mask_loop c)

  inside : length front < length (front ++ (mask_loop 9 128 c ++ rest))
  inside = omega (
    arith,
    length-append {0} front (mask_loop 9 128 c ++ rest),
    length-append {0} (mask_loop 9 128 c) rest,
    length-mask_loop c,
  )

string_loop-string_to_binary :
    (str front result : Text) (k : ℕ)
    → All IsByte str
    → length str ≤ k
    → string_loop k (front ++ string_to_binary str) (length front) result ≡ some (result ++ str)
unfolding string_to_binary
string_loop-string_to_binary [] front result k h fuel =
    string_loop_end k (front ++ []) (length front) result (ap length (sym (append-nil front)))
    ∙ ap some (sym (append-nil result))
string_loop-string_to_binary (c ∷ str) front result zero h fuel = absurd (omega (arith, fuel))
string_loop-string_to_binary (c ∷ str) front result (suc k) h fuel =
    let rest = string_to_binary str in
    let more = result ++ c ∷ [] in
    string_loop_round k (front ++ (mask_loop 9 128 c ++ rest)) (length front) c result
      (inside c front rest) (byte_read front rest c h.0)
    ∙ (ap₂ (λ s i. string_loop k s i more) (behind c front rest) (length-behind c front rest)
        ∙ (string_loop-string_to_binary str (front ++ mask_loop 9 128 c) more k h.1
              (omega (arith, fuel))
            ∙ ap some (append_assoc result (c ∷ []) str)))

length-string_to_binary : (str : Text) → length str ≤ length (string_to_binary str)
unfolding string_to_binary
length-string_to_binary [] = omega arith
length-string_to_binary (c ∷ str) = omega (
  arith,
  length-string_to_binary str,
  length-append {0} (mask_loop 9 128 c) (string_to_binary str),
  length-mask_loop c,
)

pub binary_to_string-string_to_binary :
    (str : Text) → All IsByte str → binary_to_string (string_to_binary str) ≡ some str
unfolding binary_to_string
binary_to_string-string_to_binary str h =
    string_loop-string_to_binary str [] [] (length (string_to_binary str)) h
      (length-string_to_binary str)

-- What the program prints for `-e` and a string of bytes, it turns back into that string for `-d`,
-- and it reads nothing behind the string's end, whatever arguments stand behind.
pub main_decodes :
    (str : Text) (args : List Text)
    → All IsByte str
    → (code : Text) × (main (codes "-e" ∷ str ∷ args) ≡ some (Output.line code))
      × (main (codes "-d" ∷ code ∷ args) ≡ some (Output.line str))
unfolding main
main_decodes str args h =
    (string_to_binary str, refl, ap printed (binary_to_string-string_to_binary str h))
