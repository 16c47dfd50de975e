-- ===== src/AsciiConvert/Overread.antt =====
-- Texts that `binary_to_string` reads behind their end.
use os_study.Prelude.{
  ℕ, zero, suc, ◌+◌, ◌*◌, ◌/◌, ◌⊎◌, inl, inr, ◌%◌, ◌≤◌, ◌<◌, ◌≡◌, refl, ap, ◌∙◌, arith, none, some,
  [], ◌∷◌, ◌++◌, length, lt→ltb,
}
use os_study.AsciiConvert.{Text, char_at, set_bit, byte_loop, string_loop, binary_to_string}

char_at_within : (str : Text) (i : ℕ) → i ≤ length str → (c : ℕ) × (char_at str i ≡ some c)
unfolding char_at
char_at_within [] zero h = (0, refl)
char_at_within [] (suc i) h = absurd (omega (arith, h))
char_at_within (c ∷ str) zero h = (c, refl)
char_at_within (c ∷ str) (suc i) h = char_at_within str i (omega (arith, h))

char_at_beyond : (str : Text) (i : ℕ) → length str < i → char_at str i ≡ none
unfolding char_at
char_at_beyond [] zero h = absurd (omega (arith, h))
char_at_beyond [] (suc i) h = refl
char_at_beyond (c ∷ str) zero h = absurd (omega (arith, h))
char_at_beyond (c ∷ str) (suc i) h = char_at_beyond str i (omega (arith, h))

order : (a b : ℕ) → (a ≤ b) ⊎ (b < a)
order a b = omega arith

byte_loop-some :
    (str : Text) (i j k c : ℕ) (ch : ℕ)
    → char_at str (i + j) ≡ some ch
    → byte_loop str i j (suc k) c ≡ byte_loop str i (j + 1) k (set_bit j ch c)
unfolding byte_loop
byte_loop-some str i j k c ch e =
    ap (λ o. elim o [ none ↦ none | some x ↦ byte_loop str i (j + 1) k (set_bit j x c) ]) e

byte_loop-none :
    (str : Text) (i j k c : ℕ) → char_at str (i + j) ≡ none → byte_loop str i j (suc k) c ≡ none
unfolding byte_loop
byte_loop-none str i j k c e =
    ap (λ o. elim o [ none ↦ none | some x ↦ byte_loop str i (j + 1) k (set_bit j x c) ]) e

byte_loop_within :
    (str : Text) (i j k c : ℕ)
    → i + j + k ≤ suc (length str)
    → (c' : ℕ) × (byte_loop str i j k c ≡ some c')
byte_loop_within str i j zero c h = unfold byte_loop in (c, refl)
byte_loop_within str i j (suc k) c h =
    let (ch, e) = char_at_within str (i + j) (omega (arith, h)) in
    let (c', e') = byte_loop_within str i (j + 1) k (set_bit j ch c) (omega (arith, h)) in
    (c', byte_loop-some str i j k c ch e ∙ e')

-- From a character that is there on, past the NUL.
byte_loop_beyond :
    (str : Text) (i j k c : ℕ)
    → i + j ≤ suc (length str)
    → suc (length str) < i + j + k
    → byte_loop str i j k c ≡ none
byte_loop_beyond str i j zero c h b = absurd (omega (arith, h, b))
byte_loop_beyond str i j (suc k) c h b = elim (order (i + j) (length str)) [
  | inl within ↦
      let (ch, e) = char_at_within str (i + j) within in
      byte_loop-some str i j k c ch e
      ∙ byte_loop_beyond str i (j + 1) k (set_bit j ch c) (omega (arith, within)) (omega (arith, b))
  | inr beyond ↦ byte_loop-none str i j k c (char_at_beyond str (i + j) beyond)
]

-- `r` characters are left over.
string_loop_beyond :
    (k : ℕ) (str : Text) (i : ℕ) (result : Text) (q r : ℕ)
    → length str ≡ i + 8 * q + r
    → 1 ≤ r
    → r ≤ 6
    → q < k
    → string_loop k str i result ≡ none
unfolding string_loop
string_loop_beyond zero str i result q r e lo hi h = absurd (omega (arith, h))
string_loop_beyond (suc k) str i result zero r e lo hi h =
    rw
      (
        lt→ltb i (length str) (omega (arith, e)),
        byte_loop_beyond str i 0 8 0 (omega (arith, e)) (omega (arith, e)),
      )
      refl
string_loop_beyond (suc k) str i result (suc q) r e lo hi h =
    let (c, read) = byte_loop_within str i 0 8 0 (omega (arith, e)) in
    rw (lt→ltb i (length str) (omega (arith, e)), read)
      (string_loop_beyond k str (i + 8) (result ++ c ∷ []) q r (omega (arith, e)) lo hi
        (omega (arith, h)))

-- Decoding a text of 1 to 6 characters more than a multiple of 8 reads behind the NUL at its end.
pub binary_to_string-overread :
    (str : Text) → 1 ≤ length str % 8 → length str % 8 ≤ 6 → binary_to_string str ≡ none
unfolding binary_to_string
binary_to_string-overread str lo hi =
    string_loop_beyond (length str) str 0 [] (length str / 8) (length str % 8) (omega arith) lo hi
      (omega (arith, lo))
