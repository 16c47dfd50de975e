-- ===== src/AsciiConvert/Bits.antt =====
-- `string_to_binary` and `binary_to_string` between the strings of bytes and the texts of '0' and '1'
-- that are whole bytes long.
use Prim.Native.Nat.{bit_and}
use mathlib.Core.HLevel.{Σ_prop_path, ×_prop}
use native.Mathlib.Bridge.{le_prop}
use native.Mathlib.Nat.{ℕ_set}
use std.Equiv.{Iso, iso_to_equiv}
use std.Univalence.{iso_to_path, ua-β, ua-β⁻¹}
use std.Path.{transport, transport⁻¹}
use os_study.Prelude.{
  ℕ, ◌%◌, ◌≡◌, refl, sym, ap, ap₂, ◌∙◌, arith, Bool, true, false, some, some_inj, [], ◌∷◌, ◌++◌,
  length, length-append, All, All-append, ◌==◌, if◌then◌else◌,
}
use os_study.AsciiConvert.{Text, mask_loop, string_to_binary, binary_to_string}
use os_study.AsciiConvert.Octets.{IsDigit, digits_octet}
use os_study.AsciiConvert.RoundTrip.{
  IsByte, digit, packed, length-mask_loop, binary_to_string-string_to_binary,
}

-- The strings that `string_to_binary` takes, and the texts that it makes.
abbrev pub ByteString : Type 0
ByteString = (str : Text) × All IsByte str

pub record IsBits (str : Text) : Type 0 where
  pub digits : All IsDigit str
  pub whole : length str % 8 ≡ 0

abbrev pub BitString : Type 0
BitString = (str : Text) × IsBits str

-- Eight characters to a byte.
pack : Text → Text
pack (a ∷ b ∷ c ∷ d ∷ e ∷ f ∷ g ∷ h ∷ rest) = packed a b c d e f g h ∷ pack rest
pack _ = []

string_to_binary-pack :
    (t : Text)
    → All IsDigit t
    → length t % 8 ≡ 0
    → All IsByte (pack t) × (string_to_binary (pack t) ≡ t)
unfolding pack string_to_binary
string_to_binary-pack (a ∷ b ∷ c ∷ d ∷ e ∷ f ∷ g ∷ h ∷ t) i n =
    let (ia, (ib, (ic, (id, (ie, (if', (ig, (ih, more)))))))) = i in
    let (small, same) = digits_octet a b c d e f g h ia ib ic id ie if' ig ih in
    let (smalls, sames) = string_to_binary-pack t more (omega (arith, n)) in
    ((small, smalls), ap₂ (λ (front rest : Text). front ++ rest) same sames)
string_to_binary-pack [] i n = (tt, refl)
string_to_binary-pack _ i n = absurd (omega (arith, n))

-- What `string_to_binary` makes is in order.
digits_of : (c : ℕ) → All IsDigit (mask_loop 9 128 c)
unfolding mask_loop
digits_of c = (at 128, (at 64, (at 32, (at 16, (at 8, (at 4, (at 2, (at 1, tt))))))))
  where
    either : (x : Bool) → IsDigit (if x then b'0' else b'1')
    either true = refl
    either false = refl

    at : (mask : ℕ) → IsDigit (digit c mask)
    at mask = either (bit_and c mask == 0)

string_to_binary-IsBits : (str : Text) → IsBits (string_to_binary str)
unfolding string_to_binary
string_to_binary-IsBits [] = record { digits = tt; whole = refl }
string_to_binary-IsBits (c ∷ str) =
    let bits = string_to_binary-IsBits str in
    let rest = string_to_binary str in
    record {
      digits = All-append IsDigit (mask_loop 9 128 c) rest (digits_of c) bits.digits;
      whole =
          omega (arith, bits.whole, length-append {0} (mask_loop 9 128 c) rest, length-mask_loop c);
    }

packed_bits : (t : BitString) → All IsByte (pack t.0) × (string_to_binary (pack t.0) ≡ t.0)
packed_bits (t, bits) = string_to_binary-pack t bits.digits bits.whole

binary_to_string-pack : (t : BitString) → binary_to_string t.0 ≡ some (pack t.0)
binary_to_string-pack t =
    let (bytes, back) = packed_bits t in
    ap binary_to_string (sym back) ∙ binary_to_string-string_to_binary (pack t.0) bytes

All-prop : (P : ℕ → Type 0) → ((c : ℕ) → IsProp (P c)) → (t : Text) → IsProp (All P t)
All-prop P h [] = hlevel
All-prop P h (c ∷ t) = ×_prop (h c) (All-prop P h t)

IsBits-prop : (t : Text) → IsProp (IsBits t)
IsBits-prop t b b' = λ i. record {
  digits = All-prop IsDigit (λ c. hlevel) t b.digits b'.digits i;
  whole = ℕ_set _ _ b.whole b'.whole i;
}

conversion : Iso ByteString BitString
conversion = record {
  fun = λ s. (string_to_binary s.0, string_to_binary-IsBits s.0);
  inv = λ t. (pack t.0, (packed_bits t).0);
  rinv = λ t. Σ_prop_path IsBits-prop (packed_bits t).1;
  linv = λ s. Σ_prop_path (All-prop IsByte λ c. le_prop) (
      some_inj.0 (
        sym (binary_to_string-pack (string_to_binary s.0, string_to_binary-IsBits s.0))
        ∙ binary_to_string-string_to_binary s.0 s.1));
}

-- Encoding is an equality of types between the strings of bytes and the texts of '0' and '1' that are
-- whole bytes long: `string_to_binary` takes a string along it, `binary_to_string` takes a text back
-- along it, and reads nothing behind the text's end.
pub bytes-bits :
    (e : ByteString ≡ BitString) × ((s : ByteString) → (transport e s).0 ≡ string_to_binary s.0)
    × ((t : BitString) → binary_to_string t.0 ≡ some (transport⁻¹ e t).0)
unfolding conversion
bytes-bits = (
  iso_to_path conversion,
  λ s. ap (λ (t : BitString). t.0) (ua-β (iso_to_equiv conversion) s),
  λ t.
      binary_to_string-pack t
      ∙ ap (λ (s : ByteString). some s.0) (sym (ua-β⁻¹ (iso_to_equiv conversion) t)),
)
