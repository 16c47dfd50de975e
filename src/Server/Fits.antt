-- ===== src/Server/Fits.antt =====
-- Texts that fit `send_buffer`.
use os_study.Prelude.{
  ℕ, zero, suc, ◌+◌, ◌-◌, ◌*◌, ◌/◌, ◌%◌, ◌^◌, ◌≤◌, ◌<◌, ◌≡◌, arith, Option, none, some, List, [],
  ◌∷◌, ◌++◌, All, length, length-append, ltb, codes, Bool-cases, false, ltb→lt, lt→ltb, inl, inr,
}
use os_study.CLib.Decimal.{digits, print_int}
use os_study.Http.Types.{buffsize, lf}
use os_study.Server.World.{Text, Opened, Os}
use os_study.Server.Reply.{status_line, crlf}
use os_study.Server.Worker.{print_signed, statistics_text}

div_lt : (n p : ℕ) → n < 10 * p → n / 10 < p
div_lt n p h = omega arith

-- 10 ^ (j + 1)
abbrev pow10 : ℕ → ℕ
pow10 zero = 10
pow10 (suc j) = 10 * pow10 j

-- A number below 10 ^ (j + 1) has j + 1 digits at most.
digits-length :
    (j k n : ℕ) (acc : Text) → n < pow10 j → length (digits k n acc) ≤ suc j + length acc
unfolding digits
digits-length j zero n acc h = omega arith
digits-length zero (suc k) n acc h = rw (lt→ltb n 10 h) (omega arith)
digits-length (suc j) (suc k) n acc h =
    let rest = digits-length j k (n / 10) ((b'0' + n % 10) ∷ acc) (div_lt n (pow10 j) h) in
    elim (Bool-cases (ltb n 10)) [ inl e ↦ rw e (omega arith) | inr e ↦ rw e (omega (arith, rest)) ]

print_int-length : (j n : ℕ) → n < pow10 j → length (print_int n) ≤ suc j
unfolding print_int
print_int-length j n h = omega (arith, digits-length j (n + 1) n [] h)

not_lt : (w : ℕ) → ltb w (2 ^ 31) ≡ false → 2 ^ 31 ≤ w
not_lt w e = ground arith

print_signed-length : (w : ℕ) → length (print_signed w) ≤ 11
print_signed-length w = elim (Bool-cases (ltb w (2 ^ 31))) [
  | inl e ↦ rw e (omega (arith, print_int-length 9 w (omega (arith, ltb→lt w (2 ^ 31) e))))
  | inr e ↦ rw e (omega (arith, print_int-length 9 (2 ^ 32 - w) (omega (arith, not_lt w e))))
]

pub statistics_text-fits : (n : ℕ) → length (statistics_text n) < 4096
statistics_text-fits n =
    omega (arith, print_signed-length n, length-append {0} (print_signed n) (lf ∷ []))

pub status_line-fits :
    (code : ℕ) (reason : Text)
    → code / 100 ≤ 5
    → length reason < 4096
    → length (status_line code reason) < buffsize
status_line-fits code reason c h = omega (
  arith,
  h,
  length-append {0} (print_int code) (codes " " ++ (reason ++ crlf)),
  length-append {0} reason crlf,
  print_int-length 2 code (omega arith),
)

pub append-fits : (t u : Text) → length t < 4096 → length u < 4096 → length (t ++ u) < buffsize
append-fits t u h k = omega (arith, length-append {0} t u)

abbrev pub OpenedFits : Opened → Type 0
OpenedFits (Opened.opened reads) = Unit
OpenedFits (Opened.denied mesg) = length mesg < 4096
OpenedFits (Opened.refused mesg) = length mesg < 4096

abbrev pub MessageFits : Option Text → Type 0
MessageFits none = Unit
MessageFits (some mesg) = length mesg < 4096

abbrev pub NamesFit : Option (List Text) → Type 0
NamesFit none = Unit
NamesFit (some names) = All (λ n. length n < 4096) names

-- The texts of the operating system are short: `NAME_MAX` is 255, and `strerror` gives a phrase.
pub record OsFits (os : Os) : Type 0 where
  pub null : length os.null_text < 4096
  pub names : (path : Text) → NamesFit (os.opendir path)
  pub missing : (path : Text) → MessageFits (os.faccessat path)
  pub errors : (path : Text) → OpenedFits (os.open_rdonly path)
