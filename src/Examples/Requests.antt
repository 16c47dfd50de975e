-- ===== src/Examples/Requests.antt =====
-- Request lines.
use os_study.Prelude.{
  ℕ, zero, suc, ◌≡◌, ◌≢◌, ◌↔◌, refl, arith, ap, true, [], ◌∷◌, ◌++◌, codes, length,
}
use os_study.CLib.Buffer.{zeroed, load}
use os_study.Http.Types.{HttpMethod, blank_req, is_valid}
use os_study.Http.Method.{parse_method}
use os_study.Http.Method.Prefix.{classify, parse_method-three, parse_method-short}
use os_study.Http.ReadLine.{Reader, Reading, start, read_request_line}
use os_study.Http.ReadLine.Phases.{IsToken}
use os_study.Http.ReadLine.Grammar.{Accepts, read_request_line_iff}
use os_study.Http.ReadLine.Bounds.{method_overflow, read_request_line-ne-overrun}
use os_study.Server.World.{Text}
use os_study.Examples.Data.{get_a, get_a-fits}

abbrev reader_of : Reading → Reader
reader_of (Reading.line t rest) = t
reader_of (Reading.error t rest) = t
reader_of Reading.overrun = start zeroed blank_req

abbrev got : Reader
got = reader_of (read_request_line zeroed blank_req get_a)

read_request_line_iff_example :
    (read_request_line zeroed blank_req get_a ≡ Reading.line got [])
    ↔ Accepts zeroed blank_req get_a got []
read_request_line_iff_example = read_request_line_iff zeroed blank_req get_a got []

read_request_line-ne-overrun_example : read_request_line zeroed blank_req get_a ≢ Reading.overrun
read_request_line-ne-overrun_example =
    read_request_line-ne-overrun zeroed blank_req get_a get_a-fits

-- `n` times the letter A
unfoldable letters : ℕ → Text
letters zero = []
letters (suc n) = b'A' ∷ letters n

length-letters : (n : ℕ) → length (letters n) ≡ n
unfolding letters
length-letters zero = refl
length-letters (suc n) = ap suc (length-letters n)

letter_valid : is_valid b'A' ≡ true
unfolding is_valid
letter_valid = refl

letters-IsToken : (n : ℕ) → IsToken (letters n)
unfolding letters
letters-IsToken zero = tt
letters-IsToken (suc n) = (letter_valid, letters-IsToken n)

method_overflow_example :
    read_request_line zeroed blank_req (letters 8192 ++ b'A' ∷ []) ≡ Reading.overrun
method_overflow_example =
    method_overflow zeroed blank_req (letters 8192) b'A' [] (letters-IsToken 8192)
      (length-letters 8192) letter_valid

parse_method-three_example :
    parse_method (load zeroed 0 (codes "GETAWAY")) ≡ classify b'G' b'E' b'T'
parse_method-three_example = parse_method-three zeroed b'G' b'E' b'T' (codes "AWAY")

parse_method-short_example : parse_method (load zeroed 0 (codes "GE")) ≡ HttpMethod.other
parse_method-short_example = parse_method-short (codes "GE") (omega arith)
