-- ===== src/Http/Method/Prefix.antt =====
-- What `parse_method` reads: three bytes of the buffer, whatever the length of the token.
use os_study.Prelude.{
  ℕ, ◌<◌, ◌≡◌, refl, ◌&&◌, List, [], ◌∷◌, arith, ◌==◌, if◌then◌else◌, codes, length,
}
use os_study.CLib.Buffer.{Buffer, zeroed, load, load-eq_of_lt, to_lower}
use os_study.Http.Types.{HttpMethod}
use os_study.Http.Method.{parse_method}

-- "Get" and "Pos" with the first letter in upper case and the others in either case.
abbrev pub classify : (a b c : ℕ) → HttpMethod
classify a b c =
    if a == b'G' && (to_lower b == b'e' && to_lower c == b't')
    then HttpMethod.get
    else if a == b'P' && (to_lower b == b'o' && to_lower c == b's')
    then HttpMethod.post
    else HttpMethod.other

parse_method-classify : (b : Buffer) → parse_method b ≡ classify (b 0) (b 1) (b 2)
unfolding parse_method
parse_method-classify b = ground arith

abbrev third : (b : Buffer) (x y z : ℕ) (m : List ℕ) → Buffer
third b x y z m = load b 0 (x ∷ y ∷ z ∷ m)

load_three :
    (b : Buffer) (x y z : ℕ) (m : List ℕ)
    → (third b x y z m 0 ≡ x) × (third b x y z m 1 ≡ y) × (third b x y z m 2 ≡ z)
unfolding load
load_three b x y z m = (
  load-eq_of_lt _ _ m 0 (omega arith),
  load-eq_of_lt _ _ m 1 (omega arith),
  load-eq_of_lt _ _ m 2 (omega arith),
)

-- The method of a token of three bytes or more depends on its first three bytes alone, whatever
-- the buffer held before: "GET", "Get" and "GETAWAY" are GET, "POS" and "POSX" are POST.
pub parse_method-three :
    (b : Buffer) (x y z : ℕ) (m : List ℕ) → parse_method (load b 0 (x ∷ y ∷ z ∷ m)) ≡ classify x y z
parse_method-three b x y z m =
    let (hx, hy, hz) = load_three b x y z m in
    rw (parse_method-classify (third b x y z m), hx, hy, hz) refl

-- A token of fewer than three bytes is no method in a buffer fresh from `calloc`.
pub parse_method-short :
    (m : List ℕ) → length m < 3 → parse_method (load zeroed 0 m) ≡ HttpMethod.other
unfolding load parse_method
parse_method-short [] h = refl
parse_method-short (x ∷ []) h = ground arith
parse_method-short (x ∷ y ∷ []) h = ground arith
parse_method-short (x ∷ y ∷ z ∷ m) h = absurd (omega arith)

load-ge : (b : Buffer) → b 2 ≡ b'T' → parse_method (load b 0 (codes "GE")) ≡ HttpMethod.get
unfolding load parse_method
load-ge b h = ground arith

-- In a buffer used before, the third byte is that of the token stored last: after a version such
-- as "HTTP/1.1", whose third byte is 'T', the method "GE" is GET.
pub parse_method-stale :
    (b : Buffer) (x y : ℕ) (v : List ℕ)
    → parse_method (load (load b 0 (x ∷ y ∷ b'T' ∷ v)) 0 (codes "GE")) ≡ HttpMethod.get
parse_method-stale b x y v = load-ge (third b x y b'T' v) (load_three b x y b'T' v).2
