-- ===== src/Http/ReadLine/Grammar.antt =====
-- The request lines that `read_request_line` accepts, and what it leaves in the buffers.
use os_study.Prelude.{
  ℕ, ◌+◌, ◌≤◌, ◌<◌, ◌≡◌, ◌↔◌, refl, List, ◌∷◌, ◌++◌, arith, length, ap, sym, ◌∙◌, zero-add, lt→ltb,
}
use os_study.CLib.Buffer.{Buffer, load, update}
use os_study.Http.Types.{ReqLine, buffsize, uri_limit, lf, cr, sp}
use os_study.Http.Method.{parse_method}
use os_study.Http.Version.{parse_version}
use os_study.Http.ReadLine.{
  ReqState, Reader, Round, Reading, read_loop, dispatch, end_version, read_request_line,
}
use os_study.Http.ReadLine.Phases.{
  IsToken, reader, loop-go, method-append, url-append, version-append,
}
use os_study.Http.ReadLine.Inversion.{method-line, end_version_inv}

-- The fields of the request after the tokens `m` and `u`, with `b` as `recv_buffer`.
abbrev parsed_url : Buffer → ReqLine → (m u : List ℕ) → ReqLine
parsed_url b q m u = record q {
  method = parse_method (load b 0 m);
  req_uri = update (load q.req_uri 0 u) (length u) 0;
}

-- The same after the version token `v`, which is stored over the method.
abbrev pub outcome : Buffer → ReqLine → (m u v : List ℕ) → Round
outcome b q m u v =
    end_version (reader ReqState.version (length v) (load (load b 0 m) 0 v) (parsed_url b q m u))
      (parse_version (load (load b 0 m) 0 v) (length v))

-- method SP uri SP version CR LF, with what is left of the input
abbrev request_line : (m u v rest : List ℕ) → List ℕ
request_line m u v rest = m ++ sp ∷ (u ++ sp ∷ (v ++ cr ∷ lf ∷ rest))

pub record Accepts (b : Buffer) (q : ReqLine) (input : List ℕ) (t : Reader) (rest : List ℕ)
    : Type 0 where
  pub method_token : List ℕ
  pub uri_token : List ℕ
  pub version_token : List ℕ
  pub method_valid : IsToken method_token
  pub uri_valid : IsToken uri_token
  pub version_valid : IsToken version_token
  pub method_fits : length method_token ≤ buffsize
  pub uri_fits : length uri_token + 1 < uri_limit
  pub version_fits : length version_token ≤ buffsize
  pub spelled : input ≡ request_line method_token uri_token version_token rest
  pub result : outcome b q method_token uri_token version_token ≡ Round.go t

method_end :
    (k : ℕ) (b : Buffer) (q : ReqLine)
    → dispatch ReqState.method sp (reader ReqState.method k b q)
      ≡ Round.go (reader ReqState.url 0 b (record q { method = parse_method b }))
unfolding dispatch
method_end k b q = refl

url_end :
    (k : ℕ) (b : Buffer) (q : ReqLine)
    → k + 1 < uri_limit
    → dispatch ReqState.url sp (reader ReqState.url k b q)
      ≡ Round.go (reader ReqState.version 0 b (record q { req_uri = update q.req_uri k 0 }))
unfolding dispatch
url_end k b q h = rw (lt→ltb (k + 1) uri_limit h, lt→ltb k uri_limit (omega (arith, h))) refl

module _ (rest : List ℕ) where
  version_end :
      (k : ℕ) (b : Buffer) (q : ReqLine) {t : Reader}
      → end_version (reader ReqState.version k b q) (parse_version b k) ≡ Round.go t
      → read_loop (cr ∷ lf ∷ rest) (reader ReqState.version k b q) ≡ Reading.line t rest
  unfolding read_loop dispatch
  version_end k b q e =
      let (b', v, at) = end_version_inv (reader ReqState.version k b q) (parse_version b k) e in
      loop-go cr (lf ∷ rest) (reader ReqState.version k b q) (e ∙ ap Round.go at)
      ∙ ap (λ r. Reading.line r rest) (sym at)

  request_line_complete :
      (b : Buffer) (q : ReqLine) (m u v : List ℕ) {t : Reader}
      → IsToken m
      → IsToken u
      → IsToken v
      → length m ≤ buffsize
      → length u + 1 < uri_limit
      → length v ≤ buffsize
      → outcome b q m u v ≡ Round.go t
      → read_request_line b q (request_line m u v rest) ≡ Reading.line t rest
  unfolding read_request_line
  request_line_complete b q m u v hm hu hv lm lu lv e =
      method-append _ 0 b q m hm (omega arith)
      ∙ loop-go sp _ _ (method_end (0 + length m) (load b 0 m) q)
      ∙ url-append _ 0 _ _ u hu (omega arith)
      ∙ loop-go sp _ _ (url_end (0 + length u) _ _ (omega arith))
      ∙ version-append _ 0 _ _ v hv (omega arith)
      ∙ version_end (0 + length v) _ _ (rw (zero-add, zero-add) e)

  request_line_sound :
      (b : Buffer) (q : ReqLine) (input : List ℕ) {t : Reader}
      → read_request_line b q input ≡ Reading.line t rest
      → Accepts b q input t rest
  unfolding read_request_line
  request_line_sound b q input h =
      let m = method-line input 0 b q (omega arith) h in
      let u = m.url_part in
      let v = u.version_part in
      record {
        method_token = m.token;
        uri_token = u.token;
        version_token = v.token;
        method_valid = m.valid;
        uri_valid = u.valid;
        version_valid = v.valid;
        method_fits = omega (arith, m.fits);
        uri_fits = omega (arith, u.fits);
        version_fits = omega (arith, v.fits);
        spelled =
            m.spelled
            ∙ ap (λ x. m.token ++ sp ∷ x) (u.spelled ∙ ap (λ x. u.token ++ sp ∷ x) v.spelled);
        result = rw (zero-add, zero-add) at v.parsed;
      }

-- `read_request_line` returns 0 exactly on a line `method SP uri SP version CR LF` whose tokens are
-- printable ASCII and fit their buffers, and it stops behind that line with the fields that the
-- parsers give for the tokens.
pub read_request_line_iff :
    (b : Buffer) (q : ReqLine) (input : List ℕ) (t : Reader) (rest : List ℕ)
    → (read_request_line b q input ≡ Reading.line t rest) ↔ Accepts b q input t rest
read_request_line_iff b q input t rest = (
  request_line_sound rest b q input,
  λ a.
      ap (read_request_line b q) a.spelled
      ∙ request_line_complete rest b q a.method_token a.uri_token a.version_token a.method_valid
          a.uri_valid a.version_valid a.method_fits a.uri_fits a.version_fits a.result,
)
