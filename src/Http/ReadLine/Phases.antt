-- ===== src/Http/ReadLine/Phases.antt =====
-- What the loop of `read_request_line` does with one token, in each of its states.
use os_study.Prelude.{
  ℕ, ◌+◌, ◌≤◌, ◌<◌, ◌≡◌, true, List, [], ◌∷◌, ◌++◌, arith, length, All, lt→ltb, ◌∙◌, ap,
}
use os_study.CLib.Buffer.{Buffer, load, update}
use os_study.Http.Types.{ReqLine, buffsize, uri_limit, is_valid}
use os_study.Http.ReadLine.{ReqState, Reader, Round, read_loop, dispatch}

abbrev pub IsToken : List ℕ → Type 0
IsToken = All (λ c. is_valid c ≡ true)

abbrev pub reader : ReqState → ℕ → Buffer → ReqLine → Reader
reader st k b q = record { state = st; recv_num = k; recv_buffer = b; req_line = q }

-- One round on a byte of the token, in each state that collects one.
method_round :
    (k c : ℕ) (b : Buffer) (q : ReqLine)
    → is_valid c ≡ true
    → k < buffsize
    → dispatch ReqState.method c (reader ReqState.method k b q)
      ≡ Round.go (reader ReqState.method (k + 1) (update b k c) q)
unfolding dispatch
method_round k c b q t h = rw (t, lt→ltb k buffsize h)

url_round :
    (k c : ℕ) (b : Buffer) (q : ReqLine)
    → is_valid c ≡ true
    → k + 1 < uri_limit
    → dispatch ReqState.url c (reader ReqState.url k b q)
      ≡ Round.go (reader ReqState.url (k + 1) b (record q { req_uri = update q.req_uri k c }))
unfolding dispatch
url_round k c b q t h = rw (t, lt→ltb (k + 1) uri_limit h, lt→ltb k uri_limit (omega (arith, h)))

version_round :
    (k c : ℕ) (b : Buffer) (q : ReqLine)
    → is_valid c ≡ true
    → k < buffsize
    → dispatch ReqState.version c (reader ReqState.version k b q)
      ≡ Round.go (reader ReqState.version (k + 1) (update b k c) q)
unfolding dispatch
version_round k c b q t h = rw (t, lt→ltb k buffsize h)

-- A round that goes on is one step of the loop.
pub loop-go :
    (c : ℕ) (cs : List ℕ) (r : Reader) {r' : Reader}
    → dispatch r.state c r ≡ Round.go r'
    → read_loop (c ∷ cs) r ≡ read_loop cs r'
unfolding read_loop
loop-go c cs r e = rw (e, read_loop)

module _ (rest : List ℕ) where
  pub method-append :
      (k : ℕ) (b : Buffer) (q : ReqLine) (m : List ℕ)
      → IsToken m
      → k + length m ≤ buffsize
      → read_loop (m ++ rest) (reader ReqState.method k b q)
        ≡ read_loop rest (reader ReqState.method (k + length m) (load b k m) q)
  unfolding load
  method-append k b q [] t h = ap (λ n. read_loop rest (reader ReqState.method n b q)) (omega arith)
  method-append k b q (c ∷ m) t h =
      loop-go c (m ++ rest) _ (method_round k c b q t.0 (omega arith))
      ∙ method-append (k + 1) (update b k c) q m t.1 (omega arith)
      ∙ ap (λ n. read_loop rest (reader ReqState.method n (load b k (c ∷ m)) q)) (omega arith)

  pub url-append :
      (k : ℕ) (b : Buffer) (q : ReqLine) (u : List ℕ)
      → IsToken u
      → k + length u < uri_limit
      → read_loop (u ++ rest) (reader ReqState.url k b q)
        ≡ read_loop rest
            (reader ReqState.url (k + length u) b (record q { req_uri = load q.req_uri k u }))
  unfolding load
  url-append k b q [] t h = ap (λ n. read_loop rest (reader ReqState.url n b q)) (omega arith)
  url-append k b q (c ∷ u) t h =
      loop-go c (u ++ rest) _ (url_round k c b q t.0 (omega arith))
      ∙ url-append (k + 1) b (record q { req_uri = update q.req_uri k c }) u t.1 (omega arith)
      ∙ ap
          (λ n.
            read_loop rest
              (reader ReqState.url n b (record q { req_uri = load q.req_uri k (c ∷ u) })))
          (omega arith)

  pub version-append :
      (k : ℕ) (b : Buffer) (q : ReqLine) (v : List ℕ)
      → IsToken v
      → k + length v ≤ buffsize
      → read_loop (v ++ rest) (reader ReqState.version k b q)
        ≡ read_loop rest (reader ReqState.version (k + length v) (load b k v) q)
  unfolding load
  version-append k b q [] t h =
      ap (λ n. read_loop rest (reader ReqState.version n b q)) (omega arith)
  version-append k b q (c ∷ v) t h =
      loop-go c (v ++ rest) _ (version_round k c b q t.0 (omega arith))
      ∙ version-append (k + 1) (update b k c) q v t.1 (omega arith)
      ∙ ap (λ n. read_loop rest (reader ReqState.version n (load b k (c ∷ v)) q)) (omega arith)
