-- ===== src/Http/ReadLine/Bounds.antt =====
-- Which writes of `read_request_line` stay inside the buffers.
use os_study.Prelude.{
  ℕ, ◌+◌, ◌≤◌, ◌<◌, ◌≡◌, ◌≢◌, refl, true, List, [], ◌∷◌, ◌++◌, arith, length, ◌∙◌, zero-add, Option,
  none, some, inl, inr, Option-cases, ltb, Bool, false, ◌&&◌, ◌==◌, if◌then◌else◌,
}
use os_study.CLib.Buffer.{Buffer, load}
use os_study.Http.Types.{ReqLine, buffsize, HttpVersion, uri_limit, is_valid, lf, cr, sp}
use os_study.Http.Version.{parse_version}
use os_study.Http.Version.Bounds.{parse_version-ne-none}
use os_study.Http.ReadLine.{
  ReqState, Reader, Round, Reading, read_loop, dispatch, read_request_line, put_recv, put_uri,
  end_version,
}
use os_study.Http.ReadLine.Phases.{IsToken, reader, method-append}

full_round :
    (c : ℕ) (b : Buffer) (q : ReqLine)
    → is_valid c ≡ true
    → dispatch ReqState.method c (reader ReqState.method buffsize b q) ≡ Round.fault
unfolding dispatch
full_round c b q h = rw h

full_loop :
    (c : ℕ) (rest : List ℕ) (b : Buffer) (q : ReqLine) (n : ℕ)
    → n ≡ buffsize
    → is_valid c ≡ true
    → read_loop (c ∷ rest) (reader ReqState.method n b q) ≡ Reading.overrun
unfolding read_loop
full_loop c rest b q n e h = rw (e, full_round c b q h, read_loop)

-- A method token longer than `recv_buffer` is written past its end, whatever follows.
pub method_overflow :
    (b : Buffer) (q : ReqLine) (m : List ℕ) (c : ℕ) (rest : List ℕ)
    → IsToken m
    → length m ≡ buffsize
    → is_valid c ≡ true
    → read_request_line b q (m ++ c ∷ rest) ≡ Reading.overrun
unfolding read_request_line
method_overflow b q m c rest t full h =
    method-append (c ∷ rest) 0 b q m t (omega arith)
    ∙ full_loop c rest (load b 0 m) q _ (zero-add _ ∙ full) h

-- Each round moves `recv_num` by one at most.
round_fits :
    (st : ReqState) (c : ℕ) (r : Reader) {r' : Reader}
    → dispatch st c r ≡ Round.go r'
    → r'.recv_num ≤ r.recv_num + 1
unfolding dispatch
round_fits ReqState.method c r e = ground arith
round_fits ReqState.url c r e = ground arith
round_fits ReqState.version c r e = elim (Option-cases (parse_version r.recv_buffer r.recv_num)) [
  | inl p ↦ ground arith
  | inr (w, p) ↦ ground arith
]
round_fits ReqState.done c r e = ground arith

round_safe :
    (st : ReqState) (c : ℕ) (r : Reader) → r.recv_num < buffsize → dispatch st c r ≢ Round.fault
unfolding dispatch
round_safe ReqState.method c r h e = ground arith
round_safe ReqState.url c r h e = ground arith
round_safe ReqState.version c r h e =
    ground (arith, parse_version-ne-none r.recv_buffer r.recv_num h)
round_safe ReqState.done c r h e = ground arith

read_loop-ne-overrun :
    (cs : List ℕ) (r : Reader)
    → r.recv_num + length cs ≤ buffsize
    → read_loop cs r ≢ Reading.overrun
unfolding read_loop
read_loop-ne-overrun [] r h e = cc
read_loop-ne-overrun (c ∷ cs) r h e = cases (read_loop-ne-overrun cs) (dispatch r.state c r) refl
  where
    cases :
        ((r' : Reader) → r'.recv_num + length cs ≤ buffsize → read_loop cs r' ≢ Reading.overrun)
        → (d : Round) → dispatch r.state c r ≡ d
        → ⊥
    cases ih (Round.go r') p =
        ih r' (omega (arith, round_fits r.state c r p)) (rw (p, read_loop) at e)
    cases ih (Round.complete r') p = ground arith
    cases ih (Round.bad r') p = ground arith
    cases ih Round.fault p = round_safe r.state c r (omega arith) p

-- No write leaves `recv_buffer` or `req_uri` while the client has sent no more than BUFFSIZE bytes.
pub read_request_line-ne-overrun :
    (b : Buffer) (q : ReqLine) (input : List ℕ)
    → length input ≤ buffsize
    → read_request_line b q input ≢ Reading.overrun
unfolding read_request_line
read_request_line-ne-overrun b q input h = read_loop-ne-overrun input _ (omega arith)

-- A property of the reader in which the loop stops.
abbrev pub Stops : (Reader → Type 0) → Reading → Type 0
Stops P (Reading.line r _) = P r
Stops P (Reading.error r _) = P r
Stops P Reading.overrun = Unit

-- `req_uri` is left alone from its last byte on.
abbrev pub UriKept : Buffer → Reader → Type 0
UriKept u r = (j : ℕ) → uri_limit ≤ j + 1 → r.req_line.req_uri j ≡ u j

abbrev RoundKeeps : Buffer → Round → Type 0
RoundKeeps u (Round.go r) = UriKept u r
RoundKeeps u (Round.complete r) = UriKept u r
RoundKeeps u (Round.bad r) = UriKept u r
RoundKeeps u Round.fault = Unit

-- A conditional keeps what both branches keep.
if_keeps :
    (u : Buffer) (t : Bool) (x y : Round)
    → (t ≡ true → RoundKeeps u x)
    → (t ≡ false → RoundKeeps u y)
    → RoundKeeps u (if t then x else y)
if_keeps u true x y a b = a refl
if_keeps u false x y a b = b refl

put_keeps : (u : Buffer) (c : ℕ) (r : Reader) → UriKept u r → RoundKeeps u (put_recv c r)
unfolding put_recv
put_keeps u c r h = if_keeps u (ltb r.recv_num buffsize) _ _ (λ _. h) (λ _. tt)

within : (a b : Bool) → (a && b) ≡ true → b ≡ true
within true b e = e
within false b e = cc e

uri_keeps :
    (u : Buffer) (c : ℕ) (r next : Reader)
    → ltb (r.recv_num + 1) uri_limit ≡ true
    → UriKept u r
    → RoundKeeps u (put_uri c r next)
uri_keeps u c r next e h =
    if_keeps u (ltb r.recv_num uri_limit) _ _ (λ inside j above. ground (arith, h j, e)) (λ _. tt)

end_keeps :
    (u : Buffer) (r : Reader) (o : Option (HttpVersion × Buffer))
    → UriKept u r
    → RoundKeeps u (end_version r o)
end_keeps u r none h = tt
end_keeps u r (some (v, b)) h = h

round_keeps :
    (u : Buffer) (st : ReqState) (c : ℕ) (r : Reader) → UriKept u r → RoundKeeps u (dispatch st c r)
unfolding dispatch
round_keeps u ReqState.method c r h =
    if_keeps u (is_valid c) _ _ (λ _. put_keeps u c r h)
      λ _. if_keeps u (c == sp) _ _ (λ _. h) (λ _. h)
round_keeps u ReqState.url c r h =
    if_keeps u (is_valid c && ltb (r.recv_num + 1) uri_limit) _ _
      (λ e. uri_keeps u c r (record r { recv_num = r.recv_num + 1 }) (within (is_valid c) _ e) h)
      λ _.
        if_keeps u (c == sp && ltb (r.recv_num + 1) uri_limit) _ _
          (λ e.
            uri_keeps u 0 r (record r { state = ReqState.version; recv_num = 0 })
              (within (c == sp) _ e) h)
          (λ _. h)
round_keeps u ReqState.version c r h =
    if_keeps u (is_valid c) _ _ (λ _. put_keeps u c r h)
      λ _.
        if_keeps u (c == cr) _ _ (λ _. end_keeps u r (parse_version r.recv_buffer r.recv_num) h)
          (λ _. h)
round_keeps u ReqState.done c r h = if_keeps u (c == lf) _ _ (λ _. h) (λ _. h)

read_loop-UriKept :
    (u : Buffer) (cs : List ℕ) (r : Reader) → UriKept u r → Stops (UriKept u) (read_loop cs r)
unfolding read_loop
read_loop-UriKept u [] r h = h
read_loop-UriKept u (c ∷ cs) r h =
    cases (read_loop-UriKept u cs) (dispatch r.state c r) (round_keeps u r.state c r h)
  where
    cases :
        ((r' : Reader) → UriKept u r' → Stops (UriKept u) (read_loop cs r'))
        → (d : Round) → RoundKeeps u d
        → Stops (UriKept u) (elim d [
          | Round.go r' ↦ read_loop cs r'
          | Round.complete r' ↦ Reading.line r' cs
          | Round.bad r' ↦ Reading.error r' cs
          | Round.fault ↦ Reading.overrun
        ])
    cases ih (Round.go r') k = ih r' k
    cases ih (Round.complete r') k = k
    cases ih (Round.bad r') k = k
    cases ih Round.fault k = tt

-- Whatever the client sends, the last of the 1024 bytes of `req_uri` and what lies behind it are
-- never written, on an accepted line and on an error: the NUL of `calloc` stays at the end.
pub read_request_line-UriKept :
    (b : Buffer) (q : ReqLine) (input : List ℕ)
    → Stops (UriKept q.req_uri) (read_request_line b q input)
unfolding read_request_line
read_request_line-UriKept b q input = read_loop-UriKept q.req_uri input _ (λ j above. refl)
