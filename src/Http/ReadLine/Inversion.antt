-- ===== src/Http/ReadLine/Inversion.antt =====
-- The loop of `read_request_line` read backwards: what the bytes were where it returns 0.
use os_study.Prelude.{
  ℕ, ◌+◌, ◌≤◌, ◌<◌, ◌≡◌, refl, true, List, [], ◌∷◌, arith, ◌⊎◌, inl, inr, none, some, Bool-cases,
  Option-cases, Option, ap₂, sym, subst, ◌∙◌,
}
use os_study.CLib.Buffer.{Buffer, update}
use os_study.Http.Types.{ReqLine, HttpVersion, buffsize, uri_limit, lf, cr, sp, is_valid}
use os_study.Http.Method.{parse_method}
use os_study.Http.Version.{parse_version}
use os_study.Http.ReadLine.{ReqState, Reader, Round, Reading, read_loop, dispatch, end_version}
use os_study.Http.ReadLine.Parts.{
  VersionPart, UrlPart, MethodPart, version_zero, version_suc, url_zero, url_suc, method_zero,
  method_suc,
}
use os_study.Http.ReadLine.Phases.{reader}

-- A loop that returns 0 either went on, or stopped at this byte.
loop-line :
    (c : ℕ) (cs : List ℕ) (r : Reader) {t : Reader} {rest : List ℕ}
    → read_loop (c ∷ cs) r ≡ Reading.line t rest
    → ((r' : Reader) × (dispatch r.state c r ≡ Round.go r')
        × (read_loop cs r' ≡ Reading.line t rest))
      ⊎ ((dispatch r.state c r ≡ Round.complete t) × (cs ≡ rest))
unfolding read_loop
loop-line c cs r {t} {rest} h = cases (dispatch r.state c r) refl
  where
    cases :
        (d : Round)
        → dispatch r.state c r ≡ d
        → ((r' : Reader) × (dispatch r.state c r ≡ Round.go r')
            × (read_loop cs r' ≡ Reading.line t rest))
          ⊎ ((dispatch r.state c r ≡ Round.complete t) × (cs ≡ rest))
    cases (Round.go r') e = inl (r', e, (rw (e, read_loop) at h))
    cases (Round.complete r') e = ground arith
    cases (Round.bad r') e = ground arith
    cases Round.fault e = ground arith

method_inv :
    (c k : ℕ) (b : Buffer) (q : ReqLine) {r' : Reader}
    → dispatch ReqState.method c (reader ReqState.method k b q) ≡ Round.go r'
    → ((is_valid c ≡ true)
        × (k < buffsize)
        × (r' ≡ reader ReqState.method (k + 1) (update b k c) q))
      ⊎ ((c ≡ sp) × (r' ≡ reader ReqState.url 0 b (record q { method = parse_method b })))
unfolding dispatch
method_inv c k b q h = ground arith

url_inv :
    (c k : ℕ) (b : Buffer) (q : ReqLine) {r' : Reader}
    → dispatch ReqState.url c (reader ReqState.url k b q) ≡ Round.go r'
    → ((is_valid c ≡ true)
        × (k + 1 < uri_limit)
        × (r' ≡ reader ReqState.url (k + 1) b (record q { req_uri = update q.req_uri k c })))
      ⊎ ((c ≡ sp)
          × (k + 1 < uri_limit)
          × (r' ≡ reader ReqState.version 0 b (record q { req_uri = update q.req_uri k 0 })))
unfolding dispatch
url_inv c k b q h = ground arith

version_inv :
    (c k : ℕ) (b : Buffer) (q : ReqLine) {r' : Reader}
    → dispatch ReqState.version c (reader ReqState.version k b q) ≡ Round.go r'
    → ((is_valid c ≡ true)
        × (k < buffsize)
        × (r' ≡ reader ReqState.version (k + 1) (update b k c) q))
      ⊎ ((c ≡ cr) × (end_version (reader ReqState.version k b q) (parse_version b k) ≡ Round.go r'))
unfolding dispatch
version_inv c k b q h = ground arith

not_complete :
    (c k : ℕ) (b : Buffer) (q : ReqLine) (st : ReqState) {t : Reader}
    → dispatch st c (reader st k b q) ≡ Round.complete t
    → (st ≡ ReqState.done) × (c ≡ lf) × (t ≡ reader st k b q)
unfolding dispatch
not_complete c k b q ReqState.method h = ground arith
not_complete c k b q ReqState.url h = ground arith
not_complete c k b q ReqState.version h = elim (Bool-cases (is_valid c)) [
  | inl e ↦ ground arith
  | inr e ↦ elim (Option-cases (parse_version b k)) [
    | inl p ↦ ground arith
    | inr (w, p) ↦ ground arith
  ]
]
not_complete c k b q ReqState.done h = ground arith

done_inv :
    (c k : ℕ) (b : Buffer) (q : ReqLine) {r' : Reader}
    → ¬ (dispatch ReqState.done c (reader ReqState.done k b q) ≡ Round.go r')
unfolding dispatch
done_inv c k b q h = ground arith

abbrev IsDone : ReqState → Type 0
IsDone ReqState.done = Unit
IsDone _ = ⊥

done_only : {st : ReqState} → st ≡ ReqState.done → IsDone st
done_only e = subst IsDone (sym e) tt

pub end_version_inv :
    (r : Reader) (o : Option (HttpVersion × Buffer)) {r' : Reader}
    → end_version r o ≡ Round.go r'
    → (b : Buffer) × (v : HttpVersion) × (r'
        ≡ reader ReqState.done 0 b (record r.req_line { version = v }))
end_version_inv r none h = absurd (ground arith)
end_version_inv r (some (v, b)) h = (b, v, ground arith)

module _ {t : Reader} {rest : List ℕ} where
  not-line-nil : (r : Reader) → ¬ (read_loop [] r ≡ Reading.line t rest)
  unfolding read_loop
  not-line-nil r h = cc

  done-line :
      (cs : List ℕ) (k : ℕ) (b : Buffer) (q : ReqLine)
      → read_loop cs (reader ReqState.done k b q) ≡ Reading.line t rest
      → (cs ≡ lf ∷ rest) × (t ≡ reader ReqState.done k b q)
  done-line [] k b q h = absurd (not-line-nil _ h)
  done-line (c ∷ cs) k b q h = elim (loop-line c cs _ h) [
    | inl (r', e, l) ↦ absurd (done_inv c k b q e)
    | inr (e, same) ↦
        let (_, is_lf, at) = not_complete c k b q ReqState.done e in (ap₂ ◌∷◌ is_lf same, at)
  ]

  version-line :
      (cs : List ℕ) (k : ℕ) (b : Buffer) (q : ReqLine)
      → k ≤ buffsize
      → read_loop cs (reader ReqState.version k b q) ≡ Reading.line t rest
      → VersionPart cs rest k b q t
  version-line [] k b q fits h = absurd (not-line-nil _ h)
  version-line (c ∷ cs) k b q fits h = elim (loop-line c cs _ h) [
    | inl (r', e, l) ↦ elim (version_inv c k b q e) [
      | inl (valid, below, at) ↦
          version_suc valid (version-line cs (k + 1) (update b k c) q (omega arith) (rw at at l))
      | inr (is_cr, done) ↦
          let (b', v, at) =
            end_version_inv (reader ReqState.version k b q) (parse_version b k) done in
          let (s, same) = done-line cs 0 b' (record q { version = v }) (rw at at l) in
          version_zero fits is_cr done s (same ∙ sym at)
    ]
    | inr (e, same) ↦ absurd (done_only (not_complete c k b q ReqState.version e).0)
  ]

  url-line :
      (cs : List ℕ) (k : ℕ) (b : Buffer) (q : ReqLine)
      → read_loop cs (reader ReqState.url k b q) ≡ Reading.line t rest
      → UrlPart cs rest k b q t
  url-line [] k b q h = absurd (not-line-nil _ h)
  url-line (c ∷ cs) k b q h = elim (loop-line c cs _ h) [
    | inl (r', e, l) ↦ elim (url_inv c k b q e) [
      | inl (valid, below, at) ↦
          url_suc valid
            (url-line cs (k + 1) b (record q { req_uri = update q.req_uri k c }) (rw at at l))
      | inr (is_sp, below, at) ↦ url_zero below is_sp (
          version-line cs 0 b (record q { req_uri = update q.req_uri k 0 }) (omega arith)
            (rw at at l))
    ]
    | inr (e, same) ↦ absurd (done_only (not_complete c k b q ReqState.url e).0)
  ]

  pub method-line :
      (cs : List ℕ) (k : ℕ) (b : Buffer) (q : ReqLine)
      → k ≤ buffsize
      → read_loop cs (reader ReqState.method k b q) ≡ Reading.line t rest
      → MethodPart cs rest k b q t
  method-line [] k b q fits h = absurd (not-line-nil _ h)
  method-line (c ∷ cs) k b q fits h = elim (loop-line c cs _ h) [
    | inl (r', e, l) ↦ elim (method_inv c k b q e) [
      | inl (valid, below, at) ↦
          method_suc valid (method-line cs (k + 1) (update b k c) q (omega arith) (rw at at l))
      | inr (is_sp, at) ↦
          method_zero fits is_sp
            (url-line cs 0 b (record q { method = parse_method b }) (rw at at l))
    ]
    | inr (e, same) ↦ absurd (done_only (not_complete c k b q ReqState.method e).0)
  ]
