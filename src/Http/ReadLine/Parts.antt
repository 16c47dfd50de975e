-- ===== src/Http/ReadLine/Parts.antt =====
-- The parts of a request line that the loop accepts, one record for each state.
use os_study.Prelude.{
  ℕ, suc, ◌+◌, ◌≤◌, ◌<◌, ◌≡◌, true, List, [], ◌∷◌, ◌++◌, arith, length, ap, sym, ap₂, ◌∙◌, add-zero,
}
use os_study.CLib.Buffer.{Buffer, load, update}
use os_study.Http.Types.{ReqLine, buffsize, uri_limit, lf, cr, sp, is_valid}
use os_study.Http.Method.{parse_method}
use os_study.Http.Version.{parse_version}
use os_study.Http.ReadLine.{ReqState, Reader, Round, end_version}
use os_study.Http.ReadLine.Phases.{IsToken, reader}

-- What follows the URI: a token, CR and LF.
pub record VersionPart (cs rest : List ℕ) (k : ℕ) (b : Buffer) (q : ReqLine) (t : Reader)
    : Type 0 where
  pub token : List ℕ
  pub valid : IsToken token
  pub spelled : cs ≡ token ++ cr ∷ lf ∷ rest
  pub fits : k + length token ≤ buffsize
  pub parsed :
      end_version
        (reader ReqState.version (k + length token) (load b k token) q)
        (parse_version (load b k token) (k + length token))
      ≡ Round.go t

-- What follows the method: a token, SP and the rest of the line.
pub record UrlPart (cs rest : List ℕ) (k : ℕ) (b : Buffer) (q : ReqLine) (t : Reader) : Type 0 where
  pub token : List ℕ
  pub valid : IsToken token
  pub after : List ℕ
  pub spelled : cs ≡ token ++ sp ∷ after
  pub fits : k + length token + 1 < uri_limit
  pub version_part :
      VersionPart after rest 0 b
        (record q { req_uri = update (load q.req_uri k token) (k + length token) 0 })
        t

pub record MethodPart (cs rest : List ℕ) (k : ℕ) (b : Buffer) (q : ReqLine) (t : Reader)
    : Type 0 where
  pub token : List ℕ
  pub valid : IsToken token
  pub after : List ℕ
  pub spelled : cs ≡ token ++ sp ∷ after
  pub fits : k + length token ≤ buffsize
  pub url_part :
      UrlPart after rest 0 (load b k token) (record q { method = parse_method (load b k token) }) t

shift : (k n : ℕ) → k + 1 + n ≡ k + suc n
shift k n = omega arith

module _ {cs rest : List ℕ} {c k : ℕ} {b : Buffer} {q : ReqLine} {t : Reader} where
  pub version_zero :
      {r' : Reader}
      → k ≤ buffsize
      → c ≡ cr
      → end_version (reader ReqState.version k b q) (parse_version b k) ≡ Round.go r'
      → cs ≡ lf ∷ rest
      → t ≡ r'
      → VersionPart (c ∷ cs) rest k b q t
  unfolding load
  version_zero fits is_cr e s same = record {
    token = [];
    valid = tt;
    spelled = ap₂ ◌∷◌ is_cr s;
    fits = omega arith;
    parsed = rw (add-zero k) (e ∙ ap Round.go (sym same));
  }

  pub version_suc :
      is_valid c ≡ true
      → VersionPart cs rest (k + 1) (update b k c) q t
      → VersionPart (c ∷ cs) rest k b q t
  unfolding load
  version_suc valid v = record {
    token = c ∷ v.token;
    valid = (valid, v.valid);
    spelled = ap (λ r. c ∷ r) v.spelled;
    fits = omega (arith, v.fits);
    parsed = rw (shift k (length v.token)) at v.parsed;
  }

  pub url_zero :
      k + 1 < uri_limit
      → c ≡ sp
      → VersionPart cs rest 0 b (record q { req_uri = update q.req_uri k 0 }) t
      → UrlPart (c ∷ cs) rest k b q t
  unfolding load
  url_zero fits is_sp v = record {
    token = [];
    valid = tt;
    after = cs;
    spelled = ap (λ x. x ∷ cs) is_sp;
    fits = omega arith;
    version_part = rw (add-zero k) v;
  }

  pub url_suc :
      is_valid c ≡ true
      → UrlPart cs rest (k + 1) b (record q { req_uri = update q.req_uri k c }) t
      → UrlPart (c ∷ cs) rest k b q t
  unfolding load
  url_suc valid u = record {
    token = c ∷ u.token;
    valid = (valid, u.valid);
    after = u.after;
    spelled = ap (λ r. c ∷ r) u.spelled;
    fits = omega (arith, u.fits);
    version_part = rw (shift k (length u.token)) at u.version_part;
  }

  pub method_zero :
      k ≤ buffsize
      → c ≡ sp
      → UrlPart cs rest 0 b (record q { method = parse_method b }) t
      → MethodPart (c ∷ cs) rest k b q t
  unfolding load
  method_zero fits is_sp u = record {
    token = [];
    valid = tt;
    after = cs;
    spelled = ap (λ x. x ∷ cs) is_sp;
    fits = omega arith;
    url_part = u;
  }

  pub method_suc :
      is_valid c ≡ true
      → MethodPart cs rest (k + 1) (update b k c) q t
      → MethodPart (c ∷ cs) rest k b q t
  unfolding load
  method_suc valid m = record {
    token = c ∷ m.token;
    valid = (valid, m.valid);
    after = m.after;
    spelled = ap (λ r. c ∷ r) m.spelled;
    fits = omega (arith, m.fits);
    url_part = m.url_part;
  }
