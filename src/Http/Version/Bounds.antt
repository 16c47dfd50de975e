-- ===== src/Http/Version/Bounds.antt =====
-- Where `parse_version` stays inside `recv_buffer`.
use os_study.Prelude.{ℕ, ◌<◌, ◌≢◌, arith, none}
use os_study.CLib.Buffer.{Buffer}
use os_study.Http.Types.{HttpVersion, buffsize}
use os_study.Http.Version.{parse_version, set_major, set_minor}

module _ (b : Buffer) (n : ℕ) (h : n < buffsize) where
  set_minor-ne-none : (v : HttpVersion) (b : Buffer) (cnt : ℕ) → set_minor v b cnt n ≢ none
  unfolding set_minor
  set_minor-ne-none v b cnt e = ground arith

  set_major-ne-none : (cnt : ℕ) → set_major b cnt n ≢ none
  unfolding set_major
  set_major-ne-none cnt e = grind (arith, set_minor-ne-none)

  -- `buff[n] = 0` is a write past the buffer only for a token that fills it.
  pub parse_version-ne-none : parse_version b n ≢ none
  unfolding parse_version
  parse_version-ne-none e = grind (arith, set_major-ne-none)
