-- ===== src/Http/Types.antt =====
-- The data types and constants of multi_server/server.h.
use os_study.Prelude.{ℕ, Bool, ◌&&◌, leb}
use os_study.Prelude.Int.{ℤ, pos}
use os_study.CLib.Buffer.{Buffer, zeroed}

abbrev pub buffsize : ℕ
buffsize = 8192

abbrev pub uri_limit : ℕ
uri_limit = 1024

abbrev pub lf : ℕ
lf = 10

abbrev pub cr : ℕ
cr = 13

abbrev pub sp : ℕ
sp = 0x20

-- `unset` is the 0 that `calloc` leaves in the field.
pub data HttpMethod : Type 0 where
  unset get post other : HttpMethod

pub record HttpVersion : Type 0 where
  pub major : ℤ
  pub minor : ℤ

pub record ReqLine : Type 0 where
  pub method : HttpMethod
  pub req_uri : Buffer
  pub version : HttpVersion

-- `calloc(1, sizeof(struct req_line))`
abbrev pub blank_req : ReqLine
blank_req = record {
  method = HttpMethod.unset;
  req_uri = zeroed;
  version = record { major = pos 0; minor = pos 0 };
}

-- The macro `is_valid`.
unfoldable pub is_valid : ℕ → Bool
is_valid c = leb 33 c && leb c 126
