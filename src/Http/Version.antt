-- ===== src/Http/Version.antt =====
-- `parse_version` of multi_server.c, the same text in every program.
pub mod Bounds
use os_study.Prelude.{ℕ, ◌+◌, ◌-◌, Option, none, some, ltb, if◌then◌else◌}
use os_study.Prelude.Int.{ℤ, minus_one, is_minus_one}
use os_study.CLib.Buffer.{Buffer, update, c_string, find_char}
use os_study.CLib.Strtol.{strtol, to_int}
use os_study.Http.Types.{HttpVersion, buffsize}

-- `strtol(buff + i, NULL, 10)`, stored in an `int`
unfoldable pub int_at : Buffer → ℕ → ℤ
unfolding c_string strtol to_int
int_at b i = to_int (strtol (c_string (buffsize - i) b i))

-- The part after the two loops. `none` is the write `buff[n] = 0` past the end of the buffer.
unfoldable pub set_minor : HttpVersion → Buffer → ℕ → ℕ → Option (HttpVersion × Buffer)
unfolding int_at
set_minor v b cnt n =
    if ltb cnt n
    then (if ltb n buffsize
        then some (
          (if is_minus_one v.major then v else record v { minor = int_at (update b n 0) cnt }),
          update b n 0,
        )
        else none)
    else some (v, b)

-- The loop that looks for '.'; `buff[end]` is 0 while the major number is read.
unfoldable pub set_major : Buffer → ℕ → ℕ → Option (HttpVersion × Buffer)
set_major b cnt n = elim (find_char b'.' (n - cnt) b cnt) [
  | none ↦ set_minor (record { major = minus_one; minor = minus_one }) b cnt n
  | some end ↦
      set_minor (record { major = int_at (update b end 0) cnt; minor = minus_one })
        (update b end b'.') (end + 1) n
]

unfoldable pub parse_version : Buffer → ℕ → Option (HttpVersion × Buffer)
parse_version b n = elim (find_char b'/' n b 0) [
  | none ↦ set_major b n n
  | some slash ↦ set_major b (slash + 1) n
]
