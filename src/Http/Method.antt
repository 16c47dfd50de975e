-- ===== src/Http/Method.antt =====
-- `parse_method` of multi_server.c and its copies, and that of server.c.
pub mod Prefix
use os_study.Prelude.{◌==◌, if◌then◌else◌, codes}
use os_study.CLib.Buffer.{Buffer, strncasecmp_eq, to_lower}
use os_study.Http.Types.{HttpMethod}

-- The argument `n` is not read: the comparison may go past the token.
unfoldable pub parse_method : Buffer → HttpMethod
unfolding strncasecmp_eq to_lower
parse_method buff =
    if buff 0 == b'G'
    then (if strncasecmp_eq (codes "GET") buff 0 3 then HttpMethod.get else HttpMethod.other)
    else if buff 0 == b'P'
    then (if strncasecmp_eq (codes "POST") buff 0 3 then HttpMethod.post else HttpMethod.other)
    else HttpMethod.other
