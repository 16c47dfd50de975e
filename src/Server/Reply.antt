-- ===== src/Server/Reply.antt =====
-- `response`, the same text in every program but server.c, over the program's own `write_code`.
use os_study.Prelude.{ℕ, Option, none, some, [], ◌∷◌, ◌++◌, codes}
use os_study.CLib.Decimal.{print_int}
use os_study.Http.Types.{cr, lf}
use os_study.Server.World.{Text, Cmd, ◌>>◌, send_text, Os}

abbrev pub crlf : Text
crlf = cr ∷ lf ∷ []

-- A `const char *` as `%s` writes it.
abbrev pub printed : Os → Option Text → Text
printed os none = os.null_text
printed os (some t) = t

-- "HTTP/1.1 %d %s%s"
abbrev pub status_line : ℕ → Text → Text
status_line code reason = codes "HTTP/1.1 " ++ (print_int code ++ (codes " " ++ (reason ++ crlf)))

abbrev pub html_header : Text
html_header = codes "Content-Type: text/html; charset=utf-8" ++ crlf

module _ (write_code : ℕ → Cmd (Unit {0})) (os : Os) where
  unfoldable pub response : ℕ → ℕ → Text → Option Text → Cmd (Unit {0})
  unfolding send_text print_int
  response connfd status_code reason_phrase message = do
    send_text connfd (status_line status_code reason_phrase)
    send_text connfd html_header
    send_text connfd crlf
    send_text connfd (printed os message ++ crlf)
    write_code status_code
