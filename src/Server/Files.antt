-- ===== src/Server/Files.antt =====
-- `is_dir`, `ls_version_two` and `req_parser`, the same text in every program but server.c.
use os_study.Prelude.{
  ℕ, zero, suc, ◌+◌, Bool, false, Option, none, some, List, [], ◌∷◌, ◌++◌, codes, ltb, ◌==◌,
  if◌then◌else◌,
}
use os_study.CLib.Buffer.{Buffer, update, c_string}
use os_study.Http.Types.{uri_limit}
use os_study.Server.World.{Text, Call, Cmd, pure, ◌>>◌, call, send_text, ReadResult, Opened, Os}
use os_study.Server.Reply.{crlf, status_line, response}

unfoldable pub is_dir : Os → Text → Bool
is_dir os path = elim (os.stat path) [ none ↦ false | some d ↦ d ]

-- The loop over `readdir`.
unfoldable pub send_entries : ℕ → List Text → Cmd (Unit {0})
unfolding send_text
send_entries connfd [] = pure tt
send_entries connfd (d_name ∷ rest) = do
  send_text connfd (d_name ++ codes "\n")
  send_entries connfd rest

-- The loop over `read`: an interrupted call is made again, any other error ends it.
unfoldable pub send_file : ℕ → List ReadResult → Cmd (Unit {0})
unfolding call
send_file connfd [] = pure tt
send_file connfd (ReadResult.chunk c cs ∷ rest) = do
  call (Call.send connfd (c ∷ cs))
  send_file connfd rest
send_file connfd (ReadResult.eintr ∷ rest) = send_file connfd rest
send_file connfd (ReadResult.failed ∷ rest) = pure tt

-- The first loop of `req_parser`, from `i`, with `k` bytes left: where it stops, and the URI.
unfoldable pub cut_query : ℕ → Buffer → ℕ → ℕ × Buffer
cut_query zero uri i = (i, uri)
cut_query (suc k) uri i =
    let rest = cut_query k uri (i + 1) in
    if uri i == 0 then (i, uri) else if uri i == b'?' then (i, update uri i 0) else rest

-- `uri + 1` as a string.
unfoldable pub path_of : Buffer → Text
unfolding c_string
path_of uri = c_string 1023 uri 1

module _ (write_code : ℕ → Cmd (Unit {0})) (os : Os) (connfd : ℕ) where
  abbrev pub list_dir : Text → Option (List Text) → Cmd (Unit {0})
  list_dir path none =
      response write_code os connfd 500 (codes "server error") (some (codes "call opendir error"))
  list_dir path (some entries) = do
    call (Call.open_dir path)
    send_text connfd (status_line 200 (codes "Ok"))
    write_code 200
    send_text connfd (codes "content-type: text/json; charset=UTF-8" ++ crlf)
    send_text connfd crlf
    send_entries connfd entries
    send_text connfd crlf
    call (Call.close_dir path)

  unfoldable pub ls_version_two : Text → Cmd (Unit {0})
  unfolding call send_text send_entries response
  ls_version_two path = list_dir path (os.opendir path)

  abbrev pub send_opened : Text → Opened → Cmd (Unit {0})
  send_opened path (Opened.denied mesg) =
      response write_code os connfd 403 (codes "require permissions") (some mesg)
  send_opened path (Opened.refused mesg) =
      response write_code os connfd 500 (codes "server error") (some mesg)
  send_opened path (Opened.opened reads) = do
    call (Call.open_file path)
    send_text connfd (status_line 200 (codes "Ok"))
    write_code 200
    send_text connfd crlf
    send_file connfd reads

  abbrev pub send_accessible : Text → Option Text → Cmd (Unit {0})
  send_accessible path (some mesg) =
      response write_code os connfd 404 (codes "not found") (some mesg)
  send_accessible path none = send_opened path (os.open_rdonly path)

  -- The URI comes back as the loop leaves it.
  unfoldable pub req_parser : Buffer → Cmd Buffer
  unfolding call send_text send_file response cut_query path_of
  req_parser uri =
      let (i, uri') = cut_query uri_limit uri 0 in
      if ltb 0 i
      then (do send_accessible (path_of uri') (os.faccessat (path_of uri')); pure uri')
      else (do response write_code os connfd 200 (codes "Ok") none; pure uri')
