-- ===== src/Server/Handlers.antt =====
-- What the replies cost, over the cost of the program's own `write_code`.
use os_study.Prelude.{ℕ, Option, none, some, List, [], ◌∷◌, ◌++◌, codes, ltb}
use os_study.CLib.Buffer.{Buffer}
use os_study.Server.World.{Text, Cmd, Call, ReadResult, Opened, Os}
use os_study.Server.Reply.{response, crlf, html_header, status_line, printed}
use os_study.Server.Files.{
  send_entries, send_file, list_dir, ls_version_two, send_opened, send_accessible, req_parser,
  cut_query, path_of,
}
use os_study.Http.Types.{uri_limit}
use os_study.Server.Effect.{
  Spends, Spends-pure, Spends-before, Spends-after, Spends-if, Spends-call, Spends-send_text,
}

Spends-send_entries : (connfd : ℕ) (names : List Text) → Spends 0 0 (send_entries connfd names)
unfolding send_entries
Spends-send_entries connfd [] = Spends-pure tt
Spends-send_entries connfd (n ∷ names) =
    Spends-before 0 0 _ _ (Spends-send_text connfd (n ++ codes "\n"))
      λ _. Spends-send_entries connfd names

Spends-send_file : (connfd : ℕ) (reads : List ReadResult) → Spends 0 0 (send_file connfd reads)
unfolding send_file
Spends-send_file connfd [] = Spends-pure tt
Spends-send_file connfd (ReadResult.chunk c cs ∷ rest) =
    Spends-before 0 0 _ _ (Spends-call (Call.send connfd (c ∷ cs)))
      λ _. Spends-send_file connfd rest
Spends-send_file connfd (ReadResult.eintr ∷ rest) = Spends-send_file connfd rest
Spends-send_file connfd (ReadResult.failed ∷ rest) = Spends-pure tt

module _ (write_code : ℕ → Cmd (Unit {0})) (d : ℕ) (cost : (c : ℕ) → Spends d 1 (write_code c))
    (os : Os) (connfd : ℕ) where
  pub Spends-response :
      (code : ℕ) (reason : Text) (message : Option Text)
      → Spends d 1 (response write_code os connfd code reason message)
  unfolding response
  Spends-response code reason message =
      Spends-before d 1 _ _ (Spends-send_text connfd (status_line code reason)) λ _.
        Spends-before d 1 _ _ (Spends-send_text connfd html_header) λ _.
          Spends-before d 1 _ _ (Spends-send_text connfd crlf) λ _.
            Spends-before d 1 _ _ (Spends-send_text connfd (printed os message ++ crlf))
              λ _. cost code

  Spends-list_dir :
      (path : Text) (o : Option (List Text)) → Spends d 1 (list_dir write_code os connfd path o)
  Spends-list_dir path none = Spends-response 500 _ _
  Spends-list_dir path (some entries) =
      Spends-before d 1 _ _ (Spends-call (Call.open_dir path)) λ _.
        Spends-before d 1 _ _ (Spends-send_text connfd (status_line 200 (codes "Ok"))) λ _.
          Spends-after d 1 _ _ (cost 200) λ _.
            Spends-before 0 0 _ _
              (Spends-send_text connfd (codes "content-type: text/json; charset=UTF-8" ++ crlf))
              λ _. Spends-before 0 0 _ _ (Spends-send_text connfd crlf) λ _.
                Spends-before 0 0 _ _ (Spends-send_entries connfd entries) λ _.
                  Spends-before 0 0 _ _ (Spends-send_text connfd crlf)
                    λ _. Spends-call (Call.close_dir path)

  pub Spends-ls_version_two : (path : Text) → Spends d 1 (ls_version_two write_code os connfd path)
  unfolding ls_version_two
  Spends-ls_version_two path = Spends-list_dir path (os.opendir path)

  Spends-send_opened :
      (path : Text) (o : Opened) → Spends d 1 (send_opened write_code os connfd path o)
  Spends-send_opened path (Opened.denied mesg) = Spends-response 403 _ _
  Spends-send_opened path (Opened.refused mesg) = Spends-response 500 _ _
  Spends-send_opened path (Opened.opened reads) =
      Spends-before d 1 _ _ (Spends-call (Call.open_file path)) λ _.
        Spends-before d 1 _ _ (Spends-send_text connfd (status_line 200 (codes "Ok"))) λ _.
          Spends-after d 1 _ _ (cost 200) λ _.
            Spends-before 0 0 _ _ (Spends-send_text connfd crlf) λ _. Spends-send_file connfd reads

  Spends-send_accessible :
      (path : Text) (o : Option Text) → Spends d 1 (send_accessible write_code os connfd path o)
  Spends-send_accessible path (some mesg) = Spends-response 404 _ _
  Spends-send_accessible path none = Spends-send_opened path (os.open_rdonly path)

  pub Spends-req_parser : (uri : Buffer) → Spends d 1 (req_parser write_code os connfd uri)
  unfolding req_parser
  Spends-req_parser uri =
      let (i, uri') = cut_query uri_limit uri 0 in
      Spends-if d 1 (ltb 0 i)
        (Spends-after d 1 _ _ (Spends-send_accessible (path_of uri') (os.faccessat (path_of uri')))
          λ _. Spends-pure uri')
        (Spends-after d 1 _ _ (Spends-response 200 (codes "Ok") none) λ _. Spends-pure uri')
