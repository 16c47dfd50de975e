-- ===== src/Server/Books.antt =====
-- The replies return, and bring a state with `P` to one with `Q` where the program's `write_code`
-- does.
use os_study.Prelude.{
  ℕ, ◌/◌, ◌≤◌, ◌<◌, arith, Option, none, some, List, [], ◌∷◌, ◌++◌, All, codes, ltb, length,
}
use os_study.CLib.Buffer.{Buffer}
use os_study.Http.Types.{uri_limit}
use os_study.Server.World.{Text, World, Cmd, Call, send_text, ReadResult, Opened, Os}
use os_study.Server.Reply.{response, crlf, html_header, status_line, printed}
use os_study.Server.Files.{
  send_entries, send_file, list_dir, ls_version_two, send_opened, send_accessible, req_parser,
  cut_query, path_of,
}
use os_study.Server.Ensures.{
  Ensures, Ensures-pure, Ensures-bind, Ensures-if, Ensures-send_text, Stable,
}
use os_study.Server.Fits.{OpenedFits, MessageFits, NamesFit, OsFits, status_line-fits, append-fits}

-- A code of one of the four classes that are counted.
abbrev pub IsClass : ℕ → Type 0
IsClass code = (2 ≤ code / 100) × (code / 100 ≤ 5)

-- A `write_code` that returns, from a state with `P` in one with `Q`.
pub record Writes (P Q : World → Type 0) (write_code : ℕ → Cmd (Unit {0})) : Type 0 where
  pub before : Stable P
  pub after : Stable Q
  pub write : (code : ℕ) → IsClass code → Ensures P Q (write_code code)

pub printed-fits :
    (os : Os)
    → OsFits os
    → (message : Option Text) → MessageFits message
    → length (printed os message) < 4096
printed-fits os fits none h = fits.null
printed-fits os fits (some t) h = h

module _ (P Q : World → Type 0) (write_code : ℕ → Cmd (Unit {0})) (wr : Writes P Q write_code)
    (os : Os) (fits : OsFits os) (connfd : ℕ) where
  text : (t : Text) → length t < 8192 → Ensures P P (send_text connfd t)
  text = Ensures-send_text P wr.before connfd

  text' : (t : Text) → length t < 8192 → Ensures Q Q (send_text connfd t)
  text' = Ensures-send_text Q wr.after connfd

  pub Ensures-response :
      (code : ℕ) (reason : Text) (message : Option Text)
      → IsClass code
      → length reason < 4096
      → MessageFits message
      → Ensures P Q (response write_code os connfd code reason message)
  unfolding response
  Ensures-response code reason message c h m =
      Ensures-bind P P Q _ _ (text (status_line code reason) (status_line-fits code reason c.1 h))
        λ _. Ensures-bind P P Q _ _ (text html_header (omega arith)) λ _.
          Ensures-bind P P Q _ _ (text crlf (omega arith)) λ _.
            Ensures-bind P P Q _ _
              (text (printed os message ++ crlf) (
                append-fits (printed os message) crlf (printed-fits os fits message m)
                  (omega arith)))
              λ _. wr.write code c

  Ensures-send_entries :
      (names : List Text)
      → All (λ n. length n < 4096) names
      → Ensures Q Q (send_entries connfd names)
  unfolding send_entries
  Ensures-send_entries [] h = Ensures-pure Q tt
  Ensures-send_entries (n ∷ names) h =
      Ensures-bind Q Q Q _ _
        (text' (n ++ codes "\n") (append-fits n (codes "\n") h.0 (omega arith)))
        λ _. Ensures-send_entries names h.1

  Ensures-send_file : (reads : List ReadResult) → Ensures Q Q (send_file connfd reads)
  unfolding send_file
  Ensures-send_file [] = Ensures-pure Q tt
  Ensures-send_file (ReadResult.chunk c cs ∷ rest) =
      Ensures-bind Q Q Q _ _ (wr.after (Call.send connfd (c ∷ cs))) λ _. Ensures-send_file rest
  Ensures-send_file (ReadResult.eintr ∷ rest) = Ensures-send_file rest
  Ensures-send_file (ReadResult.failed ∷ rest) = Ensures-pure Q tt

  status_ok : length (status_line 200 (codes "Ok")) < 8192
  status_ok = status_line-fits 200 (codes "Ok") (omega arith) (omega arith)

  Ensures-list_dir :
      (path : Text) (o : Option (List Text))
      → NamesFit o
      → Ensures P Q (list_dir write_code os connfd path o)
  Ensures-list_dir path none h =
      Ensures-response 500 (codes "server error") (some (codes "call opendir error")) (omega arith)
        (omega arith) (omega arith)
  Ensures-list_dir path (some entries) h =
      Ensures-bind P P Q _ _ (wr.before (Call.open_dir path)) λ _.
        Ensures-bind P P Q _ _ (text (status_line 200 (codes "Ok")) status_ok) λ _.
          Ensures-bind P Q Q _ _ (wr.write 200 (omega arith)) λ _.
            Ensures-bind Q Q Q _ _
              (text' (codes "content-type: text/json; charset=UTF-8" ++ crlf) (omega arith))
              λ _. Ensures-bind Q Q Q _ _ (text' crlf (omega arith)) λ _.
                Ensures-bind Q Q Q _ _ (Ensures-send_entries entries h) λ _.
                  Ensures-bind Q Q Q _ _ (text' crlf (omega arith))
                    λ _. wr.after (Call.close_dir path)

  pub Ensures-ls_version_two :
      (path : Text) → Ensures P Q (ls_version_two write_code os connfd path)
  unfolding ls_version_two
  Ensures-ls_version_two path = Ensures-list_dir path (os.opendir path) (fits.names path)

  Ensures-send_opened :
      (path : Text) (o : Opened)
      → OpenedFits o
      → Ensures P Q (send_opened write_code os connfd path o)
  Ensures-send_opened path (Opened.denied mesg) h =
      Ensures-response 403 (codes "require permissions") (some mesg) (omega arith) (omega arith) h
  Ensures-send_opened path (Opened.refused mesg) h =
      Ensures-response 500 (codes "server error") (some mesg) (omega arith) (omega arith) h
  Ensures-send_opened path (Opened.opened reads) h =
      Ensures-bind P P Q _ _ (wr.before (Call.open_file path)) λ _.
        Ensures-bind P P Q _ _ (text (status_line 200 (codes "Ok")) status_ok) λ _.
          Ensures-bind P Q Q _ _ (wr.write 200 (omega arith))
            λ _. Ensures-bind Q Q Q _ _ (text' crlf (omega arith)) λ _. Ensures-send_file reads

  Ensures-send_accessible :
      (path : Text) (o : Option Text)
      → MessageFits o
      → Ensures P Q (send_accessible write_code os connfd path o)
  Ensures-send_accessible path (some mesg) h =
      Ensures-response 404 (codes "not found") (some mesg) (omega arith) (omega arith) h
  Ensures-send_accessible path none h =
      Ensures-send_opened path (os.open_rdonly path) (fits.errors path)

  pub Ensures-req_parser : (uri : Buffer) → Ensures P Q (req_parser write_code os connfd uri)
  unfolding req_parser
  Ensures-req_parser uri =
      let (i, uri') = cut_query uri_limit uri 0 in
      let path = path_of uri' in
      Ensures-if P Q (ltb 0 i)
        (Ensures-bind P Q Q _ _
          (Ensures-send_accessible path (os.faccessat path) (fits.missing path))
          λ _. Ensures-pure Q uri')
        (Ensures-bind P Q Q _ _
          (Ensures-response 200 (codes "Ok") none (omega arith) (omega arith) tt)
          λ _. Ensures-pure Q uri')
