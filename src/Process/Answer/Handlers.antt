-- ===== src/Process/Answer/Handlers.antt =====
-- The handlers send the answers of Process/Answer, and count each once, over any `write_code` that
-- counts.
use os_study.Prelude.{
  ℕ, suc, ◌≡◌, ◌<◌, ◌/◌, ◌≤◌, refl, subst, arith, false, Option, none, some, List, [], ◌∷◌, ◌++◌,
  append-nil, All, codes, ltb, length,
}
use os_study.CLib.Buffer.{Buffer}
use os_study.Http.Types.{uri_limit, buffsize}
use os_study.Server.World.{Call, Text, Cmd, ReadResult, Opened, Os}
use os_study.Server.Reply.{response, crlf, html_header, status_line, printed}
use os_study.Server.Files.{
  send_entries, send_file, list_dir, ls_version_two, send_opened, send_accessible, req_parser,
  cut_query, path_of,
}
use os_study.Server.Listing.{pipe_read, send_pipe, ls_version_one}
use os_study.Server.Fits.{OsFits, OpenedFits, MessageFits, NamesFit, status_line-fits, append-fits}
use os_study.Server.Books.{printed-fits}
use os_study.Process.Stream.{
  Lasting, received, Sends, Sends-pure, Sends-bind, Sends-send, Sends-text, Sends-silent,
}
use os_study.Process.Counting.{Counting}
use os_study.Process.Answer.Gives.{Gives, Gives-then, Gives-if}
use os_study.Process.Answer.{
  page, contents, listing, directory, opened_file, listed, accessible_file, file,
}

module _ {write_code : ℕ → Cmd (Unit {0})} (counting : Counting write_code) (os : Os)
    (fits : OsFits os) (fd : ℕ) (s : Lasting) (k : ℕ) (free : s.permits ≡ suc k) where
  -- One more reply with the status `code`.
  abbrev tally : ℕ → Lasting → Lasting
  tally = counting.count

  pub response-Sends :
      (code : ℕ) (reason : Text) (message : Option Text)
      → code / 100 ≤ 5
      → length reason < 4096
      → MessageFits message
      → Gives tally fd s
          (page code reason (printed os message))
          (response write_code os fd code reason message)
  unfolding response
  response-Sends code reason message c h m =
      let s' = tally code s in
      let body = printed os message ++ crlf in
      record {
        sends =
            subst
              (λ t.
                Sends fd s s' (status_line code reason ++ (html_header ++ (crlf ++ t)))
                  (response write_code os fd code reason message))
              (append-nil body)
              (Sends-bind fd s s s' _ _ _ _
                (Sends-text fd s (status_line code reason) (status_line-fits code reason c h))
                λ _. Sends-bind fd s s s' _ _ _ _ (Sends-text fd s html_header (omega arith)) λ _.
                  Sends-bind fd s s s' _ _ _ _ (Sends-text fd s crlf (omega arith)) λ _.
                    Sends-bind fd s s s' _ _ _ _
                      (Sends-text fd s body (
                        append-fits (printed os message) crlf (printed-fits os fits message m)
                          (omega arith)))
                      λ _. counting.counts fd code k s free);
      }

  send_entries-Sends :
      (s' : Lasting) (names : List Text)
      → All (λ n. length n < 4096) names
      → Sends fd s' s' (listing names) (send_entries fd names)
  unfolding send_entries
  send_entries-Sends s' [] h = Sends-pure fd s' tt
  send_entries-Sends s' (name ∷ names) h =
      Sends-bind fd s' s' s' _ _ _ _
        (Sends-text fd s' (name ++ codes "\n") (append-fits name (codes "\n") h.0 (omega arith)))
        λ _. send_entries-Sends s' names h.1

  send_file-Sends :
      (s' : Lasting) (reads : List ReadResult)
      → Sends fd s' s' (contents reads) (send_file fd reads)
  unfolding send_file
  send_file-Sends s' [] = Sends-pure fd s' tt
  send_file-Sends s' (ReadResult.chunk c cs ∷ rest) =
      Sends-bind fd s' s' s' _ _ _ _ (Sends-send fd s' (c ∷ cs)) λ _. send_file-Sends s' rest
  send_file-Sends s' (ReadResult.eintr ∷ rest) = send_file-Sends s' rest
  send_file-Sends s' (ReadResult.failed ∷ rest) = Sends-pure fd s' tt

  status_ok : length (status_line 200 (codes "Ok")) < buffsize
  status_ok = status_line-fits 200 (codes "Ok") (omega arith) (omega arith)

  list_dir-Gives :
      (path : Text) (o : Option (List Text))
      → NamesFit o
      → Gives tally fd s (directory o) (list_dir write_code os fd path o)
  unfolding received
  list_dir-Gives path none h =
      response-Sends 500 (codes "server error") (some (codes "call opendir error")) (omega arith)
        (omega arith) (omega arith)
  list_dir-Gives path (some names) h =
      let s' = tally 200 s in
      let header = codes "content-type: text/json; charset=UTF-8" ++ crlf in
      record {
        sends =
            Sends-bind fd s s s' _ _ _ _ (Sends-silent fd s (Call.open_dir path) λ x calls. refl)
              λ _.
                Sends-bind fd s s s' _ _ _ _
                  (Sends-text fd s (status_line 200 (codes "Ok")) status_ok)
                  λ _. Sends-bind fd s s' s' _ _ _ _ (counting.counts fd 200 k s free) λ _.
                    Sends-bind fd s' s' s' _ _ _ _ (Sends-text fd s' header (omega arith)) λ _.
                      Sends-bind fd s' s' s' _ _ _ _ (Sends-text fd s' crlf (omega arith)) λ _.
                        Sends-bind fd s' s' s' _ _ _ _ (send_entries-Sends s' names h) λ _.
                          Sends-bind fd s' s' s' _ _ _ _ (Sends-text fd s' crlf (omega arith))
                            λ _. Sends-silent fd s' (Call.close_dir path) (λ x calls. refl);
      }

  pub ls_version_two-Gives :
      (path : Text)
      → Gives tally fd s (directory (os.opendir path)) (ls_version_two write_code os fd path)
  unfolding ls_version_two
  ls_version_two-Gives path = list_dir-Gives path (os.opendir path) (fits.names path)

  send_opened-Gives :
      (path : Text) (o : Opened)
      → OpenedFits o
      → Gives tally fd s (opened_file o) (send_opened write_code os fd path o)
  unfolding received
  send_opened-Gives path (Opened.denied mesg) h =
      response-Sends 403 (codes "require permissions") (some mesg) (omega arith) (omega arith) h
  send_opened-Gives path (Opened.refused mesg) h =
      response-Sends 500 (codes "server error") (some mesg) (omega arith) (omega arith) h
  send_opened-Gives path (Opened.opened reads) h =
      let s' = tally 200 s in
      record {
        sends =
            Sends-bind fd s s s' _ _ _ _ (Sends-silent fd s (Call.open_file path) λ x calls. refl)
              λ _.
                Sends-bind fd s s s' _ _ _ _
                  (Sends-text fd s (status_line 200 (codes "Ok")) status_ok)
                  λ _. Sends-bind fd s s' s' _ _ _ _ (counting.counts fd 200 k s free) λ _.
                    Sends-bind fd s' s' s' _ _ _ _ (Sends-text fd s' crlf (omega arith))
                      λ _. send_file-Sends s' reads;
      }

  send_accessible-Gives :
      (path : Text) (o : Option Text)
      → MessageFits o
      → Gives tally fd s (accessible_file os path o) (send_accessible write_code os fd path o)
  send_accessible-Gives path (some mesg) h =
      response-Sends 404 (codes "not found") (some mesg) (omega arith) (omega arith) h
  send_accessible-Gives path none h =
      send_opened-Gives path (os.open_rdonly path) (fits.errors path)

  send_pipe-Gives :
      (o : Option (List ReadResult))
      → Gives tally fd s (listed o) (send_pipe false write_code os fd o)
  send_pipe-Gives none =
      response-Sends 500 (codes "Ok") (some (codes "pipe read error")) (omega arith) (omega arith)
        (omega arith)
  send_pipe-Gives (some reads) =
      let s' = tally 200 s in
      record {
        sends =
            subst
              (λ t.
                Sends fd s s' (status_line 200 (codes "Ok") ++ (crlf ++ t))
                  (send_pipe false write_code os fd (some reads)))
              (append-nil (contents reads))
              (Sends-bind fd s s s' _ _ _ _
                (Sends-text fd s (status_line 200 (codes "Ok")) status_ok)
                λ _. Sends-bind fd s s' s' _ _ _ _ (counting.counts fd 200 k s free) λ _.
                  Sends-bind fd s' s' s' _ _ _ _ (Sends-text fd s' crlf (omega arith)) λ _.
                    Sends-bind fd s' s' s' _ _ _ _ (send_file-Sends s' reads)
                      λ _. Sends-pure fd s' tt);
      }

  -- `ls_version_one`, which no program calls, would answer with what `ls` writes.
  ls_version_one-Gives :
      (path : Text) (o : Option (List ReadResult))
      → Gives tally fd s (listed o) (ls_version_one false write_code os fd path o)
  unfolding ls_version_one pipe_read received
  ls_version_one-Gives path none = send_pipe-Gives none
  ls_version_one-Gives path (some reads) = record {
    sends =
        Sends-bind fd s s (tally 200 s) _ _ _ _
          (Sends-silent fd s (Call.spawn_ls path) λ x calls. refl)
          λ _. (send_pipe-Gives (some reads)).sends;
  }

  pub req_parser-Gives :
      (uri : Buffer) → Gives tally fd s (file os uri) (req_parser write_code os fd uri)
  unfolding req_parser
  req_parser-Gives uri =
      let (i, uri') = cut_query uri_limit uri 0 in
      let path = path_of uri' in
      Gives-if tally fd s (ltb 0 i) _ _ _ _
        (Gives-then tally fd s _ _ uri'
          (send_accessible-Gives path (os.faccessat path) (fits.missing path)))
        (Gives-then tally fd s _ _ uri'
          (response-Sends 200 (codes "Ok") none (omega arith) (omega arith) tt))
