-- ===== src/Server/Listing.antt =====
-- `pipe_read` and `ls_version_one`, which lists a directory by `ls -al`. The same text stands in every
-- program but server.c, where the calls are commented out; those with threads also close the pipe.
use os_study.Prelude.{ℕ, Bool, if◌then◌else◌, Option, none, some, List, codes}
use os_study.Server.World.{Text, Call, Cmd, pure, ◌>>=◌, ◌>>◌, call, send_text, ReadResult, Os}
use os_study.Server.Reply.{crlf, status_line, response}
use os_study.Server.Files.{send_file}

-- The pipe that the child writes, as the reads from it; `none`: `pipe` or `fork` fails.
unfoldable pub pipe_read : Text → Option (List ReadResult) → Cmd (Option (List ReadResult))
unfolding call
pipe_read file_path none = pure none
pipe_read file_path (some reads) = do call (Call.spawn_ls file_path); pure (some reads)

-- `closes`: the programs with threads close the pipe behind the loop, those with processes do not.
module _ (closes : Bool) (write_code : ℕ → Cmd (Unit {0})) (os : Os) (connfd : ℕ) where
  abbrev pub send_pipe : Option (List ReadResult) → Cmd (Unit {0})
  send_pipe none = response write_code os connfd 500 (codes "Ok") (some (codes "pipe read error"))
  send_pipe (some reads) = do
    send_text connfd (status_line 200 (codes "Ok"))
    write_code 200
    send_text connfd crlf
    send_file connfd reads
    (if closes then call Call.close_pipe else pure tt)

  unfoldable pub ls_version_one : Text → Option (List ReadResult) → Cmd (Unit {0})
  unfolding pipe_read send_text send_file response
  ls_version_one path o = do fd ← pipe_read path o; send_pipe fd
