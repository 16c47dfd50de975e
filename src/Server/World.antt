-- ===== src/Server/World.antt =====
-- The state that the request handlers share, the calls that they make, and what they take from the
-- operating system.
use os_study.Prelude.{
  ℕ, zero, suc, ◌-◌, Bool, Option, List, [], ◌∷◌, ◌++◌, ltb, ◌==◌, if◌then◌else◌, length, take,
}
use os_study.Http.Types.{buffsize}

abbrev pub Text : Type 0
Text = List ℕ

-- `struct share_statistics`, less its title. An `int` is its bit pattern, below 2 ^ 32.
pub record Stats : Type 0 where
  pub requests : ℕ
  pub code_2xx : ℕ
  pub code_3xx : ℕ
  pub code_4xx : ℕ
  pub code_5xx : ℕ

pub data How : Type 0 where
  shut_rd shut_wr shut_rdwr : How

pub data Signal : Type 0 where
  sigterm sigkill : Signal

-- The calls that leave the process, with the descriptor of the connection.
pub data Call : Type 0 where
  send : ℕ → Text → Call
  open_file : Text → Call
  close_file : Text → Call
  open_dir : Text → Call
  close_dir : Text → Call
  shutdown : ℕ → How → Call
  close_conn : ℕ → Call
  close_listener : Call
  start_thread : ℕ → Call
  fork_child : ℕ → Call
  kill_group : ℕ → Signal → Call
  set_alarm : ℕ → Call
  spawn_bash : Text → Call
  spawn_ls : Text → Call
  close_pipe : Call
  detach_stats : Call
  close_sem : Call
  remove_shm : Call
  destroy_sem : Call
  write_error : Text → Call

-- `calls` has the newest call first; `sem` is the value of the semaphore over `stats`.
-- The last two are globals of the process, which only the programs that run scripts use.
pub record World : Type 0 where
  pub calls : List Call
  pub stats : Stats
  pub sem : ℕ
  pub alarm_count : ℕ
  pub need_stop_script : ℕ

-- `blocked` waits for a semaphore; `fault` is a read or a write out of bounds.
pub data Run (A : Type 0) : Type 0 where
  ok : A → World → Run A
  blocked : World → Run A
  fault : Run A

abbrev pub Cmd : Type 0 → Type 0
Cmd A = World → Run A

abbrev pub pure : {A : Type 0} → A → Cmd A
pure = ok

module _ {A B : Type 0} where
  abbrev pub and_then : Run A → (A → Cmd B) → Run B
  and_then (ok a w) k = k a w
  and_then (blocked w) k = blocked w
  and_then fault k = fault

  infixl 5 ◌>>=◌ ◌>>◌
  abbrev pub ◌>>=◌ : Cmd A → (A → Cmd B) → Cmd B
  m >>= k = λ w. and_then (m w) k

  abbrev pub ◌>>◌ : Cmd A → Cmd B → Cmd B
  m >> n = m >>= λ _. n

unfoldable pub call : Call → Cmd (Unit {0})
call c w = ok tt (record w { calls = c ∷ w.calls })

-- `n = snprintf(send_buffer, BUFFSIZE, …); send(connfd, send_buffer, n, 0)`: `n` is the length that
-- the text wanted, so a text of BUFFSIZE bytes goes out cut, with the NUL, and a longer one makes
-- `send` read past the buffer.
unfoldable pub send_text : ℕ → Text → Cmd (Unit {0})
unfolding call
send_text connfd t =
    if ltb (length t) buffsize
    then call (Call.send connfd t)
    else if length t == buffsize
    then call (Call.send connfd (take (buffsize - 1) t ++ 0 ∷ []))
    else λ w. fault

-- `sem_wait`: it waits at 0.
unfoldable pub sem_wait : Cmd (Unit {0})
sem_wait w = elim w.sem [ zero ↦ blocked w | suc n ↦ ok tt (record w { sem = n }) ]

unfoldable pub sem_post : Cmd (Unit {0})
sem_post w = ok tt (record w { sem = suc w.sem })

-- One `read` of a file that does not return 0.
pub data ReadResult : Type 0 where
  chunk : ℕ → Text → ReadResult
  eintr : ReadResult
  failed : ReadResult

-- What `open` does: the results of the reads up to the 0, or an error with its text.
pub data Opened : Type 0 where
  opened : List ReadResult → Opened
  denied : Text → Opened
  refused : Text → Opened

-- The file system as a request finds it, and what `printf` writes for a null pointer.
pub record Os : Type 0 where
  pub stat : Text → Option Bool  -- is it a directory?
  pub opendir : Text → Option (List Text)
  pub faccessat : Text → Option Text  -- the error's text, or `none`
  pub open_rdonly : Text → Opened
  pub null_text : Text
