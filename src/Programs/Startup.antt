-- ===== src/Programs/Startup.antt =====
-- What the `main` functions of multi_server/ share: the statistics in shared memory, the semaphores,
-- and the handlers of SIGINT.
use os_study.Prelude.{
  ℕ, suc, Bool, true, false, ◌&&◌, Option, none, some, [], ◌∷◌, codes, ◌==◌, if◌then◌else◌,
}
use os_study.Server.World.{Text, Stats, World, ok, Call, Cmd, pure, ◌>>◌, call}
use os_study.Programs.Accept.{End}

-- Whether `__linux__` is defined.
pub data Platform : Type 0 where
  linux other : Platform

abbrev pub share_memory_file_path : Text
share_memory_file_path = codes "./share_mem.lock"

abbrev pub sem_file : Platform → Text
sem_file Platform.linux = codes "/sem_lock"
sem_file Platform.other = share_memory_file_path

abbrev pub sem_user1_file : Platform → Text
sem_user1_file Platform.linux = codes "/sem_user1_lock"
sem_user1_file Platform.other = codes "./sem_user1.lock"

-- What outlives a process: the statistics in the segment, and the semaphores by their names.
pub record Ipc : Type 0 where
  pub segment : Stats
  pub named : Text → Option ℕ

unfoldable pub same_name : Text → Text → Bool
same_name [] [] = true
same_name [] (c ∷ cs) = false
same_name (c ∷ cs) [] = false
same_name (c ∷ cs) (d ∷ ds) = c == d && same_name cs ds

-- `sem_unlink`
unfoldable pub sem_unlink : Text → Ipc → Ipc
unfolding same_name
sem_unlink name m = record m { named = λ n. if same_name n name then none else m.named n }

-- `sem_open` with O_CREAT: a semaphore that exists keeps its value.
unfoldable pub sem_open : Text → ℕ → Ipc → Ipc
unfolding same_name
sem_open name value m = elim (m.named name) [
  | some n ↦ m
  | none ↦ record m { named = λ n. if same_name n name then some value else m.named n }
]

-- The value of a semaphore that is open.
abbrev pub value_of : Option ℕ → ℕ
value_of none = 0
value_of (some n) = n

-- The handler of SIGUSR1: `sem_post(user1_sem)`.
unfoldable pub siguser1_signo_handler : Platform → Ipc → Ipc
unfolding same_name
siguser1_signo_handler platform m = record m {
  named = λ n.
      if same_name n (sem_user1_file platform)
      then some (suc (value_of (m.named (sem_user1_file platform))))
      else m.named n;
}

-- Which of the calls that create the segment fail.
pub record Booting : Type 0 where
  pub ftok_failed : Bool
  pub shmget_failed : Bool

-- The counters of `struct share_statistics ss`.
abbrev pub fresh_stats : Stats
fresh_stats = record { requests = 0; code_2xx = 0; code_3xx = 0; code_4xx = 0; code_5xx = 0 }

-- The text of `err_sys`, where a call fails.
unfoldable pub create_statistics : Booting → Option Text
create_statistics b =
    if b.ftok_failed
    then some (
        codes
          "SHARE_MEMORY_FILE_PATH does not exist or if it cannot be accessed by the calling process\n")
    else if b.shmget_failed
    then some (codes "call shmget error")
    else none

-- A process as it attaches to the segment and opens the semaphore over it.
unfoldable pub attach : Ipc → World
unfolding sem_open
attach m = record {
  calls = [];
  stats = m.segment;
  sem = value_of ((sem_open share_memory_file_path 1 m).named share_memory_file_path);
  alarm_count = 0;
  need_stop_script = 0;
}

-- `memcpy(share_address, &ss, sizeof(struct share_statistics)); sem_init(&sem, 0, 1);`
unfoldable pub init_statistics : Cmd (Unit {0})
init_statistics w = ok tt (record w { stats = fresh_stats; sem = 1 })

-- `if (global_shm_id != -1) shmctl(global_shm_id, IPC_RMID, NULL)`
unfoldable pub remove_segment : Bool → Cmd (Unit {0})
unfolding call
remove_segment created = if created then call Call.remove_shm else pure tt

-- The programs with processes: the handler of SIGINT ends the process with the signal's number.
unfoldable pub exit_handler : Bool → ℕ → Cmd End
unfolding call remove_segment
exit_handler created signo = do
  remove_segment created
  call (Call.write_error (codes "main process end\n"))
  pure (End.exits signo)

-- The programs with threads: `atexit` runs this.
unfoldable pub exit_handler_threads : Bool → Cmd (Unit {0})
unfolding call remove_segment
exit_handler_threads created = do
  remove_segment created
  call Call.destroy_sem
  call (Call.write_error (codes "main process end\n"))

-- Their handler of SIGINT: `exit(1)`, which runs the one above.
unfoldable pub sigint_handler : Bool → Cmd End
unfolding exit_handler_threads
sigint_handler created = do exit_handler_threads created; pure (End.exits 1)
