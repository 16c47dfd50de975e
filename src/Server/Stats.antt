-- ===== src/Server/Stats.antt =====
-- `write_code`: as multi_server.c has it, and as the programs with threads have it.
use os_study.Prelude.{ℕ, ◌+◌, ◌/◌, ◌%◌, ◌^◌, ◌==◌, if◌then◌else◌}
use os_study.Server.World.{Stats, ok, Cmd, ◌>>◌, sem_wait, sem_post}

-- `++` of an `int`
abbrev inc : ℕ → ℕ
inc n = (n + 1) % 2 ^ 32

-- The counter's update between the two calls on the semaphore.
unfoldable pub count_code : ℕ → Stats → Stats
count_code code s =
    if code / 100 == 2
    then record s { requests = inc s.requests; code_2xx = inc s.code_2xx }
    else if code / 100 == 3
    then record s { requests = inc s.requests; code_3xx = inc s.code_3xx }
    else if code / 100 == 4
    then record s { requests = inc s.requests; code_4xx = inc s.code_4xx }
    else if code / 100 == 5
    then record s { requests = inc s.requests; code_5xx = inc s.code_5xx }
    else record s { requests = inc s.requests }

unfoldable pub record_code : ℕ → Cmd (Unit {0})
unfolding count_code
record_code code w = ok tt (record w { stats = count_code code w.stats })

-- multi_server.c, multi_server_pre_forked_pool_of_processes.c and
-- multi_server_pass_socket_fd_to_child_processes.c
unfoldable pub write_code : ℕ → Cmd (Unit {0})
unfolding record_code sem_wait sem_post
write_code code = do sem_wait; record_code code; sem_post

-- The four programs with threads: no `sem_post`.
unfoldable pub write_code_thread : ℕ → Cmd (Unit {0})
unfolding record_code sem_wait
write_code_thread code = do sem_wait; record_code code
