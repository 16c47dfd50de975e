-- ===== src/Server/Serving.antt =====
-- What a worker of multi_server_thread_blocking_queue.c does to the semaphore.
use os_study.Prelude.{
  ℕ, zero, suc, ◌+◌, ◌%◌, ◌^◌, ◌≤◌, ◌≡◌, ◌≢◌, refl, arith, length, Option, none, some, List, [],
  ◌∷◌, codes, ◌||◌, not, subst,
}
use os_study.Prelude.Int.{is_minus_one}
use os_study.Http.Types.{ReqLine}
use os_study.Http.ReadLine.{Reading, read_request_line}
use os_study.Server.World.{Text, World, ok, Call, How, sem_wait, Os}
use os_study.Server.Reply.{response}
use os_study.Server.Stats.{record_code, write_code, write_code_thread}
use os_study.Server.Files.{is_dir, path_of}
use os_study.Server.Worker.{
  Conn, Locals, fresh_locals, is_get, is_statistics, statistics_text, read_total, statistics,
  answer, handle_reading, serve, do_call_loop, do_call,
}
use os_study.Server.Effect.{
  Spent, Spends, Spends-pure, Spends-bind, Spends-before, Spends-after, Spends-if, Spends-call,
  Spends-fault, Spends-sem_wait,
}
use os_study.Server.Handlers.{Spends-response, Spends-ls_version_two, Spends-req_parser}

Spends-record_code : (code : ℕ) → Spends 0 1 (record_code code)
unfolding record_code
Spends-record_code code = record { at = λ w. ground arith }

Spends-write_code_thread : (code : ℕ) → Spends 1 1 (write_code_thread code)
unfolding write_code_thread
Spends-write_code_thread code =
    Spends-bind 1 0 0 1 1 1 _ _ (omega arith) (omega arith) Spends-sem_wait
      λ _. Spends-record_code code

Spent-write_code : (code : ℕ) (w : World) (s : ℕ) → w.sem ≡ s → Spent 0 1 w (write_code code w)
unfolding write_code
Spent-write_code code w zero e = rw (e, sem_wait) tt
Spent-write_code code w (suc s) e = ground arith

Spends-write_code : (code : ℕ) → Spends 0 1 (write_code code)
Spends-write_code code = record { at = λ w. Spent-write_code code w w.sem refl }

Spent-read_total : (w : World) (s : ℕ) → w.sem ≡ s → Spent 0 0 w (read_total w)
unfolding read_total
Spent-read_total w zero e = rw (e, sem_wait) tt
Spent-read_total w (suc s) e = ground arith

Spends-read_total : Spends 0 0 read_total
Spends-read_total = record { at = λ w. Spent-read_total w w.sem refl }

module _ (os : Os) (connfd : ℕ) where
  reply :
      (code : ℕ) (reason : Text) (message : Option Text)
      → Spends 1 1 (response write_code_thread os connfd code reason message)
  reply = Spends-response write_code_thread 1 Spends-write_code_thread os connfd

  Spends-statistics : Spends 1 1 (statistics os connfd)
  unfolding statistics
  Spends-statistics =
      Spends-before 1 1 _ _ Spends-read_total
        λ total. reply 200 (codes "Ok") (some (statistics_text total))

  Spends-answer : (q : ReqLine) → Spends 1 1 (answer os connfd q)
  unfolding answer
  Spends-answer q =
      Spends-if 1 1 (not (is_get q.method))
        (Spends-after 1 1 _ _ (reply 405 (codes "Method Not Allowed") none) λ _. Spends-pure q)
        (Spends-if 1 1 (is_minus_one q.version.major || is_minus_one q.version.major)
          (Spends-after 1 1 _ _ (reply 505 (codes "HTTP Version Not Supported") none)
            λ _. Spends-pure q)
          (Spends-if 1 1 (is_statistics q.req_uri)
            (Spends-after 1 1 _ _ Spends-statistics λ _. Spends-pure q)
            (Spends-if 1 1 (is_dir os (path_of q.req_uri))
              (Spends-after 1 1 _ _
                (Spends-ls_version_two write_code_thread 1 Spends-write_code_thread os connfd
                  (path_of q.req_uri))
                λ _. Spends-pure q)
              (Spends-after 1 1 _ _
                (Spends-req_parser write_code_thread 1 Spends-write_code_thread os connfd q.req_uri)
                λ uri. Spends-pure (record q { req_uri = uri })))))

  Spends-handle_reading : (r : Reading) → Spends 1 1 (handle_reading os connfd r)
  Spends-handle_reading (Reading.line r rest) =
      Spends-after 1 1 _ _ (Spends-answer r.req_line)
        λ q. Spends-pure (record { recv_buffer = r.recv_buffer; req_buf = q })
  Spends-handle_reading (Reading.error r rest) =
      Spends-after 1 1 _ _ (reply 400 (codes "Bad request") none)
        λ _. Spends-pure (record { recv_buffer = r.recv_buffer; req_buf = r.req_line })
  Spends-handle_reading Reading.overrun = Spends-fault 1 1

pub Spends-serve : (c : Conn) (l : Locals) → Spends 1 1 (serve c l)
unfolding serve
Spends-serve c l =
    Spends-after 1 1 _ _
      (Spends-handle_reading c.os c.fd (read_request_line l.recv_buffer l.req_buf c.input))
      λ l'. Spends-before 0 0 _ _ (Spends-call (Call.shutdown c.fd How.shut_wr)) λ _. Spends-pure l'

Spends-do_call_loop :
    (cs : List Conn) (l : Locals) → Spends (length cs) (length cs) (do_call_loop cs l)
unfolding do_call_loop
Spends-do_call_loop [] l = Spends-pure l
Spends-do_call_loop (c ∷ cs) l =
    Spends-bind 1 1 (length cs) (length cs) _ _ _ _ (omega arith) (omega arith) (Spends-serve c l)
      λ l'. Spends-do_call_loop cs l'

-- Every request that a worker serves to its end takes one from the semaphore and gives nothing
-- back: after `n` requests, whatever the clients sent, the semaphore is `n` lower and `requests`,
-- an `int`, is `n` higher.
pub do_call_spends :
    (cs : List Conn) (l : Locals) (w w' : World)
    → do_call cs w ≡ ok l w'
    → (w.sem ≡ w'.sem + length cs)
      × (w'.stats.requests % 2 ^ 32 ≡ (w.stats.requests + length cs) % 2 ^ 32)
unfolding do_call
do_call_spends cs l w w' e =
    subst (Spent (length cs) (length cs) w) e ((Spends-do_call_loop cs fresh_locals).at w)

-- `sem_init(&sem, 0, 1)`: a worker never gets past its second request.
pub do_call_stops :
    (cs : List Conn) (w : World)
    → w.sem ≡ 1
    → 2 ≤ length cs
    → (l : Locals) (w' : World) → do_call cs w ≢ ok l w'
do_call_stops cs w one two l w' e = omega (arith, do_call_spends cs l w w' e)
