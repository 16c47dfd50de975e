-- ===== src/Programs/Fork/Reports.antt =====
-- What `handler_siguser1` of multi_server.c prints.
use os_study.Prelude.{ℕ, zero, suc, ◌≡◌, refl, sym, ap, List, ◌∷◌}
use os_study.Server.World.{World, ok, sem_wait}
use os_study.Server.Worker.{read_total}
use os_study.Programs.Fork.{handler_siguser1}

-- `n` times `value` in front of `printed`
abbrev pub repeated : ℕ → ℕ → List ℕ → List ℕ
repeated zero value printed = printed
repeated (suc n) value printed = repeated n value (value ∷ printed)

waited : (w : World) (k : ℕ) → w.sem ≡ suc k → sem_wait w ≡ ok tt (record w { sem = k })
unfolding sem_wait
waited w k e = rw e refl

read_total-eq : (w : World) (k : ℕ) → w.sem ≡ suc k → read_total w ≡ ok w.stats.requests w
unfolding read_total
read_total-eq w k e =
    rw (waited w k e) (ap (λ s. ok w.stats.requests (record w { sem = s })) (sym e))

-- With the semaphore free, and no request served between them, the process prints the number of
-- requests once for each SIGUSR1, and leaves the semaphore and the statistics as they were.
pub handler_siguser1-repeated :
    (signals k : ℕ) (printed : List ℕ) (w : World)
    → w.sem ≡ suc k
    → handler_siguser1 signals printed w ≡ ok (repeated signals w.stats.requests printed) w
unfolding handler_siguser1
handler_siguser1-repeated zero k printed w e = refl
handler_siguser1-repeated (suc n) k printed w e =
    rw (read_total-eq w k e) (handler_siguser1-repeated n k (w.stats.requests ∷ printed) w e)
