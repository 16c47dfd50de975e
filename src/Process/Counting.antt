-- ===== src/Process/Counting.antt =====
-- What the handlers need of a program's `write_code`, and of the way it reads `requests`.
use os_study.Prelude.{ℕ, zero, suc, ◌-◌, ◌≡◌, refl, sym, ap, subst, ◌∙◌, arith, []}
use os_study.Server.World.{Text, World, Cmd, ◌>>=◌, and_then, sem_wait}
use os_study.Server.Stats.{count_code, record_code, write_code, write_code_thread}
use os_study.Server.Worker.{load_requests, read_total}
use os_study.Process.Stream.{unsent, Lasting, lasting, Sent, Sends}

-- One more reply with the status `code`.
abbrev pub counted : ℕ → Lasting → Lasting
counted code s = record s { stats = count_code code s.stats }

-- One more, with no `sem_post`.
abbrev pub spent : ℕ → Lasting → Lasting
spent code s = record s { stats = count_code code s.stats; permits = s.permits - 1 }

-- `write_code`, where the semaphore is free: it sends nothing, and counts by `count`.
pub record Counting (write_code : ℕ → Cmd (Unit {0})) : Type 0 where
  pub count : ℕ → Lasting → Lasting
  pub counts :
      (fd code k : ℕ) (s : Lasting)
      → s.permits ≡ suc k
      → Sends fd s (count code s) [] (write_code code)

-- A way to read `requests`, where the semaphore is free: what follows has the number of `s`.
pub record Totals (total_of : Cmd ℕ) : Type 0 where
  pub totals :
      (fd k : ℕ) (s s' : Lasting) (b : Text) (f : ℕ → Cmd (Unit {0}))
      → s.permits ≡ suc k
      → Sends fd s s' b (f s.stats.requests)
      → Sends fd s s' b (total_of >>= f)

module _ (fd code : ℕ) (s : Lasting) (w : World) (k : ℕ) (free : s.permits ≡ suc k) where
  free_at : lasting w ≡ s → w.sem ≡ suc k
  free_at h = ap (λ (t : Lasting). t.permits) h ∙ free

  counted_at :
      (n : ℕ) → w.sem ≡ n → lasting w ≡ s → Sent fd (counted code s) [] w (write_code code w)
  unfolding write_code record_code
  counted_at zero i h = absurd (omega (arith, free_at h, i))
  counted_at (suc n) i h =
      rw (i, sem_wait)
        (
          ap (λ p. record (counted code (lasting w)) { permits = p }) (sym i) ∙ ap (counted code) h,
          unsent fd w.calls,
        )

  spent_at :
      (n : ℕ) → w.sem ≡ n → lasting w ≡ s → Sent fd (spent code s) [] w (write_code_thread code w)
  unfolding write_code_thread record_code
  spent_at zero i h = absurd (omega (arith, free_at h, i))
  spent_at (suc n) i h =
      rw (i, sem_wait)
        (
          ap (λ p. record (counted code (lasting w)) { permits = p }) (omega (arith, i))
              ∙ ap (spent code) h,
          unsent fd w.calls,
        )

module _ (fd : ℕ) (s s' : Lasting) (b : Text) (f : ℕ → Cmd (Unit {0})) (w : World) where
  locked_at :
      (k n : ℕ)
      → w.sem ≡ suc k
      → w.sem ≡ n
      → Sent fd s' b w (f w.stats.requests w)
      → Sent fd s' b w (and_then (read_total w) f)
  unfolding read_total load_requests
  locked_at k zero e i h = absurd (omega (arith, e, i))
  locked_at k (suc n) e i h = rw (i, sem_wait) (rw⁻¹ i h)

  as_found :
      lasting w ≡ s → Sends fd s s' b (f s.stats.requests) → Sent fd s' b w (f w.stats.requests w)
  as_found i h = subst (λ (t : Lasting). Sent fd s' b w (f t.stats.requests w)) (sym i) (h.at w i)

pub write_code-counts :
    (fd code k : ℕ) (s : Lasting)
    → s.permits ≡ suc k
    → Sends fd s (counted code s) [] (write_code code)
write_code-counts fd code k s free = record {
  at = λ w h. counted_at fd code s w k free w.sem refl h;
}

pub write_code_thread-counts :
    (fd code k : ℕ) (s : Lasting)
    → s.permits ≡ suc k
    → Sends fd s (spent code s) [] (write_code_thread code)
write_code_thread-counts fd code k s free = record {
  at = λ w h. spent_at fd code s w k free w.sem refl h;
}

module _ (fd k : ℕ) (s s' : Lasting) (b : Text) (f : ℕ → Cmd (Unit {0})) where
  pub read_total-totals :
      s.permits ≡ suc k → Sends fd s s' b (f s.stats.requests) → Sends fd s s' b (read_total >>= f)
  read_total-totals free h = record {
    at = λ w i.
        locked_at fd s s' b f w k w.sem (free_at fd 0 s w k free i) refl
          (as_found fd s s' b f w i h);
  }

  pub load_requests-totals :
      s.permits ≡ suc k
      → Sends fd s s' b (f s.stats.requests)
      → Sends fd s s' b (load_requests >>= f)
  unfolding load_requests
  load_requests-totals free h = record { at = λ w i. as_found fd s s' b f w i h }

-- multi_server.c and the programs with a pool of processes.
abbrev pub with_post : Counting write_code
with_post = record { count = counted; counts = write_code-counts }

-- The programs with threads.
abbrev pub without_post : Counting write_code_thread
without_post = record { count = spent; counts = write_code_thread-counts }

abbrev pub with_lock : Totals read_total
with_lock = record { totals = read_total-totals }

-- A child of multi_server.c.
abbrev pub without_lock : Totals load_requests
without_lock = record { totals = load_requests-totals }
