-- ===== src/Process/Permits.antt =====
-- What the process of a script-running program keeps between requests: the semaphore with its
-- permits and balanced books, and what is asked of `need_stop_script`, as long as 1 has it.
use os_study.Prelude.{ℕ, zero, suc, ◌≡◌, refl, arith}
use os_study.Server.World.{World, Call, call, sem_wait}
use os_study.Server.Stats.{write_code}
use os_study.Server.Worker.{load_requests, read_total}
use os_study.Server.Ensures.{Returns, Ensures}
use os_study.Server.Books.{IsClass}
use os_study.Server.Balance.{InOrder, count_code-IsBalanced}
use os_study.Process.Bash.{handle_sigalrm, handle_sigalrm_stop_scipt, reset_alarm_count}
use os_study.Process.Books.{Keeping}

pub record Kept (k : ℕ) (F : ℕ → Type 0) (w : World) : Type 0 where
  pub in_order : InOrder (suc k) w
  pub flag : F w.need_stop_script

module _ (k : ℕ) (F : ℕ → Type 0) where
  abbrev P : World → Type 0
  P = Kept k F

  calls : (c : Call) → Ensures P P (call c)
  unfolding call
  calls c = record {
    at = λ w h. record {
      in_order = record { permits = h.in_order.permits; balanced = h.in_order.balanced };
      flag = h.flag;
    };
  }

  write_at :
      (code : ℕ) (w : World) (s : ℕ)
      → w.sem ≡ s
      → IsClass code
      → P w
      → Returns P (write_code code w)
  unfolding write_code
  write_at code w zero e c h = rw (e, sem_wait) (omega (arith, h.in_order.permits, e))
  write_at code w (suc s) e c h =
      rw (e, sem_wait)
        (record {
          in_order = record {
            permits = omega (arith, h.in_order.permits, e);
            balanced = count_code-IsBalanced code w.stats c h.in_order.balanced;
          };
          flag = h.flag;
        })

  total_at : (w : World) (s : ℕ) → w.sem ≡ s → P w → Returns P (read_total w)
  unfolding read_total
  total_at w zero e h = rw (e, sem_wait) (omega (arith, h.in_order.permits, e))
  total_at w (suc s) e h =
      rw (e, sem_wait)
        (record {
          in_order = record {
            permits = omega (arith, h.in_order.permits, e);
            balanced = h.in_order.balanced;
          };
          flag = h.flag;
        })

  -- The handler of SIGALRM for a script sets the flag to 1.
  pub Kept-Keeping : F 1 → Keeping P
  unfolding load_requests handle_sigalrm handle_sigalrm_stop_scipt reset_alarm_count
  Kept-Keeping one = record {
    writes = record {
      before = calls;
      after = calls;
      write = λ code c. record { at = λ w h. write_at code w w.sem refl c h };
    };
    total = record { at = λ w h. total_at w w.sem refl h };
    requests = record { at = λ w h. h };
    alarm = record {
      at = λ w h. record {
        in_order = record { permits = h.in_order.permits; balanced = h.in_order.balanced };
        flag = h.flag;
      };
    };
    stop = record {
      at = λ w h. record {
        in_order = record { permits = h.in_order.permits; balanced = h.in_order.balanced };
        flag = one;
      };
    };
    reset = record {
      at = λ w h. record {
        in_order = record { permits = h.in_order.permits; balanced = h.in_order.balanced };
        flag = h.flag;
      };
    };
  }
