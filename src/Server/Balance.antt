-- ===== src/Server/Balance.antt =====
-- The semaphore over the statistics, and their books.
use os_study.Prelude.{ℕ, zero, suc, ◌+◌, ◌%◌, ◌^◌, ◌≡◌, refl, arith}
use os_study.Server.World.{Stats, World, Call, call, sem_wait}
use os_study.Server.Stats.{count_code}
use os_study.Server.Worker.{load_requests, read_total}
use os_study.Server.Ensures.{Returns, Ensures}
use os_study.Server.Books.{IsClass}

-- `requests` is the sum of the four classes, as `int`s.
abbrev pub IsBalanced : Stats → Type 0
IsBalanced s = s.requests % 2 ^ 32 ≡ (s.code_2xx + s.code_3xx + s.code_4xx + s.code_5xx) % 2 ^ 32

pub count_code-IsBalanced :
    (code : ℕ) (s : Stats) → IsClass code → IsBalanced s → IsBalanced (count_code code s)
unfolding count_code
count_code-IsBalanced code s c h = ground arith

-- The semaphore has the value `k`, and the books balance.
pub record InOrder (k : ℕ) (w : World) : Type 0 where
  pub permits : w.sem ≡ k
  pub balanced : IsBalanced w.stats

pub calls : (k : ℕ) (c : Call) → Ensures (InOrder k) (InOrder k) (call c)
unfolding call
calls k c = record { at = λ w h. record { permits = h.permits; balanced = h.balanced } }

module _ (k : ℕ) where
  abbrev P : World → Type 0
  P = InOrder (suc k)

  total_at : (w : World) (s : ℕ) → w.sem ≡ s → P w → Returns P (read_total w)
  unfolding read_total
  total_at w zero e h = rw (e, sem_wait) (omega (arith, h.permits, e))
  total_at w (suc s) e h =
      rw (e, sem_wait) (record { permits = omega (arith, h.permits, e); balanced = h.balanced })

  pub Ensures-read_total : Ensures P P read_total
  Ensures-read_total = record { at = λ w h. total_at w w.sem refl h }

  pub Ensures-load_requests : Ensures P P load_requests
  unfolding load_requests
  Ensures-load_requests = record { at = λ w h. h }
