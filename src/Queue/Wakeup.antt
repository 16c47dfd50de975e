-- ===== src/Queue/Wakeup.antt =====
-- The monitor around the queue: the accept loop and the workers, as they stand to the mutex and to
-- the condition variable of `queue_put` and `queue_get`. Workers are counted by where they stand.
use os_study.Prelude.{ℕ, suc, ◌+◌, ◌≤◌, ◌<◌, ◌≡◌, ◌⊎◌, arith}

pub record Monitor : Type 0 where
  pub length : ℕ  -- messages in the queue
  pub unsignalled : ℕ  -- `queue_put` between its unlock and its signal
  pub checking : ℕ  -- workers that will test `q->length == 0`
  pub asleep : ℕ  -- workers in `pthread_cond_wait`
  pub busy : ℕ  -- workers that serve a connection

-- The one accept loop puts again only after its signal. A worker may wake with no signal.
pub data Step (m : Monitor) : Monitor → Type 0 where
  put : m.unsignalled ≡ 0 → Step m (record m { length = m.length + 1; unsignalled = 1 })
  signal_one :
      {k a : ℕ}
      → m.unsignalled ≡ suc k
      → m.asleep ≡ suc a
      → Step m (record m { unsignalled = k; asleep = a; checking = m.checking + 1 })
  signal_none :
      {k : ℕ} → m.unsignalled ≡ suc k → m.asleep ≡ 0 → Step m (record m { unsignalled = k })
  enter : {b : ℕ} → m.busy ≡ suc b → Step m (record m { busy = b; checking = m.checking + 1 })
  sleep :
      {c : ℕ}
      → m.checking ≡ suc c
      → m.length ≡ 0
      → Step m (record m { checking = c; asleep = m.asleep + 1 })
  take :
      {c l : ℕ}
      → m.checking ≡ suc c
      → m.length ≡ suc l
      → Step m (record m { checking = c; length = l; busy = m.busy + 1 })
  wake : {a : ℕ} → m.asleep ≡ suc a → Step m (record m { asleep = a; checking = m.checking + 1 })

abbrev pub started : ℕ → Monitor
started n = record { length = 0; unsignalled = 0; checking = 0; asleep = 0; busy = n }

pub data Reach (n : ℕ) : Monitor → Type 0 where
  begin : Reach n (started n)
  next : {m m' : Monitor} → Reach n m → Step m m' → Reach n m'

record Inv (n : ℕ) (m : Monitor) : Type 0 where
  workers : m.checking + m.asleep + m.busy ≡ n
  covered : (m.asleep ≡ 0) ⊎ (m.length ≤ m.checking + m.unsignalled)

step-Inv : {n : ℕ} {m m' : Monitor} → Step m m' → Inv n m → Inv n m'
step-Inv (put e) inv = ground arith
step-Inv (signal_one e a) inv = ground arith
step-Inv (signal_none e a) inv = ground arith
step-Inv (enter e) inv = ground arith
step-Inv (sleep e l) inv = ground arith
step-Inv (take e l) inv = ground arith
step-Inv (wake e) inv = ground arith

reach-Inv : {n : ℕ} {m : Monitor} → Reach n m → Inv n m
reach-Inv begin = record { workers = omega arith; covered = omega arith }
reach-Inv (next r s) = step-Inv s (reach-Inv r)

-- No wakeup is lost: in every reachable state with `n` workers and a message in the queue, either
-- all workers serve a connection, or one is about to look at the queue, or the signal for the
-- message is still to come. So a message never waits while the workers that are free all sleep.
pub no_lost_wakeup :
    {n : ℕ} {m : Monitor}
    → Reach n m
    → 0 < m.length
    → (m.busy ≡ n) ⊎ (0 < m.checking + m.unsignalled)
no_lost_wakeup r h = let i = reach-Inv r in ground (arith, i.workers, i.covered)
