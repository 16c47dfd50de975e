-- ===== src/RecursiveMutex.antt =====
-- Reference/multi_threading/mutex.cpp: in each of 11 rounds, three threads that increment and print
-- `global_val` under a `recursive_mutex`, which the last round locks twice. A step is one access to
-- what the threads share.
pub mod Owner
pub mod Invariant
pub mod Count
pub mod Printed
pub mod Progress
pub mod Ending
use os_study.Prelude.{
  ℕ, suc, ◌+◌, ◌-◌, ◌<◌, ◌≡◌, Bool, true, false, List, [], ◌∷◌, ◌==◌, ◌⊎◌, if◌then◌else◌,
}
use os_study.Protocol.Family.{set_at}

-- `fn`: not yet created, before its first call, between the two calls of `lock` in the last round,
-- inside, with the value of `global_val` that `++` has read, behind its store, behind the print,
-- between the two calls of `unlock`, and behind its end.
pub data Thread : Type 0 where
  absent begun again inside : Thread
  loaded : ℕ → Thread
  stored printed outer finished : Thread

-- `recursive_mutex`: free where `depth` is 0.
pub record Mutex : Type 0 where
  pub owner : ℕ
  pub depth : ℕ

-- `round` is the `i` of `main`, and `created` the number of its threads. `printed` has the newest
-- first.
pub record Run : Type 0 where
  pub threads : ℕ → Thread
  pub mtx : Mutex
  pub global_val : ℕ
  pub printed : List ℕ
  pub round : ℕ
  pub created : ℕ

abbrev pub started : Run
started = record {
  threads = λ _. Thread.absent;
  mtx = record { owner = 0; depth = 0 };
  global_val = 0;
  printed = [];
  round = 0;
  created = 0;
}

-- `i == 10`
abbrev pub nested : Run → Bool
nested s = s.round == 10

-- `lock` does not wait where the mutex is free or the thread's own.
abbrev pub CanLock : ℕ → Mutex → Type 0
CanLock i m = (m.depth ≡ 0) ⊎ (m.owner ≡ i)

abbrev pub lock : ℕ → Mutex → Mutex
lock i m = record { owner = i; depth = suc m.depth }

abbrev pub unlock : Mutex → Mutex
unlock m = record m { depth = m.depth - 1 }

abbrev pub moved : ℕ → Thread → Run → Run
moved i t s = record s { threads = set_at i t s.threads }

pub data Step (s : Run) : Run → Type 0 where
  create :
      s.round < 11
      → s.created < 3
      → Step s (record (moved s.created Thread.begun s) { created = suc s.created })
  lock_again :
      (i : ℕ)
      → i < 3
      → s.threads i ≡ Thread.begun
      → nested s ≡ true
      → CanLock i s.mtx
      → Step s (record (moved i Thread.again s) { mtx = lock i s.mtx })
  lock_once :
      (i : ℕ)
      → i < 3
      → s.threads i ≡ (if nested s then Thread.again else Thread.begun)
      → CanLock i s.mtx
      → Step s (record (moved i Thread.inside s) { mtx = lock i s.mtx })
  load :
      (i : ℕ)
      → i < 3
      → s.threads i ≡ Thread.inside
      → Step s (moved i (Thread.loaded s.global_val) s)
  store :
      (i v : ℕ)
      → i < 3
      → s.threads i ≡ Thread.loaded v
      → Step s (record (moved i Thread.stored s) { global_val = suc v })
  print :
      (i : ℕ)
      → i < 3
      → s.threads i ≡ Thread.stored
      → Step s (record (moved i Thread.printed s) { printed = s.global_val ∷ s.printed })
  unlock_once :
      (i : ℕ)
      → i < 3
      → s.threads i ≡ Thread.printed
      → Step s (record (moved i (if nested s then Thread.outer else Thread.finished) s) {
        mtx = unlock s.mtx;
      })
  unlock_again :
      (i : ℕ)
      → i < 3
      → s.threads i ≡ Thread.outer
      → Step s (record (moved i Thread.finished s) { mtx = unlock s.mtx })
  join :
      s.created ≡ 3
      → ((i : ℕ) → i < 3 → s.threads i ≡ Thread.finished)
      → Step s (record s { threads = λ _. Thread.absent; round = suc s.round; created = 0 })

pub data Reach : Run → Type 0 where
  begin : Reach started
  next : {s s' : Run} → Reach s → Step s s' → Reach s'
