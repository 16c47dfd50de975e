-- ===== src/StoreBuffers.antt =====
-- Reference/multi_threading/atomic/test.cpp: one round of `main` with its two tasks, on an x86 processor,
-- as the file's `mfence` is one of its instructions: a store goes into the buffer of its thread and
-- later to the memory, in the order of the stores; a load takes the newest value in the buffer of its
-- own thread before the one in the memory; `mfence` waits until the buffer is empty.
pub mod Buffers
pub mod Barrier
pub mod Reordered
pub mod Message
use os_study.Prelude.{
  ℕ, suc, ◌+◌, ◌-◌, ◌<◌, ◌≡◌, Bool, true, false, List, [], ◌∷◌, ◌++◌, ◌==◌, ◌&&◌, if◌then◌else◌,
}
use os_study.Protocol.Family.{set_at}

-- The variables, by number: task `i` stores 1 to `flag i`, which is `a` or `b`, and what it loads of
-- the other's flag to `result i`, which is `x` or `y`.
abbrev pub flag : ℕ → ℕ
flag i = i

abbrev pub result : ℕ → ℕ
result i = i + 2

abbrev pub other : ℕ → ℕ
other i = 1 - i

-- `task1` and `task2`: before the store of the flag, behind it, behind the barrier, with the other's
-- flag loaded, and behind the store of it.
pub data Task : Type 0 where
  begun stored fenced : Task
  loaded finished : ℕ → Task

-- A buffer has the newest store first: a variable and its value.
pub record Round : Type 0 where
  pub tasks : ℕ → Task
  pub buffers : ℕ → List (ℕ × ℕ)
  pub memory : ℕ → ℕ

-- Behind the four stores of `main`.
abbrev pub started : Round
started = record { tasks = λ _. Task.begun; buffers = λ _. []; memory = λ _. 0 }

abbrev pub read : List (ℕ × ℕ) → (ℕ → ℕ) → ℕ → ℕ
read [] memory var = memory var
read ((var', value) ∷ buffer) memory var =
    let older = read buffer memory var in if var' == var then value else older

abbrev pub moved : ℕ → Task → List (ℕ × ℕ) → Round → Round
moved i t b s = record s { tasks = set_at i t s.tasks; buffers = set_at i b s.buffers }

-- `barrier`: HAVE_BARRIER is defined.
pub data Step (barrier : Bool) (s : Round) : Round → Type 0 where
  store_flag :
      (i : ℕ)
      → i < 2
      → s.tasks i ≡ Task.begun
      → Step barrier s (moved i Task.stored ((flag i, 1) ∷ s.buffers i) s)
  mrwbarrier :
      (i : ℕ)
      → i < 2
      → s.tasks i ≡ Task.stored
      → (barrier ≡ true → s.buffers i ≡ [])
      → Step barrier s (moved i Task.fenced (s.buffers i) s)
  load_flag :
      (i : ℕ)
      → i < 2
      → s.tasks i ≡ Task.fenced
      → Step barrier s
          (moved i (Task.loaded (read (s.buffers i) s.memory (flag (other i)))) (s.buffers i) s)
  store_result :
      (i value : ℕ)
      → i < 2
      → s.tasks i ≡ Task.loaded value
      → Step barrier s (moved i (Task.finished value) ((result i, value) ∷ s.buffers i) s)
  drain :
      (i var value : ℕ) (newer : List (ℕ × ℕ))
      → i < 2
      → s.buffers i ≡ newer ++ (var, value) ∷ []
      → Step barrier s
          (record s { buffers = set_at i newer s.buffers; memory = set_at var value s.memory })

pub data Reach (barrier : Bool) : Round → Type 0 where
  begin : Reach barrier started
  next : {s s' : Round} → Reach barrier s → Step barrier s s' → Reach barrier s'

-- Behind `pthread_join`: both tasks have finished, and their stores are in the memory.
pub record Joined (s : Round) : Type 0 where
  pub values : ℕ → ℕ
  pub first : s.tasks 0 ≡ Task.finished (values 0)
  pub second : s.tasks 1 ≡ Task.finished (values 1)
  pub drained : (s.buffers 0 ≡ []) × (s.buffers 1 ≡ [])

-- `x == 0 && y == 0`: `main` prints "CPU Out of Order Exec Happend."
abbrev pub prints : Round → Bool
prints s = (s.memory (result 0) == 0) && (s.memory (result 1) == 0)
