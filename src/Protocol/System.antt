-- ===== src/Protocol/System.antt =====
-- Threads in `write_code` and in the reading of `requests`, interleaved in any order.
use os_study.Prelude.{ℕ, suc, ◌+◌, ◌%◌, ◌^◌, ◌<◌, ◌≡◌, Bool, true, false}
use os_study.Protocol.Family.{set_at}

pub record Shared : Type 0 where
  pub sem : ℕ
  pub requests : ℕ

-- Where a thread stands. `++requests` is a load and a store.
pub data Pc : Type 0 where
  outside : Pc
  writer : Pc  -- behind `sem_wait` in `write_code`
  loaded : (value : ℕ) → Pc  -- `requests` is loaded
  stored : Pc  -- `requests` is stored
  reader : Pc  -- behind `sem_wait` in `do_call`

-- A step of one thread. `posts` says whether `write_code` ends in `sem_post`.
pub data Move (posts : Bool) (m : Shared) : Pc → Shared → Pc → Type 0 where
  wait_write : {s : ℕ} → m.sem ≡ suc s → Move posts m Pc.outside (record m { sem = s }) Pc.writer
  load : Move posts m Pc.writer m (Pc.loaded m.requests)
  store : {v : ℕ} → Move posts m (Pc.loaded v) (record m { requests = (v + 1) % 2 ^ 32 }) Pc.stored
  post_write : posts ≡ true → Move posts m Pc.stored (record m { sem = m.sem + 1 }) Pc.outside
  leave_write : posts ≡ false → Move posts m Pc.stored m Pc.outside
  wait_read : {s : ℕ} → m.sem ≡ suc s → Move posts m Pc.outside (record m { sem = s }) Pc.reader
  post_read : Move posts m Pc.reader (record m { sem = m.sem + 1 }) Pc.outside

-- `stores` and `left` count the stores and the returns with no post.
pub record System : Type 0 where
  pub shared : Shared
  pub pc : ℕ → Pc
  pub stores : ℕ
  pub left : ℕ

abbrev pub stores_of : {posts : Bool} {m m' : Shared} {p p' : Pc} → Move posts m p m' p' → ℕ
stores_of store = 1
stores_of load = 0
stores_of _ = 0

abbrev pub left_of : {posts : Bool} {m m' : Shared} {p p' : Pc} → Move posts m p m' p' → ℕ
left_of (leave_write e) = 1
left_of load = 0
left_of _ = 0

pub data Step (posts : Bool) (n : ℕ) (s : System) : System → Type 0 where
  move :
      (i : ℕ) {m : Shared} {p : Pc}
      → i < n
      → (mv : Move posts s.shared (s.pc i) m p)
      → Step posts n s (record {
        shared = m;
        pc = set_at i p s.pc;
        stores = s.stores + stores_of mv;
        left = s.left + left_of mv;
      })

-- `sem_init(&sem, 0, 1)`, `requests` 0, no thread inside.
abbrev pub init : System
init = record {
  shared = record { sem = 1; requests = 0 };
  pc = λ _. Pc.outside;
  stores = 0;
  left = 0;
}

pub data Reach (posts : Bool) (n : ℕ) : System → Type 0 where
  start : Reach posts n init
  later : {s t : System} → Reach posts n s → Step posts n s t → Reach posts n t
