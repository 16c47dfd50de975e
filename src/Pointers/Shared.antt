-- ===== src/Pointers/Shared.antt =====
-- My_shared_ptr. The members whose bodies no argument makes compile are left out: the constructor with
-- no argument, unique, swap and operator*; and operator=, which ends with no return statement. Nor does
-- `deleter(ptr)` compile, since `deleter` is a `void *`: of that branch it is only noted that it is
-- reached, with what pointers.
pub mod Counts
pub mod Owners
pub mod Safety
use os_study.Prelude.{
  ℕ, ◌+◌, ◌-◌, ◌%◌, ◌^◌, Bool, Option, none, some, List, [], ◌∷◌, ◌==◌, if◌then◌else◌,
}
use os_study.Pointers.{Ptr, null}

pub record MySharedPtr : Type 0 where
  pub ptr : Ptr
  pub ref_count : Ptr
  pub deleter : Ptr

-- `delete ptr`, that line 58 is reached in place of it, with `deleter` and `ptr`, and
-- `delete ref_count`.
pub data Event : Type 0 where
  deleted : Ptr → Event
  custom : Ptr → Ptr → Event
  deleted_count : Ptr → Event

-- The counters by their addresses, `none` where there is none, and what was deleted, with the newest
-- first.
pub record Heap : Type 0 where
  pub counters : Ptr → Option ℕ
  pub log : List Event

abbrev pub set_counter : Ptr → Option ℕ → Heap → Heap
set_counter r o h = record h { counters = λ a. if a == r then o else h.counters a }

abbrev pub logged : Event → Heap → Heap
logged e h = record h { log = e ∷ h.log }

-- The constructors from a pointer, at the address `r` that `new size_t` returns; `d` is the address of
-- the copy of `fn`.
unfoldable pub from_ptr : Ptr → Ptr → Heap → MySharedPtr × Heap
from_ptr t r h = (record { ptr = t; ref_count = r; deleter = null }, set_counter r (some 1) h)

unfoldable pub from_ptr_with : Ptr → Ptr → Ptr → Heap → MySharedPtr × Heap
from_ptr_with t d r h = (record { ptr = t; ref_count = r; deleter = d }, set_counter r (some 1) h)

-- `++` and `--` of a `size_t`
abbrev inc : ℕ → ℕ
inc n = (n + 1) % 2 ^ 64

abbrev dec : ℕ → ℕ
dec n = (n + (2 ^ 64 - 1)) % 2 ^ 64

-- The two copy constructors. `none` is an access to a counter that is gone.
unfoldable pub copy : MySharedPtr → Heap → Option (MySharedPtr × Heap)
copy b h = elim (h.counters b.ref_count) [
  | none ↦ none
  | some n ↦ some (b, set_counter b.ref_count (some (inc n)) h)
]

unfoldable pub copy_with : Ptr → MySharedPtr → Heap → Option (MySharedPtr × Heap)
copy_with d b h = elim (h.counters b.ref_count) [
  | none ↦ none
  | some n ↦ some (record b { deleter = d }, set_counter b.ref_count (some (inc n)) h)
]

-- `delete ptr`, or that the branch of a `deleter` that is not null is reached.
abbrev pub gone : MySharedPtr → Event
gone p = if p.deleter == null then Event.deleted p.ptr else Event.custom p.deleter p.ptr

unfoldable pub reduce_ref : MySharedPtr → Heap → Option Heap
reduce_ref p h = elim (h.counters p.ref_count) [
  | none ↦ none
  | some n ↦
      let left = set_counter p.ref_count (some (dec n)) h in
      some (if dec n == 0 then logged (gone p) left else left)
]

unfoldable pub destructor : MySharedPtr → Heap → Option Heap
unfolding reduce_ref
destructor p h = elim (h.counters p.ref_count) [
  | none ↦ none
  | some left ↦ elim (reduce_ref p h) [
    | none ↦ none
    | some h' ↦ some (
        if left == 1
        then logged (Event.deleted_count p.ref_count) (set_counter p.ref_count none h')
        else h')
  ]
]

-- `operator bool`
unfoldable pub to_bool : MySharedPtr → Bool
to_bool p = p.ptr == null

abbrev pub get : MySharedPtr → Ptr
get p = p.ptr

unfoldable pub use_count : MySharedPtr → Heap → Option ℕ
use_count p h = h.counters p.ref_count

-- What `main` prints, and the heap behind it.
unfoldable main : Ptr → Ptr → Ptr → Heap → Option (ℕ × Heap)
unfolding from_ptr_with use_count destructor
main t d r h =
    let (t1, h1) = from_ptr_with t d r h in
    elim (use_count t1 h1) [
      | none ↦ none
      | some n ↦ elim (destructor t1 h1) [ none ↦ none | some h2 ↦ some (n, h2) ]
    ]
