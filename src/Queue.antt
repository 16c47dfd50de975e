-- ===== src/Queue.antt =====
-- The blocking queue of multi_server_thread_blocking_queue.c, on an explicit heap. A call is its
-- critical section: the mutex makes it one step.
pub mod Chain
pub mod Calls
pub mod Fifo
pub mod Wakeup
use os_study.Prelude.{
  ℕ, ◌+◌, ◌-◌, ◌%◌, ◌^◌, Bool, true, false, ◌&&◌, Option, none, some, ◌==◌, if◌then◌else◌,
}

abbrev pub Ptr : Type 0
Ptr = ℕ

abbrev pub null : Ptr
null = 0

-- `struct message`
pub record Message : Type 0 where
  pub sock : ℕ
  pub next : Ptr

abbrev pub message : ℕ → Ptr → Message
message s p = record { sock = s; next = p }

abbrev pub Heap : Type 0
Heap = Ptr → Option Message

unfoldable pub write : Heap → Ptr → Option Message → Heap
write h p c a = if a == p then c else h a

-- `*p`: `none` at NULL and at an address that holds no message.
unfoldable pub load : Heap → Ptr → Option Message
load h p = if p == null then none else h p

-- `struct queue`, less the mutex and the condition variable. `length` is an `unsigned int`.
pub record Queue : Type 0 where
  pub first : Ptr
  pub last : Ptr
  pub length : ℕ

pub record State : Type 0 where
  pub heap : Heap
  pub queue : Queue

abbrev pub empty_queue : Queue
empty_queue = record { first = null; last = null; length = 0 }

unfoldable pub queue_init : State → State
queue_init s = record s { queue = empty_queue }

unfoldable pub queue_destroy : State → State
queue_destroy s = record s { queue = empty_queue }

-- The last lines of `queue_put`, once the new message is linked.
abbrev pub append_to : Ptr → Ptr → Heap → Queue → State
append_to first mq h q = record {
  heap = h;
  queue = record { first = first; last = mq; length = (q.length + 1) % 2 ^ 32 };
}

-- `q->last->next = mq`
abbrev pub link_last : Heap → Ptr → Ptr → Option Message → Option Heap
link_last h last mq none = none
link_last h last mq (some m) = some (write h last (some (record m { next = mq })))

abbrev pub put_after : Ptr → Queue → Option Heap → Option State
put_after mq q none = none
put_after mq q (some h) = some (append_to q.first mq h q)

-- `queue_put`, where `calloc` returns `mq`. `none` is a bad access.
unfoldable pub queue_put : Ptr → ℕ → State → Option State
queue_put mq sock s =
    let h = write s.heap mq (some (message sock null)) in
    let q = s.queue in
    if mq == null
    then none
    else if q.first == null
    then some (append_to mq mq h q)
    else put_after mq q (link_last h q.last mq (load h q.last))

-- A call of `queue_get` takes a socket, waits on the condition variable, or makes a bad access.
pub data Got : Type 0 where
  got : ℕ → State → Got
  waits : Got
  fault : Got

-- From `q->length -= 1` on, with the message that `q->first` points to.
abbrev pub take_first : Heap → Queue → Option Message → Got
take_first h q none = Got.fault
take_first h q (some m) = Got.got m.sock (record {
  heap = write h q.first none;
  queue =
      if q.first == q.last && m.next == null
      then record { first = null; last = null; length = (q.length + 2 ^ 32 - 1) % 2 ^ 32 }
      else record { first = m.next; last = q.last; length = (q.length + 2 ^ 32 - 1) % 2 ^ 32 };
})

unfoldable pub queue_get : State → Got
queue_get s =
    if s.queue.length == 0 then Got.waits else take_first s.heap s.queue (load s.heap s.queue.first)
