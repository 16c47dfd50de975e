-- ===== src/Queue/Calls.antt =====
-- What `queue_put` and `queue_get` do to the list of messages.
use os_study.Prelude.{
  ℕ, suc, ◌+◌, ◌-◌, ◌%◌, ◌^◌, ◌<◌, ◌≡◌, ◌≢◌, refl, none, some, [], ◌∷◌, ◌++◌, arith, length,
  length-append, ap, sym, subst, ◌∙◌, ==_of_eq, ==_ne,
}
use os_study.Queue.{
  Ptr, null, Message, message, Heap, write, load, Queue, State, queue_put, queue_get, Got,
  append_to, take_first,
}
use os_study.Queue.Chain.{
  Cells, head_ptr, last_ptr, Linked, IsQueue, frame, unused-has, last_message, extend, load_lem,
  last_ptr-append, write_self,
}

abbrev new_message : Heap → (mq sock : ℕ) → Heap
new_message h mq sock = write h mq (some (message sock null))

put_first :
    (s : State) (mq sock : ℕ)
    → mq ≢ null
    → s.queue.first ≡ null
    → queue_put mq sock s ≡ some (append_to mq mq (new_message s.heap mq sock) s.queue)
unfolding queue_put
put_first s mq sock ne e = rw (==_ne mq null ne, e)

put_last :
    (s : State) (mq sock t : ℕ)
    → mq ≢ null
    → s.queue.first ≢ null
    → load (new_message s.heap mq sock) s.queue.last ≡ some (message t null)
    → queue_put mq sock s
      ≡ some (
          append_to s.queue.first mq
            (write (new_message s.heap mq sock) s.queue.last (some (message t mq)))
            s.queue)
unfolding queue_put
put_last s mq sock t ne used e = rw (==_ne mq null ne, ==_ne s.queue.first null used, e)

-- `queue_put` with a fresh message puts its socket behind those that wait, and makes no bad access.
pub queue_put_lem :
    (s : State) (xs : Cells) (mq sock : ℕ)
    → IsQueue s xs
    → mq ≢ null
    → s.heap mq ≡ none
    → (s' : State) × (queue_put mq sock s ≡ some s') × IsQueue s' (xs ++ (mq, sock) ∷ [])
queue_put_lem s [] mq sock is ne free = (
  append_to mq mq (new_message s.heap mq sock) s.queue,
  put_first s mq sock ne is.first,
  record {
    first = refl;
    last = refl;
    count = omega (arith, is.count);
    linked = (ne, write_self s.heap mq _, refl, tt);
  },
)
queue_put_lem s (x ∷ xs) mq sock is ne free =
    let out = unused-has s.heap mq (x ∷ xs) free is.linked in
    let framed = frame s.heap mq (some (message sock null)) (x ∷ xs) out is.linked in
    let (t, ne_last, at_last, _) = last_message (new_message s.heap mq sock) x xs framed in
    let found = load_lem (new_message s.heap mq sock) (last_ptr (x ∷ xs)) ne_last at_last in
    (
      append_to s.queue.first mq
          (write (new_message s.heap mq sock) s.queue.last (some (message t mq))) s.queue,
      put_last s mq sock t ne (λ e. is.linked.0 (sym is.first ∙ e))
          (ap (load (new_message s.heap mq sock)) is.last ∙ found),
      record {
        first = is.first;
        last = sym (last_ptr-append (x ∷ xs) mq sock);
        count = omega (arith, is.count, length-append {0} (x ∷ xs) ((mq, sock) ∷ []));
        linked =
            subst
              (λ p.
                Linked (write (new_message s.heap mq sock) p (some (message t mq)))
                  ((x ∷ xs) ++ (mq, sock) ∷ []))
              (sym is.last)
              (extend (new_message s.heap mq sock) mq sock t x xs ne out (write_self s.heap mq _)
                at_last framed);
      },
    )

-- `queue_get` on an empty queue waits.
pub queue_get-nil : (s : State) → IsQueue s [] → queue_get s ≡ Got.waits
unfolding queue_get
queue_get-nil s is = rw is.count

get_first :
    (s : State) (m : Message)
    → s.queue.length ≢ 0
    → load s.heap s.queue.first ≡ some m
    → queue_get s ≡ take_first s.heap s.queue (some m)
unfolding queue_get
get_first s m ne e = rw (==_ne s.queue.length 0 ne, e)

abbrev rest_of : Heap → Queue → (first last : Ptr) → State
rest_of h q first last = record {
  heap = write h q.first none;
  queue = record { first = first; last = last; length = (q.length + 2 ^ 32 - 1) % 2 ^ 32 };
}

take_only :
    (h : Heap) (q : Queue) (sock : ℕ)
    → q.first ≡ q.last
    → take_first h q (some (message sock null)) ≡ Got.got sock (rest_of h q null null)
take_only h q sock e = rw (==_of_eq q.first q.last e)

take_more :
    (h : Heap) (q : Queue) (sock p : ℕ)
    → p ≢ null
    → take_first h q (some (message sock p)) ≡ Got.got sock (rest_of h q p q.last)
take_more h q sock p ne = ground arith

get_head :
    (s : State) (a sock : ℕ) (xs : Cells)
    → IsQueue s ((a, sock) ∷ xs)
    → suc (length xs) < 2 ^ 32
    → queue_get s ≡ take_first s.heap s.queue (some (message sock (head_ptr xs)))
get_head s a sock xs is few =
    get_first s _ (λ e. absurd (omega (arith, is.count)))
      (ap (load s.heap) is.first ∙ load_lem s.heap a is.linked.0 is.linked.1)

-- The state after the head is unlinked.
unlinked :
    (s : State) (a sock : ℕ) (xs : Cells)
    → IsQueue s ((a, sock) ∷ xs)
    → suc (length xs) < 2 ^ 32
    → (p : Ptr) → p ≡ last_ptr xs
    → IsQueue (rest_of s.heap s.queue (head_ptr xs) p) xs
unlinked s a sock xs is few p e = record {
  first = refl;
  last = e;
  count = omega (arith, is.count);
  linked =
      subst (λ r. Linked (write s.heap r none) xs) (sym is.first)
        (frame s.heap a none xs is.linked.2 is.linked.3);
}

freed : (s : State) (a : ℕ) → s.queue.first ≡ a → write s.heap s.queue.first none a ≡ none
freed s a e = subst (λ r. write s.heap r none a ≡ none) (sym e) (write_self s.heap a none)

-- `queue_get` takes the socket that has waited longest, frees its message, and makes no bad access.
pub queue_get_lem :
    (s : State) (a sock : ℕ) (xs : Cells)
    → IsQueue s ((a, sock) ∷ xs)
    → suc (length xs) < 2 ^ 32
    → (s' : State) × (queue_get s ≡ Got.got sock s') × IsQueue s' xs × (s'.heap a ≡ none)
queue_get_lem s a sock [] is few = (
  rest_of s.heap s.queue null null,
  get_head s a sock [] is few ∙ take_only s.heap s.queue sock (is.first ∙ sym is.last),
  unlinked s a sock [] is few null refl,
  freed s a is.first,
)
queue_get_lem s a sock ((b, t) ∷ xs) is few = (
  rest_of s.heap s.queue b s.queue.last,
  get_head s a sock ((b, t) ∷ xs) is few ∙ take_more s.heap s.queue sock b is.linked.3.0,
  unlinked s a sock ((b, t) ∷ xs) is few s.queue.last is.last,
  freed s a is.first,
)
