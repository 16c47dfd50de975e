-- ===== src/Queue/Fifo.antt =====
-- Histories of the queue: what `queue_get` hands out against what `queue_put` took in.
use os_study.Prelude.{
  ℕ, suc, ◌+◌, ◌^◌, ◌<◌, ◌≡◌, ◌≢◌, refl, some, none, List, [], ◌∷◌, ◌++◌, arith, length,
  length-append, ap, sym, subst, ◌∙◌, append_assoc, append-nil, ◌⊎◌, inl, inr,
}
use os_study.Queue.{null, State, queue_init, queue_put, queue_get, Got}
use os_study.Queue.Chain.{Cells, IsQueue}
use os_study.Queue.Calls.{queue_put_lem, queue_get_lem, queue_get-nil}

pub data Event : Type 0 where
  put got : ℕ → Event

abbrev pub puts : List Event → List ℕ
puts [] = []
puts (Event.put s ∷ es) = s ∷ puts es
puts (Event.got s ∷ es) = puts es

abbrev pub gets : List Event → List ℕ
gets [] = []
gets (Event.put s ∷ es) = gets es
gets (Event.got s ∷ es) = s ∷ gets es

-- A history from `queue_init` on, its events in order. `calloc` returns an address that is not in
-- use, and fewer than 2 ^ 32 connections wait at any time.
pub data History : State → List Event → Type 0 where
  start : (s : State) → History (queue_init s) []
  put :
      {s s' : State} {es : List Event} (mq sock : ℕ)
      → History s es
      → mq ≢ null
      → s.heap mq ≡ none
      → s.queue.length + 1 < 2 ^ 32
      → queue_put mq sock s ≡ some s'
      → History s' (es ++ Event.put sock ∷ [])
  get :
      {s s' : State} {es : List Event} (sock : ℕ)
      → History s es
      → queue_get s ≡ Got.got sock s'
      → History s' (es ++ Event.got sock ∷ [])

abbrev socks : Cells → List ℕ
socks [] = []
socks ((_, s) ∷ xs) = s ∷ socks xs

socks-append : (xs ys : Cells) → socks (xs ++ ys) ≡ socks xs ++ socks ys
socks-append [] ys = refl
socks-append ((a, s) ∷ xs) ys = ap (λ l. s ∷ l) (socks-append xs ys)

length-socks : (xs : Cells) → length (socks xs) ≡ length xs
length-socks [] = refl
length-socks (x ∷ xs) = ap suc (length-socks xs)

pub puts-append : (es fs : List Event) → puts (es ++ fs) ≡ puts es ++ puts fs
puts-append [] fs = refl
puts-append (Event.put s ∷ es) fs = ap (λ l. s ∷ l) (puts-append es fs)
puts-append (Event.got s ∷ es) fs = puts-append es fs

pub gets-append : (es fs : List Event) → gets (es ++ fs) ≡ gets es ++ gets fs
gets-append [] fs = refl
gets-append (Event.put s ∷ es) fs = gets-append es fs
gets-append (Event.got s ∷ es) fs = ap (λ l. s ∷ l) (gets-append es fs)

-- The messages of a reachable queue, and what they have to do with its history.
record Content (s : State) (es : List Event) : Type 0 where
  cells : Cells
  is : IsQueue s cells
  few : length cells < 2 ^ 32
  order : puts es ≡ gets es ++ socks cells

some_eq {ℓ} : {A : Type ℓ} {x y : A} → some x ≡ some y → x ≡ y
some_eq e = cc

Content-put :
    {s s' : State} {es : List Event} (mq sock : ℕ)
    → Content s es
    → mq ≢ null
    → s.heap mq ≡ none
    → s.queue.length + 1 < 2 ^ 32
    → queue_put mq sock s ≡ some s'
    → Content s' (es ++ Event.put sock ∷ [])
Content-put {s} {es} mq sock c ne free room e =
    let (t, done, is) = queue_put_lem s c.cells mq sock c.is ne free in
    record {
      cells = c.cells ++ (mq, sock) ∷ [];
      is = subst (λ u. IsQueue u (c.cells ++ (mq, sock) ∷ [])) (some_eq (sym done ∙ e)) is;
      few = omega (arith, c.is.count, c.few, length-append {0} c.cells ((mq, sock) ∷ []));
      order = simp (puts-append, gets-append, socks-append, c.order, append_assoc, append-nil);
    }

pub initial : (s : State) → IsQueue (queue_init s) []
unfolding queue_init
initial s = record { first = refl; last = refl; count = refl; linked = tt }

waits_ne : {a : ℕ} {s : State} → Got.waits ≡ Got.got a s → ⊥
waits_ne e = cc

got_eq : {a b : ℕ} {s t : State} → Got.got a s ≡ Got.got b t → (a ≡ b) × (s ≡ t)
got_eq e = (cc, cc)

Content-got :
    {s s' : State} (es : List Event) (sock : ℕ) (cells : Cells)
    → IsQueue s cells
    → length cells < 2 ^ 32
    → puts es ≡ gets es ++ socks cells
    → queue_get s ≡ Got.got sock s'
    → Content s' (es ++ Event.got sock ∷ [])
Content-got {s} es sock [] is few order e = absurd (waits_ne (sym (queue_get-nil s is) ∙ e))
Content-got {s} es sock ((a, t) ∷ xs) is few order e =
    let (u, done, is', _) = queue_get_lem s a t xs is few in
    let (same_sock, same_state) = got_eq (sym done ∙ e) in
    record {
      cells = xs;
      is = subst (λ v. IsQueue v xs) same_state is';
      few = omega (arith, few);
      order =
          simp (puts-append, gets-append, order, append_assoc, append-nil)
            (ap (λ x. gets es ++ x ∷ socks xs) same_sock);
    }

content : {s : State} {es : List Event} → History s es → Content s es
content (start s) = record { cells = []; is = initial s; few = omega arith; order = refl }
content (put mq sock h ne free room e) = Content-put mq sock (content h) ne free room e
content (get {es} sock h e) = let c = content h in Content-got es sock c.cells c.is c.few c.order e

-- First in, first out, and nothing is lost or made up: in every history the sockets handed out are
-- the first of those put in, in the same order, and `length` counts the ones still waiting.
pub gets_prefix :
    {s : State} {es : List Event}
    → History s es
    → (waiting : List ℕ) × (puts es ≡ gets es ++ waiting) × (s.queue.length ≡ length waiting)
gets_prefix h =
    let c = content h in
    (socks c.cells, c.order, omega (arith, c.is.count, c.few, length-socks c.cells))

get_served :
    (s : State) (cells : Cells)
    → IsQueue s cells
    → length cells < 2 ^ 32
    → ((queue_get s ≡ Got.waits) × (s.queue.length ≡ 0))
      ⊎ ((sock : ℕ) × (s' : State) × (queue_get s ≡ Got.got sock s') × (0 < s.queue.length))
get_served s [] is few = inl (queue_get-nil s is, omega (arith, is.count))
get_served s ((a, t) ∷ xs) is few =
    let (s', done, _, _) = queue_get_lem s a t xs is few in
    inr (t, s', done, omega (arith, is.count))

-- In every history `queue_get` waits if the queue is empty and hands out a socket if it is not:
-- it never touches a message that was freed or a null pointer.
pub queue_get_total :
    {s : State} {es : List Event}
    → History s es
    → ((queue_get s ≡ Got.waits) × (s.queue.length ≡ 0))
      ⊎ ((sock : ℕ) × (s' : State) × (queue_get s ≡ Got.got sock s') × (0 < s.queue.length))
queue_get_total {s} h = let c = content h in get_served s c.cells c.is c.few
