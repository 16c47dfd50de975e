-- ===== src/Queue/Chain.antt =====
-- The list of messages that a queue stands for, and what the calls do to it.
use os_study.Prelude.{
  ℕ, ◌%◌, ◌^◌, ◌≡◌, ◌≢◌, refl, Bool, true, false, ◌||◌, Option, none, some, List, [], ◌∷◌, ◌++◌,
  arith, ◌==◌, length, ap, sym, ◌∙◌, ==_ne,
}
use os_study.Queue.{Ptr, null, Message, message, Heap, write, load, State}

-- Address and socket of each message, first in, first out.
abbrev pub Cells : Type 0
Cells = List (Ptr × ℕ)

abbrev pub head_ptr : Cells → Ptr
head_ptr [] = null
head_ptr ((a, _) ∷ xs) = a

abbrev pub last_ptr : Cells → Ptr
last_ptr [] = null
last_ptr ((a, _) ∷ []) = a
last_ptr ((a, _) ∷ x ∷ xs) = last_ptr (x ∷ xs)

abbrev pub has : Ptr → Cells → Bool
has a [] = false
has a ((p, _) ∷ xs) = (a == p) || has a xs

-- The `next` fields lead through distinct messages to NULL.
abbrev pub Linked : Heap → Cells → Type 0
Linked h [] = Unit
Linked h ((a, s) ∷ xs) =
    (a ≢ null) × (h a ≡ some (message s (head_ptr xs))) × (has a xs ≡ false) × Linked h xs

pub record IsQueue (s : State) (xs : Cells) : Type 0 where
  pub first : s.queue.first ≡ head_ptr xs
  pub last : s.queue.last ≡ last_ptr xs
  pub count : s.queue.length ≡ length xs % 2 ^ 32
  pub linked : Linked s.heap xs

-- A write elsewhere leaves the chain alone.
pub frame :
    (h : Heap) (p : Ptr) (c : Option Message) (xs : Cells)
    → has p xs ≡ false
    → Linked h xs
    → Linked (write h p c) xs
unfolding write
frame h p c [] out l = tt
frame h p c ((a, s) ∷ xs) out l = (l.0, ground arith, l.2, frame h p c xs (ground arith) l.3)

-- An unused address is on no chain.
pub unused-has : (h : Heap) (p : Ptr) (xs : Cells) → h p ≡ none → Linked h xs → has p xs ≡ false
unused-has h p [] e l = refl
unused-has h p ((a, s) ∷ xs) e l = ground (arith, unused-has h p xs e l.3)

-- The last message of a chain.
pub last_message :
    (h : Heap) (x : Ptr × ℕ) (xs : Cells)
    → Linked h (x ∷ xs)
    → (s : ℕ) × (last_ptr (x ∷ xs) ≢ null)
      × (h (last_ptr (x ∷ xs)) ≡ some (message s null))
      × (has (last_ptr (x ∷ xs)) (x ∷ xs) ≡ true)
last_message h (a, s) [] l = (s, l.0, l.1, ground arith)
last_message h (a, s) (y ∷ ys) l =
    let (t, ne, m, on) = last_message h y ys l.3 in (t, ne, m, ground arith)

ne_of_has : (a p : Ptr) (xs : Cells) → has a xs ≡ false → has p xs ≡ true → a ≢ p
ne_of_has a p xs out on e = cc

has-append_one :
    (a mq sock : ℕ) (xs : Cells) → has a xs ≡ false → a ≢ mq → has a (xs ++ (mq, sock) ∷ []) ≡ false
has-append_one a mq sock [] out ne = ground arith
has-append_one a mq sock ((p, s) ∷ xs) out ne = ground (arith, has-append_one a mq sock xs)

not_head : (mq a s : ℕ) (xs : Cells) → has mq ((a, s) ∷ xs) ≡ false → (a ≢ mq) × (has mq xs ≡ false)
not_head mq a s xs out = (λ e. ground arith, ground arith)

pub write_ne : (h : Heap) (p a : Ptr) (c : Option Message) → a ≢ p → write h p c a ≡ h a
unfolding write
write_ne h p a c ne = ground arith

pub write_self : (h : Heap) (p : Ptr) (c : Option Message) → write h p c p ≡ c
unfolding write
write_self h p c = ground arith

same_sock :
    (t s : ℕ) (o : Option Message) → o ≡ some (message t null) → o ≡ some (message s null) → t ≡ s
same_sock t s o e f = cc

pub load_lem : (h : Heap) (p : Ptr) {m : Message} → p ≢ null → h p ≡ some m → load h p ≡ some m
unfolding load
load_lem h p ne e = rw (==_ne p null ne) e

-- Linking a new message behind the last.
pub extend :
    (h : Heap) (mq sock t : ℕ) (x : Ptr × ℕ) (xs : Cells)
    → mq ≢ null
    → has mq (x ∷ xs) ≡ false
    → h mq ≡ some (message sock null)
    → h (last_ptr (x ∷ xs)) ≡ some (message t null)
    → Linked h (x ∷ xs)
    → Linked (write h (last_ptr (x ∷ xs)) (some (message t mq))) ((x ∷ xs) ++ (mq, sock) ∷ [])
extend h mq sock t (a, s) [] ne out hm hl l =
    let apart = (not_head mq a s [] out).0 in
    (
      l.0,
      write_self h a _ ∙ ap (λ n. some (message n mq)) (same_sock t s (h a) hl l.1),
      ground arith,
      (ne, write_ne h a mq _ (λ e. apart (sym e)) ∙ hm, refl, tt),
    )
extend h mq sock t (a, s) (y ∷ ys) ne out hm hl l =
    let (_, _, _, on) = last_message h y ys l.3 in
    let (other, out') = not_head mq a s (y ∷ ys) out in
    (
      l.0,
      write_ne h (last_ptr (y ∷ ys)) a _ (ne_of_has a (last_ptr (y ∷ ys)) (y ∷ ys) l.2 on) ∙ l.1,
      has-append_one a mq sock (y ∷ ys) l.2 other,
      extend h mq sock t y ys ne out' hm hl l.3,
    )

pub last_ptr-append : (xs : Cells) (a s : ℕ) → last_ptr (xs ++ (a, s) ∷ []) ≡ a
last_ptr-append [] a s = refl
last_ptr-append ((p, t) ∷ []) a s = refl
last_ptr-append ((p, t) ∷ y ∷ ys) a s = last_ptr-append (y ∷ ys) a s
