-- ===== src/Server/Effect.antt =====
-- What a command that returns has done to the semaphore and to the counter of requests.
use os_study.Prelude.{
  ℕ, zero, suc, ◌+◌, ◌%◌, ◌^◌, ◌≡◌, refl, arith, length, ltb, ◌==◌, if◌then◌else◌, Bool, true,
  false,
}
use os_study.Http.Types.{buffsize}
use os_study.Server.World.{
  World, Run, ok, blocked, fault, Cmd, pure, ◌>>=◌, and_then, Call, call, send_text, sem_wait, Text,
}

-- A run that returns takes `d` from the semaphore and adds `n` to `requests`, an `int`.
abbrev pub Spent : (d n : ℕ) → World → {A : Type 0} → Run A → Type 0
Spent d n w (ok a w') =
    (w.sem ≡ w'.sem + d) × (w'.stats.requests % 2 ^ 32 ≡ (w.stats.requests + n) % 2 ^ 32)
Spent d n w (blocked w') = Unit
Spent d n w fault = Unit

pub record Spends {A : Type 0} (d n : ℕ) (m : Cmd A) : Type 0 where
  pub at : (w : World) → Spent d n w (m w)

pub Spends-pure : {A : Type 0} (a : A) → Spends 0 0 (pure a)
Spends-pure a = record { at = λ w. omega arith }

Spent-trans :
    {B : Type 0} (d n e k x y : ℕ) (w w' : World) (r : Run B)
    → x ≡ d + e
    → y ≡ n + k
    → w.sem ≡ w'.sem + d
    → w'.stats.requests % 2 ^ 32 ≡ (w.stats.requests + n) % 2 ^ 32
    → Spent e k w' r
    → Spent x y w r
Spent-trans d n e k x y w w' (ok b v) hx hy hs hr h = omega arith
Spent-trans d n e k x y w w' (blocked v) hx hy hs hr h = tt
Spent-trans d n e k x y w w' fault hx hy hs hr h = tt

module _ {A B : Type 0} where
  Spent-and_then :
      (d n e k x y : ℕ) (w : World) (r : Run A) (f : A → Cmd B)
      → x ≡ d + e
      → y ≡ n + k
      → Spent d n w r
      → ((a : A) → Spends e k (f a))
      → Spent x y w (and_then r f)
  Spent-and_then d n e k x y w (ok a w') f hx hy h hf =
      Spent-trans d n e k x y w w' (f a w') hx hy h.0 h.1 ((hf a).at w')
  Spent-and_then d n e k x y w (blocked w') f hx hy h hf = tt
  Spent-and_then d n e k x y w fault f hx hy h hf = tt

  pub Spends-bind :
      (d n e k x y : ℕ) (m : Cmd A) (f : A → Cmd B)
      → x ≡ d + e
      → y ≡ n + k
      → Spends d n m
      → ((a : A) → Spends e k (f a))
      → Spends x y (m >>= f)
  Spends-bind d n e k x y m f hx hy hm hf = record {
    at = λ w. Spent-and_then d n e k x y w (m w) f hx hy (hm.at w) hf;
  }

  -- The first part costs nothing.
  pub Spends-before :
      (d n : ℕ) (m : Cmd A) (f : A → Cmd B)
      → Spends 0 0 m
      → ((a : A) → Spends d n (f a))
      → Spends d n (m >>= f)
  Spends-before d n m f = Spends-bind 0 0 d n d n m f (omega arith) (omega arith)

  -- The second part costs nothing.
  pub Spends-after :
      (d n : ℕ) (m : Cmd A) (f : A → Cmd B)
      → Spends d n m
      → ((a : A) → Spends 0 0 (f a))
      → Spends d n (m >>= f)
  Spends-after d n m f = Spends-bind d n 0 0 d n m f (omega arith) (omega arith)

-- A conditional costs what both branches cost.
pub Spends-if :
    {A : Type 0} (d n : ℕ) (t : Bool) {x y : Cmd A}
    → Spends d n x
    → Spends d n y
    → Spends d n (if t then x else y)
Spends-if d n true hx hy = hx
Spends-if d n false hx hy = hy

pub Spends-call : (c : Call) → Spends 0 0 (call c)
unfolding call
Spends-call c = record { at = λ w. omega arith }

pub Spends-fault : {A : Type 0} (d n : ℕ) → Spends {A = A} d n (λ w. fault)
Spends-fault d n = record { at = λ w. tt }

pub Spends-send_text : (connfd : ℕ) (t : Text) → Spends 0 0 (send_text connfd t)
unfolding send_text
Spends-send_text connfd t =
    Spends-if 0 0 (ltb (length t) buffsize) (Spends-call _)
      (Spends-if 0 0 (length t == buffsize) (Spends-call _) (Spends-fault 0 0))

Spent-sem_wait : (w : World) (s : ℕ) → w.sem ≡ s → Spent 1 0 w (sem_wait w)
unfolding sem_wait
Spent-sem_wait w zero e = rw (e, sem_wait) tt
Spent-sem_wait w (suc s) e = rw (e, sem_wait) (omega arith)

pub Spends-sem_wait : Spends 1 0 sem_wait
Spends-sem_wait = record { at = λ w. Spent-sem_wait w w.sem refl }
