-- ===== src/Process/Answer/Gives.antt =====
-- A run that gives an answer: it sends the bytes, and leaves what the answer leaves.
use os_study.Prelude.{
  ℕ, ◌≡◌, subst, Bool, true, false, Option, none, some, [], ◌++◌, append-nil, if◌then◌else◌,
}
use os_study.Server.World.{World, ok, Cmd, pure, ◌>>=◌, ◌>>◌}
use os_study.Process.Stream.{
  part, Lasting, lasting, received, Sends, Sends-pure, Sends-bind, Sends-run,
}
use os_study.Process.Answer.{after, Answer}

-- The answer is given, and counted by `count`, with `s` before it.
pub record Gives (count : ℕ → Lasting → Lasting) (fd : ℕ) (s : Lasting) (a : Answer) {A : Type 0}
    (m : Cmd A) : Type 0 where
  pub sends : Sends fd s (after count a s) a.bytes m

-- Where the answer is given, the run gives it.
abbrev pub Obeys :
    (ℕ → Lasting → Lasting) → ℕ → Lasting → Option Answer → {A : Type 0} → Cmd A → Type 0
Obeys count fd s none m = Unit
Obeys count fd s (some a) m = Gives count fd s a m

module _ (count : ℕ → Lasting → Lasting) (fd : ℕ) (s : Lasting) where
  -- What follows sends nothing.
  pub Gives-quiet :
      {A B : Type 0} (a : Answer) (m : Cmd A) (f : A → Cmd B)
      → Gives count fd s a m
      → ((x : A) → Sends fd (after count a s) (after count a s) [] (f x))
      → Gives count fd s a (m >>= f)
  Gives-quiet a m f h g =
      let s' = after count a s in
      record {
        sends =
            subst (λ t. Sends fd s s' t (m >>= f)) (append-nil a.bytes)
              (Sends-bind fd s s' s' _ _ _ _ h.sends g);
      }

  pub Gives-then :
      {A B : Type 0} (a : Answer) (m : Cmd A) (b : B)
      → Gives count fd s a m
      → Gives count fd s a (m >> pure b)
  Gives-then a m b h = Gives-quiet a m (λ _. pure b) h λ _. Sends-pure fd (after count a s) b

  pub Obeys-then :
      {A B : Type 0} (o : Option Answer) (m : Cmd A) (f : A → B)
      → Obeys count fd s o m
      → Obeys count fd s o (m >>= λ x. pure (f x))
  Obeys-then none m f h = tt
  Obeys-then (some a) m f h =
      Gives-quiet a m (λ x. pure (f x)) h λ x. Sends-pure fd (after count a s) (f x)

  pub Gives-if :
      {A : Type 0} (t : Bool) (a b : Answer) (m n : Cmd A)
      → Gives count fd s a m
      → Gives count fd s b n
      → Gives count fd s (if t then a else b) (if t then m else n)
  Gives-if true a b m n h k = h
  Gives-if false a b m n h k = k

  pub Obeys-if :
      {A : Type 0} (t : Bool) (o p : Option Answer) (m n : Cmd A)
      → Obeys count fd s o m
      → Obeys count fd s p n
      → Obeys count fd s (if t then o else p) (if t then m else n)
  Obeys-if true o p m n h k = h
  Obeys-if false o p m n h k = k

-- What a run that gives `a` from `w` has done.
pub Gives-run :
    {A : Type 0} (count : ℕ → Lasting → Lasting) (fd : ℕ) (a : Answer) (w : World) (m : Cmd A)
    → Gives count fd (lasting w) a m
    → (x : A) × (w' : World) × (m w ≡ ok x w')
      × (lasting w' ≡ after count a (lasting w))
      × ((y : ℕ) → received y w'.calls ≡ received y w.calls ++ part y fd a.bytes)
Gives-run count fd a w m g = Sends-run fd (after count a (lasting w)) a.bytes w m g.sends
