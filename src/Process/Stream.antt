-- ===== src/Process/Stream.antt =====
-- What a client receives: the bytes of its connection, whatever calls they were sent with.
use os_study.Prelude.{
  ℕ, ◌<◌, ◌≡◌, refl, sym, ap, ◌∙◌, Bool, true, false, List, [], ◌∷◌, ◌++◌, append_assoc, append-nil,
  ◌==◌, if◌then◌else◌, length, lt→ltb,
}
use os_study.Http.Types.{buffsize}
use os_study.Server.World.{
  Text, Stats, World, Run, ok, blocked, fault, Call, Cmd, pure, ◌>>=◌, and_then, call, send_text,
}

-- The bytes sent on `fd`, of calls with the newest one first.
unfoldable pub received : ℕ → List Call → Text
received fd [] = []
received fd (Call.send fd' t ∷ calls) =
    let before = received fd calls in if fd == fd' then before ++ t else before
received fd (_ ∷ calls) = received fd calls

-- What comes for the descriptor `x` of bytes that are sent on `fd`.
abbrev pub part : ℕ → ℕ → Text → Text
part x fd bytes = if x == fd then bytes else []

nothing_more : (mine : Bool) (before : Text) → before ≡ before ++ (if mine then [] else [])
nothing_more true before = sym (append-nil before)
nothing_more false before = sym (append-nil before)

pub unsent :
    (fd : ℕ) (calls : List Call) (x : ℕ) → received x calls ≡ received x calls ++ part x fd []
unsent fd calls x = nothing_more (x == fd) (received x calls)

joined :
    (mine : Bool) (before b1 b2 : Text)
    → (before ++ (if mine then b1 else [])) ++ (if mine then b2 else [])
      ≡ before ++ (if mine then b1 ++ b2 else [])
joined true before b1 b2 = append_assoc before b1 b2
joined false before b1 b2 = append-nil (before ++ [])

one_more :
    (mine : Bool) (before t : Text)
    → (if mine then before ++ t else before) ≡ before ++ (if mine then t else [])
one_more true before t = refl
one_more false before t = sym (append-nil before)

-- What a request leaves to the next: the statistics, `need_stop_script`, and the value of the
-- semaphore.
pub record Lasting : Type 0 where
  pub stats : Stats
  pub flag : ℕ
  pub permits : ℕ

abbrev pub lasting : World → Lasting
lasting w = record { stats = w.stats; flag = w.need_stop_script; permits = w.sem }

module _ (fd : ℕ) (s' : Lasting) (bytes : Text) (w : World) where
  -- A run from `w` that returns: it leaves `s'`, and the client of `fd` has got `bytes` more, and no
  -- other client anything.
  abbrev pub Sent : {A : Type 0} → Run A → Type 0
  Sent (ok a w') =
      (lasting w' ≡ s') × ((x : ℕ) → received x w'.calls ≡ received x w.calls ++ part x fd bytes)
  Sent (blocked w') = ⊥
  Sent fault = ⊥

-- From `s`.
pub record Sends (fd : ℕ) (s s' : Lasting) (bytes : Text) {A : Type 0} (m : Cmd A) : Type 0 where
  pub at : (w : World) → lasting w ≡ s → Sent fd s' bytes w (m w)

module _ (fd : ℕ) where
  pub Sends-pure : {A : Type 0} (s : Lasting) (a : A) → Sends fd s s [] (pure a)
  Sends-pure s a = record { at = λ w h. (h, unsent fd w.calls) }

  module _ (s s1 s2 : Lasting) (b1 b2 : Text) where
    Sent-and_then :
        {A B : Type 0} (w : World) (r : Run A) (f : A → Cmd B)
        → Sent fd s1 b1 w r
        → ((a : A) → Sends fd s1 s2 b2 (f a))
        → Sent fd s2 (b1 ++ b2) w (and_then r f)
    Sent-and_then w (ok a w1) f (stays1, got1) h = chain (f a w1) ((h a).at w1 stays1)
      where
        chain : {B : Type 0} (r : Run B) → Sent fd s2 b2 w1 r → Sent fd s2 (b1 ++ b2) w r
        chain (ok b w2) (stays2, got2) = (
          stays2,
          λ x.
              got2 x
              ∙ (ap (λ t. t ++ part x fd b2) (got1 x)
                  ∙ joined (x == fd) (received x w.calls) b1 b2),
        )
        chain (blocked w2) h = h
        chain fault h = h
    Sent-and_then w (blocked w1) f h g = h
    Sent-and_then w fault f h g = h

    pub Sends-bind :
        {A B : Type 0} (m : Cmd A) (f : A → Cmd B)
        → Sends fd s s1 b1 m
        → ((a : A) → Sends fd s1 s2 b2 (f a))
        → Sends fd s s2 (b1 ++ b2) (m >>= f)
    Sends-bind m f h g = record { at = λ w i. Sent-and_then w (m w) f (h.at w i) g }

  pub Sends-send : (s : Lasting) (t : Text) → Sends fd s s t (call (Call.send fd t))
  unfolding call received
  Sends-send s t = record { at = λ w h. (h, λ x. one_more (x == fd) (received x w.calls) t) }

  pub Sends-text : (s : Lasting) (t : Text) → length t < buffsize → Sends fd s s t (send_text fd t)
  unfolding send_text
  Sends-text s t h = rw (lt→ltb (length t) buffsize h) (Sends-send s t)

  -- A call that sends nothing on the connection.
  pub Sends-silent :
      (s : Lasting) (c : Call)
      → ((x : ℕ) (calls : List Call) → received x (c ∷ calls) ≡ received x calls)
      → Sends fd s s [] (call c)
  unfolding call
  Sends-silent s c silent = record { at = λ w h. (h, λ x. silent x w.calls ∙ unsent fd w.calls x) }

-- What a run that sends has done.
pub Sends-run :
    {A : Type 0} (fd : ℕ) (s' : Lasting) (b : Text) (w : World) (m : Cmd A)
    → Sends fd (lasting w) s' b m
    → (x : A) × (w' : World) × (m w ≡ ok x w')
      × (lasting w' ≡ s')
      × ((y : ℕ) → received y w'.calls ≡ received y w.calls ++ part y fd b)
Sends-run fd s' b w m h = returned (m w) (h.at w refl)
  where
    returned :
        {A : Type 0} (r : Run A)
        → Sent fd s' b w r
        → (x : A) × (w' : World) × (r ≡ ok x w')
          × (lasting w' ≡ s')
          × ((y : ℕ) → received y w'.calls ≡ received y w.calls ++ part y fd b)
    returned (ok x w') h = (x, w', refl, h.0, h.1)
    returned (blocked w') h = absurd h
    returned fault h = absurd h
