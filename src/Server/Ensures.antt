-- ===== src/Server/Ensures.antt =====
-- Total correctness of the commands: from a state with `P` they return, in a state with `Q`.
use os_study.Prelude.{ℕ, ◌<◌, ◌≡◌, refl, Bool, true, false, lt→ltb, if◌then◌else◌, length}
use os_study.Http.Types.{buffsize}
use os_study.Server.World.{
  Text, World, Run, ok, blocked, fault, Cmd, pure, ◌>>=◌, and_then, Call, call, send_text,
}

abbrev pub Returns : (World → Type 0) → {A : Type 0} → Run A → Type 0
Returns Q (ok a w) = Q w
Returns Q (blocked w) = ⊥
Returns Q fault = ⊥

pub record Ensures (P Q : World → Type 0) {A : Type 0} (m : Cmd A) : Type 0 where
  pub at : (w : World) → P w → Returns Q (m w)

-- A run that returns is `ok`.
pub Returns-ok :
    {A : Type 0} (Q : World → Type 0) (r : Run A)
    → Returns Q r
    → (a : A) × (w : World) × (r ≡ ok a w) × Q w
Returns-ok Q (ok a w) h = (a, w, refl, h)
Returns-ok Q (blocked w) h = absurd h
Returns-ok Q fault h = absurd h

pub Ensures-pure : {A : Type 0} (P : World → Type 0) (a : A) → Ensures P P (pure a)
Ensures-pure P a = record { at = λ w h. h }

module _ (P Q R : World → Type 0) where
  Returns-and_then :
      {A B : Type 0} (r : Run A) (f : A → Cmd B)
      → Returns Q r
      → ((a : A) → Ensures Q R (f a))
      → Returns R (and_then r f)
  Returns-and_then (ok a w) f h k = (k a).at w h
  Returns-and_then (blocked w) f h k = h
  Returns-and_then fault f h k = h

  pub Ensures-bind :
      {A B : Type 0} (m : Cmd A) (f : A → Cmd B)
      → Ensures P Q m
      → ((a : A) → Ensures Q R (f a))
      → Ensures P R (m >>= f)
  Ensures-bind m f h k = record { at = λ w p. Returns-and_then (m w) f (h.at w p) k }

module _ (P Q : World → Type 0) where
  pub Ensures-if :
      {A : Type 0} (t : Bool) {x y : Cmd A}
      → Ensures P Q x
      → Ensures P Q y
      → Ensures P Q (if t then x else y)
  Ensures-if true h k = h
  Ensures-if false h k = k

-- `P` does not depend on the calls made.
abbrev pub Stable : (World → Type 0) → Type 0
Stable P = (c : Call) → Ensures P P (call c)

pub Ensures-send_text :
    (P : World → Type 0)
    → Stable P
    → (connfd : ℕ) (t : Text) → length t < buffsize
    → Ensures P P (send_text connfd t)
unfolding send_text
Ensures-send_text P calls connfd t h =
    rw (lt→ltb (length t) buffsize h) (calls (Call.send connfd t))
