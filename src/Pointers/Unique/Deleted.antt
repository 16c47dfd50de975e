-- ===== src/Pointers/Unique/Deleted.antt =====
-- What becomes of the pointers that a My_unique_ptr is given.
use os_study.Prelude.{ℕ, ◌+◌, ◌≡◌, ◌≢◌, arith, List, [], ◌∷◌, ◌==◌, if◌then◌else◌, ==_ne}
use os_study.Pointers.{Ptr, null}
use os_study.Pointers.Unique.{
  Owned, destructor, assign_null, release, reset, reset_to, reset_null, of_ptr,
}

-- A call of a member that changes the object.
pub data Member : Type 0 where
  releases resets resets_null assigns_null : Member
  resets_to : Ptr → Member

-- The object, with the pointers that `release` has returned, the newest first.
pub record Life : Type 0 where
  pub owned : Owned
  pub released : List Ptr

abbrev pub step : Member → Life → Life
step Member.releases l =
    let (p, o) = release l.owned in record { owned = o; released = p ∷ l.released }
step Member.resets l = record l { owned = reset l.owned }
step Member.resets_null l = record l { owned = reset_null l.owned }
step Member.assigns_null l = record l { owned = assign_null l.owned }
step (Member.resets_to q) l = record l { owned = reset_to q l.owned }

abbrev pub run : List Member → Life → Life
run [] l = l
run (m ∷ ms) l = run ms (step m l)

abbrev pub born : Ptr → Life
born t = record { owned = record { object = of_ptr t; deleted = [] }; released = [] }

-- From the constructor to the destructor.
abbrev pub live : Ptr → List Member → Life
live t ms = let l = run ms (born t) in record l { owned = destructor l.owned }

-- How often a pointer stands in a list.
abbrev pub count : Ptr → List Ptr → ℕ
count x [] = 0
count x (y ∷ ys) = let rest = count x ys in if x == y then rest + 1 else rest

-- What the members are given.
abbrev pub given : List Member → List Ptr
given [] = []
given (Member.resets_to q ∷ ms) = q ∷ given ms
given (_ ∷ ms) = given ms

-- How often `x` is held, deleted and released.
abbrev balance : Ptr → Life → ℕ
balance x l = count x (l.owned.object.ptr ∷ []) + (count x l.owned.deleted + count x l.released)

run-balance :
    (x : Ptr) (ms : List Member) (l : Life)
    → x ≢ null
    → balance x (run ms l) ≡ balance x l + count x (given ms)
unfolding release reset reset_to reset_null assign_null
run-balance x [] l ne = omega arith
run-balance x (Member.releases ∷ ms) l ne =
    let rest = run-balance x ms (step Member.releases l) ne in
    let nil = ==_ne x null ne in ground (arith, rest, nil)
run-balance x (Member.resets ∷ ms) l ne =
    let rest = run-balance x ms (step Member.resets l) ne in
    let nil = ==_ne x null ne in ground (arith, rest, nil)
run-balance x (Member.resets_null ∷ ms) l ne =
    let rest = run-balance x ms (step Member.resets_null l) ne in
    let nil = ==_ne x null ne in ground (arith, rest, nil)
run-balance x (Member.assigns_null ∷ ms) l ne = run-balance x ms l ne
run-balance x (Member.resets_to q ∷ ms) l ne =
    let rest = run-balance x ms (step (Member.resets_to q) l) ne in ground (arith, rest)

-- Whatever members are called between the constructor and the destructor, each pointer that is not
-- null is deleted and released, both together, exactly as often as it was given to the constructor
-- and to reset: nothing leaks, and a pointer that is given once is not deleted twice, nor deleted
-- and released.
pub live-conserves :
    (x t : Ptr) (ms : List Member)
    → x ≢ null
    → count x (live t ms).owned.deleted + count x (live t ms).released ≡ count x (t ∷ given ms)
unfolding destructor
live-conserves x t ms ne = let kept = run-balance x ms (born t) ne in ground (arith, kept)
