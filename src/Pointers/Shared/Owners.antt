-- ===== src/Pointers/Shared/Owners.antt =====
-- Objects of My_shared_ptr that are made from pointers and from each other, and destroyed, in any
-- order.
use os_study.Prelude.{
  ℕ, zero, suc, ◌<◌, ◌≤◌, ◌^◌, ◌≡◌, refl, sym, ap, subst, ◌∙◌, arith, false, Option, none, some,
  List, [], ◌∷◌, ◌++◌, ◌==◌, if◌then◌else◌, length, ==_self, ==_ne, ==_iff, Bool-cases, inl, inr,
}
use os_study.Pointers.{Ptr}
use os_study.Pointers.Shared.{
  MySharedPtr, Event, Heap, set_counter, gone, from_ptr, from_ptr_with, copy, copy_with, destructor,
}
use os_study.Pointers.Shared.Counts.{freed, destructor-last, destructor-shared}

pub record Scene : Type 0 where
  pub live : List MySharedPtr
  pub heap : Heap

-- The scene in which `p` is new.
abbrev pub joined : MySharedPtr × Heap → Scene → Scene
joined (p, h) s = record { live = p ∷ s.live; heap = h }

-- `operator=` is not called. `new` returns addresses that are not in use, and there are fewer than
-- 2 ^ 64 objects at any time.
pub data Reach : Scene → Type 0 where
  begin : Reach (record { live = []; heap = record { counters = λ _. none; log = [] } })
  construct :
      {s : Scene} (t r : Ptr)
      → Reach s
      → s.heap.counters r ≡ none
      → suc (length s.live) < 2 ^ 64
      → Reach (joined (from_ptr t r s.heap) s)
  construct_with :
      {s : Scene} (t d r : Ptr)
      → Reach s
      → s.heap.counters r ≡ none
      → suc (length s.live) < 2 ^ 64
      → Reach (joined (from_ptr_with t d r s.heap) s)
  copied :
      {s : Scene} (before after : List MySharedPtr) (p q : MySharedPtr) (h : Heap)
      → Reach s
      → s.live ≡ before ++ p ∷ after
      → suc (length s.live) < 2 ^ 64
      → copy p s.heap ≡ some (q, h)
      → Reach (joined (q, h) s)
  copied_with :
      {s : Scene} (before after : List MySharedPtr) (p q : MySharedPtr) (d : Ptr) (h : Heap)
      → Reach s
      → s.live ≡ before ++ p ∷ after
      → suc (length s.live) < 2 ^ 64
      → copy_with d p s.heap ≡ some (q, h)
      → Reach (joined (q, h) s)
  destroyed :
      {s : Scene} (before after : List MySharedPtr) (p : MySharedPtr) (h : Heap)
      → Reach s
      → s.live ≡ before ++ p ∷ after
      → destructor p s.heap ≡ some h
      → Reach (record { live = before ++ after; heap = h })

-- How many objects share the counter at `r`.
abbrev pub owners : Ptr → List MySharedPtr → ℕ
owners r [] = 0
owners r (p ∷ ps) = let rest = owners r ps in if r == p.ref_count then suc rest else rest

-- A counter that no object shares is gone.
abbrev pub counter_of : ℕ → Option ℕ
counter_of zero = none
counter_of (suc n) = some (suc n)

abbrev pub Counted : List MySharedPtr → Heap → Type 0
Counted live h = (r : Ptr) → h.counters r ≡ counter_of (owners r live)

owners-split :
    (r : Ptr) (before after : List MySharedPtr) (p : MySharedPtr)
    → owners r (before ++ p ∷ after) ≡ owners r (p ∷ (before ++ after))
owners-split r [] after p = refl
owners-split r (q ∷ before) after p =
    let rest = owners-split r before after p in ground (arith, rest)

pub length-split :
    (before after : List MySharedPtr) (p : MySharedPtr)
    → length (before ++ p ∷ after) ≡ suc (length (before ++ after))
length-split [] after p = refl
length-split (q ∷ before) after p = ap suc (length-split before after p)

pub owners_le : (r : Ptr) (live : List MySharedPtr) → owners r live ≤ length live
owners_le r [] = omega arith
owners_le r (p ∷ live) = let rest = owners_le r live in ground (arith, rest)

unshared : (n : ℕ) → counter_of n ≡ none → n ≡ 0
unshared zero e = refl
unshared (suc n) e = absurd (ground (arith, e))

-- A step that changes the counter at `r` alone.
Counted-step :
    (r : Ptr) (n : ℕ) (live live' : List MySharedPtr) (h h' : Heap)
    → ((a : Ptr)
        → (a == r) ≡ false
        → (owners a live' ≡ owners a live) × (h'.counters a ≡ h.counters a))
    → owners r live' ≡ n
    → h'.counters r ≡ counter_of n
    → Counted live h
    → Counted live' h'
Counted-step r n live live' h h' others now count all a = elim (Bool-cases (a == r)) [
  | inl e ↦
      subst (λ b. h'.counters b ≡ counter_of (owners b live')) (sym ((==_iff a r).0 e))
        (count ∙ ap counter_of (sym now))
  | inr e ↦ let (same, kept) = others a e in kept ∙ (all a ∙ ap counter_of (sym same))
]

-- One more object on the counter at its `ref_count`.
pub Counted-joined :
    (q : MySharedPtr) (n : ℕ) (live : List MySharedPtr) (h : Heap)
    → owners q.ref_count live ≡ n
    → Counted live h
    → Counted (q ∷ live) (set_counter q.ref_count (some (suc n)) h)
Counted-joined q n live h now all =
    Counted-step q.ref_count (suc n) live (q ∷ live) h (set_counter q.ref_count (some (suc n)) h)
      (λ a e. (rw e refl, rw e refl)) (rw (==_self q.ref_count) (ap suc now))
      (rw (==_self q.ref_count) refl) all

pub Counted-fresh :
    (q : MySharedPtr) (live : List MySharedPtr) (h : Heap)
    → h.counters q.ref_count ≡ none
    → Counted live h
    → Counted (q ∷ live) (set_counter q.ref_count (some 1) h)
Counted-fresh q live h free all =
    let r = q.ref_count in
    Counted-joined q 0 live h (unshared (owners r live) (sym (all r) ∙ free)) all

module _ (before after : List MySharedPtr) (p : MySharedPtr) (live : List MySharedPtr) (h : Heap)
    (split : live ≡ before ++ p ∷ after) (few : length live < 2 ^ 64) (all : Counted live h) where
  abbrev rest : List MySharedPtr
  rest = before ++ after

  -- `p` is one of the owners.
  pub owners_of : owners p.ref_count live ≡ suc (owners p.ref_count rest)
  owners_of =
      ap (owners p.ref_count) split
      ∙ (owners-split p.ref_count before after p ∙ rw (==_self p.ref_count) refl)

  others_of : (a : Ptr) → (a == p.ref_count) ≡ false → owners a rest ≡ owners a live
  others_of a e = sym (ap (owners a) split ∙ (owners-split a before after p ∙ rw e refl))

  pub counted_at : h.counters p.ref_count ≡ some (suc (owners p.ref_count rest))
  counted_at = all p.ref_count ∙ ap counter_of owners_of

  few_owners : suc (owners p.ref_count rest) < 2 ^ 64
  few_owners = omega (arith, few, owners_of, owners_le p.ref_count live)

  -- What the destructor of `p` deletes.
  abbrev pub deletes : List Event
  deletes =
      if owners p.ref_count rest == 0
      then Event.deleted_count p.ref_count ∷ gone p ∷ h.log
      else h.log

  destroys :
      (m : ℕ)
      → owners p.ref_count rest ≡ m
      → (h' : Heap) × (destructor p h ≡ some h') × Counted rest h' × (h'.log ≡ deletes)
  destroys zero e = (
    freed p h,
    destructor-last p h (counted_at ∙ ap (λ n. some (suc n)) e),
    Counted-step p.ref_count 0 live rest h (freed p h) (λ a ne. (others_of a ne, rw ne refl)) e
        (rw (==_self p.ref_count) refl) all,
    rw e refl,
  )
  destroys (suc m) e = (
    set_counter p.ref_count (some (suc m)) h,
    destructor-shared p h m (omega (arith, e, few_owners)) (counted_at ∙ ap (λ n. some (suc n)) e),
    Counted-step p.ref_count (suc m) live rest h (set_counter p.ref_count (some (suc m)) h)
        (λ a ne. (others_of a ne, rw ne refl)) e (rw (==_self p.ref_count) refl) all,
    rw (e, ==_ne (suc m) 0 (omega arith)) refl,
  )

  pub destroyed_lem :
      (h' : Heap) × (destructor p h ≡ some h') × Counted rest h' × (h'.log ≡ deletes)
  destroyed_lem = destroys (owners p.ref_count rest) refl
