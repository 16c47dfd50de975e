-- ===== src/Pointers/Shared/Safety.antt =====
-- What holds of the objects of My_shared_ptr in every order of constructions, copies and destructions.
use os_study.Prelude.{
  suc, ◌+◌, ◌<◌, ◌^◌, ◌≡◌, refl, sym, ap, subst, ◌∙◌, arith, some, List, ◌∷◌, ◌++◌, length,
  some_inj,
}
use os_study.Pointers.{Ptr}
use os_study.Pointers.Shared.{
  MySharedPtr, Heap, gone, from_ptr, from_ptr_with, copy, copy_with, use_count,
}
use os_study.Pointers.Shared.Counts.{copy-counts, copy_with-counts}
use os_study.Pointers.Shared.Owners.{
  Scene, Reach, owners, owners_le, Counted, Counted-joined, Counted-fresh, counted_at, owners_of,
  destroyed_lem, length-split,
}

-- Every counter is the number of its owners.
abbrev Inv : Scene → Type 0
Inv s = Counted s.live s.heap × (length s.live < 2 ^ 64)

module _ (before after : List MySharedPtr) (p : MySharedPtr) (s : Scene)
    (split : s.live ≡ before ++ p ∷ after) (few : suc (length s.live) < 2 ^ 64)
    (all : Counted s.live s.heap) where
  room : owners p.ref_count s.live + 1 < 2 ^ 64
  room = omega (arith, few, owners_le p.ref_count s.live)

  shared : s.heap.counters p.ref_count ≡ some (owners p.ref_count s.live)
  shared =
      counted_at before after p s.live s.heap split (omega (arith, few)) all
      ∙ ap some (sym (owners_of before after p s.live s.heap split (omega (arith, few)) all))

  Inv-copied :
      (q : MySharedPtr) (h : Heap)
      → copy p s.heap ≡ some (q, h)
      → Inv (record { live = q ∷ s.live; heap = h })
  Inv-copied q h c =
      subst (λ (x : MySharedPtr × Heap). Inv (record { live = x.0 ∷ s.live; heap = x.1 }))
        (some_inj.0 (sym (copy-counts p s.heap (owners p.ref_count s.live) room shared) ∙ c))
        (Counted-joined p (owners p.ref_count s.live) s.live s.heap refl all, few)

  Inv-copied_with :
      (d : Ptr) (q : MySharedPtr) (h : Heap)
      → copy_with d p s.heap ≡ some (q, h)
      → Inv (record { live = q ∷ s.live; heap = h })
  Inv-copied_with d q h c =
      subst (λ (x : MySharedPtr × Heap). Inv (record { live = x.0 ∷ s.live; heap = x.1 }))
        (some_inj.0 (sym (copy_with-counts p s.heap d (owners p.ref_count s.live) room shared) ∙ c))
        (
          Counted-joined (record p { deleter = d }) (owners p.ref_count s.live) s.live s.heap refl
              all,
          few,
        )

reach-Inv : {s : Scene} → Reach s → Inv s
unfolding from_ptr from_ptr_with
reach-Inv Reach.begin = (λ r. refl, omega arith)
reach-Inv (Reach.construct {s} t r reach free few) =
    (Counted-fresh (from_ptr t r s.heap).0 s.live s.heap free (reach-Inv reach).0, few)
reach-Inv (Reach.construct_with {s} t d r reach free few) =
    (Counted-fresh (from_ptr_with t d r s.heap).0 s.live s.heap free (reach-Inv reach).0, few)
reach-Inv (Reach.copied {s} before after p q h reach split few c) =
    Inv-copied before after p s split few (reach-Inv reach).0 q h c
reach-Inv (Reach.copied_with {s} before after p q d h reach split few c) =
    Inv-copied_with before after p s split few (reach-Inv reach).0 d q h c
reach-Inv (Reach.destroyed {s} before after p h reach split gone) =
    let (all, few) = reach-Inv reach in
    let (h', done, counted, log) = destroyed_lem before after p s.live s.heap split few all in
    (
      subst (Counted (before ++ after)) (some_inj.0 (sym done ∙ gone)) counted,
      omega (arith, few, ap length split, length-split before after p),
    )

-- However objects are constructed, copied and destroyed, use_count of each that is left finds its
-- counter, and returns how many of the objects that are left share it. `operator=` is not called,
-- `new` returns unused addresses, and there are fewer than 2 ^ 64 objects at any time.
pub use_count-owners :
    {s : Scene} (before after : List MySharedPtr) (p : MySharedPtr)
    → Reach s
    → s.live ≡ before ++ p ∷ after
    → use_count p s.heap ≡ some (owners p.ref_count s.live)
unfolding use_count
use_count-owners {s} before after p reach split =
    let (all, few) = reach-Inv reach in
    counted_at before after p s.live s.heap split few all
    ∙ ap some (sym (owners_of before after p s.live s.heap split few all))
