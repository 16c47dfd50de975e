-- ===== src/Pointers/Shared/Counts.antt =====
-- The destructor and the copy constructors of My_shared_ptr where the counter is known.
use os_study.Prelude.{ℕ, suc, ◌+◌, ◌-◌, ◌%◌, ◌<◌, ◌^◌, ◌≡◌, refl, ap, arith, none, some, ==_ne}
use os_study.Pointers.{Ptr}
use os_study.Pointers.Shared.{
  MySharedPtr, Event, Heap, set_counter, logged, gone, copy, copy_with, reduce_ref, destructor,
}

module _ (p : MySharedPtr) (h : Heap) where
  -- The heap behind the last owner.
  abbrev pub freed : Heap
  freed =
      logged (Event.deleted_count p.ref_count)
        (set_counter p.ref_count none (logged (gone p) (set_counter p.ref_count (some 0) h)))

  pub reduce_ref-last :
      h.counters p.ref_count ≡ some 1
      → reduce_ref p h ≡ some (logged (gone p) (set_counter p.ref_count (some 0) h))
  unfolding reduce_ref
  reduce_ref-last e = rw (reduce_ref, e) refl

  pub destructor-last : h.counters p.ref_count ≡ some 1 → destructor p h ≡ some freed
  unfolding destructor
  destructor-last e = rw (destructor, e, reduce_ref-last e) refl

  one_less : (n : ℕ) → suc (suc n) < 2 ^ 64 → (suc (suc n) + (2 ^ 64 - 1)) % 2 ^ 64 ≡ suc n
  one_less n few = omega (arith, few)

  reduce_ref-shared :
      (n : ℕ)
      → suc (suc n) < 2 ^ 64
      → h.counters p.ref_count ≡ some (suc (suc n))
      → reduce_ref p h ≡ some (set_counter p.ref_count (some (suc n)) h)
  unfolding reduce_ref
  reduce_ref-shared n few e = rw (reduce_ref, e, one_less n few, ==_ne (suc n) 0 (omega arith)) refl

  pub destructor-shared :
      (n : ℕ)
      → suc (suc n) < 2 ^ 64
      → h.counters p.ref_count ≡ some (suc (suc n))
      → destructor p h ≡ some (set_counter p.ref_count (some (suc n)) h)
  unfolding destructor
  destructor-shared n few e =
      rw (destructor, e, reduce_ref-shared n few e, ==_ne (suc (suc n)) 1 (omega arith)) refl

  pub copy-counts :
      (n : ℕ)
      → n + 1 < 2 ^ 64
      → h.counters p.ref_count ≡ some n
      → copy p h ≡ some (p, set_counter p.ref_count (some (suc n)) h)
  unfolding copy
  copy-counts n few e =
      rw (copy, e) (ap (λ m. some (p, set_counter p.ref_count (some m) h)) (omega (arith, few)))

  pub copy_with-counts :
      (d : Ptr) (n : ℕ)
      → n + 1 < 2 ^ 64
      → h.counters p.ref_count ≡ some n
      → copy_with d p h ≡ some (record p { deleter = d }, set_counter p.ref_count (some (suc n)) h)
  unfolding copy_with
  copy_with-counts d n few e =
      rw (copy_with, e)
        (ap (λ m. some (record p { deleter = d }, set_counter p.ref_count (some m) h))
          (omega (arith, few)))
