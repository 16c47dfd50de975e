-- ===== src/Examples/Pointers.antt =====
-- Two objects on one pointer, and one object on two pointers.
use os_study.Prelude.{◌+◌, ◌≡◌, refl, arith, none, some, List, [], ◌∷◌}
use os_study.Pointers.Unique.Deleted.{Member, live, count, given, live-conserves}
use os_study.Pointers.Shared.{MySharedPtr, Heap, set_counter, from_ptr, copy, use_count}
use os_study.Pointers.Shared.Owners.{Scene, Reach}
use os_study.Pointers.Shared.Safety.{use_count-owners}

abbrev calls : List Member
calls = Member.resets_to 9 ∷ Member.releases ∷ Member.resets_to 7 ∷ []

live-conserves_example :
    count 9 (live 5 calls).owned.deleted + count 9 (live 5 calls).released
    ≡ count 9 (5 ∷ given calls)
live-conserves_example = live-conserves 9 5 calls (omega arith)

abbrev nothing : Heap
nothing = record { counters = λ _. none; log = [] }

abbrev first : MySharedPtr
first = record { ptr = 5; ref_count = 8; deleter = 0 }

abbrev one_object : Scene
one_object = record { live = first ∷ []; heap = set_counter 8 (some 1) nothing }

one_object-Reach : Reach one_object
unfolding from_ptr
one_object-Reach =
    Reach.construct {s = record { live = []; heap = nothing }} 5 8 Reach.begin refl (omega arith)

abbrev two_objects : Scene
two_objects = record { live = first ∷ first ∷ []; heap = set_counter 8 (some 2) one_object.heap }

copied : copy first one_object.heap ≡ some (first, two_objects.heap)
unfolding copy
copied = refl

two_objects-Reach : Reach two_objects
two_objects-Reach =
    Reach.copied {s = one_object} [] [] first first two_objects.heap one_object-Reach refl
      (omega arith) copied

use_count-owners_example : use_count first two_objects.heap ≡ some 2
use_count-owners_example =
    use_count-owners {s = two_objects} [] (first ∷ []) first two_objects-Reach refl
