-- ===== src/Pointers/Unique.antt =====
-- My_unique_ptr. The members whose bodies no argument makes compile are left out: swap and operator*.
pub mod Deleted
use os_study.Prelude.{ℕ, Bool, List, [], ◌∷◌, ◌==◌}
use os_study.Pointers.{Ptr, null}

pub record MyUniquePtr : Type 0 where
  pub ptr : Ptr

-- The object, and what its deleter was called on, with the newest first.
pub record Owned : Type 0 where
  pub object : MyUniquePtr
  pub deleted : List Ptr

-- `del(p)`
abbrev pub del : Ptr → List Ptr → List Ptr
del p deleted = p ∷ deleted

-- The two constructors.
abbrev pub empty : MyUniquePtr
empty = record { ptr = null }

abbrev pub of_ptr : Ptr → MyUniquePtr
of_ptr t = record { ptr = t }

unfoldable pub destructor : Owned → Owned
destructor o = record { object = record { ptr = null }; deleted = del o.object.ptr o.deleted }

-- `operator=(nullptr_t)`
unfoldable pub assign_null : Owned → Owned
assign_null o = o

-- `operator bool`
unfoldable pub to_bool : MyUniquePtr → Bool
to_bool p = p.ptr == null

abbrev pub get : MyUniquePtr → Ptr
get p = p.ptr

-- The pointer that it returns comes first.
unfoldable pub release : Owned → Ptr × Owned
release o = (o.object.ptr, record o { object = record { ptr = null } })

unfoldable pub reset : Owned → Owned
reset o = record { object = record { ptr = null }; deleted = del o.object.ptr o.deleted }

unfoldable pub reset_to : Ptr → Owned → Owned
reset_to q o =
    let save = o.object.ptr in record { object = record { ptr = q }; deleted = del save o.deleted }

unfoldable pub reset_null : Owned → Owned
reset_null o =
    let save = o.object.ptr in
    record { object = record { ptr = null }; deleted = del save o.deleted }

-- The two objects of `main`, at the addresses that `new` returns, are destroyed in the reverse order.
-- `IntDeleter` deletes what it is given.
unfoldable main : Ptr → Ptr → List Ptr
unfolding destructor
main a b =
    let t1 = destructor (record { object = of_ptr b; deleted = [] }) in
    let t = destructor (record { object = of_ptr a; deleted = t1.deleted }) in t.deleted
