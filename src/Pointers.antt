-- ===== src/Pointers.antt =====
-- The two class templates for pointers that own their object: CXXPRIMER/template_for_unique_ptr.cpp
-- and CXXPRIMER/template_for_shared_ptr.cpp.
pub mod Unique
pub mod Shared
use os_study.Prelude.{ℕ}

-- An address, 0 for a null pointer.
abbrev pub Ptr : Type 0
Ptr = ℕ

abbrev pub null : Ptr
null = 0
