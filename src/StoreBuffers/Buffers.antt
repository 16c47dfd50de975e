-- ===== src/StoreBuffers/Buffers.antt =====
-- A task with its buffer, and what gets into the memory.
use os_study.Prelude.{
  ℕ, ◌<◌, ◌≡◌, refl, sym, ap, ◌∙◌, arith, false, Option, none, some, List, [], ◌∷◌, ◌++◌, ◌==◌, ◌⊎◌,
  inl, inr, ==_self,
}
use os_study.Protocol.Family.{set_at}
use os_study.StoreBuffers.{flag, result, Task}

-- A task with its buffer, and the memory at its flag and at its result.
abbrev pub IsLocal : ℕ → Task → List (ℕ × ℕ) → ℕ → ℕ → Type 0
IsLocal i Task.begun b m r = b ≡ []
IsLocal i Task.stored b m r = (b ≡ (flag i, 1) ∷ []) ⊎ ((b ≡ []) × (m ≡ 1))
IsLocal i Task.fenced b m r = (b ≡ []) × (m ≡ 1)
IsLocal i (Task.loaded v) b m r = (b ≡ []) × (m ≡ 1)
IsLocal i (Task.finished v) b m r = (m ≡ 1) × ((b ≡ (result i, v) ∷ []) ⊎ ((b ≡ []) × (r ≡ v)))

-- What a task has loaded.
abbrev pub taken : Task → Option ℕ
taken (Task.loaded v) = some v
taken (Task.finished v) = some v
taken _ = none

-- The oldest store of a buffer with one, and with none.
oldest_of_one :
    (p q : ℕ × ℕ) (newer : List (ℕ × ℕ)) → q ∷ [] ≡ newer ++ p ∷ [] → (newer ≡ []) × (p ≡ q)
oldest_of_one p q [] e = (refl, cc e)
oldest_of_one p q (x ∷ []) e = cc e
oldest_of_one p q (x ∷ y ∷ newer) e = cc e

oldest_of_none : (p : ℕ × ℕ) (newer : List (ℕ × ℕ)) → [] ≡ newer ++ p ∷ [] → ⊥
oldest_of_none p [] e = cc e
oldest_of_none p (x ∷ newer) e = cc e

-- What a buffer leaves behind when its oldest store gets into the memory.
abbrev pub Drained : ℕ → Task → ℕ → ℕ → List (ℕ × ℕ) → (ℕ → ℕ) → Type 0
Drained i t var value newer memory =
    ((var ≡ flag i) ⊎ (var ≡ result i))
    × IsLocal i t newer (set_at var value memory (flag i)) (set_at var value memory (result i))

module _ (i var value : ℕ) (b newer : List (ℕ × ℕ)) (memory : ℕ → ℕ)
    (e : b ≡ newer ++ (var, value) ∷ []) where
  unbuffered : {A : Type 0} → b ≡ [] → A
  unbuffered h = absurd (oldest_of_none (var, value) newer (sym h ∙ e))

  flag_leaves : b ≡ (flag i, 1) ∷ [] → Drained i Task.stored var value newer memory
  flag_leaves h =
      let (last, same) = oldest_of_one (var, value) (flag i, 1) newer (sym h ∙ e) in
      let at = ap (λ (p : ℕ × ℕ). p.0) same in
      (inl at, inr (last, rw (at, ==_self (flag i)) (ap (λ (p : ℕ × ℕ). p.1) same)))

  result_leaves :
      (v : ℕ)
      → memory (flag i) ≡ 1
      → b ≡ (result i, v) ∷ []
      → Drained i (Task.finished v) var value newer memory
  result_leaves v m h =
      let (last, same) = oldest_of_one (var, value) (result i, v) newer (sym h ∙ e) in
      let at = ap (λ (p : ℕ × ℕ). p.0) same in
      (
        inr at,
        (
          rw at (ground (arith, m)),
          inr (last, rw (at, ==_self (result i)) (ap (λ (p : ℕ × ℕ). p.1) same)),
        ),
      )

  pub drained :
      (t : Task)
      → IsLocal i t b (memory (flag i)) (memory (result i))
      → Drained i t var value newer memory
  drained Task.begun h = unbuffered h
  drained Task.stored (inl h) = flag_leaves h
  drained Task.stored (inr h) = unbuffered h.0
  drained Task.fenced h = unbuffered h.0
  drained (Task.loaded v) h = unbuffered h.0
  drained (Task.finished v) (m, inl h) = result_leaves v m h
  drained (Task.finished v) (m, inr h) = unbuffered h.0

-- The variables of a task are not those of the other.
pub apart :
    (i j var : ℕ)
    → i < 2
    → j < 2
    → (i == j) ≡ false
    → ((var ≡ flag i) ⊎ (var ≡ result i))
    → ((var == flag j) ≡ false) × ((var == result j) ≡ false)
apart i j var bi bj ne (inl at) = (ground (arith, ne, at), ground (arith, bi, bj, at))
apart i j var bi bj ne (inr at) = (ground (arith, bi, bj, at), ground (arith, ne, at))
