-- ===== src/RecursiveMutex/Owner.antt =====
-- Which thread of mutex.cpp has the mutex, and how often.
use os_study.Prelude.{
  ℕ, suc, ◌+◌, ◌*◌, ◌≤◌, ◌<◌, ◌≡◌, refl, sym, ap, ◌∙◌, arith, Bool, true, false, ◌==◌, ◌⊎◌, inl,
  inr, leb, ltb, ltb→lt, Bool-cases, ==_iff, if◌then◌else◌,
}
use os_study.Protocol.Family.{set_at}
use os_study.RecursiveMutex.{Thread, Mutex, Run, nested, CanLock, lock, unlock}

-- How often a thread has locked the mutex.
abbrev pub holds : Bool → Thread → ℕ
holds last Thread.again = 1
holds last Thread.inside = if last then 2 else 1
holds last (Thread.loaded v) = if last then 2 else 1
holds last Thread.stored = if last then 2 else 1
holds last Thread.printed = if last then 2 else 1
holds last Thread.outer = 1
holds last _ = 0

abbrev pub is_absent : Thread → Bool
is_absent Thread.absent = true
is_absent _ = false

-- How often `j` has locked it, by the mutex.
abbrev pub held_by : Mutex → ℕ → ℕ
held_by m j = if m.owner == j then m.depth else 0

abbrev pub is_again : Thread → Bool
is_again Thread.again = true
is_again _ = false

pub record Owned (s : Run) : Type 0 where
  pub held : (j : ℕ) → holds (nested s) (s.threads j) ≡ held_by s.mtx j
  pub made : (j : ℕ) → is_absent (s.threads j) ≡ leb s.created j
  pub few : s.created ≤ 3
  pub bound : s.created + 3 * s.round ≤ 33
  pub twice : (j : ℕ) → (nested s ≡ true) ⊎ (is_again (s.threads j) ≡ false)

module _ (last : Bool) (f : ℕ → Thread) (i : ℕ) (t u : Thread) (m : Mutex) (was : f i ≡ t)
    (held : (j : ℕ) → holds last (f j) ≡ held_by m j) where
  mine : holds last t ≡ held_by m i
  mine = ap (holds last) (sym was) ∙ held i

  pub keep_held : holds last u ≡ holds last t → (j : ℕ) → holds last (set_at i u f j) ≡ held_by m j
  keep_held e j = elim (Bool-cases (i == j)) [
    | inl at ↦ rw at (e ∙ (mine ∙ ap (held_by m) ((==_iff i j).0 at)))
    | inr ne ↦ rw ne (held j)
  ]

  pub lock_held :
      CanLock i m
      → holds last u ≡ suc (holds last t)
      → (j : ℕ) → holds last (set_at i u f j) ≡ held_by (lock i m) j
  lock_held can e j = elim (Bool-cases (i == j)) [
    | inl at ↦ elim can [
      | inl free ↦ rw at (ground (arith, mine, e, free))
      | inr own ↦ rw at (ground (arith, mine, e, own))
    ]
    | inr ne ↦ elim can [
      | inl free ↦ rw ne (ground (arith, held j, free))
      | inr own ↦ rw ne (ground (arith, held j, own, ne))
    ]
  ]

  pub unlock_held :
      suc (holds last u) ≡ holds last t
      → (j : ℕ) → holds last (set_at i u f j) ≡ held_by (unlock m) j
  unlock_held e j = elim (Bool-cases (i == j)) [
    | inl at ↦ let same = (==_iff i j).0 at in rw at (ground (arith, mine, e, same))
    | inr ne ↦ rw ne (ground (arith, mine, e, held j, ne))
  ]

pub keep_made :
    (c i : ℕ) (f : ℕ → Thread) (t u : Thread)
    → f i ≡ t
    → is_absent u ≡ is_absent t
    → ((j : ℕ) → is_absent (f j) ≡ leb c j)
    → (j : ℕ) → is_absent (set_at i u f j) ≡ leb c j
keep_made c i f t u was e made j = elim (Bool-cases (i == j)) [
  | inl at ↦ rw at (e ∙ (ap is_absent (sym was) ∙ (made i ∙ ap (leb c) ((==_iff i j).0 at))))
  | inr ne ↦ rw ne (made j)
]

pub create_made :
    (c : ℕ) (f : ℕ → Thread)
    → ((j : ℕ) → is_absent (f j) ≡ leb c j)
    → (j : ℕ) → is_absent (set_at c Thread.begun f j) ≡ leb (suc c) j
create_made c f made j = elim (Bool-cases (c == j)) [
  | inl at ↦ rw at (ground (arith, at))
  | inr ne ↦ rw ne (ground (arith, made j, ne))
]

absent_eq : (t : Thread) → is_absent t ≡ true → t ≡ Thread.absent
absent_eq Thread.absent e = refl
absent_eq Thread.begun e = cc e
absent_eq Thread.again e = cc e
absent_eq Thread.inside e = cc e
absent_eq (Thread.loaded v) e = cc e
absent_eq Thread.stored e = cc e
absent_eq Thread.printed e = cc e
absent_eq Thread.outer e = cc e
absent_eq Thread.finished e = cc e

pub absent_from : (s : Run) → Owned s → (j : ℕ) → s.created ≤ j → s.threads j ≡ Thread.absent
absent_from s o j h = absent_eq (s.threads j) (o.made j ∙ ground (arith, h))

pub once :
    (last : Bool)
    → holds last Thread.inside ≡ suc (holds last (if last then Thread.again else Thread.begun))
once true = refl
once false = refl

pub left :
    (last : Bool)
    → suc (holds last (if last then Thread.outer else Thread.finished)) ≡ holds last Thread.printed
left true = refl
left false = refl

pub neither : (last : Bool) → is_again (if last then Thread.outer else Thread.finished) ≡ false
neither true = refl
neither false = refl

pub present :
    (last : Bool) (t u : Thread)
    → is_absent t ≡ false
    → is_absent u ≡ false
    → is_absent (if last then t else u) ≡ false
present true t u e e' = e
present false t u e e' = e'

-- Behind the threads of a round nobody has the mutex.
pub joined :
    (s : Run)
    → Owned s
    → s.created ≡ 3
    → ((i : ℕ) → i < 3 → s.threads i ≡ Thread.finished)
    → (j : ℕ) → 0 ≡ held_by s.mtx j
joined s o all done j = sym (none_held j) ∙ o.held j
  where
    none_held : (j : ℕ) → holds (nested s) (s.threads j) ≡ 0
    none_held j = elim (Bool-cases (ltb j 3)) [
      | inl below ↦ ap (holds (nested s)) (done j (ltb→lt j 3 below))
      | inr above ↦ ap (holds (nested s)) (absent_from s o j (ground (arith, all, above)))
    ]

pub keep_twice :
    (last : Bool) (f : ℕ → Thread) (i : ℕ) (u : Thread)
    → ((last ≡ true) ⊎ (is_again u ≡ false))
    → ((j : ℕ) → (last ≡ true) ⊎ (is_again (f j) ≡ false))
    → (j : ℕ) → (last ≡ true) ⊎ (is_again (set_at i u f j) ≡ false)
keep_twice last f i u e twice j = elim (Bool-cases (i == j)) [
  | inl at ↦ rw at e
  | inr ne ↦ rw ne (twice j)
]
