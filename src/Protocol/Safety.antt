-- ===== src/Protocol/Safety.antt =====
-- What holds in every reachable state of the threads, with and without the `sem_post`.
use os_study.Prelude.{
  ℕ, ◌%◌, ◌^◌, ◌≤◌, ◌<◌, ◌≡◌, refl, Bool, true, false, arith, ◌==◌, ==_iff, ne_of_==, Bool-cases,
  inl, inr,
}
use os_study.Protocol.Family.{sum_below-le, sum_below-eq_zero, two-le-sum}
use os_study.Protocol.System.{Pc, System, Reach}
use os_study.Protocol.Invariant.{inside, has_stored, reach-Inv}

-- At most one thread is between its `sem_wait` and its `sem_post`, with any number of threads.
pub mutual_exclusion :
    {posts : Bool} {n : ℕ} {s : System}
    → Reach posts n s
    → (i j : ℕ) → i < n
    → j < n
    → inside (s.pc i) ≡ 1
    → inside (s.pc j) ≡ 1
    → i ≡ j
mutual_exclusion {n} {s} r i j hi hj ini inj = elim (Bool-cases (i == j)) [
  | inl same ↦ (==_iff i j).0 same
  | inr other ↦ absurd (
      omega (arith, (reach-Inv r).permits, two-le-sum inside n i j s.pc hi hj (ne_of_== i j other)))
]

-- No update is lost: in every reachable state `requests` is the number of stores made, as an `int`,
-- although each `++` is a load and a store with other threads in between.
pub no_lost_update :
    {posts : Bool} {n : ℕ} {s : System} → Reach posts n s → s.shared.requests ≡ s.stores % 2 ^ 32
no_lost_update r = (reach-Inv r).counted

-- Where `write_code` posts, the semaphore is free whenever no thread is inside.
pub free_again :
    {n : ℕ} {s : System}
    → Reach true n s
    → ((i : ℕ) → i < n → inside (s.pc i) ≡ 0)
    → s.shared.sem ≡ 1
free_again {n} {s} r out =
    let inv = reach-Inv r in
    omega (arith, inv.permits, inv.posting refl, sum_below-eq_zero inside n s.pc out)

stored-le-inside : (p : Pc) → has_stored p ≤ inside p
stored-le-inside Pc.outside = omega arith
stored-le-inside Pc.writer = omega arith
stored-le-inside (Pc.loaded v) = omega arith
stored-le-inside Pc.stored = omega arith
stored-le-inside Pc.reader = omega arith

-- Where `write_code` does not post, at most one request is ever counted, whatever the number of
-- threads and their order, and from then on the semaphore is 0: every later `sem_wait` waits.
pub counts_one :
    {n : ℕ} {s : System} → Reach false n s → (s.stores ≤ 1) × (s.stores ≡ 1 → s.shared.sem ≡ 0)
counts_one {n} {s} r =
    let inv = reach-Inv r in
    let le = sum_below-le has_stored inside stored-le-inside n s.pc in
    (
      omega (arith, inv.permits, inv.leaving refl, le),
      λ one. omega (arith, inv.permits, inv.leaving refl, le),
    )
