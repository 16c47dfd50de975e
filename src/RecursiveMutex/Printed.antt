-- ===== src/RecursiveMutex/Printed.antt =====
-- The numbers that mutex.cpp prints, in order.
use os_study.Prelude.{
  ℕ, ◌+◌, ◌*◌, ◌-◌, ◌≡◌, refl, sym, ap, ◌∙◌, arith, Bool, true, false, length, ==_self,
  if◌then◌else◌,
}
use os_study.Protocol.Family.{sum_below}
use os_study.RecursiveMutex.{Thread, Run, nested, lock, Step, Reach}
use os_study.RecursiveMutex.Count.{
  countdown, ahead, seen, past, Counted, quiet, stay, lock_ahead, store-Counted, print-Counted,
  join-Counted,
}
use os_study.RecursiveMutex.Invariant.{reach-Owned}
use os_study.RecursiveMutex.Owner.{holds, absent_from}

either :
    (w : Thread → ℕ) (n : ℕ) (last : Bool) (t u : Thread)
    → w t ≡ n
    → w u ≡ n
    → w (if last then t else u) ≡ n
either w n true t u e e' = e
either w n false t u e e' = e'

reach-Counted : {s : Run} → Reach s → Counted s
unfolding sum_below
reach-Counted Reach.begin = record {
  unprinted = refl;
  order = refl;
  sees = λ j. refl;
  total = refl;
}
reach-Counted (Reach.next {s} reach (Step.create more few)) =
    let o = reach-Owned reach in
    let was = absent_from s o s.created (omega arith) in
    let c =
      stay s s.created Thread.absent Thread.begun few was o (reach-Counted reach) s.mtx.depth refl
        refl refl in
    record { unprinted = c.unprinted; order = c.order; sees = c.sees; total = c.total }
reach-Counted (Reach.next {s} reach (Step.lock_again i below was last can)) =
    let o = reach-Owned reach in
    let c = reach-Counted reach in
    quiet s i Thread.begun Thread.again below was o c (lock i s.mtx) refl refl
      (lock_ahead s i Thread.begun Thread.again below was o c can refl refl)
reach-Counted (Reach.next {s} reach (Step.lock_once i below was can)) =
    let o = reach-Owned reach in
    let c = reach-Counted reach in
    let t = if nested s then Thread.again else Thread.begun in
    let same = λ (w : Thread → ℕ) (n : ℕ). either w n (nested s) Thread.again Thread.begun in
    quiet s i t Thread.inside below was o c (lock i s.mtx) (sym (same past 0 refl refl))
      (sym (same (seen s.global_val) s.global_val refl refl))
      (lock_ahead s i t Thread.inside below was o c can (same ahead 0 refl refl) refl)
reach-Counted (Reach.next {s} reach (Step.load i below was)) =
    stay s i Thread.inside (Thread.loaded s.global_val) below was (reach-Owned reach)
      (reach-Counted reach) s.mtx.depth refl refl refl
reach-Counted (Reach.next {s} reach (Step.store i v below was)) =
    store-Counted s i v below was (reach-Owned reach) (reach-Counted reach)
reach-Counted (Reach.next {s} reach (Step.print i below was)) =
    print-Counted s i below was (reach-Owned reach) (reach-Counted reach)
reach-Counted (Reach.next {s} reach (Step.unlock_once i below was)) =
    let same = λ (w : Thread → ℕ) (n : ℕ). either w n (nested s) Thread.outer Thread.finished in
    stay s i Thread.printed (if nested s then Thread.outer else Thread.finished) below was
      (reach-Owned reach) (reach-Counted reach) (s.mtx.depth - 1) (same past 1 refl refl)
      (same (seen s.global_val) s.global_val refl refl) (same ahead 0 refl refl)
reach-Counted (Reach.next {s} reach (Step.unlock_again i below was)) =
    stay s i Thread.outer Thread.finished below was (reach-Owned reach) (reach-Counted reach)
      (s.mtx.depth - 1) refl refl refl
reach-Counted (Reach.next {s} reach (Step.join all done)) =
    join-Counted s all done (reach-Owned reach) (reach-Counted reach)

-- In every reachable state of mutex.cpp, whichever thread has the mutex: the numbers printed are 1, 2,
-- 3 and so on in this order, and `global_val` is the number of increments that the threads have
-- made.
pub reach-counts_up :
    {s : Run}
    → Reach s
    → (s.printed ≡ countdown (length s.printed))
      × (s.global_val ≡ sum_below past 3 s.threads + 3 * s.round)
reach-counts_up reach = let c = reach-Counted reach in (c.order, omega (arith, c.total))

-- When `main` ends, the program has printed the numbers from 1 to 33 in this order, and the mutex is
-- free.
pub reach-prints_all :
    {s : Run} → Reach s → s.round ≡ 11 → (s.printed ≡ countdown 33) × (s.mtx.depth ≡ 0)
unfolding sum_below
reach-prints_all {s} reach e =
    let o = reach-Owned reach in
    let c = reach-Counted reach in
    let none_left = λ (j : ℕ). absent_from s o j (omega (arith, o.bound, e)) in
    let made = λ (j : ℕ). ap past (none_left j) in
    let shown = ap ahead (none_left s.mtx.owner) in
    let many : length s.printed ≡ 33 =
      omega (arith, c.unprinted, c.total, shown, made 0, made 1, made 2, e) in
    (
      c.order ∙ ap countdown many,
      sym (rw (==_self s.mtx.owner) at (o.held s.mtx.owner))
          ∙ ap (holds (nested s)) (none_left s.mtx.owner),
    )
