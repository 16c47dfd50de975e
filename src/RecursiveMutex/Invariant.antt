-- ===== src/RecursiveMutex/Invariant.antt =====
-- In every reachable state the mutex is as its owner has locked it.
use os_study.Prelude.{ℕ, suc, ◌≡◌, refl, sym, arith, true, false, List, ◌∷◌, ◌⊎◌, inl, inr}
use os_study.Protocol.Family.{set_at}
use os_study.RecursiveMutex.{Thread, Mutex, Run, nested, lock, unlock, Step, Reach}
use os_study.RecursiveMutex.Owner.{
  holds, held_by, is_absent, is_again, Owned, absent_from, joined, keep_held, lock_held,
  unlock_held, keep_made, create_made, keep_twice, once, left, present, neither,
}

-- A step of one thread.
module _ (s : Run) (i g : ℕ) (p : List ℕ) (t u : Thread) (was : s.threads i ≡ t) (o : Owned s) where
  thread_Owned :
      (m : Mutex)
      → ((j : ℕ) → holds (nested s) (set_at i u s.threads j) ≡ held_by m j)
      → is_absent u ≡ is_absent t
      → ((nested s ≡ true) ⊎ (is_again u ≡ false))
      → Owned (record s { threads = set_at i u s.threads; mtx = m; global_val = g; printed = p })
  thread_Owned m held e once = record {
    held = held;
    made = keep_made s.created i s.threads t u was e o.made;
    few = o.few;
    bound = o.bound;
    twice = keep_twice (nested s) s.threads i u once o.twice;
  }

  inside_Owned :
      holds (nested s) u ≡ holds (nested s) t
      → is_absent u ≡ is_absent t
      → is_again u ≡ false
      → Owned
          (record s { threads = set_at i u s.threads; mtx = s.mtx; global_val = g; printed = p })
  inside_Owned e e' e'' =
      thread_Owned s.mtx (keep_held (nested s) s.threads i t u s.mtx was o.held e) e' (inr e'')

pub reach-Owned : {s : Run} → Reach s → Owned s
reach-Owned Reach.begin = record {
  held = λ j. ground arith;
  made = λ j. ground arith;
  few = omega arith;
  bound = omega arith;
  twice = λ j. inr refl;
}
reach-Owned (Reach.next {s} reach (Step.create more few)) =
    let o = reach-Owned reach in
    let was = absent_from s o s.created (omega arith) in
    record {
      held =
          keep_held (nested s) s.threads s.created Thread.absent Thread.begun s.mtx was o.held refl;
      made = create_made s.created s.threads o.made;
      few = few;
      bound = omega (arith, o.bound, more, few);
      twice = keep_twice (nested s) s.threads s.created _ (inr refl) o.twice;
    }
reach-Owned (Reach.next {s} reach (Step.lock_again i below was last can)) =
    let o = reach-Owned reach in
    thread_Owned s i s.global_val s.printed _ _ was o (lock i s.mtx)
      (lock_held (nested s) s.threads i _ Thread.again s.mtx was o.held can refl) refl (inl last)
reach-Owned (Reach.next {s} reach (Step.lock_once i below was can)) =
    let o = reach-Owned reach in
    thread_Owned s i s.global_val s.printed _ _ was o (lock i s.mtx)
      (lock_held (nested s) s.threads i _ Thread.inside s.mtx was o.held can (once (nested s)))
      (sym (present (nested s) _ _ refl refl)) (inr refl)
reach-Owned (Reach.next {s} reach (Step.load i below was)) =
    inside_Owned s i s.global_val s.printed _ _ was (reach-Owned reach) refl refl refl
reach-Owned (Reach.next {s} reach (Step.store i v below was)) =
    inside_Owned s i (suc v) s.printed _ _ was (reach-Owned reach) refl refl refl
reach-Owned (Reach.next {s} reach (Step.print i below was)) =
    inside_Owned s i s.global_val (s.global_val ∷ s.printed) _ _ was (reach-Owned reach) refl refl
      refl
reach-Owned (Reach.next {s} reach (Step.unlock_once i below was)) =
    let o = reach-Owned reach in
    thread_Owned s i s.global_val s.printed _ _ was o (unlock s.mtx)
      (unlock_held (nested s) s.threads i _ _ s.mtx was o.held (left (nested s)))
      (present (nested s) _ _ refl refl) (inr (neither (nested s)))
reach-Owned (Reach.next {s} reach (Step.unlock_again i below was)) =
    let o = reach-Owned reach in
    thread_Owned s i s.global_val s.printed _ _ was o (unlock s.mtx)
      (unlock_held (nested s) s.threads i _ _ s.mtx was o.held refl) refl (inr refl)
reach-Owned (Reach.next {s} reach (Step.join all done)) =
    let o = reach-Owned reach in
    record {
      held = joined s o all done;
      made = λ j. ground arith;
      few = omega arith;
      bound = omega (arith, o.bound, all);
      twice = λ j. inr refl;
    }
