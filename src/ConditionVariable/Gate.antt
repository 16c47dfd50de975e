-- ===== src/ConditionVariable/Gate.antt =====
-- The threads of condition_variable.cpp never wait for ever.
use os_study.Prelude.{ℕ, zero, suc, ◌+◌, ◌<◌, ◌≡◌, refl, ap, ◌∙◌, arith, Bool, true, false, []}
use os_study.Protocol.Family.{
  set_at, sum_below, sum_below-set_at, sum_below-const, sum_below-eq_zero,
}
use os_study.ConditionVariable.{Thread, Main, Race, notified, Step, Reach}

abbrev pub holds : Thread → ℕ
holds Thread.inside = 1
holds _ = 0

abbrev pub sleeps : Thread → ℕ
sleeps Thread.asleep = 1
sleeps _ = 0

abbrev pub bit : Bool → ℕ
bit true = 1
bit false = 0

abbrev pub main_holds : Main → ℕ
main_holds Main.in_go = 1
main_holds _ = 0

abbrev pub is_behind : Main → Bool
is_behind Main.behind_go = true
is_behind _ = false

-- `mtx` is held by one, `ready` says that `go` is over, and nobody sleeps then.
pub record Inv (n : ℕ) (s : Race) : Type 0 where
  pub owner : sum_below holds n s.threads + main_holds s.main ≡ bit s.locked
  pub gate : s.ready ≡ is_behind s.main
  pub awake : s.ready ≡ true → sum_below sleeps n s.threads ≡ 0
  pub silent : s.ready ≡ false → s.printed ≡ []

module _ (n i : ℕ) (t u : Thread) (s : Race) (below : i < n) (was : s.threads i ≡ t) where
  holds_of : holds (s.threads i) ≡ holds t
  holds_of = ap holds was

  sleeps_of : sleeps (s.threads i) ≡ sleeps t
  sleeps_of = ap sleeps was

  holds_set :
      sum_below holds n (set_at i u s.threads) + holds t ≡ sum_below holds n s.threads + holds u
  holds_set = omega (arith, sum_below-set_at holds n i u s.threads below, holds_of)

  sleeps_set :
      sum_below sleeps n (set_at i u s.threads) + sleeps t ≡ sum_below sleeps n s.threads + sleeps u
  sleeps_set = omega (arith, sum_below-set_at sleeps n i u s.threads below, sleeps_of)

holds-notified : (t : Thread) → holds (notified t) ≡ holds t
holds-notified Thread.outside = refl
holds-notified Thread.inside = refl
holds-notified Thread.asleep = refl
holds-notified Thread.awake = refl
holds-notified Thread.finished = refl

sleeps-notified : (t : Thread) → sleeps (notified t) ≡ 0
sleeps-notified Thread.outside = refl
sleeps-notified Thread.inside = refl
sleeps-notified Thread.asleep = refl
sleeps-notified Thread.awake = refl
sleeps-notified Thread.finished = refl

holds-all : (n : ℕ) (f : ℕ → Thread) → sum_below holds n (λ i. notified (f i)) ≡ sum_below holds n f
unfolding sum_below
holds-all zero f = refl
holds-all (suc n) f = omega (arith, holds-notified (f n), holds-all n f)

pub reach-Inv : {n : ℕ} {s : Race} → Reach n s → Inv n s
reach-Inv {n} Reach.begin = record {
  owner = omega (arith, sum_below-const holds n Thread.outside refl);
  gate = refl;
  awake = λ e. absurd (ground (arith, e));
  silent = λ e. refl;
}
reach-Inv {n} (Reach.next {s} reach (Step.lock i below was free)) =
    let v = reach-Inv reach in
    let h = holds_set n i Thread.outside Thread.inside s below was in
    let z = sleeps_set n i Thread.outside Thread.inside s below was in
    record {
      owner = omega (arith, v.owner, h, ap bit free);
      gate = v.gate;
      awake = λ e. omega (arith, v.awake e, z);
      silent = v.silent;
    }
reach-Inv {n} (Reach.next {s} reach (Step.relock i below was free)) =
    let v = reach-Inv reach in
    let h = holds_set n i Thread.awake Thread.inside s below was in
    let z = sleeps_set n i Thread.awake Thread.inside s below was in
    record {
      owner = omega (arith, v.owner, h, ap bit free);
      gate = v.gate;
      awake = λ e. omega (arith, v.awake e, z);
      silent = v.silent;
    }
reach-Inv {n} (Reach.next {s} reach (Step.wait i below was closed)) =
    let v = reach-Inv reach in
    let h = holds_set n i Thread.inside Thread.asleep s below was in
    record {
      owner = ground (arith, v.owner, h);
      gate = v.gate;
      awake = λ e. absurd (ground (arith, e, closed));
      silent = v.silent;
    }
reach-Inv {n} (Reach.next {s} reach (Step.print i below was lit)) =
    let v = reach-Inv reach in
    let h = holds_set n i Thread.inside Thread.finished s below was in
    let z = sleeps_set n i Thread.inside Thread.finished s below was in
    record {
      owner = ground (arith, v.owner, h);
      gate = v.gate;
      awake = λ e. omega (arith, v.awake e, z);
      silent = λ e. absurd (ground (arith, e, lit));
    }
reach-Inv {n} (Reach.next {s} reach (Step.enter_go at free)) =
    let v = reach-Inv reach in
    record {
      owner = omega (arith, v.owner, ap main_holds at, ap bit free);
      gate = v.gate ∙ ap is_behind at;
      awake = v.awake;
      silent = v.silent;
    }
reach-Inv {n} (Reach.next {s} reach (Step.leave_go at)) =
    let v = reach-Inv reach in
    record {
      owner = ground (arith, v.owner, ap main_holds at, holds-all n s.threads);
      gate = refl;
      awake = λ e.
          sum_below-eq_zero sleeps n (λ i. notified (s.threads i))
            λ i below. sleeps-notified (s.threads i);
      silent = λ e. absurd (ground (arith, e));
    }
reach-Inv {n} (Reach.spurious {s} i reach below was) =
    let v = reach-Inv reach in
    let h = holds_set n i Thread.asleep Thread.awake s below was in
    let z = sleeps_set n i Thread.asleep Thread.awake s below was in
    record {
      owner = omega (arith, v.owner, h);
      gate = v.gate;
      awake = λ e. omega (arith, v.awake e, z);
      silent = v.silent;
    }
