-- ===== src/ConditionVariable/Printed.antt =====
-- The threads of condition_variable.cpp print once each, and not before `go`.
use os_study.Prelude.{
  ℕ, ◌+◌, ◌≡◌, refl, sym, ap, ◌∙◌, arith, true, false, List, [], ◌∷◌, ◌==◌, if◌then◌else◌, inl, inr,
  Bool-cases, ==_iff,
}
use os_study.Protocol.Family.{set_at}
use os_study.ConditionVariable.{Thread, Race, notified, Step, Reach}
use os_study.ConditionVariable.Gate.{reach-Inv}

abbrev pub finishes : Thread → ℕ
finishes Thread.finished = 1
finishes _ = 0

abbrev pub count : ℕ → List ℕ → ℕ
count x [] = 0
count x (y ∷ ys) = let rest = count x ys in if x == y then rest + 1 else rest

finishes-notified : (t : Thread) → finishes (notified t) ≡ finishes t
finishes-notified Thread.outside = refl
finishes-notified Thread.inside = refl
finishes-notified Thread.asleep = refl
finishes-notified Thread.awake = refl
finishes-notified Thread.finished = refl

-- A step of a thread that has not finished, to where it has not.
module _ (i j : ℕ) (t u : Thread) (s : Race) (was : s.threads i ≡ t) (early : finishes t ≡ 0) where
  same_thread : (i == j) ≡ true → finishes (s.threads j) ≡ 0
  same_thread e =
      ap (λ k. finishes (s.threads k)) (sym ((==_iff i j).0 e)) ∙ (ap finishes was ∙ early)

  still : finishes u ≡ 0 → finishes (set_at i u s.threads j) ≡ finishes (s.threads j)
  still late = elim (Bool-cases (i == j)) [
    | inl e ↦ rw e (late ∙ sym (same_thread e))
    | inr e ↦ rw e refl
  ]

  prints :
      finishes u ≡ 1
      → count j s.printed ≡ finishes (s.threads j)
      → count j (i ∷ s.printed) ≡ finishes (set_at i u s.threads j)
  prints now before = elim (Bool-cases (i == j)) [
    | inl e ↦ let none_yet = same_thread e in ground (arith, now, before, none_yet, e)
    | inr e ↦ ground (arith, before, e)
  ]

printed : {n : ℕ} {s : Race} (j : ℕ) → Reach n s → count j s.printed ≡ finishes (s.threads j)
printed j Reach.begin = refl
printed j (Reach.next {s} reach (Step.lock i below was free)) =
    printed j reach ∙ sym (still i j Thread.outside Thread.inside s was refl refl)
printed j (Reach.next {s} reach (Step.wait i below was closed)) =
    printed j reach ∙ sym (still i j Thread.inside Thread.asleep s was refl refl)
printed j (Reach.next {s} reach (Step.relock i below was free)) =
    printed j reach ∙ sym (still i j Thread.awake Thread.inside s was refl refl)
printed j (Reach.next {s} reach (Step.print i below was lit)) =
    prints i j Thread.inside Thread.finished s was refl refl (printed j reach)
printed j (Reach.next reach (Step.enter_go at free)) = printed j reach
printed j (Reach.next {s} reach (Step.leave_go at)) =
    printed j reach ∙ sym (finishes-notified (s.threads j))
printed j (Reach.spurious {s} i reach below was) =
    printed j reach ∙ sym (still i j Thread.asleep Thread.awake s was refl refl)

-- In every reachable state, a thread has printed its id once if it has finished, and not at all
-- before; and no id is printed before `go` sets `ready`.
pub reach-prints_once :
    {n : ℕ} {s : Race}
    → Reach n s
    → ((i : ℕ) → count i s.printed ≡ finishes (s.threads i)) × (s.ready ≡ false → s.printed ≡ [])
reach-prints_once reach = (λ i. printed i reach, (reach-Inv reach).silent)
