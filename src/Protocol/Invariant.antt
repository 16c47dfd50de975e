-- ===== src/Protocol/Invariant.antt =====
-- Who is inside the critical section, and what the counter holds.
use os_study.Prelude.{
  ℕ, ◌+◌, ◌%◌, ◌^◌, ◌<◌, ◌≡◌, ◌≢◌, refl, Bool, true, false, arith, inl, inr, Bool-cases, ◌==◌,
  ==_of_eq, subst, sym, ap, ◌∙◌,
}
use os_study.Protocol.Family.{set_at, sum_below, sum_below-set_at, two-le-sum, sum_below-const}
use os_study.Protocol.System.{
  Shared, Pc, Move, System, Step, Reach, init, start, later, move, stores_of, left_of,
}

abbrev pub inside : Pc → ℕ
inside Pc.outside = 0
inside _ = 1

abbrev pub has_stored : Pc → ℕ
has_stored Pc.stored = 1
has_stored _ = 0

-- What a thread has loaded is what the counter holds.
abbrev IsFresh : Shared → Pc → Type 0
IsFresh m (Pc.loaded v) = v ≡ m.requests
IsFresh m _ = Unit

true_ne_false : {b : Bool} → b ≡ true → b ≡ false → ⊥
true_ne_false e f = cc

pub record Inv (posts : Bool) (n : ℕ) (s : System) : Type 0 where
  pub permits : s.shared.sem + sum_below inside n s.pc + s.left ≡ 1
  pub counted : s.shared.requests ≡ s.stores % 2 ^ 32
  pub posting : posts ≡ true → s.left ≡ 0
  pub leaving : posts ≡ false → s.stores ≡ s.left + sum_below has_stored n s.pc
  pub fresh : (i : ℕ) → i < n → IsFresh s.shared (s.pc i)

module _ {posts : Bool} {n : ℕ} {s : System} (inv : Inv posts n s) (i : ℕ) (lt : i < n) where
  -- The thread's own contribution, before and after.
  balance :
      (weight : Pc → ℕ) {p : Pc} (p' : Pc)
      → s.pc i ≡ p
      → sum_below weight n (set_at i p' s.pc) + weight p ≡ sum_below weight n s.pc + weight p'
  balance weight p' e =
      subst
        (λ x.
          sum_below weight n (set_at i p' s.pc) + weight x ≡ sum_below weight n s.pc + weight p')
        e (sum_below-set_at weight n i p' s.pc lt)

  move-permits :
      {p p' : Pc} {m' : Shared} (mv : Move posts s.shared p m' p')
      → s.pc i ≡ p
      → m'.sem + sum_below inside n (set_at i p' s.pc) + (s.left + left_of mv) ≡ 1
  move-permits (Move.wait_write g) e = omega (arith, inv.permits, balance inside Pc.writer e)
  move-permits Move.load e =
      omega (arith, inv.permits, balance inside (Pc.loaded s.shared.requests) e)
  move-permits Move.store e = omega (arith, inv.permits, balance inside Pc.stored e)
  move-permits (Move.post_write g) e = omega (arith, inv.permits, balance inside Pc.outside e)
  move-permits (Move.leave_write g) e = omega (arith, inv.permits, balance inside Pc.outside e)
  move-permits (Move.wait_read g) e = omega (arith, inv.permits, balance inside Pc.reader e)
  move-permits Move.post_read e = omega (arith, inv.permits, balance inside Pc.outside e)

  move-leaving :
      {p p' : Pc} {m' : Shared} (mv : Move posts s.shared p m' p')
      → s.pc i ≡ p
      → posts ≡ false
      → s.stores + stores_of mv ≡ s.left + left_of mv + sum_below has_stored n (set_at i p' s.pc)
  move-leaving (Move.wait_write g) e f =
      omega (arith, inv.leaving f, balance has_stored Pc.writer e)
  move-leaving Move.load e f =
      omega (arith, inv.leaving f, balance has_stored (Pc.loaded s.shared.requests) e)
  move-leaving Move.store e f = omega (arith, inv.leaving f, balance has_stored Pc.stored e)
  move-leaving (Move.post_write g) e f = absurd (true_ne_false g f)
  move-leaving (Move.leave_write g) e f =
      omega (arith, inv.leaving f, balance has_stored Pc.outside e)
  move-leaving (Move.wait_read g) e f = omega (arith, inv.leaving f, balance has_stored Pc.reader e)
  move-leaving Move.post_read e f = omega (arith, inv.leaving f, balance has_stored Pc.outside e)

  move-posting :
      {p p' : Pc} {m' : Shared} (mv : Move posts s.shared p m' p')
      → posts ≡ true
      → s.left + left_of mv ≡ 0
  move-posting Move.load f = omega (arith, inv.posting f)
  move-posting (Move.leave_write g) f = absurd (true_ne_false f g)
  move-posting mv f = omega (arith, inv.posting f)

  own-IsFresh : {p : Pc} → s.pc i ≡ p → IsFresh s.shared p
  own-IsFresh e = subst (IsFresh s.shared) e (inv.fresh i lt)

  move-counted :
      {p p' : Pc} {m' : Shared} (mv : Move posts s.shared p m' p')
      → s.pc i ≡ p
      → m'.requests ≡ (s.stores + stores_of mv) % 2 ^ 32
  move-counted Move.store e = omega (arith, inv.counted, own-IsFresh e)
  move-counted Move.load e = omega (arith, inv.counted)
  move-counted mv e = omega (arith, inv.counted)

  -- Two threads are never inside together.
  alone : (j : ℕ) → j < n → i ≢ j → inside (s.pc i) ≡ 1 → inside (s.pc j) ≡ 0
  alone j hj ne h = omega (arith, inv.permits, two-le-sum inside n i j s.pc lt hj ne)

  -- Only the thread inside the section has loaded the counter, so a store makes no value stale.
  IsFresh-outside : (m' : Shared) (j : ℕ) → inside (s.pc j) ≡ 0 → IsFresh m' (s.pc j)
  IsFresh-outside m' j h = from (s.pc j) h
    where
      from : (p : Pc) → inside p ≡ 0 → IsFresh m' p
      from Pc.outside e = tt
      from Pc.writer e = tt
      from (Pc.loaded v) e = absurd (omega arith)
      from Pc.stored e = tt
      from Pc.reader e = tt

  same_requests :
      (m' : Shared) (p : Pc) → m'.requests ≡ s.shared.requests → IsFresh s.shared p → IsFresh m' p
  same_requests m' (Pc.loaded v) e h = h ∙ sym e
  same_requests m' Pc.outside e h = tt
  same_requests m' Pc.writer e h = tt
  same_requests m' Pc.stored e h = tt
  same_requests m' Pc.reader e h = tt

  -- The other threads.
  move-others :
      {p p' : Pc} {m' : Shared} (mv : Move posts s.shared p m' p')
      → s.pc i ≡ p
      → (j : ℕ) → j < n
      → i ≢ j
      → IsFresh m' (s.pc j)
  move-others {m'} Move.store e j hj ne = IsFresh-outside m' j (alone j hj ne (ap inside e))
  move-others Move.load e j hj ne = inv.fresh j hj
  move-others {m'} mv e j hj ne = same_requests m' (s.pc j) refl (inv.fresh j hj)

  -- The thread itself.
  move-own : {p p' : Pc} {m' : Shared} (mv : Move posts s.shared p m' p') → IsFresh m' p'
  move-own (Move.wait_write g) = tt
  move-own Move.load = refl
  move-own Move.store = tt
  move-own (Move.post_write g) = tt
  move-own (Move.leave_write g) = tt
  move-own (Move.wait_read g) = tt
  move-own Move.post_read = tt

  move-IsFresh :
      {p p' : Pc} {m' : Shared} (mv : Move posts s.shared p m' p')
      → s.pc i ≡ p
      → (j : ℕ) → j < n
      → IsFresh m' (set_at i p' s.pc j)
  move-IsFresh {p'} {m'} mv e j hj = elim (Bool-cases (i == j)) [
    | inl same ↦ rw same (move-own mv)
    | inr other ↦ rw other (move-others mv e j hj (λ q. true_ne_false (==_of_eq i j q) other))
  ]

step-Inv : {posts : Bool} {n : ℕ} {s t : System} → Step posts n s t → Inv posts n s → Inv posts n t
step-Inv (move i lt mv) inv = record {
  permits = move-permits inv i lt mv refl;
  counted = move-counted inv i lt mv refl;
  posting = move-posting inv i lt mv;
  leaving = move-leaving inv i lt mv refl;
  fresh = move-IsFresh inv i lt mv refl;
}

init-Inv : (posts : Bool) (n : ℕ) → Inv posts n init
init-Inv posts n = record {
  permits = omega (arith, sum_below-const inside n Pc.outside refl);
  counted = refl;
  posting = λ _. refl;
  leaving = λ _. omega (arith, sum_below-const has_stored n Pc.outside refl);
  fresh = λ i lt. tt;
}

pub reach-Inv : {posts : Bool} {n : ℕ} {s : System} → Reach posts n s → Inv posts n s
reach-Inv {posts} {n} start = init-Inv posts n
reach-Inv (later r st) = step-Inv st (reach-Inv r)
