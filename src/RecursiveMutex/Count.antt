-- ===== src/RecursiveMutex/Count.antt =====
-- What the threads of mutex.cpp print.
use os_study.Prelude.{
  ℕ, zero, suc, ◌+◌, ◌*◌, ◌<◌, ◌≡◌, refl, sym, ap, ap₂, ◌∙◌, arith, Bool, true, false, List, [],
  ◌∷◌, ◌==◌, inl, inr, length, Bool-cases, ==_iff, ==_self,
}
use os_study.Protocol.Family.{set_at, sum_below, sum_below-set_at}
use os_study.RecursiveMutex.{Thread, Mutex, Run, nested, CanLock}
use os_study.RecursiveMutex.Owner.{holds, Owned, joined}

-- n, …, 2, 1
abbrev pub countdown : ℕ → List ℕ
countdown zero = []
countdown (suc n) = suc n ∷ countdown n

-- A store that is not printed yet.
abbrev pub ahead : Thread → ℕ
ahead Thread.stored = 1
ahead _ = 0

-- What a thread takes for `global_val`.
abbrev pub seen : ℕ → Thread → ℕ
seen g (Thread.loaded v) = v
seen g _ = g

abbrev pub past : Thread → ℕ
past Thread.stored = 1
past Thread.printed = 1
past Thread.outer = 1
past Thread.finished = 1
past _ = 0

pub record Counted (s : Run) : Type 0 where
  pub unprinted : s.global_val ≡ length s.printed + ahead (s.threads s.mtx.owner)
  pub order : s.printed ≡ countdown (length s.printed)
  pub sees : (j : ℕ) → seen s.global_val (s.threads j) ≡ s.global_val
  pub total : sum_below past 3 s.threads + 3 * s.round ≡ s.global_val

-- A step that leaves a weight of the thread as it is.
keep_at :
    (w : Thread → ℕ) (f : ℕ → Thread) (i : ℕ) (t u : Thread)
    → f i ≡ t
    → w u ≡ w t
    → (j : ℕ) → w (set_at i u f j) ≡ w (f j)
keep_at w f i t u was e j = elim (Bool-cases (i == j)) [
  | inl at ↦ rw at (e ∙ (ap w (sym was) ∙ ap (λ k. w (f k)) ((==_iff i j).0 at)))
  | inr ne ↦ rw ne refl
]

busy : (last : Bool) → holds last Thread.stored ≡ 0 → ⊥
busy true e = omega (arith, e)
busy false e = omega (arith, e)

-- A thread without the mutex.
module _ (last : Bool) where
  outside-ahead : (t : Thread) → holds last t ≡ 0 → ahead t ≡ 0
  outside-ahead Thread.stored e = absurd (busy last e)
  outside-ahead _ e = refl

  outside-seen : (g : ℕ) (t : Thread) → holds last t ≡ 0 → seen g t ≡ g
  outside-seen g (Thread.loaded v) e = absurd (busy last e)
  outside-seen g _ e = refl

module _ (s : Run) (i : ℕ) (t u : Thread) (below : i < 3) (was : s.threads i ≡ t) (o : Owned s)
    (c : Counted s) where
  past_of :
      (k : ℕ)
      → past u ≡ past t + k
      → sum_below past 3 (set_at i u s.threads) ≡ sum_below past 3 s.threads + k
  past_of k e = omega (arith, e, sum_below-set_at past 3 i u s.threads below, ap past was)

  pub quiet :
      (m : Mutex)
      → past u ≡ past t
      → seen s.global_val u ≡ seen s.global_val t
      → ahead (set_at i u s.threads m.owner) ≡ ahead (s.threads s.mtx.owner)
      → Counted (record s { threads = set_at i u s.threads; mtx = m })
  quiet m e e' same = record {
    unprinted = omega (arith, c.unprinted, same);
    order = c.order;
    sees = λ j. keep_at (seen s.global_val) s.threads i t u was e' j ∙ c.sees j;
    total = omega (arith, c.total, past_of 0 (omega (arith, e)));
  }

  pub stay :
      (d : ℕ)
      → past u ≡ past t
      → seen s.global_val u ≡ seen s.global_val t
      → ahead u ≡ ahead t
      → Counted (record s { threads = set_at i u s.threads; mtx = record s.mtx { depth = d } })
  stay d e e' e'' =
      quiet (record s.mtx { depth = d }) e e' (keep_at ahead s.threads i t u was e'' s.mtx.owner)

  -- The thread that takes the mutex has nothing to print, and neither had the owner before.
  pub lock_ahead :
      CanLock i s.mtx
      → ahead t ≡ 0
      → ahead u ≡ 0
      → ahead (set_at i u s.threads i) ≡ ahead (s.threads s.mtx.owner)
  lock_ahead can e e' = rw (==_self i) (e' ∙ sym old)
    where
      old : ahead (s.threads s.mtx.owner) ≡ 0
      old = elim can [
        | inr own ↦ ap (λ k. ahead (s.threads k)) own ∙ (ap ahead was ∙ e)
        | inl free ↦
            outside-ahead (nested s) (s.threads s.mtx.owner)
              (o.held s.mtx.owner ∙ rw (==_self s.mtx.owner) free)
      ]

  -- Where `t` holds the mutex.
  module _ (takes : holds (nested s) t ≡ 0 → ⊥) where
    is_owner : s.mtx.owner ≡ i
    is_owner = elim (Bool-cases (s.mtx.owner == i)) [
      | inl own ↦ (==_iff s.mtx.owner i).0 own
      | inr ne ↦ absurd (takes (ap (holds (nested s)) (sym was) ∙ (o.held i ∙ rw ne refl)))
    ]

    others : (j : ℕ) → (i == j) ≡ false → holds (nested s) (s.threads j) ≡ 0
    others j ne = o.held j ∙ rw (is_owner, ne) refl

    store_sees : (g : ℕ) (j : ℕ) → seen g u ≡ g → seen g (set_at i u s.threads j) ≡ g
    store_sees g j e = elim (Bool-cases (i == j)) [
      | inl at ↦ rw at e
      | inr ne ↦ rw ne (outside-seen (nested s) g (s.threads j) (others j ne))
    ]

    ahead_now : ahead (set_at i u s.threads s.mtx.owner) ≡ ahead u
    ahead_now = rw (is_owner, ==_self i) refl

    ahead_before : ahead (s.threads s.mtx.owner) ≡ ahead t
    ahead_before = ap (λ k. ahead (s.threads k)) is_owner ∙ ap ahead was

pub store-Counted :
    (s : Run) (i v : ℕ)
    → i < 3
    → s.threads i ≡ Thread.loaded v
    → Owned s
    → Counted s
    → Counted (record s { threads = set_at i Thread.stored s.threads; global_val = suc v })
store-Counted s i v below was o c =
    let takes = busy (nested s) in
    let value = ap (seen s.global_val) (sym was) ∙ c.sees i in
    let now = ahead_now s i (Thread.loaded v) Thread.stored below was o c takes in
    let before = ahead_before s i (Thread.loaded v) Thread.stored below was o c takes in
    let sum = past_of s i (Thread.loaded v) Thread.stored below was o c 1 refl in
    record {
      unprinted = omega (arith, c.unprinted, value, now, before);
      order = c.order;
      sees = λ j. store_sees s i (Thread.loaded v) Thread.stored below was o c takes (suc v) j refl;
      total = omega (arith, c.total, value, sum);
    }

pub print-Counted :
    (s : Run) (i : ℕ)
    → i < 3
    → s.threads i ≡ Thread.stored
    → Owned s
    → Counted s
    → Counted (record s {
      threads = set_at i Thread.printed s.threads;
      printed = s.global_val ∷ s.printed;
    })
print-Counted s i below was o c =
    let takes = busy (nested s) in
    let now = ahead_now s i Thread.stored Thread.printed below was o c takes in
    let before = ahead_before s i Thread.stored Thread.printed below was o c takes in
    let sum = past_of s i Thread.stored Thread.printed below was o c 0 refl in
    let value : s.global_val ≡ suc (length s.printed) = omega (arith, c.unprinted, before) in
    record {
      unprinted = omega (arith, value, now);
      order = ap₂ (λ (x : ℕ) (xs : List ℕ). x ∷ xs) value c.order;
      sees = λ j.
          keep_at (seen s.global_val) s.threads i Thread.stored Thread.printed was refl j
          ∙ c.sees j;
      total = omega (arith, c.total, sum);
    }

pub join-Counted :
    (s : Run)
    → s.created ≡ 3
    → ((i : ℕ) → i < 3 → s.threads i ≡ Thread.finished)
    → Owned s
    → Counted s
    → Counted (record s { threads = λ _. Thread.absent; round = suc s.round; created = 0 })
unfolding sum_below
join-Counted s all done o c =
    let one = λ (i : ℕ) (h : i < 3). ap past (done i h) in
    record {
      unprinted = omega (
        arith,
        c.unprinted,
        outside-ahead (nested s) (s.threads s.mtx.owner)
            (o.held s.mtx.owner ∙ sym (joined s o all done s.mtx.owner)),
      );
      order = c.order;
      sees = λ j. refl;
      total = omega (arith, c.total, one 0 (omega arith), one 1 (omega arith), one 2 (omega arith));
    }
