-- ===== src/StoreBuffers/Barrier.antt =====
-- With the barrier one of the tasks sees the flag of the other.
use os_study.Prelude.{
  ℕ, ◌<◌, ◌≡◌, refl, sym, ap, subst, ◌∙◌, arith, true, false, some, some_inj, List, [], ◌∷◌, ◌++◌,
  ◌==◌, ◌⊎◌, inl, inr, Bool-cases, ==_iff,
}
use os_study.Protocol.Family.{set_at}
use os_study.StoreBuffers.{flag, result, other, Task, Round, read, Step, Reach}
use os_study.StoreBuffers.Buffers.{IsLocal, taken, Drained, drained, apart}

pub record Inv (s : Round) : Type 0 where
  pub local :
      (j : ℕ)
      → j < 2
      → IsLocal j (s.tasks j) (s.buffers j) (s.memory (flag j)) (s.memory (result j))
  pub cross :
      (j k v w : ℕ)
      → j < 2
      → k < 2
      → (j == k) ≡ false
      → taken (s.tasks j) ≡ some v
      → taken (s.tasks k) ≡ some w
      → (v ≡ 1) ⊎ (w ≡ 1)

-- A task that has loaded has its flag in the memory.
taken-flag :
    (i v : ℕ) (t : Task) (b : List (ℕ × ℕ)) (m r : ℕ) → IsLocal i t b m r → taken t ≡ some v → m ≡ 1
taken-flag i v (Task.loaded x) b m r h e = h.1
taken-flag i v (Task.finished x) b m r h e = h.0
taken-flag i v _ b m r h e = cc

pub at_task :
    (s : Round) (i : ℕ) (t : Task)
    → i < 2
    → s.tasks i ≡ t
    → Inv s
    → IsLocal i t (s.buffers i) (s.memory (flag i)) (s.memory (result i))
at_task s i t below was inv =
    subst (λ t'. IsLocal i t' (s.buffers i) (s.memory (flag i)) (s.memory (result i))) was
      (inv.local i below)

module _ (s : Round) (inv : Inv s) (i : ℕ) (t u : Task) (b : List (ℕ × ℕ))
    (was : s.tasks i ≡ t) where
  moved-IsLocal :
      IsLocal i u b (s.memory (flag i)) (s.memory (result i))
      → (j : ℕ) → j < 2
      → IsLocal j
          (set_at i u s.tasks j)
          (set_at i b s.buffers j)
          (s.memory (flag j))
          (s.memory (result j))
  moved-IsLocal h j below = elim (Bool-cases (i == j)) [
    | inl at ↦
        rw at (
          subst (λ k. IsLocal k u b (s.memory (flag k)) (s.memory (result k))) ((==_iff i j).0 at)
            h)
    | inr ne ↦ rw ne (inv.local j below)
  ]

  same_taken : taken u ≡ taken t → (j : ℕ) → taken (set_at i u s.tasks j) ≡ taken (s.tasks j)
  same_taken e j = elim (Bool-cases (i == j)) [
    | inl at ↦ rw at (e ∙ (ap taken (sym was) ∙ ap (λ k. taken (s.tasks k)) ((==_iff i j).0 at)))
    | inr ne ↦ rw ne refl
  ]

  -- A step that loads nothing and leaves the memory.
  moved_Inv :
      IsLocal i u b (s.memory (flag i)) (s.memory (result i))
      → taken u ≡ taken t
      → Inv (record s { tasks = set_at i u s.tasks; buffers = set_at i b s.buffers })
  moved_Inv h e = record {
    local = moved-IsLocal h;
    cross = λ j k v w bj bk ne tj tk.
        inv.cross j k v w bj bk ne (sym (same_taken e j) ∙ tj) (sym (same_taken e k) ∙ tk);
  }

drain_Inv :
    (s : Round) (i var value : ℕ) (newer : List (ℕ × ℕ))
    → i < 2
    → s.buffers i ≡ newer ++ (var, value) ∷ []
    → Inv s
    → Inv (record s { buffers = set_at i newer s.buffers; memory = set_at var value s.memory })
drain_Inv s i var value newer below e inv = record { local = local; cross = inv.cross }
  where
    mine : Drained i (s.tasks i) var value newer s.memory
    mine = drained i var value (s.buffers i) newer s.memory e (s.tasks i) (inv.local i below)

    local :
        (j : ℕ)
        → j < 2
        → IsLocal j
            (s.tasks j)
            (set_at i newer s.buffers j)
            (set_at var value s.memory (flag j))
            (set_at var value s.memory (result j))
    local j h = elim (Bool-cases (i == j)) [
      | inl at ↦ rw at (
          subst
            (λ k.
              IsLocal k (s.tasks k) newer (set_at var value s.memory (flag k))
                (set_at var value s.memory (result k)))
            ((==_iff i j).0 at) mine.1)
      | inr ne ↦ let (f, r) = apart i j var below h ne mine.0 in rw (ne, f, r) (inv.local j h)
    ]

load_Inv :
    (s : Round) (i : ℕ)
    → i < 2
    → s.tasks i ≡ Task.fenced
    → Inv s
    → Inv (record s {
      tasks = set_at i (Task.loaded (read (s.buffers i) s.memory (flag (other i)))) s.tasks;
      buffers = set_at i (s.buffers i) s.buffers;
    })
load_Inv s i below was inv = record {
  local = moved-IsLocal s inv i Task.fenced (Task.loaded value) (s.buffers i) was here;
  cross = cross;
}
  where
    value : ℕ
    value = read (s.buffers i) s.memory (flag (other i))

    here : IsLocal i Task.fenced (s.buffers i) (s.memory (flag i)) (s.memory (result i))
    here = at_task s i Task.fenced below was inv

    -- The other has loaded.
    sees : (k w : ℕ) → k < 2 → (i == k) ≡ false → taken (s.tasks k) ≡ some w → value ≡ 1
    sees k w h ne e =
        ap (λ b. read b s.memory (flag (other i))) here.0
        ∙ (ap s.memory (ground (arith, below, h, ne))
            ∙ taken-flag k w (s.tasks k) (s.buffers k) (s.memory (flag k)) (s.memory (result k))
                (inv.local k h) e)

    cross :
        (j k v w : ℕ)
        → j < 2
        → k < 2
        → (j == k) ≡ false
        → taken (set_at i (Task.loaded value) s.tasks j) ≡ some v
        → taken (set_at i (Task.loaded value) s.tasks k) ≡ some w
        → (v ≡ 1) ⊎ (w ≡ 1)
    cross j k v w bj bk ne tj tk = elim (Bool-cases (i == j)) [
      | inl at ↦
          let differ : (i == k) ≡ false = ground (arith, at, ne) in
          inl (sym (some_inj.0 (rw at at tj)) ∙ sees k w bk differ (rw differ at tk))
      | inr nj ↦ elim (Bool-cases (i == k)) [
        | inl at ↦ inr (sym (some_inj.0 (rw at at tk)) ∙ sees j v bj nj (rw nj at tj))
        | inr nk ↦ inv.cross j k v w bj bk ne (rw nj at tj) (rw nk at tk)
      ]
    ]

emptied :
    (i : ℕ) (b : List (ℕ × ℕ)) (m : ℕ)
    → ((b ≡ (flag i, 1) ∷ []) ⊎ ((b ≡ []) × (m ≡ 1)))
    → b ≡ []
    → (b ≡ []) × (m ≡ 1)
emptied i b m (inl h) e = cc
emptied i b m (inr h) e = h

pub reach-Inv : {s : Round} → Reach true s → Inv s
reach-Inv Reach.begin = record { local = λ j h. refl; cross = λ j k v w bj bk ne tj tk. cc tj }
reach-Inv (Reach.next {s} reach (Step.store_flag i below was)) =
    let inv = reach-Inv reach in
    moved_Inv s inv i Task.begun Task.stored ((flag i, 1) ∷ s.buffers i) was
      (inl (ap (λ (b : List (ℕ × ℕ)). (flag i, 1) ∷ b) (at_task s i Task.begun below was inv))) refl
reach-Inv (Reach.next {s} reach (Step.mrwbarrier i below was empty)) =
    let inv = reach-Inv reach in
    moved_Inv s inv i Task.stored Task.fenced (s.buffers i) was
      (emptied i (s.buffers i) (s.memory (flag i)) (at_task s i Task.stored below was inv)
        (empty refl))
      refl
reach-Inv (Reach.next {s} reach (Step.load_flag i below was)) =
    load_Inv s i below was (reach-Inv reach)
reach-Inv (Reach.next {s} reach (Step.store_result i value below was)) =
    let inv = reach-Inv reach in
    let here = at_task s i (Task.loaded value) below was inv in
    moved_Inv s inv i (Task.loaded value) (Task.finished value) ((result i, value) ∷ s.buffers i)
      was (here.1, inl (ap (λ (b : List (ℕ × ℕ)). (result i, value) ∷ b) here.0)) refl
reach-Inv (Reach.next {s} reach (Step.drain i var value newer below e)) =
    drain_Inv s i var value newer below e (reach-Inv reach)
