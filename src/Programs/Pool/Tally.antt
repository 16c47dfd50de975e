-- ===== src/Programs/Pool/Tally.antt =====
-- The statistics as a function of the replies' codes, in whatever order they were counted.

use mathlib.Core.List.{Perm, Permᴰ}
use mathlib.Core.Logic.{∥∥₁_elim}
use mathlib.Core.Quot
use mathlib.Core.Quot.{Quot}
use os_study.Prelude.{
  ℕ, suc, ◌+◌, ◌/◌, ◌%◌, ◌^◌, ◌≡◌, refl, ap, ap₂, ◌∙◌, arith, List, [], ◌∷◌, ◌==◌, if◌then◌else◌,
  length,
}
use os_study.Server.World.{Stats}
use os_study.Server.Stats.{count_code}
use os_study.Programs.Pool.System.{Event, Pool, Reach, counted_in}
use os_study.Programs.Pool.Whole.{reach-answered}

-- How many codes are of the class `k`, as 2 for 200.
abbrev pub amount : ℕ → List ℕ → ℕ
amount k [] = 0
amount k (code ∷ codes) = (if code / 100 == k then 1 else 0) + amount k codes

-- The statistics behind replies with these codes: an `int` each, that wraps around.
abbrev pub totals : List ℕ → Stats
totals codes = record {
  requests = length codes % 2 ^ 32;
  code_2xx = amount 2 codes % 2 ^ 32;
  code_3xx = amount 3 codes % 2 ^ 32;
  code_4xx = amount 4 codes % 2 ^ 32;
  code_5xx = amount 5 codes % 2 ^ 32;
}

Stats-ext :
    (s t : Stats)
    → s.requests ≡ t.requests
    → s.code_2xx ≡ t.code_2xx
    → s.code_3xx ≡ t.code_3xx
    → s.code_4xx ≡ t.code_4xx
    → s.code_5xx ≡ t.code_5xx
    → s ≡ t
Stats-ext s t e e2 e3 e4 e5 = cc

totals-cons : (code : ℕ) (codes : List ℕ) → count_code code (totals codes) ≡ totals (code ∷ codes)
unfolding count_code
totals-cons code codes =
    Stats-ext _ _ (ground arith) (ground arith) (ground arith) (ground arith) (ground arith)

-- A permutation changes neither.
amount-Permᴰ : (k : ℕ) {xs ys : List ℕ} → Permᴰ xs ys → amount k xs ≡ amount k ys
amount-Permᴰ k Permᴰ.nil = refl
amount-Permᴰ k (Permᴰ.cons e p) =
    ap₂ (λ c n. (if c / 100 == k then 1 else 0) + n) e (amount-Permᴰ k p)
amount-Permᴰ k (Permᴰ.swap {l} e f) = rw (e, f) (omega arith)
amount-Permᴰ k (Permᴰ.trans p q) = amount-Permᴰ k p ∙ amount-Permᴰ k q

length-Permᴰ : {xs ys : List ℕ} → Permᴰ xs ys → length xs ≡ length ys
length-Permᴰ Permᴰ.nil = refl
length-Permᴰ (Permᴰ.cons e p) = ap suc (length-Permᴰ p)
length-Permᴰ (Permᴰ.swap e f) = refl
length-Permᴰ (Permᴰ.trans p q) = length-Permᴰ p ∙ length-Permᴰ q

Permᴰ-totals : {xs ys : List ℕ} → Permᴰ xs ys → totals xs ≡ totals ys
Permᴰ-totals {xs} {ys} p =
    Stats-ext _ _ (ap (λ n. n % 2 ^ 32) (length-Permᴰ p)) (same 2) (same 3) (same 4) (same 5)
  where
    same : (k : ℕ) → amount k xs % 2 ^ 32 ≡ amount k ys % 2 ^ 32
    same k = ap (λ n. n % 2 ^ 32) (amount-Permᴰ k p)

pub Stats-set : IsSet Stats
Stats-set = hlevel

pub totals-Perm : (xs ys : List ℕ) → Perm xs ys → totals xs ≡ totals ys
totals-Perm xs ys h = ∥∥₁_elim h (Stats-set _ _) Permᴰ-totals

-- Codes with no order.
abbrev pub Bag : Type 0
Bag = Quot (Perm {A = ℕ})

abbrev pub statistics_of : Bag → Stats
statistics_of = Quot.lift Stats-set totals totals-Perm

abbrev pub codes_of : List Event → List ℕ
codes_of [] = []
codes_of (Event.served i fd a ∷ before) = a.code ∷ codes_of before
codes_of (Event.alarmed i h ∷ before) = codes_of before

counted_in-totals : (events : List Event) → counted_in events ≡ totals (codes_of events)
counted_in-totals [] = refl
counted_in-totals (Event.served i fd a ∷ before) =
    ap (count_code a.code) (counted_in-totals before) ∙ totals-cons a.code (codes_of before)
counted_in-totals (Event.alarmed i h ∷ before) = counted_in-totals before

-- In every reachable state of the pool, whichever processes have served which clients in whatever
-- order, the statistics are a function of the codes of the answers with no order: `requests` is the
-- number of all the codes, and each of the others the number of those of its class, modulo 2 ^ 32.
-- No request line overruns recv_buffer, every client stays until its answer is sent, and the texts of the
-- system fit.
pub reach-tallied : {s : Pool} → Reach s → s.stats ≡ statistics_of (Quot.mk (codes_of s.events))
reach-tallied {s} reach = (reach-answered reach).1 ∙ counted_in-totals s.events
