-- ===== src/Programs/Ports/Opening.antt =====
-- The sockets that multi_server_thread_Listening_on_multiple_ports.c opens, one for each port.
use os_study.Prelude.{
  ℕ, zero, suc, ◌+◌, ◌-◌, ◌≤◌, ◌≡◌, ◌↔◌, refl, sym, ap, ap₂, ◌∙◌, arith, Bool, false, Option, none,
  some, List, [], ◌∷◌, ◌++◌, append_assoc, length, length-append, leb, ltb, codes, Bool-cases,
  Option-cases, inl, inr,
}
use os_study.Server.World.{World, Text}
use os_study.Queue.{State, queue_init}
use os_study.Programs.Accept.{End}
use os_study.Programs.Startup.{Booting, fresh_stats, create_statistics}
use os_study.Programs.Ports.{
  Calls, Prepared, create_server_socket, minus_one, set_sock, opens, filled, main,
}

-- No call for the `k` arguments from `i` on fails.
abbrev pub Opened : Calls → ℕ → ℕ → Type 0
Opened calls zero i = Unit
Opened calls (suc k) i = (create_server_socket (calls i).0 ≡ none) × Opened calls k (i + 1)

-- Their sockets.
abbrev pub sockets : Calls → ℕ → ℕ → List ℕ
sockets calls zero i = []
sockets calls (suc k) i = (calls i).1 ∷ sockets calls k (i + 1)

set_sock-append :
    (front : List ℕ) (x y : ℕ) (back : List ℕ)
    → set_sock (length front) x (front ++ y ∷ back) ≡ some (front ++ x ∷ back)
unfolding set_sock
set_sock-append [] x y back = refl
set_sock-append (z ∷ front) x y back = rw (set_sock-append front x y back) refl

length-filled : (n : ℕ) → length (filled n) ≡ n
length-filled zero = refl
length-filled (suc n) = ap suc (length-filled n)

-- What the loop leaves, with `m` places of `servSocks` behind `front` still -1.
record Left (calls : Calls) (k i m : ℕ) (front : List ℕ) : Type 0 where
  failed : Option Text
  serv_socks : List ℕ
  run : opens calls k i (length front) (front ++ filled m) ≡ some (failed, serv_socks)
  places : length serv_socks ≡ 32
  opened : (failed ≡ none) ↔ ((i + k ≤ 32) × Opened calls k i)
  held : failed ≡ none → serv_socks ≡ front ++ (sockets calls k i ++ filled (m - k))

full : (front : List ℕ) (m : ℕ) → length front + m ≡ 32 → length (front ++ filled m) ≡ 32
full front m h = length-append {0} front (filled m) ∙ (omega (arith, length-filled m, h))

length_snoc :
    {i : ℕ} (front : List ℕ) (x : ℕ) → i ≡ length front + 1 → i + 1 ≡ length (front ++ x ∷ []) + 1
length_snoc front x at = omega (arith, at, length-append {0} front (x ∷ []))

one_less : (m k : ℕ) → m - k ≡ suc m - suc k
one_less m k = omega arith

below : (i : ℕ) → leb 32 i ≡ false → i + 1 ≤ 32
below i e = ground arith

module _ (calls : Calls) where
  step :
      (k i m : ℕ) (front : List ℕ)
      → i ≡ length front + 1
      → length front + suc m ≡ 32
      → leb 32 i ≡ false
      → create_server_socket (calls i).0 ≡ none
      → Left calls k (i + 1) m (front ++ (calls i).1 ∷ [])
      → Left calls (suc k) i (suc m) front
  unfolding opens
  step k i m front at room few fine left =
      let x = (calls i).1 in
      let moved =
        ap₂ (λ n l. opens calls k (i + 1) n l) (sym (length-append {0} front (x ∷ [])))
          (sym (append_assoc front (x ∷ []) (filled m)))
        ∙ left.run in
      let behind = append_assoc front (x ∷ []) (sockets calls k (i + 1) ++ filled (m - k)) in
      let more = ap (λ n. front ++ (x ∷ (sockets calls k (i + 1) ++ filled n))) (one_less m k) in
      record {
        failed = left.failed;
        serv_socks = left.serv_socks;
        run = rw (few, fine, set_sock-append front x minus_one (filled m)) moved;
        places = left.places;
        opened = (
          λ e. let (bound, opened) = left.opened.0 e in (omega (arith, bound), (fine, opened)),
          λ h. left.opened.1 (omega (arith, h.0), h.1.1),
        );
        held = λ e. left.held e ∙ behind ∙ more;
      }

  opens_left :
      (k i m : ℕ) (front : List ℕ)
      → i ≡ length front + 1
      → length front + m ≡ 32
      → i ≤ 32
      → Left calls k i m front
  unfolding opens
  opens_left zero i m front at room few = record {
    failed = none;
    serv_socks = front ++ filled m;
    run = refl;
    places = full front m room;
    opened = (λ _. (omega (arith, few), tt), λ _. refl);
    held = λ _. ap (λ n. front ++ filled n) (omega arith);
  }
  opens_left (suc k) i zero front at room few = absurd (omega (arith, at, room, few))
  opens_left (suc k) i (suc m) front at room few = elim (Bool-cases (leb 32 i)) [
    | inl last ↦ record {
      failed = some (codes "Too many listening sockets");
      serv_socks = front ++ filled (suc m);
      run = rw last refl;
      places = full front (suc m) room;
      opened = (λ e. cc, λ h. absurd (ground (arith, last, h.0)));
      held = λ e. cc;
    }
    | inr before ↦ elim (Option-cases (create_server_socket (calls i).0)) [
      | inr (text, failed) ↦ record {
        failed = some text;
        serv_socks = front ++ filled (suc m);
        run = rw (before, failed) refl;
        places = full front (suc m) room;
        opened = (λ e. cc, λ h. cc);
        held = λ e. cc;
      }
      | inl fine ↦ step k i m front at room before fine (
          opens_left k (i + 1) m (front ++ (calls i).1 ∷ []) (length_snoc front (calls i).1 at)
            (omega (arith, length-append {0} front ((calls i).1 ∷ []), room)) (below i before))
    ]
  ]

-- What `main` needs to start the threads.
abbrev pub Starts : ℕ → Booting → Bool → Calls → Type 0
Starts argc b chdir_failed calls =
    (3 ≤ argc)
    × (argc ≤ 33)
    × (create_statistics b ≡ none)
    × (chdir_failed ≡ false)
    × Opened calls (argc - 2) 1

-- `servSocks` then: the sockets of the ports in the order of the arguments, and -1 behind them.
abbrev pub servers : ℕ → Calls → List ℕ
servers argc calls = sockets calls (argc - 2) 1 ++ filled (34 - argc)

enough_le : (argc : ℕ) → ltb argc 3 ≡ false → 3 ≤ argc
enough_le argc e = ground arith

some_ne : (text : Text) → ¬ (some text ≡ none)
some_ne text e = cc

-- The loop says what the whole of `main` needs.
module _ (argc : ℕ) (b : Booting) (chdir_failed : Bool) (calls : Calls) (w : World) (s : State)
    (enough : ltb argc 3 ≡ false) (created : create_statistics b ≡ none)
    (fine : chdir_failed ≡ false) (left : Left calls (argc - 2) 1 32 []) where
  starts : left.failed ≡ none → Starts argc b chdir_failed calls
  starts e =
      let (bound, opened) = left.opened.0 e in
      (enough_le argc enough, omega (arith, bound), created, fine, opened)

  opened_all : Starts argc b chdir_failed calls → left.failed ≡ none
  opened_all (least, most, _, _, opened) = left.opened.1 (omega (arith, least, most), opened)

  holds : Starts argc b chdir_failed calls → left.serv_socks ≡ servers argc calls
  holds h =
      left.held (opened_all h)
      ∙ ap (λ n. sockets calls (argc - 2) 1 ++ filled n) (omega (arith, h.0))

  run :
      (o : Option Text)
      → left.failed ≡ o
      → opens calls (argc - 2) 1 0 (filled 32) ≡ some (o, left.serv_socks)
  run o e = left.run ∙ ap (λ f. some (f, left.serv_socks)) e

  abbrev prepared : End → Prepared
  prepared ending = record {
    ending = ending;
    world = record w { stats = fresh_stats; sem = 1 };
    state = queue_init s;
    serv_socks = left.serv_socks;
  }

  started :
      Starts argc b chdir_failed calls
      → main argc b chdir_failed calls w s ≡ some (prepared End.waiting)
  unfolding main
  started h = rw (enough, created, fine, run none (opened_all h)) refl

  ends :
      (o : Option Text)
      → left.failed ≡ o
      → (p : Prepared) × (main argc b chdir_failed calls w s ≡ some p)
        × (length p.serv_socks ≡ 32)
        × ((p.ending ≡ End.waiting) ↔ Starts argc b chdir_failed calls)
  unfolding main
  ends none e = (
    prepared End.waiting,
    rw (enough, created, fine, run none e) refl,
    left.places,
    (λ _. starts e, λ _. refl),
  )
  ends (some text) e = (
    prepared (End.err_sys text),
    rw (enough, created, fine, run (some text) e) refl,
    left.places,
    (λ h. cc, λ h. absurd (some_ne text (sym e ∙ opened_all h))),
  )

-- `main` of this program writes to `servSocks`, which has 32 places, within its bounds, however many
-- arguments it has and whatever the calls of the system do. It starts its threads exactly if it has
-- from 3 to 33 arguments and no call before fails.
pub main-Starts :
    (argc : ℕ) (b : Booting) (chdir_failed : Bool) (calls : Calls) (w : World) (s : State)
    → (p : Prepared) × (main argc b chdir_failed calls w s ≡ some p)
      × (length p.serv_socks ≡ 32)
      × ((p.ending ≡ End.waiting) ↔ Starts argc b chdir_failed calls)
unfolding main
main-Starts argc b chdir_failed calls w s = elim (Bool-cases (ltb argc 3)) [
  | inl short ↦ rw short (_, refl, refl, (λ e. cc, λ h. absurd (ground (arith, short, h.0))))
  | inr enough ↦ elim (Option-cases (create_statistics b)) [
    | inr (text, failed) ↦ rw (enough, failed) (_, refl, refl, (λ e. cc, λ h. cc))
    | inl created ↦ elim (Bool-cases chdir_failed) [
      | inl failed ↦ rw (enough, created, failed) (_, refl, refl, (λ e. cc, λ h. cc))
      | inr fine ↦
          ends argc b chdir_failed calls w s enough created fine
            (opens_left calls (argc - 2) 1 32 [] refl refl (omega arith)) _ refl
    ]
  ]
]

long : (argc : ℕ) → 3 ≤ argc → ltb argc 3 ≡ false
long argc h = ground arith

-- What it leaves then.
pub main-holds :
    (argc : ℕ) (b : Booting) (calls : Calls) (w : World) (s : State)
    → Starts argc b false calls
    → (p : Prepared) × (main argc b false calls w s ≡ some p)
      × (p.ending ≡ End.waiting)
      × (p.serv_socks ≡ servers argc calls)
      × (p.state ≡ queue_init s)
main-holds argc b calls w s h =
    let enough = long argc h.0 in
    let left = opens_left calls (argc - 2) 1 32 [] refl refl (omega arith) in
    (
      prepared argc b false calls w s enough h.2 refl left End.waiting,
      started argc b false calls w s enough h.2 refl left h,
      refl,
      holds argc b false calls w s enough h.2 refl left h,
      refl,
    )
