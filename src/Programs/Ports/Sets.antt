-- ===== src/Programs/Ports/Sets.antt =====
-- The sets of descriptors that `select` reads and writes.
use os_study.Prelude.{
  ℕ, ◌≡◌, refl, sym, ap, ◌∙◌, arith, true, false, ◌&&◌, ◌||◌, List, [], ◌∷◌, ◌==◌, Bool-cases, inl,
  inr, ==_iff,
}
use os_study.Programs.Ports.{FdSet, fd_isset, fd_set, is_negative, watch, select}

-- The sockets that are not negative are watched.
abbrev pub AllWatched : List ℕ → FdSet → Type 0
AllWatched socks fds =
    (x : ℕ) → fd_isset x socks ≡ true → is_negative x ≡ false → fd_isset x fds ≡ true

same_isset : (x y : ℕ) (fds : FdSet) → (x == y) ≡ true → fd_isset x fds ≡ fd_isset y fds
same_isset x y fds e = ap (λ z. fd_isset z fds) ((==_iff x y).0 e)

pub fd_set-isset :
    (x y : ℕ) (fds : FdSet) → fd_isset x (fd_set y fds) ≡ ((x == y) || fd_isset x fds)
unfolding fd_set
fd_set-isset x y fds = elim (Bool-cases (fd_isset y fds)) [
  | inl e ↦ elim (Bool-cases (x == y)) [
    | inl f ↦ rw (e, f) (same_isset x y fds f ∙ e)
    | inr f ↦ rw (e, f) refl
  ]
  | inr e ↦ rw e refl
]

pub select-isset :
    (x : ℕ) (ready fds : FdSet)
    → fd_isset x (select ready fds) ≡ (fd_isset x ready && fd_isset x fds)
unfolding select
select-isset x ready [] = ground arith
select-isset x ready (fd ∷ fds) =
    let rest = select-isset x ready fds in
    elim (Bool-cases (x == fd)) [
      | inl f ↦ elim (Bool-cases (fd_isset fd ready)) [
        | inl e ↦ rw (e, f, same_isset x fd ready f ∙ e) refl
        | inr e ↦ rw (e, f, rest, same_isset x fd ready f ∙ e) refl
      ]
      | inr f ↦ elim (Bool-cases (fd_isset fd ready)) [
        | inl e ↦ rw (e, f) rest
        | inr e ↦ rw (e, f) rest
      ]
    ]

watch-keeps :
    (x : ℕ) (socks : List ℕ) (fds : FdSet)
    → fd_isset x fds ≡ true
    → fd_isset x (watch socks fds) ≡ true
unfolding watch
watch-keeps x [] fds h = h
watch-keeps x (sock ∷ socks) fds h = elim (Bool-cases (is_negative sock)) [
  | inl e ↦ rw e (watch-keeps x socks fds h)
  | inr e ↦
      rw e (watch-keeps x socks (fd_set sock fds) (rw (fd_set-isset x sock fds, h) (ground arith)))
]

pub watch-AllWatched : (socks : List ℕ) (fds : FdSet) → AllWatched socks (watch socks fds)
unfolding watch
watch-AllWatched [] fds x h e = absurd (ground (arith, h))
watch-AllWatched (sock ∷ socks) fds x h e = elim (Bool-cases (x == sock)) [
  | inl f ↦
      rw (ap is_negative (sym ((==_iff x sock).0 f)) ∙ e)
        (watch-keeps x socks (fd_set sock fds) (rw (fd_set-isset x sock fds, f) refl))
  | inr f ↦ elim (Bool-cases (is_negative sock)) [
    | inl g ↦ rw g (watch-AllWatched socks fds x (ground (arith, f, h)) e)
    | inr g ↦ rw g (watch-AllWatched socks (fd_set sock fds) x (ground (arith, f, h)) e)
  ]
]
