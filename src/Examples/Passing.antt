-- ===== src/Examples/Passing.antt =====
-- Connections that are passed, with the constants of Linux.
use os_study.Prelude.{
  ℕ, ◌+◌, ◌-◌, Option, ◌≤◌, ◌≡◌, ◌≢◌, refl, ap, arith, Bool, true, false, leb, none, some, [], ◌∷◌,
  codes, take,
}
use os_study.Handover.{
  Cmsg, Message, Constants, Received, Arrival, Outcome, connection_message, send_connection,
  recv_connection,
}
use os_study.Handover.Passing.{RecvmsgLaws, interrupted, recv_connection-send, recv_connection-lost}

abbrev linux : Constants
linux = record { sol_socket = 1; scm_rights = 1; cmsg_len_int = 20; cmsg_space_int = 24 }

-- A control message with a descriptor becomes one with the number that the receiver has for it.
abbrev renumbered : Option Cmsg → Option Cmsg
renumbered none = none
renumbered (some c) = some (record c { cmsg_data = c.cmsg_data + 100 })

-- The control message where there is room, and the space that it takes.
abbrev kept : Bool → Message → Received
kept true m = record {
  bytes = take 64 m.bytes;
  control = renumbered m.control;
  controllen = elim m.control [ none ↦ 0 | some c ↦ 24 ];
}
kept false m = record { bytes = take 64 m.bytes; control = none; controllen = 0 }

abbrev recvmsg : ℕ → Message → Received
recvmsg n m = kept (leb 24 n) m

recvmsg-RecvmsgLaws : RecvmsgLaws linux (λ fd. fd) (λ fd. fd - 100) recvmsg
recvmsg-RecvmsgLaws = record {
  bytes = λ n m. kept_bytes (leb 24 n) m;
  installed = λ n fd. fd + 100;
  roomy = λ n fd h. ap (λ b. (kept b (connection_message linux fd)).control) (roomy_leb n h);
  same_file = λ n fd. omega arith;
  bare = λ n m h. kept_bare (leb 24 n) m h;
  cramped = λ m. (refl, refl);
}
  where
    kept_bytes : (b : Bool) (m : Message) → (kept b m).bytes ≡ take 64 m.bytes
    kept_bytes true m = refl
    kept_bytes false m = refl

    kept_bare :
        (b : Bool) (m : Message)
        → m.control ≡ none
        → ((kept b m).control ≡ none) × ((kept b m).controllen ≡ 0)
    kept_bare true m h = (rw h refl, rw h refl)
    kept_bare false m h = (refl, refl)

    roomy_leb : (n : ℕ) → 24 ≤ n → leb 24 n ≡ true
    roomy_leb n h = ground arith

abbrev noise : Message
noise = record { bytes = codes "hello"; control = none }

recv_connection-send_example :
    (send_connection linux (λ m. some 2) 9 ≡ none)
    × ((fd' : ℕ) × (recv_connection linux recvmsg
            (interrupted 2 (Arrival.message (connection_message linux 9) ∷ []))
          ≡ Outcome.connection fd')
        × (fd' - 100 ≡ 9))
recv_connection-send_example =
    recv_connection-send linux (λ fd. fd) (λ fd. fd - 100) recvmsg (λ m. some 2) 9 2 []
      recvmsg-RecvmsgLaws refl

recv_connection-lost_example :
    recv_connection linux recvmsg
      (Arrival.message noise ∷ Arrival.message (connection_message linux 9) ∷ [])
    ≢ Outcome.connection 109
recv_connection-lost_example =
    recv_connection-lost linux (λ fd. fd) (λ fd. fd - 100) recvmsg noise
      (Arrival.message (connection_message linux 9) ∷ []) 109 recvmsg-RecvmsgLaws refl
