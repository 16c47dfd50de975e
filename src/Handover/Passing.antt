-- ===== src/Handover/Passing.antt =====
-- A connection that is passed arrives, unless a message without one came before it.
use os_study.Prelude.{
  ℕ, zero, suc, ◌≤◌, ◌≡◌, ◌≢◌, refl, sym, ap, ◌∙◌, arith, Bool, true, false, not, Option, none,
  some, List, [], ◌∷◌, take, if◌then◌else◌,
}
use os_study.Handover.{
  Message, Constants, Received, Arrival, Outcome, is_fd, connection_message, is_rights, descriptor,
  recv_loop, recv_connection, send_connection,
}

-- What recvmsg(2), cmsg(3) and unix(7) say, of a buffer of 64 bytes. A message of SCM_RIGHTS with one
-- descriptor arrives where there is room for it, with a descriptor of the receiver's, of whatever
-- number, for the open file that the sender's stands for. With no room, or where a message carries
-- no control data, none arrives, and `msg_controllen` is 0 then. `sent` and `got` are the open
-- files behind the descriptors of the two processes.
pub record RecvmsgLaws (k : Constants) (sent got : ℕ → ℕ) (recvmsg : ℕ → Message → Received)
    : Type 0 where
  pub bytes : (n : ℕ) (m : Message) → (recvmsg n m).bytes ≡ take 64 m.bytes
  pub installed : ℕ → ℕ → ℕ
  pub roomy :
      (n fd : ℕ)
      → k.cmsg_space_int ≤ n
      → (recvmsg n (connection_message k fd)).control
        ≡ (connection_message k (installed n fd)).control
  pub same_file : (n fd : ℕ) → got (installed n fd) ≡ sent fd
  pub bare :
      (n : ℕ) (m : Message)
      → m.control ≡ none
      → ((recvmsg n m).control ≡ none) × ((recvmsg n m).controllen ≡ 0)
  pub cramped : (m : Message) → ((recvmsg 0 m).control ≡ none) × ((recvmsg 0 m).controllen ≡ 0)

-- `n` interrupted calls in front.
abbrev pub interrupted : ℕ → List Arrival → List Arrival
interrupted zero arrivals = arrivals
interrupted (suc n) arrivals = Arrival.eintr ∷ interrupted n arrivals

is_rights-connection_message :
    (k : Constants) (fd : ℕ) → is_rights k (connection_message k fd).control ≡ true
unfolding is_rights
is_rights-connection_message k fd = ground arith

module _ (k : Constants) (sent got : ℕ → ℕ) (recvmsg : ℕ → Message → Received)
    (laws : RecvmsgLaws k sent got recvmsg) where
  received_at :
      (fd n : ℕ) (rest : List Arrival)
      → k.cmsg_space_int ≤ n
      → recv_loop k recvmsg (Arrival.message (connection_message k fd) ∷ rest) n
        ≡ Outcome.connection (laws.installed n fd)
  unfolding recv_loop is_fd
  received_at fd n rest h =
      let m = connection_message k fd in
      rw (laws.bytes n m, laws.roomy n fd h, is_rights-connection_message k (laws.installed n fd))
        refl

  recv_loop-interrupted :
      (i n : ℕ) (arrivals : List Arrival)
      → recv_loop k recvmsg (interrupted i arrivals) n ≡ recv_loop k recvmsg arrivals n
  unfolding recv_loop
  recv_loop-interrupted zero n arrivals = refl
  recv_loop-interrupted (suc i) n arrivals = recv_loop-interrupted i n arrivals

  untaken : (a b : Bool) (x y : Outcome) → b ≡ false → (if not a then y else if b then x else y) ≡ y
  untaken true b x y e = rw e refl
  untaken false b x y e = refl

  -- A message whose control message is no descriptor is passed over, whatever its bytes.
  passed_over :
      (m : Message) (rest : List Arrival) (n : ℕ)
      → (recvmsg n m).control ≡ none
      → (recvmsg n m).controllen ≡ 0
      → recv_loop k recvmsg (Arrival.message m ∷ rest) n ≡ recv_loop k recvmsg rest 0
  unfolding recv_loop is_rights
  passed_over m rest n none_left no_room =
      let r = recvmsg n m in
      untaken (is_fd r.bytes) (is_rights k r.control) (Outcome.connection (descriptor k r.control))
        (recv_loop k recvmsg rest r.controllen) (rw none_left refl)
      ∙ ap (recv_loop k recvmsg rest) no_room

  -- With no room for control data the loop returns no descriptor.
  never :
      (arrivals : List Arrival) (fd : ℕ) → recv_loop k recvmsg arrivals 0 ≢ Outcome.connection fd
  unfolding recv_loop
  never [] fd e = cc
  never (Arrival.message m ∷ rest) fd e =
      let (none_left, no_room) = laws.cramped m in
      never rest fd (sym (passed_over m rest 0 none_left no_room) ∙ e)
  never (Arrival.eintr ∷ rest) fd e = never rest fd e
  never (Arrival.failed ∷ rest) fd e = cc

-- Where sendmsg sends its two bytes sendConnection does not fail, and for what it sends
-- recvConnection returns a descriptor for the same open file, after any number of interrupted calls
-- and whatever comes behind.
pub recv_connection-send :
    (k : Constants) (sent got : ℕ → ℕ) (recvmsg : ℕ → Message → Received)
    (sendmsg : Message → Option ℕ) (fd i : ℕ) (rest : List Arrival)
    → RecvmsgLaws k sent got recvmsg
    → sendmsg (connection_message k fd) ≡ some 2
    → (send_connection k sendmsg fd ≡ none)
      × ((fd' : ℕ) × (recv_connection k recvmsg
              (interrupted i (Arrival.message (connection_message k fd) ∷ rest))
            ≡ Outcome.connection fd')
          × (got fd' ≡ sent fd))
unfolding recv_connection send_connection
recv_connection-send k sent got recvmsg sendmsg fd i rest laws passed = (
  rw (passed, send_connection) refl,
  (
    laws.installed k.cmsg_space_int fd,
    recv_loop-interrupted k sent got recvmsg laws i k.cmsg_space_int
          (Arrival.message (connection_message k fd) ∷ rest)
        ∙ received_at k sent got recvmsg laws fd k.cmsg_space_int rest (omega arith),
    laws.same_file k.cmsg_space_int fd,
  ),
)

-- After a message that carries no control data recvConnection never returns a connection, whatever
-- arrives: `msg_controllen` is 0 from then on.
pub recv_connection-lost :
    (k : Constants) (sent got : ℕ → ℕ) (recvmsg : ℕ → Message → Received) (m : Message)
    (rest : List Arrival) (fd : ℕ)
    → RecvmsgLaws k sent got recvmsg
    → m.control ≡ none
    → recv_connection k recvmsg (Arrival.message m ∷ rest) ≢ Outcome.connection fd
unfolding recv_connection
recv_connection-lost k sent got recvmsg m rest fd laws plain e =
    let (none_left, no_room) = laws.bare k.cmsg_space_int m plain in
    never k sent got recvmsg laws rest fd
      (sym (passed_over k sent got recvmsg laws m rest k.cmsg_space_int none_left no_room) ∙ e)
