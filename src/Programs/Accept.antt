-- ===== src/Programs/Accept.antt =====
-- How a program gets its connections: the calls that open the listening socket, and `accept`.
pub mod Loops
use os_study.Prelude.{ℕ, Bool, Option, none, some, List, [], ◌∷◌, codes, if◌then◌else◌}
use os_study.Server.World.{Text}

-- Which of the calls before `accept` fail.
pub record Setup : Type 0 where
  pub socket_failed : Bool
  pub setsockopt_failed : Bool
  pub bind_failed : Bool
  pub listen_failed : Bool

-- What an `accept` does: a connection, with what the model needs to know about it, or an error.
pub data Accepted (A : Type 0) : Type 0 where
  conn : A → Accepted A
  eintr : Accepted A
  failed : Accepted A

-- How a loop over `accept` ends: it waits for another connection, `err_sys` prints a text and exits
-- with -1, or the process exits with a status.
pub data End : Type 0 where
  waiting : End
  err_sys : Text → End
  exits : ℕ → End

-- The text of `err_sys`, where a call fails. `option` is the one that the program sets.
unfoldable pub listen_error : Text → Setup → Option Text
listen_error option s =
    if s.socket_failed
    then some (codes "call socket function error")
    else if s.setsockopt_failed
    then some option
    else if s.bind_failed
    then some (codes "bind socket fd error")
    else if s.listen_failed
    then some (codes "listen socket error")
    else none

abbrev pub reuseaddr_error : Text
reuseaddr_error = codes "setsockopt SO_REUSEADDR error"

abbrev pub reuseport_error : Text
reuseport_error = codes "setsockopt SO_REUSEPORT error"

abbrev pub accept_error : Text
accept_error = codes "socket accept error"

-- The connections that arrive before `accept` fails, and how the loop ends then.
abbrev pub arrived : {A : Type 0} → List (Accepted A) → List A
arrived [] = []
arrived (Accepted.conn a ∷ xs) = a ∷ arrived xs
arrived (Accepted.eintr ∷ xs) = arrived xs
arrived (Accepted.failed ∷ xs) = []

abbrev pub end_of : {A : Type 0} → List (Accepted A) → End
end_of [] = End.waiting
end_of (Accepted.conn a ∷ xs) = end_of xs
end_of (Accepted.eintr ∷ xs) = end_of xs
end_of (Accepted.failed ∷ xs) = End.err_sys accept_error
