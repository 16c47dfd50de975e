-- ===== src/Handover.antt =====
-- multi_server/server.h: `sendConnection` and `recvConnection`, which pass a connection through a
-- UNIX domain socket. The constants of the system's headers and `recvmsg` are parameters.
pub mod Passing
use os_study.Prelude.{
  ℕ, Bool, false, not, ◌&&◌, Option, none, some, List, [], ◌∷◌, codes, ◌==◌, if◌then◌else◌,
}
use os_study.Server.World.{Text}

-- The first control message of a message.
pub record Cmsg : Type 0 where
  pub cmsg_len : ℕ
  pub cmsg_level : ℕ
  pub cmsg_type : ℕ
  pub cmsg_data : ℕ

pub record Message : Type 0 where
  pub bytes : Text
  pub control : Option Cmsg

-- SOL_SOCKET, SCM_RIGHTS, CMSG_LEN(sizeof(int)) and CMSG_SPACE(sizeof(int)).
pub record Constants : Type 0 where
  pub sol_socket : ℕ
  pub scm_rights : ℕ
  pub cmsg_len_int : ℕ
  pub cmsg_space_int : ℕ

-- A `recvmsg` that returns a message: the bytes in `buf`, the first control message, and
-- `msg_controllen` as it leaves it.
pub record Received : Type 0 where
  pub bytes : Text
  pub control : Option Cmsg
  pub controllen : ℕ

-- What comes on the socket.
pub data Arrival : Type 0 where
  message : Message → Arrival
  eintr : Arrival
  failed : Arrival

-- A descriptor; a wait for the next message; or `die`.
pub data Outcome : Type 0 where
  connection : ℕ → Outcome
  waiting : Outcome
  dies : Outcome

-- `n == 2 && buf[0] == 'F' && buf[1] == 'D'`
unfoldable pub is_fd : Text → Bool
is_fd (a ∷ b ∷ []) = a == b'F' && b == b'D'
is_fd _ = false

module _ (k : Constants) where
  -- What is sent for a connection.
  abbrev pub connection_message : ℕ → Message
  connection_message clntSock = record {
    bytes = codes "FD";
    control = some (record {
      cmsg_len = k.cmsg_len_int;
      cmsg_level = k.sol_socket;
      cmsg_type = k.scm_rights;
      cmsg_data = clntSock;
    });
  }

  -- `sendmsg` returns the number of bytes sent, or fails: the text of `err_sys`.
  unfoldable pub send_connection : (Message → Option ℕ) → ℕ → Option Text
  send_connection sendmsg clntSock = elim (sendmsg (connection_message clntSock)) [
    | none ↦ some (codes "Failed to send connection to child")
    | some n ↦ if n == 2 then none else some (codes "Failed to send connection to child")
  ]

  -- The tests on the control message.
  unfoldable pub is_rights : Option Cmsg → Bool
  is_rights none = false
  is_rights (some c) =
      c.cmsg_len == k.cmsg_len_int && (c.cmsg_level == k.sol_socket && c.cmsg_type == k.scm_rights)

  abbrev pub descriptor : Option Cmsg → ℕ
  descriptor none = 0
  descriptor (some c) = c.cmsg_data

  -- `recvmsg` takes `msg_controllen` as it stands: the loop never sets it again.
  module _ (recvmsg : ℕ → Message → Received) where
    unfoldable pub recv_loop : List Arrival → ℕ → Outcome
    unfolding is_fd is_rights
    recv_loop [] controllen = Outcome.waiting
    recv_loop (Arrival.message m ∷ rest) controllen =
        let r = recvmsg controllen m in
        let again = recv_loop rest r.controllen in
        if not (is_fd r.bytes)
        then again
        else if is_rights r.control
        then Outcome.connection (descriptor r.control)
        else again
    recv_loop (Arrival.eintr ∷ rest) controllen = recv_loop rest controllen
    recv_loop (Arrival.failed ∷ rest) controllen = Outcome.dies

    unfoldable pub recv_connection : List Arrival → Outcome
    unfolding recv_loop
    recv_connection arrivals = recv_loop arrivals k.cmsg_space_int
