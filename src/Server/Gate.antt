-- ===== src/Server/Gate.antt =====
-- src/server.rs: `handle_connection`, the task of one connection.
pub mod Laws
use mathlib.Core.Option
use spraycc.Base.{
  ℕ, ◌-◌, ◌%◌, Bool, true, false, ◌||◌, not, Option, none, some, List, [], ◌∷◌, ◌==◌, if◌then◌else◌,
}
use spraycc.Ipc.{Message}
use spraycc.Ipc.Message.{your_obedient_servant, task, dropped}

-- `access_code & !1u64`
abbrev pub clear_low_bit : ℕ → ℕ
clear_low_bit code = code - code % 2

-- Whether a message is replaced by `Dropped`.
unfoldable pub refused : ℕ → ℕ → Message → Bool
refused server_access_code user_private_key (your_obedient_servant access_code user_code) =
    not (clear_low_bit access_code == server_access_code) || not (user_code == user_private_key)
refused server_access_code user_private_key (task access_code user_code details) =
    not (access_code == server_access_code) || not (user_code == user_private_key)
refused server_access_code user_private_key _ = false

-- What one round of the loop meets: the outcome of a read, with whether the server's channel takes
-- the message that follows; or a message from the server, with whether the socket takes it. A read is
-- one step, which the other branch of `select!` does not break off. `undecodable` are bytes on which
-- `read_message` panics.
pub data Round : Type 0 where
  read : Message → Bool → Round
  closed read_error undecodable : Round
  outbound : Message → Bool → Round
  outbound_closed : Round

-- What goes to the server and to the socket, oldest first, and whether the task ends by an error
-- or a panic.
pub record Traffic : Type 0 where
  pub to_server : List Message
  pub to_socket : List Message
  pub error : Bool
  pub panicked : Bool

abbrev pub to_server_first : Message → Traffic → Traffic
to_server_first msg t = record t { to_server = msg ∷ t.to_server }

abbrev pub to_socket_first : Message → Traffic → Traffic
to_socket_first msg t = record t { to_socket = msg ∷ t.to_socket }

abbrev pub ends : List Message → Bool → Traffic
ends msgs e = record { to_server = msgs; to_socket = []; error = e; panicked = false }

abbrev pub dies : Traffic
dies = record { to_server = []; to_socket = []; error = false; panicked = true }

-- `none`: the rounds are used up before the connection ends.
unfoldable pub handle_connection : ℕ → ℕ → List Round → Option Traffic
unfolding refused
handle_connection code key [] = none
handle_connection code key (read msg true ∷ rounds) =
    Option.map (to_server_first (if refused code key msg then dropped else msg))
      (handle_connection code key rounds)
handle_connection code key (read msg false ∷ rounds) = some (ends [] true)
handle_connection code key (closed ∷ rounds) = some (ends (dropped ∷ []) false)
handle_connection code key (read_error ∷ rounds) = some (ends (dropped ∷ []) false)
handle_connection code key (undecodable ∷ rounds) = some dies
handle_connection code key (outbound msg true ∷ rounds) =
    Option.map (to_socket_first msg) (handle_connection code key rounds)
handle_connection code key (outbound msg false ∷ rounds) = some (ends [] true)
handle_connection code key (outbound_closed ∷ rounds) = some (ends (dropped ∷ []) false)
