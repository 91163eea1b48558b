-- ===== src/HttpServer/Listening.antt =====
-- `HttpServer::initListenSocket`: the system calls that it makes, in order.
pub mod Opened
use mini_server.Prelude.{
  ℕ, ◌%◌, ◌^◌, Bool, true, false, not, Option, none, some, List, [], ◌∷◌, ◌++◌, if◌then◌else◌,
}
use mini_server.Epoller.{set_nonblocking}

-- The calls on a descriptor.
pub data Call : Type 0 where
  creates : ℕ → Call
  reuses_address : ℕ → Call
  binds : ℕ → ℕ → Call
  listens : ℕ → ℕ → Call
  sets_flags : ℕ → ℕ → Call
  closes : ℕ → Call

-- What `socket`, `bind`, `listen` and `fcntl` answer.
pub record Network : Type 0 where
  pub socket : Option ℕ
  pub bound : Bool
  pub listening : Bool
  pub flags : Option ℕ
  pub flags_set : Bool

-- The result, `listenFd_`, and the calls. `none` is -1.
pub record Listening : Type 0 where
  pub ok : Bool
  pub listen_fd : Option ℕ
  pub calls : List Call

-- The cast to `uint16_t`.
abbrev pub port_number : ℕ → ℕ
port_number port = port % 2 ^ 16

-- The branches that close the socket again.
abbrev pub give_up : ℕ → List Call → Listening
give_up fd calls = record { ok = false; listen_fd = none; calls = calls ++ closes fd ∷ [] }

abbrev flag_calls : ℕ → Option ℕ → List Call
flag_calls fd none = []
flag_calls fd (some flags) = sets_flags fd flags ∷ []

-- From `set_nonblocking` on, for its result and the flags that it asks for.
abbrev after_listen : ℕ → List Call → Bool × Option ℕ → Listening
after_listen fd calls (ok, flags) =
    let done = calls ++ flag_calls fd flags in
    if ok then record { ok = true; listen_fd = some fd; calls = done } else give_up fd done

-- From `setsockopt` on.
unfoldable pub after_socket : ℕ → Network → ℕ → Listening
after_socket port net fd =
    let bound_calls = creates fd ∷ reuses_address fd ∷ binds fd (port_number port) ∷ [] in
    let listened = bound_calls ++ listens fd 128 ∷ [] in
    if not net.bound
    then give_up fd bound_calls
    else if not net.listening
    then give_up fd listened
    else after_listen fd listened (set_nonblocking net.flags net.flags_set)

unfoldable pub init_listen_socket : ℕ → Network → Listening
unfolding after_socket
init_listen_socket port net = elim net.socket [
  | none ↦ record { ok = false; listen_fd = none; calls = [] }
  | some fd ↦ after_socket port net fd
]

-- The descriptor, if it is not -1.
abbrev pub held : Option ℕ → List ℕ
held none = []
held (some fd) = fd ∷ []
