-- ===== src/Server/Listening.antt =====
-- `init_server_info` and the loop of `handle_listen` of src/IMServer.c: the server begins without
-- clients, and every connection that is accepted becomes a client at the end of the list.
pub mod Newcomers
pub mod Rounds
use cosc402_assignment.Base.{
  ℕ, Bool, true, false, Option, none, some, List, [], ◌∷◌, ◌==◌, if◌then◌else◌,
}
use cosc402_assignment.Base.Outcome.{Outcome, done, fault, out_of_fuel, ◌>>=◌}
use cosc402_assignment.ClientInfo.{ClientData, Setup, new_client_info, c_type_c}
use cosc402_assignment.Message.{unknown_client}
use cosc402_assignment.Server.{ServerInfo, initial_server, add_client}

abbrev pub c_type_s : ℕ
c_type_s = 2

-- "IMServer"
abbrev pub server_tag : List ℕ
server_tag = b'I' ∷ b'M' ∷ b'S' ∷ b'e' ∷ b'r' ∷ b'v' ∷ b'e' ∷ b'r' ∷ []

-- What the environment answers: for the server's own client, its memory, the mutex and the condition.
pub record InitAnswers : Type 0 where
  pub setup : Setup
  pub server_granted : Bool
  pub mutex : Bool
  pub condition : Bool

abbrev pub init_with : InitAnswers → Option ClientData → Option (ServerInfo × ClientData)
init_with e none = none
init_with e (some info) =
    if e.server_granted
    then (if e.mutex then (if e.condition then some (initial_server, info) else none) else none)
    else none

-- The server and its field `info`; on an error all that was made is released.
unfoldable pub init_server_info : InitAnswers → ℕ → Outcome (Option (ServerInfo × ClientData))
unfolding new_client_info
init_server_info e socket_id =
    new_client_info e.setup socket_id (some server_tag) c_type_s >>= (λ o. done (init_with e o))

-- The answers of one round: the socket of `accept`, `none` for an error, those to the new client, the
-- memory for the node, and whether the threads can be created.
pub record Accepted : Type 0 where
  pub socket : Option ℕ
  pub setup : Setup
  pub node_granted : Bool
  pub reading_created : Bool
  pub writing_created : Bool

-- The listening thread: `has_threads` once the reading thread exists, and `goes_on` until a `break`.
pub record Listener : Type 0 where
  pub server : ServerInfo
  pub has_threads : Bool
  pub goes_on : Bool

abbrev pub with_threads : Accepted → Listener → Listener
with_threads e l =
    if l.has_threads
    then l
    else if e.reading_created
    then record l { has_threads = true; goes_on = e.writing_created }
    else record l { goes_on = false }

abbrev pub joined : Accepted → Listener → Option ClientData → Listener
joined e l none = l
joined e l (some c) =
    if e.node_granted then with_threads e (record l { server = add_client c l.server }) else l

abbrev pub accept_client : Accepted → Listener → Option ℕ → Outcome Listener
accept_client e l none = done l
accept_client e l (some client_id) =
    new_client_info e.setup client_id (some unknown_client) c_type_c >>= (λ o. done (joined e l o))

-- The loop is not left: `is_running` is still set, and no `break` was reached.
abbrev pub runs_on : Listener → Bool
runs_on l = if l.server.is_running == 0 then false else l.goes_on

-- The state after these rounds, or when the loop is left in one of them.
unfoldable pub listen_rounds : List Accepted → Listener → Outcome Listener
unfolding new_client_info add_client
listen_rounds [] l = done l
listen_rounds (e ∷ es) l =
    let next : Listener → Outcome Listener = listen_rounds es in
    if runs_on l then accept_client e l e.socket >>= next else done l

abbrev pub loop_end : Listener → Outcome Listener
loop_end l = if runs_on l then out_of_fuel else done l

-- The whole loop: it has no end as long as the rounds do not leave it.
unfoldable pub listen_loop : List Accepted → Listener → Outcome Listener
unfolding listen_rounds
listen_loop es l = listen_rounds es l >>= loop_end
