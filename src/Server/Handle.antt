-- ===== src/Server/Handle.antt =====
-- `try_to_handle_msg` of src/IMServer.c: the lines that a client has sent are taken from its reading
-- buffer, parsed, and turned into messages to the clients. The client is named by its place in the
-- server's list, since both hold a pointer to it.
pub mod Commands
pub mod Room
pub mod Healthy
pub mod Rest
pub mod Lines
pub mod OneNode
pub mod Fetching
pub mod Loop
use cosc402_assignment.Base.{
  ℕ, zero, suc, ◌+◌, ◌-◌, Bool, true, false, Option, none, some, List, [], ◌∷◌, ◌++◌, ltb, ◌==◌,
  if◌then◌else◌,
}
use cosc402_assignment.Base.Lists.{length, drop, take, get_elem?, set}
use cosc402_assignment.Base.Strings.{c_string, cut_at_newline, starts_with, first_of}
use cosc402_assignment.Base.Outcome.{Outcome, done, fault, out_of_fuel, ◌>>=◌}
use cosc402_assignment.Base.Words.{to_int, int_add, int_sub}
use cosc402_assignment.Cache.{Cache, Pool, get_new_cache, recycle_cache}
use cosc402_assignment.Buffer.Node.{Mem, store_at, contents}
use cosc402_assignment.ClientInfo.{ClientData, Fetched, fetch_msg_from_client}
use cosc402_assignment.Message.{Msg, cmd_to_all, create_p2p_msg_base_on_content}
use cosc402_assignment.Server.{ServerInfo, Delivery, deliver_msg_to_all_clients}
use cosc402_assignment.Server.Login.{
  Surroundings, Redirect, string_at, user_login, deliver_made, signalled, State,
}

-- "LOGIN: ", "TO-C-"
abbrev pub cmd_login : List ℕ
cmd_login = b'L' ∷ b'O' ∷ b'G' ∷ b'I' ∷ b'N' ∷ b':' ∷ b' ' ∷ []

abbrev pub cmd_to_c : List ℕ
cmd_to_c = b'T' ∷ b'O' ∷ b'-' ∷ b'C' ∷ b'-' ∷ []

abbrev pub ignored : ClientData → Pool → Redirect
ignored c p = record { client = c; message = none; pool = p }

abbrev pub redirected : ClientData → Pool → Option Msg → Redirect
redirected c p m = record { client = c; message = m; pool = p }

-- `strncpy` into the block; the name is what the block then holds as a string.
abbrev pub to_c_stored :
    Surroundings → ClientData → List ℕ → Cache → Pool → Option (List ℕ) → Outcome Redirect
to_c_stored e c content k p none = fault
to_c_stored e c content k p (some buff) =
    create_p2p_msg_base_on_content e.alloc (c_string c.name) (some (c_string buff)) content
    >>= (λ m. done (redirected c (recycle_cache (record k { buff = buff }) p).1 m))

abbrev pub to_c_with :
    Surroundings → ClientData → List ℕ → List ℕ → Option Cache × Pool → Outcome Redirect
to_c_with e c target content (none, p) = done (ignored c p)
to_c_with e c target content (some k, p) = to_c_stored e c content k p (store_at k.buff 0 target)

-- A line TO-C-name: text, with the place of its `:`.
abbrev pub to_c_at : Surroundings → ClientData → List ℕ → Pool → Option ℕ → Outcome Redirect
to_c_at e c msg p none = done (ignored c p)
to_c_at e c msg p (some indicator) =
    let target_name_size = int_sub (to_int indicator) 5 in
    to_c_with e c (take target_name_size (string_at 5 msg e.behind))
      (string_at (indicator + 2) msg e.behind) (get_new_cache target_name_size p)

-- The three kinds of lines; `strstr(msg, CMD) == msg` is that the string begins with CMD.
unfoldable pub parse_line : Surroundings → ClientData → List ℕ → Pool → Outcome Redirect
unfolding user_login create_p2p_msg_base_on_content get_new_cache recycle_cache first_of c_string
parse_line e c msg p =
    let s = string_at 0 msg e.behind in
    if starts_with cmd_login s
    then user_login e c msg p
    else if starts_with cmd_to_all s
    then (create_p2p_msg_base_on_content e.alloc (c_string c.name) (some cmd_to_all)
          (string_at 8 msg e.behind)
        >>= (λ m. done (redirected c p m)))
    else if starts_with cmd_to_c s
    then to_c_at e c msg p (first_of b':' s)
    else done (ignored c p)

-- One round of the loop: the state, and the number of clients that a message went to.
pub record Handled : Type 0 where
  pub state : State
  pub sent_count : ℕ

abbrev pub with_client : ServerInfo → ℕ → ClientData → ServerInfo
with_client server place c = record server { clients = set server.clients place c }

abbrev pub after_delivery : ServerInfo → Delivery → Handled
after_delivery server d = record {
  state = record { server = record server { clients = d.clients }; mem = d.mem };
  sent_count = d.sent_count;
}

-- The body of the loop, for the line `msg` that the client has sent.
unfoldable pub handle_line :
    Surroundings → ServerInfo → ℕ → ClientData → List ℕ → Mem → Outcome Handled
unfolding parse_line deliver_msg_to_all_clients
handle_line e server place c msg m = parse_line e c msg m.pool >>= (λ r.
    let server' = with_client server place r.client in
    deliver_made e server' (record m { pool = r.pool }) r.message
    >>= (λ d. done (after_delivery server' d)))

abbrev pub handle_fetched :
    (ℕ → State → Outcome State) → Surroundings → ℕ → State → ℕ → Fetched → Outcome State
handle_fetched next e place s need_to_flush_msg f =
    let server = with_client s.server place f.client in
    let m = record (s.mem) { pool = f.pool } in
    if ltb 0 f.ret
    then (handle_line e server place f.client f.msg m
        >>= (λ h. next (int_add need_to_flush_msg h.sent_count) h.state))
    else done (record { server = signalled need_to_flush_msg server; mem = m })

abbrev pub handle_client :
    (ℕ → State → Outcome State) → Surroundings → ℕ → State → ℕ → Option ClientData → Outcome State
handle_client next e place s need_to_flush_msg none = fault
handle_client next e place s need_to_flush_msg (some c) =
    fetch_msg_from_client c s.mem.pool >>= handle_fetched next e place s need_to_flush_msg

-- The `while` loop; round `n` is given the surroundings `es n`.
unfoldable pub handle_loop : ℕ → (ℕ → Surroundings) → ℕ → ℕ → State → Outcome State
unfolding fetch_msg_from_client handle_line
handle_loop zero es place need_to_flush_msg s = out_of_fuel
handle_loop (suc fuel) es place need_to_flush_msg s =
    handle_client (handle_loop fuel (λ n. es (suc n)) place) (es 0) place s need_to_flush_msg
      (get_elem? s.server.clients place)

abbrev pub waiting : Option ClientData → ℕ
waiting none = 0
waiting (some c) = length (contents c.reading_buffer)

-- Every round but the last takes at least one byte from the client's reading buffer.
unfoldable pub try_to_handle_msg : (ℕ → Surroundings) → ℕ → State → Outcome State
unfolding handle_loop
try_to_handle_msg es place s =
    handle_loop (suc (waiting (get_elem? s.server.clients place))) es place 0 s
