-- ===== src/Server/Login.antt =====
-- `user_login` and `user_logout` of src/IMServer.c: a client's name, and the notice that the other
-- clients get when it comes and when it leaves.
pub mod Notice
pub mod Leaving
pub mod Logout
use cosc402_assignment.Base.{
  ℕ, ◌+◌, Bool, Option, none, some, List, [], ◌∷◌, ◌++◌, ◌==◌, if◌then◌else◌,
}
use cosc402_assignment.Base.Lists.{length, drop}
use cosc402_assignment.Base.Strings.{c_string, cut_at_newline}
use cosc402_assignment.Base.Outcome.{Outcome, done, fault, out_of_fuel, ◌>>=◌}
use cosc402_assignment.Base.Words.{to_int, int_add}
use cosc402_assignment.Cache.{Cache, Pool, get_new_cache, recycle_cache}
use cosc402_assignment.Buffer.Node.{Mem}
use cosc402_assignment.ClientInfo.{ClientData, update_client_name, release_client_info}
use cosc402_assignment.Message.{
  Msg, Alloc, cmd_to_all, strcpy, with_exclude, create_sys_msg_base_on_content,
}
use cosc402_assignment.Server.{ServerInfo, Delivery, deliver_msg_to_all_clients, remove_client}

-- What the environment gives to the handling of one line: the answers to the allocations of a message
-- and of the client list, and the bytes that lie in memory behind the line's block, up to a 0.
pub record Surroundings : Type 0 where
  pub alloc : Alloc
  pub list_granted : Bool
  pub behind : List ℕ

-- "is online now", "has logged out"
abbrev pub msg_login_suffix : List ℕ
msg_login_suffix =
    b'i' ∷ b's' ∷ b' ' ∷ b'o' ∷ b'n' ∷ b'l' ∷ b'i' ∷ b'n' ∷ b'e' ∷ b' ' ∷ b'n' ∷ b'o' ∷ b'w' ∷ []

abbrev pub msg_logout_suffix : List ℕ
msg_logout_suffix =
    b'h' ∷ b'a' ∷ b's' ∷ b' ' ∷ b'l' ∷ b'o' ∷ b'g' ∷ b'g' ∷ b'e' ∷ b'd' ∷ b' ' ∷ b'o' ∷ b'u' ∷ b't'
    ∷ []

-- The string that begins at `msg + k`, where `msg` points to the block of the line.
abbrev pub string_at : ℕ → List ℕ → List ℕ → List ℕ
string_at k msg behind = c_string (drop k (msg ++ behind))

-- The block with the text of a notice, and the message made of it.
pub record Note : Type 0 where
  pub cache : Cache
  pub message : Option Msg

-- `strcpy(message->exclude, info->name)`
abbrev pub excluding : List ℕ → Option Msg → Outcome (Option Msg)
excluding name none = done none
excluding name (some msg) = with_exclude name msg >>= (λ m. done (some m))

-- `sprintf(cache->buff, "%s " SUFFIX, info->name)` and the message to all.
abbrev pub notice : Alloc → List ℕ → List ℕ → Cache → Outcome Note
notice a name suffix c = strcpy c.buff (name ++ (32 ∷ suffix)) >>= (λ buff.
    create_sys_msg_base_on_content a (some cmd_to_all) (c_string buff)
    >>= excluding name
    >>= (λ m. done (record { cache = record c { buff = buff }; message = m })))

abbrev pub notice_size : List ℕ → List ℕ → ℕ
notice_size name suffix = to_int (length name + length suffix + 2)

-- What a line makes of its sender, and the message that is to be delivered.
pub record Redirect : Type 0 where
  pub client : ClientData
  pub message : Option Msg
  pub pool : Pool

abbrev pub login_with : Alloc → ClientData → Option Cache × Pool → Outcome Redirect
login_with a c (none, p) = done (record { client = c; message = none; pool = p })
login_with a c (some k, p) =
    notice a (c_string c.name) msg_login_suffix k
    >>= (λ n. done (record { client = c; message = n.message; pool = (recycle_cache n.cache p).1 }))

-- The newline in `msg` has been overwritten by a 0, so the name ends there.
unfoldable pub user_login : Surroundings → ClientData → List ℕ → Pool → Outcome Redirect
unfolding update_client_name create_sys_msg_base_on_content get_new_cache recycle_cache c_string
user_login e c msg p =
    let c' = update_client_name (some (cut_at_newline (string_at 7 msg e.behind))) c in
    login_with e.alloc c' (get_new_cache (notice_size (c_string c'.name) msg_login_suffix) p)

-- A message that was made is delivered.
abbrev pub deliver_made : Surroundings → ServerInfo → Mem → Option Msg → Outcome Delivery
deliver_made e server m none = done (record { clients = server.clients; mem = m; sent_count = 0 })
deliver_made e server m (some msg) = deliver_msg_to_all_clients e.list_granted server msg m

abbrev pub recycling : Cache → Delivery → Delivery
recycling c d = record d { mem = record (d.mem) { pool = (recycle_cache c d.mem.pool).1 } }

abbrev pub logout_with :
    Surroundings → ServerInfo → List ℕ → Mem → Option Cache × Pool → Outcome Delivery
logout_with e server name m (none, p) =
    done (record { clients = server.clients; mem = record m { pool = p }; sent_count = 0 })
logout_with e server name m (some k, p) = notice e.alloc name msg_logout_suffix k >>= (λ n.
    deliver_made e server (record m { pool = p }) n.message >>= (λ d. done (recycling n.cache d)))

-- `sign_to_flush_msg ++`, if something has been sent.
abbrev pub signalled : ℕ → ServerInfo → ServerInfo
signalled count server =
    if count == 0
    then server
    else record server { sign_to_flush_msg = int_add server.sign_to_flush_msg 1 }

-- The server, and the memory after the client has been released.
pub record State : Type 0 where
  pub server : ServerInfo
  pub mem : Mem

abbrev pub logged_out : ServerInfo → ClientData → Delivery → State
logged_out server c d = record {
  server = signalled d.sent_count (record server { clients = d.clients });
  mem = record (d.mem) { pool = release_client_info c d.mem.pool };
}

unfoldable pub user_logout : Surroundings → ServerInfo → ClientData → Mem → Outcome State
unfolding remove_client create_sys_msg_base_on_content get_new_cache recycle_cache c_string
    deliver_msg_to_all_clients release_client_info
user_logout e server c m =
    let server' = remove_client c.socket_id server in
    let name = c_string c.name in
    logout_with e server' name m (get_new_cache (notice_size name msg_logout_suffix) m.pool)
    >>= (λ d. done (logged_out server' c d))
