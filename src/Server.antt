-- ===== src/Server.antt =====
-- src/IMServer.c: the list of clients and the delivery of a message to them. A delivery is modelled as
-- it runs when no other thread changes the clients in the meantime; the pool of blocks that all
-- buffers share is passed from one client to the next.
pub mod Clients
pub mod Deliver
pub mod Receivers
pub mod Login
pub mod Handle
pub mod Writing
pub mod Reading
pub mod Listening
pub mod Relay
pub mod Threads
pub mod Main
use cosc402_assignment.Base.{
  ℕ, ◌+◌, Bool, true, false, Option, none, some, List, [], ◌∷◌, ◌++◌, leb, ◌==◌, ◌||◌,
  if◌then◌else◌,
}
use cosc402_assignment.Base.Lists.{length, take}
use cosc402_assignment.Base.Strings.{c_string}
use cosc402_assignment.Base.Outcome.{Outcome, done, fault, out_of_fuel, ◌>>=◌}
use cosc402_assignment.Base.Words.{int_add, int_sub, size_max}
use cosc402_assignment.Buffer.Node.{Mem}
use cosc402_assignment.ClientInfo.{ClientData, Answer, send_msg_to_client}
use cosc402_assignment.Message.{Msg, is_msg_to_all, filter_out, is_target}

-- `ServerInfo`, less the lock, the condition and the server's own client.
pub record ServerInfo : Type 0 where
  pub clients : List ClientData
  pub client_count : ℕ
  pub is_running : ℕ
  pub sign_to_flush_msg : ℕ

-- What `init_server_info` begins with.
abbrev pub initial_server : ServerInfo
initial_server = record { clients = []; client_count = 0; is_running = 1; sign_to_flush_msg = 0 }

-- What `handle_listen` does with a new client while it holds the lock.
unfoldable pub add_client : ClientData → ServerInfo → ServerInfo
add_client c server = record server {
  clients = server.clients ++ (c ∷ []);
  client_count = int_add server.client_count 1;
}

-- The list without the first client with the socket, if there is one.
abbrev pub keep_client : ClientData → Option (List ClientData) → Option (List ClientData)
keep_client c none = none
keep_client c (some cs) = some (c ∷ cs)

unfoldable pub remove_first : ℕ → List ClientData → Option (List ClientData)
remove_first socket_id [] = none
remove_first socket_id (c ∷ cs) =
    let rest = remove_first socket_id cs in
    if c.socket_id == socket_id then some cs else keep_client c rest

abbrev pub without_client : ServerInfo → Option (List ClientData) → ServerInfo
without_client server none = server
without_client server (some cs) = record server {
  clients = cs;
  client_count = int_sub server.client_count 1;
}

-- What `user_logout` does while it holds the lock.
unfoldable pub remove_client : ℕ → ServerInfo → ServerInfo
unfolding remove_first
remove_client socket_id server = without_client server (remove_first socket_id server.clients)

-- The array has `client_count` places and the loop fills one for each client of the list: with more
-- clients it writes behind the array, with fewer the array is read where nothing was written. Without
-- memory there is no array, and the number of clients is 0.
unfoldable pub get_client_list : Bool → ServerInfo → Outcome (List ClientData)
get_client_list granted server =
    if granted
    then (if length server.clients == server.client_count then done server.clients else fault)
    else done []

-- What one round of the loop leaves: the client, the memory, and `sent_count`.
pub record Round : Type 0 where
  pub client : ClientData
  pub mem : Mem
  pub sent_count : ℕ

abbrev pub sent_round : ℕ → Answer (List ℕ) → Round
sent_round sent_count a = record {
  client = a.client;
  mem = a.mem;
  sent_count = int_add sent_count 1;
}

-- `send_msg_to_client(info, msg->content, msg->size)`; what it returns is not looked at.
abbrev pub send_to : Msg → ClientData → Mem → ℕ → Outcome Round
send_to msg c m sent_count =
    if leb msg.size (length msg.content)
    then (send_msg_to_client c (take msg.size msg.content) m
        >>= (λ a. done (sent_round sent_count a)))
    else fault

-- `FAIL == info->pub`, where -1 is turned into an `unsigned long`.
abbrev pub is_leaving : ClientData → Bool
is_leaving c = size_max == c.pub_mark

-- The tests of the loop's body: the message goes to the client.
abbrev pub is_receiver : Msg → ClientData → Bool
is_receiver msg c =
    if is_leaving c
    then false
    else if filter_out msg (c_string c.name) == 0
    then false
    else (is_msg_to_all msg == 0) || (is_target msg (c_string c.name) == 0)

abbrev pub deliver_one : Msg → ClientData → Mem → ℕ → Outcome Round
deliver_one msg c m sent_count =
    if is_receiver msg c
    then send_to msg c m sent_count
    else done (record { client = c; mem = m; sent_count = sent_count })

pub record Delivery : Type 0 where
  pub clients : List ClientData
  pub mem : Mem
  pub sent_count : ℕ

abbrev pub put_client : ClientData → Delivery → Delivery
put_client c d = record d { clients = c ∷ d.clients }

unfoldable pub deliver_each : Msg → List ClientData → Mem → ℕ → Outcome Delivery
unfolding send_msg_to_client is_msg_to_all filter_out is_target c_string
deliver_each msg [] m sent_count = done (record { clients = []; mem = m; sent_count = sent_count })
deliver_each msg (c ∷ cs) m sent_count =
    deliver_one msg c m sent_count
    >>= (λ r. deliver_each msg cs r.mem r.sent_count >>= (λ d. done (put_client r.client d)))

abbrev pub kept_clients : Bool → ServerInfo → Delivery → Delivery
kept_clients granted server d = record d { clients = if granted then d.clients else server.clients }

-- `granted` is the answer of `malloc` to `get_client_list`.
unfoldable pub deliver_msg_to_all_clients : Bool → ServerInfo → Msg → Mem → Outcome Delivery
unfolding get_client_list deliver_each
deliver_msg_to_all_clients granted server msg m =
    get_client_list granted server
    >>= (λ cs. deliver_each msg cs m 0)
    >>= (λ d. done (kept_clients granted server d))
