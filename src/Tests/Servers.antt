-- ===== src/Tests/Servers.antt =====
-- The theorems on the server's list of clients, applied to a server with two clients.
use cosc402_assignment.Base.{◌≡◌, refl, true, false, [], ◌∷◌, ◌++◌, arith}
use cosc402_assignment.Base.Lists.{replicate}
use cosc402_assignment.Base.Outcome.{done, Returns}
use cosc402_assignment.Cache.{initial_pool}
use cosc402_assignment.Cache.Invariant.{initial_pool-IsValid}
use cosc402_assignment.Cache.Ownership.{Owns}
use cosc402_assignment.Buffer.Node.{Mem}
use cosc402_assignment.ClientInfo.{ClientData, zero_data}
use cosc402_assignment.Message.{Msg, cmd_to_all, is_msg_to_all, filter_out, is_target}
use cosc402_assignment.Server.{
  ServerInfo, initial_server, add_client, remove_client, get_client_list,
  deliver_msg_to_all_clients, is_receiver,
}
use cosc402_assignment.Server.Receivers.{IsReceiver, is_receiver_iff}
use cosc402_assignment.Base.Strings.{c_string}
use cosc402_assignment.Server.Clients.{initial, joins, leaves, get_client_list_reachable}
use cosc402_assignment.Server.Deliver.{Delivers, and_clients, deliver_msg_to_all_clients-Delivers}

-- "a" and "b"
abbrev client_a : ClientData
client_a = record zero_data { socket_id = 4; name = 97 ∷ replicate 29 0 }

abbrev client_b : ClientData
client_b = record zero_data { socket_id = 5; name = 98 ∷ replicate 29 0 }

abbrev pair_server : ServerInfo
pair_server = record initial_server { clients = client_a ∷ client_b ∷ []; client_count = 2 }

-- To all but "a".
abbrev to_all : Msg
to_all = record {
  target = cmd_to_all ++ replicate 23 0;
  exclude = 97 ∷ replicate 29 0;
  size = 3;
  content = 104 ∷ 105 ∷ 10 ∷ 0 ∷ [];
}

abbrev memory : Mem
memory = record { answers = []; pool = initial_pool [] }

memory-Owns : Owns memory.pool (and_clients pair_server.clients (λ a. 0))
memory-Owns = record {
  valid = initial_pool-IsValid [];
  once = λ a. omega arith;
  known = λ a pos. absurd (omega arith);
  all = λ a pos below. absurd (omega arith);
}

deliver_msg_to_all_clients-Delivers_example :
    Returns
      (Delivers to_all pair_server.clients (λ a. 0) 0)
      (deliver_msg_to_all_clients true pair_server to_all memory)
deliver_msg_to_all_clients-Delivers_example =
    deliver_msg_to_all_clients-Delivers to_all (omega arith) (omega arith) pair_server memory
      (λ a. 0) (tt, (tt, tt)) memory-Owns refl refl (omega arith)

get_client_list_reachable_example :
    get_client_list true
      (remove_client 4 (add_client client_b (add_client client_a initial_server)))
    ≡ done (client_b ∷ [])
unfolding add_client remove_client
get_client_list_reachable_example =
    get_client_list_reachable (leaves 4 (joins client_b (joins client_a initial))) (omega arith)

is_receiver_iff_example :
    (is_receiver to_all client_b ≡ true → IsReceiver to_all client_b)
    × (IsReceiver to_all client_b → is_receiver to_all client_b ≡ true)
is_receiver_iff_example = is_receiver_iff to_all client_b

-- "b" gets the message, "a" does not.
receivers_run : (is_receiver to_all client_b ≡ true) × (is_receiver to_all client_a ≡ false)
unfolding is_msg_to_all filter_out is_target c_string
receivers_run = (refl, refl)
