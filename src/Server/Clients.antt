-- ===== src/Server/Clients.antt =====
-- The number of clients that the server keeps beside their list, over all logins and logouts.
use cosc402_assignment.Base.{
  ℕ, ◌+◌, ◌^◌, ◌<◌, ◌≡◌, refl, true, inl, inr, Option, none, some, List, [], ◌∷◌, arith, ◌==◌,
  Bool-cases,
}
use cosc402_assignment.Base.Lists.{length, length-append}
use cosc402_assignment.Base.Outcome.{done}
use cosc402_assignment.Base.Words.{to_int}
use cosc402_assignment.ClientInfo.{ClientData}
use cosc402_assignment.Server.{
  ServerInfo, initial_server, add_client, keep_client, remove_first, without_client, remove_client,
  get_client_list,
}

-- The states of the list: clients join and leave, each under the lock.
pub data IsReachable : ServerInfo → Type 0 where
  initial : IsReachable initial_server
  joins :
      (c : ClientData) {server : ServerInfo}
      → IsReachable server
      → IsReachable (add_client c server)
  leaves :
      (socket_id : ℕ) {server : ServerInfo}
      → IsReachable server
      → IsReachable (remove_client socket_id server)

abbrev IsCounted : ServerInfo → Type 0
IsCounted server = server.client_count ≡ to_int (length server.clients)

-- One client fewer, if one was found.
abbrev IsShorter : List ClientData → Option (List ClientData) → Type 0
IsShorter cs none = Unit {0}
IsShorter cs (some ds) = length cs ≡ 1 + length ds

keep_client-IsShorter :
    (c : ClientData) (cs : List ClientData) (o : Option (List ClientData))
    → IsShorter cs o
    → IsShorter (c ∷ cs) (keep_client c o)
keep_client-IsShorter c cs none h = tt
keep_client-IsShorter c cs (some ds) h = omega (arith, h)

remove_first-IsShorter :
    (socket_id : ℕ) (cs : List ClientData) → IsShorter cs (remove_first socket_id cs)
unfolding remove_first
remove_first-IsShorter socket_id [] = tt
remove_first-IsShorter socket_id (c ∷ cs) = elim (Bool-cases (c.socket_id == socket_id)) [
  | inl found ↦ rw found (omega arith)
  | inr other ↦
      rw other (
        keep_client-IsShorter c cs (remove_first socket_id cs)
          (remove_first-IsShorter socket_id cs))
]

without_client-IsCounted :
    (server : ServerInfo) (o : Option (List ClientData))
    → IsShorter server.clients o
    → IsCounted server
    → IsCounted (without_client server o)
without_client-IsCounted server none h e = e
without_client-IsCounted server (some ds) h e = omega (arith, h, e)

IsReachable-IsCounted : {server : ServerInfo} → IsReachable server → IsCounted server
unfolding add_client remove_client
IsReachable-IsCounted initial = refl
IsReachable-IsCounted (joins c {server} r) =
    omega (arith, IsReachable-IsCounted r, length-append server.clients (c ∷ []))
IsReachable-IsCounted (leaves socket_id {server} r) =
    without_client-IsCounted server (remove_first socket_id server.clients)
      (remove_first-IsShorter socket_id server.clients) (IsReachable-IsCounted r)

-- After any logins and logouts from the start, as long as there are less than 2 ^ 32 clients, the
-- number that the server keeps is right, so that get_client_list with memory for its array gives
-- all the clients and stays within the array.
pub get_client_list_reachable :
    {server : ServerInfo}
    → IsReachable server
    → length server.clients < 2 ^ 32
    → get_client_list true server ≡ done server.clients
unfolding get_client_list
get_client_list_reachable {server} r few =
    let same : (length server.clients == server.client_count) ≡ true =
      ground (arith, IsReachable-IsCounted r) in
    rw same refl
