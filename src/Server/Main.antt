-- ===== src/Server/Main.antt =====
-- main and `release_server_info` of src/IMServer.c. The calls of the system on sockets and threads are
-- answered by the environment.
pub mod Ends
use cosc402_assignment.Base.{
  ℕ, Bool, true, false, Option, none, some, List, [], ◌∷◌, ◌==◌, if◌then◌else◌,
}
use cosc402_assignment.Base.Outcome.{Outcome, done, fault, out_of_fuel, ◌>>=◌}
use cosc402_assignment.Base.Words.{minus_one}
use cosc402_assignment.Cache.{Pool}
use cosc402_assignment.ClientInfo.{ClientData, release_client_info}
use cosc402_assignment.Net.{Parsers, SockAddr, get_addr_info_from_ip_and_port}
use cosc402_assignment.Server.{ServerInfo}
use cosc402_assignment.Server.Listening.{
  InitAnswers, init_server_info, Accepted, Listener, listen_loop,
}

-- What the environment answers. `initialise_cache_module` has no return statement, so what main
-- reads as its value is one of these; `left_pool` is the pool when all threads have ended.
pub record MainAnswers : Type 0 where
  pub parsers : Parsers
  pub socket : Option ℕ
  pub bound : Bool
  pub listens : Bool
  pub cache_answer : ℕ
  pub init : InitAnswers
  pub thread_created : Bool
  pub rounds : List Accepted
  pub left_pool : Pool

-- How the program ends: its status, whether the descriptor and the lock of cache.c are still there,
-- and the server and the pool that it has released, if it came so far.
pub record MainEnd : Type 0 where
  pub status : ℕ
  pub socket_open : Bool
  pub cache_ready : Bool
  pub served : Option ServerInfo
  pub pool : Option Pool

-- `err_sys` and `return -1`.
abbrev pub ends_with : ℕ → Bool → Bool → MainEnd
ends_with status socket_open cache_ready = record {
  status = status;
  socket_open = socket_open;
  cache_ready = cache_ready;
  served = none;
  pool = none;
}

-- The clients that are still in the list are not released.
unfoldable pub release_server_info : Option (ServerInfo × ClientData) → Pool → Pool
unfolding release_client_info
release_server_info none p = p
release_server_info (some (server, info)) p = release_client_info info p

-- The listening thread, from a server without threads. The joins wait for the other threads.
abbrev pub handle_listen : List Accepted → ServerInfo → Outcome ServerInfo
handle_listen rounds server =
    listen_loop rounds (record { server = server; has_threads = false; goes_on = true })
    >>= (λ l. done (record (l.server) { is_running = 0 }))

abbrev pub released : Pool → ClientData → ServerInfo → MainEnd
released p info server = record {
  status = 0;
  socket_open = false;
  cache_ready = false;
  served = some server;
  pool = some (release_server_info (some (server, info)) p);
}

-- From the answer of init_server_info on.
abbrev pub run_server : MainAnswers → Option (ServerInfo × ClientData) → Outcome MainEnd
run_server e none = done (ends_with 1 false false)
run_server e (some (server, info)) =
    if e.thread_created
    then (handle_listen e.rounds server >>= (λ server'. done (released e.left_pool info server')))
    else done (released e.left_pool info server)

abbrev pub with_socket : MainAnswers → Option ℕ → Outcome MainEnd
with_socket e none = done (ends_with 1 false false)
with_socket e (some listen_fd) =
    if e.bound
    then (if e.listens
        then (if e.cache_answer == 0
            then (init_server_info e.init listen_fd >>= run_server e)
            else done (ends_with 1 false true))
        else done (ends_with 1 false false))
    else done (ends_with 1 true false)

abbrev pub with_address : MainAnswers → ℕ × Option SockAddr → Outcome MainEnd
with_address e (ret, addr) =
    if ret == 0 then with_socket e e.socket else done (ends_with minus_one false false)

-- The arguments with the name of the program.
unfoldable pub server_main : MainAnswers → List (List ℕ) → Outcome MainEnd
unfolding release_server_info init_server_info listen_loop get_addr_info_from_ip_and_port
server_main e (program ∷ ip ∷ port ∷ others) =
    with_address e (get_addr_info_from_ip_and_port e.parsers ip port)
server_main e few_arguments = done (ends_with 1 false false)
