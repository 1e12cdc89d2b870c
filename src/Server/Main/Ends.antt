-- ===== src/Server/Main/Ends.antt =====
-- How main of src/IMServer.c ends.
use cosc402_assignment.Base.{ℕ, ◌≡◌, ◌≢◌, true, false, Option, none, some, ◌==◌}
use cosc402_assignment.Base.Outcome.{Outcome, done, out_of_fuel}
use cosc402_assignment.Cache.{Pool}
use cosc402_assignment.Server.{ServerInfo, initial_server}
use cosc402_assignment.Server.Listening.Newcomers.{AllNewcomers, accepted_sockets, gives_up}
use cosc402_assignment.Server.Handle.Healthy.{socket_ids}
use cosc402_assignment.Server.Main.{MainAnswers, MainEnd}

-- The list when the server ends: the listening thread could not be created, or it was left since a
-- thread could not be, and then the connections up to there are in the list.
pub data Listened (e : MainAnswers) (server : ServerInfo) : Type 0 where
  not_started : e.thread_created ≡ false → server ≡ initial_server → Listened e server
  gave_up :
      e.thread_created ≡ true
      → gives_up false e.rounds ≡ true
      → AllNewcomers server.clients
      → socket_ids server.clients ≡ accepted_sockets false e.rounds
      → server.is_running ≡ 0
      → Listened e server

-- The calls before the listening thread have succeeded.
pub record IsUp (e : MainAnswers) : Type 0 where
  pub is_bound : e.bound ≡ true
  pub does_listen : e.listens ≡ true
  pub has_cache : (e.cache_answer == 0) ≡ true

-- What has been served, and the pool: no block is given back, for the server's own client holds none
-- and the clients in the list are not released.
abbrev Serves : MainAnswers → ℕ → Option ServerInfo → Option Pool → Type 0
Serves e status none pool = (status ≢ 0) × (pool ≡ none)
Serves e status (some server) pool =
    (status ≡ 0) × (IsUp e × (Listened e server × (pool ≡ some e.left_pool)))

pub record IsTidy (e : MainAnswers) (r : MainEnd) : Type 0 where
  pub left_open : r.socket_open ≡ true → e.bound ≡ false
  pub cache_left : r.cache_ready ≡ true → (e.cache_answer == 0) ≡ false
  pub served : Serves e r.status r.served r.pool

-- The program ends, or it goes on accepting connections behind the rounds.
pub data Ends (e : MainAnswers) : Outcome MainEnd → Type 0 where
  ended : {r : MainEnd} → IsTidy e r → Ends e (done r)
  accepting : e.thread_created ≡ true → gives_up false e.rounds ≡ false → Ends e out_of_fuel
