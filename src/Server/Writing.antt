-- ===== src/Server/Writing.antt =====
-- A round of `write_sockets` of src/IMServer.c: the waiting texts go to the sockets, and the clients
-- that are marked are logged out. A round is modelled as it runs when the reading thread changes no
-- client in the meantime. Every socket has a state, under its number.
pub mod Flush
pub mod Drained
pub mod Rounds
pub mod Leaver
use cosc402_assignment.Base.{ℕ, suc, ◌+◌, Bool, true, false, List, [], ◌∷◌, ◌==◌, if◌then◌else◌}
use cosc402_assignment.Base.Outcome.{Outcome, done, fault, out_of_fuel, ◌>>=◌}
use cosc402_assignment.Cache.{Pool}
use cosc402_assignment.Buffer.Node.{Mem}
use cosc402_assignment.Buffer.Drain.{Put}
use cosc402_assignment.ClientInfo.{ClientData, Flushed, flush_messages}
use cosc402_assignment.Server.{ServerInfo, get_client_list, is_leaving}
use cosc402_assignment.Server.Login.{Surroundings, State, user_logout}

abbrev pub socket_at : {S : Type 0} → ℕ → S → (ℕ → S) → ℕ → S
socket_at k s sockets j = if j == k then s else sockets j

pub record Flushing (S : Type 0) : Type 0 where
  pub clients : List ClientData
  pub pool : Pool
  pub sockets : ℕ → S

abbrev pub and_client : {S : Type 0} → ClientData → Flushing S → Flushing S
and_client c f = record f { clients = c ∷ f.clients }

module _ {S : Type 0} (put : List ℕ → S → Put S) where
  -- The first loop of a round.
  unfoldable pub flush_each : List ClientData → Pool → (ℕ → S) → Outcome (Flushing S)
  unfolding flush_messages
  flush_each [] p sockets = done (record { clients = []; pool = p; sockets = sockets })
  flush_each (c ∷ cs) p sockets =
      if is_leaving c
      then (flush_each cs p sockets >>= (λ f. done (and_client c f)))
      else (flush_messages put c p (sockets c.socket_id) >>= (λ r.
          flush_each cs r.pool (socket_at c.socket_id r.rest sockets)
          >>= (λ f. done (and_client r.client f))))

-- The second loop, over the same list. What a marked client holds does not change before its turn,
-- since a delivery passes it by.
unfoldable pub logout_each : (ℕ → Surroundings) → List ClientData → State → Outcome State
unfolding user_logout
logout_each es [] s = done s
logout_each es (c ∷ cs) s =
    if is_leaving c
    then (user_logout (es 0) s.server c s.mem >>= logout_each (λ n. es (suc n)) cs)
    else logout_each (λ n. es (suc n)) cs s

-- The end of a round: without a signal the thread waits, and then takes back what was signalled in the
-- meantime.
abbrev pub must_wait : ServerInfo → Bool
must_wait server = server.sign_to_flush_msg == 0

abbrev pub settle_sign : ServerInfo → ServerInfo
settle_sign server = if must_wait server then record server { sign_to_flush_msg = 0 } else server

pub record Round (S : Type 0) : Type 0 where
  pub state : State
  pub sockets : ℕ → S
  pub waits : Bool

abbrev pub round_end : {S : Type 0} → (ℕ → S) → State → Round S
round_end sockets s = record {
  state = record s { server = settle_sign s.server };
  sockets = sockets;
  waits = must_wait s.server;
}

abbrev pub flushed_state : {S : Type 0} → State → Flushing S → State
flushed_state s f = record {
  server = record (s.server) { clients = f.clients };
  mem = record (s.mem) { pool = f.pool };
}

-- With memory for the list; without it the thread ends.
unfoldable pub write_round :
    {S : Type 0} → (List ℕ → S → Put S) → (ℕ → Surroundings) → State → (ℕ → S) → Outcome (Round S)
unfolding get_client_list flush_each logout_each
write_round put es s sockets =
    get_client_list true s.server >>= (λ cs. flush_each put cs s.mem.pool sockets) >>= (λ f.
      logout_each es f.clients (flushed_state s f) >>= (λ s'. done (round_end f.sockets s')))
