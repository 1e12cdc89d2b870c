-- ===== src/Server/Reading.antt =====
-- A round of `read_sockets` of src/IMServer.c, with `get_polling_and_client_list`: the clients whose
-- sockets have something to read are read from and their lines handled, those whose connection is
-- over are marked. A round is modelled as it runs when no other thread changes the clients in the
-- meantime, so that a client keeps its place in the list.
pub mod Arrival
pub mod Polling
pub mod Broken
pub mod Input
pub mod Several
use cosc402_assignment.Base.{
  ℕ, zero, suc, ◌+◌, Bool, true, false, Option, none, some, List, [], ◌∷◌, ◌==◌, ◌||◌,
  if◌then◌else◌,
}
use cosc402_assignment.Base.Lists.{length, get_elem?}
use cosc402_assignment.Base.Outcome.{Outcome, done, fault, out_of_fuel, ◌>>=◌}
use cosc402_assignment.Base.Words.{size_max, minus_one, to_int}
use cosc402_assignment.Buffer.Node.{Mem}
use cosc402_assignment.Buffer.Fill.{Pull}
use cosc402_assignment.ClientInfo.{ClientData, Answer, fetch_from_client}
use cosc402_assignment.Server.{ServerInfo}
use cosc402_assignment.Server.Login.{Surroundings, State}
use cosc402_assignment.Server.Handle.{with_client, try_to_handle_msg}
use cosc402_assignment.Server.Writing.{socket_at}

-- What `poll` reports of a socket: nothing, something to read, or an error.
pub data PollEvent : Type 0 where
  no_event : PollEvent
  input : PollEvent
  problem : PollEvent

-- The list that is polled: a client's socket, unless the client is marked, and the client's place.
abbrev pub polled : ClientData → Option ℕ
polled c = if c.pub_mark == 0 then some c.socket_id else none

abbrev pub polled_from : ℕ → List ClientData → List (Option ℕ × ℕ)
polled_from i [] = []
polled_from i (c ∷ cs) = (polled c, i) ∷ polled_from (suc i) cs

-- The memory has `client_count` places; with fewer clients the rest are null pointers.
unfoldable pub get_polling_and_client_list : Bool → ServerInfo → Outcome (List (Option ℕ × ℕ))
get_polling_and_client_list granted server =
    if granted
    then (if length server.clients == server.client_count
        then done (polled_from 0 server.clients)
        else fault)
    else done []

-- The state, and what is behind every socket.
pub record Turn (S : Type 0) : Type 0 where
  pub state : State
  pub sockets : ℕ → S

abbrev pub in_place : State → ℕ → ClientData → Mem → State
in_place s i c m = record { server = with_client s.server i c; mem = m }

-- The label `handle_socket_exception`.
abbrev pub mark : ClientData → ClientData
mark c = record c { pub_mark = size_max }

module _ {S : Type 0} (read : ℕ → S → Pull S) (available : S → Option ℕ)
    (events : ℕ → PollEvent) where
  -- `fetch_count` is an `int`.
  abbrev pub after_fetch :
      (ℕ → Surroundings) → ℕ → State → (ℕ → S) → ℕ → Answer S → Outcome (Turn S)
  after_fetch es i s sockets fd a =
      let sockets' = socket_at fd a.rest sockets in
      if to_int a.ret == 0
      then done (record { state = in_place s i (mark a.client) a.mem; sockets = sockets' })
      else (try_to_handle_msg es i (in_place s i a.client a.mem)
          >>= (λ s'. done (record { state = s'; sockets = sockets' })))

  abbrev pub on_event :
      (ℕ → Surroundings) → ℕ → State → (ℕ → S) → ℕ → ClientData → PollEvent → Outcome (Turn S)
  on_event es i s sockets fd c no_event = done (record { state = s; sockets = sockets })
  on_event es i s sockets fd c input =
      fetch_from_client read (available (sockets fd)) c s.mem (sockets fd)
      >>= after_fetch es i s sockets fd
  on_event es i s sockets fd c problem =
      done (record { state = in_place s i (mark c) s.mem; sockets = sockets })

  abbrev pub on_client :
      (ℕ → Surroundings) → ℕ → State → (ℕ → S) → ℕ → Option ClientData → Outcome (Turn S)
  on_client es i s sockets fd none = fault
  on_client es i s sockets fd (some c) =
      if fd == c.socket_id
      then on_event es i s sockets fd c (events fd)
      else done (record { state = s; sockets = sockets })

  -- The body of the loop over the sockets.
  abbrev pub read_one : (ℕ → Surroundings) → State → (ℕ → S) → Option ℕ × ℕ → Outcome (Turn S)
  read_one es s sockets (none, i) = done (record { state = s; sockets = sockets })
  read_one es s sockets (some fd, i) = on_client es i s sockets fd (get_elem? s.server.clients i)

  unfoldable pub read_each :
      (ℕ → ℕ → Surroundings) → List (Option ℕ × ℕ) → State → (ℕ → S) → Outcome (Turn S)
  unfolding fetch_from_client try_to_handle_msg
  read_each es [] s sockets = done (record { state = s; sockets = sockets })
  read_each es (p ∷ ps) s sockets =
      read_one (es 0) s sockets p >>= (λ t. read_each (λ n. es (suc n)) ps t.state t.sockets)

  -- With memory for the list; `ret` is what `poll` returns, -1 for an error and 0 if nothing has
  -- happened.
  unfoldable pub read_round : ℕ → (ℕ → ℕ → Surroundings) → State → (ℕ → S) → Outcome (Turn S)
  unfolding get_polling_and_client_list read_each
  read_round ret es s sockets = get_polling_and_client_list true s.server >>= (λ ps.
      if (ret == minus_one) || (ret == 0)
      then done (record { state = s; sockets = sockets })
      else read_each es ps s sockets)
