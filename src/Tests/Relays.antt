-- ===== src/Tests/Relays.antt =====
-- The theorems on the rounds in which lines arrive, applied to a server with two clients.
use cosc402_assignment.Base.{
  some, ◌≡◌, ◌==◌, if◌then◌else◌, ℕ, refl, List, [], ◌∷◌, ◌++◌, arith, ap, Option, sym, ap,
}
use cosc402_assignment.Base.Lists.{length, take, drop, take_all}
use cosc402_assignment.Base.Outcome.{Returns, ◌>>=◌}
use cosc402_assignment.Base.Strings.{c_string, first_of}
use cosc402_assignment.Buffer.Node.{contents}
use cosc402_assignment.Buffer.Fill.{Pull, got}
use cosc402_assignment.Buffer.Drain.{Put, wrote}
use cosc402_assignment.Buffer.Drain.Writing.{IsSink}
use cosc402_assignment.ClientInfo.{ClientData}
use cosc402_assignment.Server.Login.{State}
use cosc402_assignment.Server.Handle.Healthy.{IsHealthy}
use cosc402_assignment.Server.Handle.Room.{view}
use cosc402_assignment.Server.Handle.Commands.{Command, to_all}
use cosc402_assignment.Server.Handle.Fetching.{print_all, AllCommands}
use cosc402_assignment.Server.Writing.{write_round}
use cosc402_assignment.Server.Reading.{PollEvent, input, no_event, read_round}
use cosc402_assignment.Server.Reading.Input.{IsHeard}
use cosc402_assignment.Server.Reading.Several.{says, says_nothing}
use cosc402_assignment.Server.Relay.Exchanges.{Exchange, serve_exchanges, IsOffered, heard}
use cosc402_assignment.Server.Relay.Exchanges.Heard.{IsIdle, CarriesOut, serve_exchanges-CarriesOut}
use cosc402_assignment.Server.Relay.{Relays, relay_lines}
use cosc402_assignment.Cache.{initial_pool}
use cosc402_assignment.Cache.Invariant.{initial_pool-IsValid}
use cosc402_assignment.Tests.Rooms.{
  nobody, kind, three_lines, sender, listener, state, three_lines-AllCommands,
}
use cosc402_assignment.Tests.Messages.{granted-IsGranted}

-- What a peer has sent, and what it has been sent.
record Socket : Type 0 where
  incoming : List ℕ
  outgoing : List ℕ

abbrev receive : ℕ → Socket → Pull Socket
receive n s = got (take n s.incoming) (record s { incoming = drop n s.incoming })

abbrev pending : Socket → Option ℕ
pending s = some (length s.incoming)

abbrev transmit : List ℕ → Socket → Put Socket
transmit bs s = wrote (length bs) (record s { outgoing = s.outgoing ++ bs })

transmit-IsSink : IsSink transmit (λ s. s.outgoing)
transmit-IsSink = record {
  within = λ bs s. omega arith;
  progress = λ bs s pos. pos;
  in_order = λ bs s. ap (λ xs. s.outgoing ++ xs) (sym (take_all (length bs) bs (omega arith)));
}

abbrev typist : ClientData
typist = record sender { reading_buffer = [] }

abbrev quiet_state : State
quiet_state = record {
  server = record (state.server) { clients = listener ∷ typist ∷ [] };
  mem = record { answers = []; pool = initial_pool [] };
}

-- The three lines wait on the socket of the typist.
abbrev sockets : ℕ → Socket
sockets k = record { incoming = if k == 4 then print_all three_lines else []; outgoing = [] }

abbrev arrivals : ℕ → PollEvent
arrivals k = if k == 4 then input else no_event

quiet_state-IsHealthy : IsHealthy nobody quiet_state.server quiet_state.mem
quiet_state-IsHealthy = record {
  writable = (tt, (tt, tt));
  owns = record {
    valid = initial_pool-IsValid [];
    once = λ a. omega arith;
    known = λ a pos. absurd (omega arith);
    all = λ a pos below. absurd (omega arith);
  };
  calm = refl;
  counted = refl;
  few = omega arith;
}

abbrev drained : Socket
drained = record { incoming = []; outgoing = [] }

typist-IsHeard : IsHeard receive pending arrivals (print_all three_lines) typist (sockets 4) drained
unfolding c_string
typist-IsHeard = record {
  unmarked = refl;
  empty = refl;
  start = refl;
  named = (omega arith, omega arith);
  reported = refl;
  some_text = omega arith;
  fits = omega arith;
  announced = refl;
  gives = refl;
}

relay_lines_example :
    Returns
      (Relays transmit (λ s. s.outgoing) transmit-IsSink three_lines nobody 1 quiet_state sockets)
      (read_round receive pending arrivals 1 (λ n k. kind) quiet_state sockets
        >>= (λ t. write_round transmit (λ n. kind) t.state t.sockets))
unfolding c_string contents first_of
relay_lines_example =
    relay_lines transmit (λ s. s.outgoing) transmit-IsSink receive pending arrivals nobody
      (λ n k. kind) (λ n. kind) quiet_state sockets (listener ∷ []) [] typist three_lines drained 1
      (omega arith, omega arith) (λ n k. (granted-IsGranted, refl)) three_lines-AllCommands refl
      ((refl, tt), tt) quiet_state-IsHealthy typist-IsHeard refl (omega arith)
      (omega arith, (omega arith, tt)) (((omega arith, tt), (tt, tt)), (refl, (refl, tt)))

-- Both send lines, and then the listener sends one more.
abbrev one_line : List Command
one_line = to_all (b'y' ∷ b'o' ∷ []) ∷ []

abbrev by_both : ℕ → List Command
by_both k = if k == 4 then three_lines else one_line

abbrev by_listener : ℕ → List Command
by_listener k = if k == 5 then one_line else []

abbrev exchange : (ℕ → List Command) → (ℕ → PollEvent) → Exchange Socket
exchange lines events = record {
  lines = lines;
  arrive = λ before k. record (before k) { incoming = print_all (lines k) };
  events = events;
  reported = 1;
  reading = λ n m. kind;
  writing = λ n. kind;
}

abbrev first_exchange : Exchange Socket
first_exchange = exchange by_both (λ k. input)

abbrev second_exchange : Exchange Socket
second_exchange = exchange by_listener (λ k. if k == 5 then input else no_event)

abbrev two_exchanges : List (Exchange Socket)
two_exchanges = first_exchange ∷ second_exchange ∷ []

abbrev emptied : Socket → Socket
emptied s = record s { incoming = [] }

one_line-AllCommands : AllCommands one_line
one_line-AllCommands = ((omega arith, omega arith), tt)

first-IsOffered : IsOffered receive pending (λ s. s.outgoing) (5 ∷ 4 ∷ []) first_exchange
first-IsOffered = record {
  positive = (omega arith, omega arith);
  granted = λ n k. (granted-IsGranted, refl);
  speak = λ before. (
    says (emptied (before 5)) refl one_line-AllCommands (omega arith, omega arith) refl refl refl,
    (
      says (emptied (before 4)) refl three_lines-AllCommands (omega arith, omega arith) refl refl
          refl,
      tt,
    ),
  );
  unsent = λ before k. refl;
}

second-IsOffered : IsOffered receive pending (λ s. s.outgoing) (5 ∷ 4 ∷ []) second_exchange
second-IsOffered = record {
  positive = (omega arith, omega arith);
  granted = λ n k. (granted-IsGranted, refl);
  speak = λ before. (
    says (emptied (before 5)) refl one_line-AllCommands (omega arith, omega arith) refl refl refl,
    (says_nothing refl refl, tt),
  );
  unsent = λ before k. refl;
}

quiet_state-IsIdle : IsIdle nobody quiet_state
unfolding c_string
quiet_state-IsIdle = record {
  healthy = quiet_state-IsHealthy;
  rest = (
    record { unmarked = refl; named = (omega arith, omega arith); empty = refl; start = refl },
    (
      record { unmarked = refl; named = (omega arith, omega arith); empty = refl; start = refl },
      tt,
    ),
  );
  apart = ((omega arith, tt), (tt, tt));
}

serve_exchanges-CarriesOut_example :
    Returns
      (CarriesOut receive pending transmit
        (λ s. s.outgoing)
        transmit-IsSink
        nobody
        two_exchanges
        quiet_state
        sockets)
      (serve_exchanges receive pending transmit two_exchanges quiet_state sockets)
unfolding c_string contents first_of
serve_exchanges-CarriesOut_example =
    serve_exchanges-CarriesOut receive pending transmit (λ s. s.outgoing) transmit-IsSink nobody
      two_exchanges quiet_state sockets quiet_state-IsIdle (first-IsOffered, (second-IsOffered, tt))
      (
        ((omega arith, (omega arith, tt)), (omega arith, (omega arith, tt))),
        (((omega arith, (omega arith, tt)), (omega arith, (omega arith, tt))), tt),
      )

-- What the listener at the first place is sent in the two exchanges.
abbrev news : List ℕ
news =
    b'F' ∷ b'R' ∷ b'O' ∷ b'M' ∷ b' ' ∷ b'S' ∷ b'Y' ∷ b'S' ∷ b'T' ∷ b'E' ∷ b'M' ∷ b':' ∷ b' ' ∷ b'a'
    ∷ b'l' ∷ b' ' ∷ b'i' ∷ b's' ∷ b' ' ∷ b'o' ∷ b'n' ∷ b'l' ∷ b'i' ∷ b'n' ∷ b'e' ∷ b' ' ∷ b'n'
    ∷ b'o' ∷ b'w' ∷ b'\n' ∷ b'F' ∷ b'R' ∷ b'O' ∷ b'M' ∷ b' ' ∷ b'a' ∷ b'l' ∷ b':' ∷ b' ' ∷ b'h'
    ∷ b'i' ∷ b'\n' ∷ b'F' ∷ b'R' ∷ b'O' ∷ b'M' ∷ b' ' ∷ b'a' ∷ b'l' ∷ b':' ∷ b' ' ∷ b'y' ∷ b'o'
    ∷ b'\n' ∷ []

heard_news : heard (5 ∷ 4 ∷ []) two_exchanges (view quiet_state.server.clients) 0 ≡ news
unfolding c_string contents first_of
heard_news = refl
