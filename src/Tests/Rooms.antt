-- ===== src/Tests/Rooms.antt =====
-- The theorems on lines, logins and logouts, applied to a server with two clients.
use cosc402_assignment.Base.{refl, true, List, ℕ, [], ◌∷◌, arith}
use cosc402_assignment.Base.Lists.{replicate}
use cosc402_assignment.Base.Outcome.{Returns}
use cosc402_assignment.Base.Strings.{c_string, first_of}
use cosc402_assignment.Server.Deliver.{and_clients}
use cosc402_assignment.Buffer.Node.{Buffer, contents}
use cosc402_assignment.Buffer.Ownership.{and_nodes}
use cosc402_assignment.ClientInfo.{ClientData, zero_data}
use cosc402_assignment.Server.{initial_server}
use cosc402_assignment.Server.Login.{Surroundings, State, user_logout}
use cosc402_assignment.Server.Login.Logout.{Leaves, user_logout-Leaves}
use cosc402_assignment.Server.Handle.{parse_line, try_to_handle_msg}
use cosc402_assignment.Server.Handle.Commands.{
  Command, login, to_all, to_client, print, Obeys, parse_line-Obeys,
}
use cosc402_assignment.Server.Handle.Healthy.{IsHealthy}
use cosc402_assignment.Server.Handle.OneNode.{one}
use cosc402_assignment.Server.Handle.Fetching.{IsReady, print_all, AllCommands}
use cosc402_assignment.Server.Handle.Loop.{Serves, try_to_handle_msg-Serves}
use cosc402_assignment.Tests.{node_of, node_of-IsGood, one_used, one_used-IsValid}
use cosc402_assignment.Tests.Messages.{granted, granted-IsGranted}

abbrev pub nobody : ℕ → ℕ
nobody a = 0

abbrev pub kind : Surroundings
kind = record { alloc = granted; list_granted = true; behind = [] }

-- "LOGIN: al", "TO-ALL: hi", "TO-C-b: yo".
abbrev pub three_lines : List Command
three_lines =
    login (b'a' ∷ b'l' ∷ [])
    ∷ to_all (b'h' ∷ b'i' ∷ [])
    ∷ to_client (b'b' ∷ []) (b'y' ∷ b'o' ∷ [])
    ∷ []

abbrev pub input : Buffer
input = node_of 1 (print_all three_lines) ∷ []

-- "x", who has sent the lines, and "b".
abbrev pub sender : ClientData
sender = record zero_data { socket_id = 4; name = b'x' ∷ replicate 29 0; reading_buffer = input }

abbrev pub listener : ClientData
listener = record zero_data { socket_id = 5; name = b'b' ∷ replicate 29 0 }

abbrev pub state : State
state = record {
  server = record initial_server { clients = sender ∷ listener ∷ []; client_count = 2 };
  mem = record { answers = []; pool = one_used };
}

pub state-IsHealthy : IsHealthy (and_nodes input nobody) state.server state.mem
state-IsHealthy = record {
  writable = (tt, (tt, tt));
  owns = record {
    valid = one_used-IsValid;
    once = λ a. ground arith;
    known = λ a pos. ground arith;
    all = λ a pos below. ground arith;
  };
  calm = refl;
  counted = refl;
  few = omega arith;
}

pub state-IsReady : IsReady nobody 0 (print_all three_lines) state sender
unfolding c_string
state-IsReady = record {
  there = refl;
  named = (omega arith, omega arith);
  good = (node_of-IsGood 1 (print_all three_lines) (omega arith), tt);
  node = one refl (omega arith);
  start = refl;
  healthy = state-IsHealthy;
}

pub three_lines-AllCommands : AllCommands three_lines
unfolding c_string first_of
three_lines-AllCommands = (
  omega arith,
  (
    (omega arith, omega arith),
    (((omega arith, (refl, omega arith)), (omega arith, omega arith)), tt),
  ),
)

try_to_handle_msg-Serves_example :
    Returns (Serves three_lines nobody 0 0 state) (try_to_handle_msg (λ n. kind) 0 state)
unfolding c_string contents first_of
try_to_handle_msg-Serves_example =
    try_to_handle_msg-Serves nobody 0 (λ n. kind) three_lines state sender
      (λ n. (granted-IsGranted, refl)) three_lines-AllCommands state-IsReady (omega arith)

parse_line-Obeys_example :
    Returns
      (Obeys
        (to_client (b'b' ∷ []) (b'y' ∷ []))
        (and_clients state.server.clients (and_nodes input nobody))
        sender)
      (parse_line kind sender (print (to_client (b'b' ∷ []) (b'y' ∷ []))) one_used)
unfolding c_string first_of
parse_line-Obeys_example =
    parse_line-Obeys kind granted-IsGranted sender one_used
      (and_clients state.server.clients (and_nodes input nobody)) state-IsHealthy.owns
      (omega arith, omega arith) (to_client (b'b' ∷ []) (b'y' ∷ []))
      ((omega arith, (refl, omega arith)), (omega arith, omega arith))

user_logout-Leaves_example :
    Returns
      (Leaves nobody state.server (listener ∷ []) (b'x' ∷ []))
      (user_logout kind state.server sender state.mem)
unfolding c_string
user_logout-Leaves_example =
    user_logout-Leaves kind nobody state.server sender [] (listener ∷ []) state.mem
      granted-IsGranted refl refl tt (omega arith) (omega arith)
      (node_of-IsGood 1 (print_all three_lines) (omega arith), tt) state-IsHealthy
