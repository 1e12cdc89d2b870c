-- ===== src/Tests/Programs.antt =====
-- The theorems on the two main functions, applied to runs of them.
use cosc402_assignment.Base.{ℕ, ◌≡◌, true, false, none, some, List, [], ◌∷◌}
use cosc402_assignment.Base.Outcome.{fault, Returns}
use cosc402_assignment.Cache.{initial_pool}
use cosc402_assignment.Net.{Parsers}
use cosc402_assignment.Server.Main.{MainAnswers}
use cosc402_assignment.Server.Main.Ends.{Ends}
use cosc402_assignment.Client.Main.{
  ClientAnswers, IsRefused, client_main, client_main-EndsEarly, reaches_login,
}
use cosc402_assignment.Tests.Connections.{generous, connects}

-- Port 80 on any host.
abbrev port_80 : Parsers
port_80 = record { atoi = λ s. 80; inet_pton4 = λ s. none; inet_pton6 = λ s. none }

abbrev arguments : List (List ℕ)
arguments = (b's' ∷ []) ∷ (b'*' ∷ []) ∷ (b'8' ∷ b'0' ∷ []) ∷ []

abbrev granted_server : MainAnswers
granted_server = record {
  parsers = port_80;
  socket = some 3;
  bound = true;
  listens = true;
  cache_answer = 0;
  init = record { setup = generous; server_granted = true; mutex = true; condition = true };
  thread_created = true;
  rounds = record connects { writing_created = false } ∷ [];
  left_pool = initial_pool [];
}

-- The connection is refused.
abbrev refused_client : ClientAnswers
refused_client = record {
  parsers = port_80;
  socket_made = true;
  connected = false;
  name_granted = true;
  all_sent = true;
  poll_granted = true;
  buff_granted = true;
  events = [];
}

abbrev client_arguments : List (List ℕ)
client_arguments = (b'c' ∷ []) ∷ (b'*' ∷ []) ∷ (b'8' ∷ b'0' ∷ []) ∷ (b'a' ∷ b'l' ∷ []) ∷ []

client_main-EndsEarly_example :
    (reaches_login refused_client client_arguments ≡ false
      → Returns IsRefused (client_main refused_client client_arguments))
    × (reaches_login refused_client client_arguments ≡ true
        → client_main refused_client client_arguments ≡ fault)
client_main-EndsEarly_example = client_main-EndsEarly refused_client client_arguments
