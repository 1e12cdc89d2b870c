-- ===== src/Tests/Connections.antt =====
-- The theorem on the listening thread, applied to three rounds.
use cosc402_assignment.Base.{true, false, none, some, List, [], ◌∷◌, refl}
use cosc402_assignment.Base.Outcome.{Returns}
use cosc402_assignment.Net.{error_handle}
use cosc402_assignment.Base.Words.{minus_one}
use cosc402_assignment.ClientInfo.{Setup}
use cosc402_assignment.Server.{initial_server}
use cosc402_assignment.Server.Clients.{initial}
use cosc402_assignment.Server.Listening.{Accepted, Listener, listen_rounds}
use cosc402_assignment.Server.Listening.Newcomers.{AllGranted, Grows}
use cosc402_assignment.Server.Listening.Rounds.{listen_rounds-Grows}

abbrev pub generous : Setup
generous = record {
  data_granted = true;
  reading_granted = true;
  writing_granted = true;
  reading_lock = true;
  writing_lock = true;
  peer = error_handle minus_one;
  now = 7;
}

pub generous-AllGranted : AllGranted generous
generous-AllGranted = record {
  data_there = refl;
  reading_there = refl;
  writing_there = refl;
  reading_locks = refl;
  writing_locks = refl;
}

abbrev pub connects : Accepted
connects = record {
  socket = some 4;
  setup = generous;
  node_granted = true;
  reading_created = true;
  writing_created = true;
}

abbrev error_round : Accepted
error_round = record connects { socket = none }

abbrev listener : Listener
listener = record { server = initial_server; has_threads = false; goes_on = true }

abbrev three_rounds : List Accepted
three_rounds = connects ∷ error_round ∷ record connects { socket = some 5 } ∷ []

listen_rounds-Grows_example :
    Returns (Grows (4 ∷ 5 ∷ []) false initial_server) (listen_rounds three_rounds listener)
listen_rounds-Grows_example =
    listen_rounds-Grows three_rounds listener
      (generous-AllGranted, (generous-AllGranted, (generous-AllGranted, tt))) refl initial
