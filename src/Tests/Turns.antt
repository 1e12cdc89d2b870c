-- ===== src/Tests/Turns.antt =====
-- The theorems on the rounds of the writing thread, applied to a server with two clients.
use cosc402_assignment.Base.{none, ◌==◌, if◌then◌else◌, ℕ, refl, List, [], ◌∷◌, arith}
use cosc402_assignment.Base.Outcome.{Returns, ◌>>=◌}
use cosc402_assignment.Base.Words.{size_max}
use cosc402_assignment.Base.Strings.{c_string}
use cosc402_assignment.Buffer.Node.{contents}
use cosc402_assignment.Buffer.Ownership.{and_nodes}
use cosc402_assignment.ClientInfo.{ClientData}
use cosc402_assignment.Server.Login.{State}
use cosc402_assignment.Server.Handle.Healthy.{IsHealthy}
use cosc402_assignment.Server.Writing.{write_round}
use cosc402_assignment.Server.Writing.Rounds.{Writes, write_round-Writes}
use cosc402_assignment.Server.Writing.Leaver.{Departs, write_round-Departs}
use cosc402_assignment.Server.Reading.{PollEvent, no_event, problem, in_place, mark, read_round}
use cosc402_assignment.Server.Reading.Broken.{broken_client-Departs}
use cosc402_assignment.Tests.{from_file, node_of-IsGood, take_all_of, take_all_of-IsSink}
use cosc402_assignment.Tests.Rooms.{
  nobody, kind, three_lines, input, sender, listener, state, state-IsHealthy,
}
use cosc402_assignment.Tests.Messages.{granted-IsGranted}
use cosc402_assignment.Server.Handle.Fetching.{print_all}

abbrev silent : ℕ → List ℕ
silent k = []

write_round-Writes_example :
    Returns
      (Writes take_all_of (λ s. s) take_all_of-IsSink (and_nodes input nobody) state silent)
      (write_round take_all_of (λ n. kind) state silent)
unfolding contents
write_round-Writes_example =
    write_round-Writes take_all_of (λ s. s) take_all_of-IsSink (and_nodes input nobody) (λ n. kind)
      state silent state-IsHealthy (omega arith, (omega arith, tt)) ((omega arith, tt), (tt, tt))
      (refl, (refl, tt))

-- The sender is marked.
abbrev marked : ClientData
marked = record sender { pub_mark = size_max }

abbrev marked_state : State
marked_state = record state { server = record (state.server) { clients = marked ∷ listener ∷ [] } }

marked_state-IsHealthy : IsHealthy (and_nodes input nobody) marked_state.server marked_state.mem
marked_state-IsHealthy = record {
  writable = (tt, (tt, tt));
  owns = state-IsHealthy.owns;
  calm = refl;
  counted = refl;
  few = omega arith;
}

write_round-Departs_example :
    Returns
      (Departs take_all_of
        (λ s. s)
        take_all_of-IsSink
        nobody
        marked_state
        silent
        []
        (listener ∷ [])
        (b'x' ∷ []))
      (write_round take_all_of (λ n. kind) marked_state silent)
unfolding contents c_string
write_round-Departs_example =
    write_round-Departs take_all_of (λ s. s) take_all_of-IsSink nobody (λ n. kind)
      (λ n. (granted-IsGranted, refl)) marked_state silent [] (listener ∷ []) marked refl
      marked_state-IsHealthy refl tt (refl, tt) (omega arith) (omega arith)
      (node_of-IsGood 1 (print_all three_lines) (omega arith), tt) (omega arith, (omega arith, tt))
      ((omega arith, tt), (tt, tt))

-- The connection of the sender is broken.
abbrev reported : ℕ → PollEvent
reported k = if k == 4 then problem else no_event

broken_client-Departs_example :
    Returns
      (Departs take_all_of
        (λ s. s)
        take_all_of-IsSink
        nobody
        (in_place state 0 (mark sender) state.mem)
        silent
        []
        (listener ∷ [])
        (b'x' ∷ []))
      (read_round from_file (λ s. none) reported 1 (λ n k. kind) state silent
        >>= (λ t. write_round take_all_of (λ n. kind) t.state t.sockets))
unfolding contents c_string
broken_client-Departs_example =
    broken_client-Departs from_file (λ s. none) reported take_all_of (λ s. s) take_all_of-IsSink
      nobody (λ n k. kind) (λ n. kind) state silent [] (listener ∷ []) sender 1
      (omega arith, omega arith) (λ n. (granted-IsGranted, refl)) refl state-IsHealthy refl refl
      (tt, (refl, tt)) (tt, (refl, tt)) (omega arith, omega arith)
      (node_of-IsGood 1 (print_all three_lines) (omega arith), tt)
      ((omega arith, (omega arith, tt)), ((omega arith, tt), (tt, tt)))
