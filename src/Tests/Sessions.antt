-- ===== src/Tests/Sessions.antt =====
-- The theorems on the client program, applied to a short session.
use cosc402_assignment.Base.{ℕ, suc, zero, ◌≡◌, refl, true, false, some, none, [], ◌∷◌, arith}
use cosc402_assignment.Base.Lists.{replicate, take}
use cosc402_assignment.Base.Outcome.{done, Returns}
use cosc402_assignment.Base.Strings.{IsText, c_string, first_of}
use cosc402_assignment.Buffer.Node.{contents}
use cosc402_assignment.Server.Handle.{try_to_handle_msg}
use cosc402_assignment.Server.Handle.Commands.{login, to_all, to_client, print}
use cosc402_assignment.Server.Handle.Fetching.{print_all}
use cosc402_assignment.Server.Handle.Loop.{Serves}
use cosc402_assignment.Client.{
  line_to_send, client_loop, Events, Session, quiet, readable, to_all_prefix,
}
use cosc402_assignment.Client.Typed.{IsTyped, plain, direct, line_to_send-print}
use cosc402_assignment.Client.Rounds.{
  enters, silent, gets_bytes, Goes, start, round, closed, client_loop_until_closed,
  client_loop-Serves,
}
use cosc402_assignment.Tests.Rooms.{nobody, kind, three_lines, sender, state, state-IsReady}
use cosc402_assignment.Tests.Messages.{granted-IsGranted}

-- "hi" and "TO-C-b: yo"
hi-IsTyped : IsTyped (b'h' ∷ b'i' ∷ 10 ∷ []) (to_all (b'h' ∷ b'i' ∷ []))
hi-IsTyped = plain {text = b'h' ∷ b'i' ∷ []} (omega arith) refl (omega arith)

yo-IsTyped :
    IsTyped
      (print (to_client (b'b' ∷ []) (b'y' ∷ b'o' ∷ [])))
      (to_client (b'b' ∷ []) (b'y' ∷ b'o' ∷ []))
unfolding first_of
yo-IsTyped = direct ((omega arith, (refl, omega arith)), (omega arith, omega arith)) (omega arith)

line_to_send-print_example :
    line_to_send (some (b'h' ∷ b'i' ∷ 10 ∷ [])) ≡ done (print (to_all (b'h' ∷ b'i' ∷ [])))
line_to_send-print_example = line_to_send-print hi-IsTyped

replicate-IsText : (n : ℕ) → IsText (replicate n 7)
replicate-IsText zero = tt
replicate-IsText (suc n) = (omega arith, replicate-IsText n)

-- At the end of the input, a prefix without a line is sent; when `read` fails, a part of it.
line_to_send_runs :
    (line_to_send (some []) ≡ done to_all_prefix)
    × (line_to_send none ≡ done (take 7 to_all_prefix))
unfolding line_to_send c_string
line_to_send_runs = (refl, refl)

abbrev first : Events
first = record {
  typed = some (some (b'h' ∷ b'i' ∷ 10 ∷ []));
  write_takes = λ n. some n;
  socket = quiet;
}

abbrev second : Events
second = record {
  typed = some (some (print (to_client (b'b' ∷ []) (b'y' ∷ b'o' ∷ []))));
  write_takes = λ n. some n;
  socket = readable (some (b'u' ∷ []));
}

abbrev ending : Events
ending = record { typed = none; write_takes = λ n. some n; socket = readable (some []) }

session_events-Goes :
    Goes
      (first ∷ second ∷ [])
      (to_all (b'h' ∷ b'i' ∷ []) ∷ to_client (b'b' ∷ []) (b'y' ∷ b'o' ∷ []) ∷ [])
      (b'u' ∷ [])
session_events-Goes =
    round {e = first} (λ n. refl) (enters hi-IsTyped) silent
      (round {e = second} (λ n. refl) (enters yo-IsTyped) gets_bytes start)

-- "LOGIN: al" has been sent.
abbrev logged_in : Session
logged_in = record { is_online = true; sent = print (login (b'a' ∷ b'l' ∷ [])); shown = [] }

abbrev left_session : Session
left_session = record { is_online = false; sent = print_all three_lines; shown = b'u' ∷ [] }

client_loop_until_closed_example :
    client_loop (first ∷ second ∷ ending ∷ first ∷ []) logged_in ≡ done left_session
client_loop_until_closed_example =
    client_loop_until_closed ending (first ∷ []) logged_in session_events-Goes closed refl

client_loop-Serves_example :
    Returns (Serves three_lines nobody 0 0 state) (try_to_handle_msg (λ n. kind) 0 state)
unfolding c_string contents first_of
client_loop-Serves_example =
    client_loop-Serves ending (first ∷ []) (b'a' ∷ b'l' ∷ []) logged_in left_session nobody 0
      (λ n. kind) state sender session_events-Goes closed refl refl (omega arith)
      (client_loop_until_closed ending (first ∷ []) logged_in session_events-Goes closed refl)
      (λ n. (granted-IsGranted, refl)) state-IsReady (omega arith)
