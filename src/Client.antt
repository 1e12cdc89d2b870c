-- ===== src/Client.antt =====
-- src/IMClient.c: the line that a client logs in with, what it sends of what is typed, and the rounds
-- of its loop. The environment gives what is read and whether a call succeeds.
pub mod Typed
pub mod Rounds
pub mod Main
use cosc402_assignment.Base.{
  ℕ, ◌+◌, ◌-◌, Bool, true, false, Option, none, some, List, [], ◌∷◌, ◌++◌, ltb, if◌then◌else◌,
}
use cosc402_assignment.Base.Lists.{length, take, replicate}
use cosc402_assignment.Base.Strings.{c_string, starts_with}
use cosc402_assignment.Base.Outcome.{Outcome, done, fault, out_of_fuel, ◌>>=◌}
use cosc402_assignment.Base.Words.{int_add, minus_one}
use cosc402_assignment.Message.{strcpy}
use cosc402_assignment.Server.Handle.{cmd_login, cmd_to_c}

-- The bytes of the login line that are sent, `none` without memory. The block has no place for the 0
-- that `sprintf` puts behind the newline.
unfoldable pub login_line : Bool → List ℕ → Outcome (Option (List ℕ))
login_line granted name =
    let login_cmd_size = length name + length cmd_login + 1 in
    if granted
    then (strcpy (replicate login_cmd_size 0) (cmd_login ++ (name ++ (b'\n' ∷ [])))
        >>= (λ name_line. done (some (take login_cmd_size name_line))))
    else done none

-- The first place of a string in another.
abbrev pub strstr : List ℕ → List ℕ → Option ℕ
strstr [] p = if starts_with p [] then some 0 else none
strstr (x ∷ xs) p =
    let rest = strstr xs p in
    if starts_with p (x ∷ xs) then some 0 else elim rest [ none ↦ none | some i ↦ some (1 + i) ]

-- CMD_TO_ALL " ", MSG_PREFIX_INDICATOR " "
abbrev pub to_all_prefix : List ℕ
to_all_prefix = b'T' ∷ b'O' ∷ b'-' ∷ b'A' ∷ b'L' ∷ b'L' ∷ b':' ∷ b' ' ∷ []

abbrev pub indicator : List ℕ
indicator = b':' ∷ b' ' ∷ []

-- The places in `buff` behind the prefix.
abbrev pub reading_space : ℕ
reading_space = 1016

abbrev pub is_near : Option ℕ → Bool
is_near none = false
is_near (some i) = ltb i 35

-- The tests on what has been typed: a name of a receiver follows, and is short enough.
abbrev pub is_to_client : List ℕ → Bool
is_to_client s = if starts_with cmd_to_c s then is_near (strstr s indicator) else false

-- `text` is `buff` from `start_read_pos` on; `strstr` needs a 0 in it.
abbrev pub sent_of : List ℕ → ℕ → Outcome (List ℕ)
sent_of text read_size =
    if ltb (length (c_string text)) (length text)
    then done (
        if is_to_client (c_string text)
        then take read_size text
        else take (int_add read_size 8) (to_all_prefix ++ text))
    else fault

-- What is written to the socket for an answer of `read` on the standard input, `none` for -1.
unfoldable pub line_to_send : Option (List ℕ) → Outcome (List ℕ)
unfolding c_string
line_to_send none = sent_of (replicate reading_space 0) minus_one
line_to_send (some bs) = sent_of (bs ++ replicate (reading_space - length bs) 0) (length bs)

-- What `poll` reports of the socket, with the answer of `read` (`none` for -1).
pub data SocketEvent : Type 0 where
  quiet : SocketEvent
  readable : Option (List ℕ) → SocketEvent
  broken : SocketEvent

-- A round's events: what was typed, if there is something to read, what `write` answers for a
-- number of bytes (`none` for -1), and the socket's.
pub record Events : Type 0 where
  pub typed : Option (Option (List ℕ))
  pub write_takes : ℕ → Option ℕ
  pub socket : SocketEvent

-- What the program has sent to the socket and written to the standard output, messages only.
pub record Session : Type 0 where
  pub is_online : Bool
  pub sent : List ℕ
  pub shown : List ℕ

-- The bytes that `write` has not taken are not sent again.
abbrev pub written : Option ℕ → Session → List ℕ → Session
written none s bs = record s { is_online = false }
written (some count) s bs = record s { sent = s.sent ++ take count bs }

abbrev pub on_typed : Option (Option (List ℕ)) → (ℕ → Option ℕ) → Session → Outcome Session
on_typed none takes s = done s
on_typed (some answer) takes s =
    line_to_send answer >>= (λ bs. done (written (takes (length bs)) s bs))

abbrev pub on_socket : SocketEvent → Session → Session
on_socket quiet s = s
on_socket (readable none) s = s
on_socket (readable (some [])) s = record s { is_online = false }
on_socket (readable (some (b ∷ bs))) s = record s { shown = s.shown ++ (b ∷ bs) }
on_socket broken s = record s { is_online = false }

-- The body of `while (is_online)` after `poll`.
abbrev pub client_round : Events → Session → Outcome Session
client_round e s = on_typed e.typed e.write_takes s >>= (λ s'. done (on_socket e.socket s'))

-- The loop, for what `poll` reports round by round; it ends when the list does, or when the client is
-- not online any more. A failure of `poll` ends it as well, and is the end of the list.
unfoldable pub client_loop : List Events → Session → Outcome Session
unfolding line_to_send
client_loop [] s = done s
client_loop (e ∷ es) s =
    let next : Session → Outcome Session = client_loop es in
    if s.is_online then client_round e s >>= next else done s
