-- ===== src/Client/Rounds.antt =====
-- The loop of the client, round after round, and what the server makes of all that it sends.
use cosc402_assignment.Base.{
  ℕ, ◌^◌, ◌<◌, ◌≡◌, refl, sym, ap, ◌∙◌, true, false, Option, none, some, List, [], ◌∷◌, ◌++◌,
  append_assoc, append-nil, if◌then◌else◌, arith,
}
use mathlib.Core.Path.{subst}
use cosc402_assignment.Base.Lists.{length, take_all}
use cosc402_assignment.Base.Strings.{IsLine}
use cosc402_assignment.Base.Outcome.{Outcome, done, Returns, ◌>>=◌}
use cosc402_assignment.ClientInfo.{ClientData}
use cosc402_assignment.Server.Login.{Surroundings, State}
use cosc402_assignment.Server.Handle.{try_to_handle_msg}
use cosc402_assignment.Server.Handle.Commands.{Command, login, print}
use cosc402_assignment.Server.Handle.Room.{view, reached_all}
use cosc402_assignment.Server.Handle.Fetching.{print_all, AllCommands, IsReady}
use cosc402_assignment.Server.Handle.Loop.{Generous, Serves, try_to_handle_msg-Serves}
use cosc402_assignment.Client.{
  SocketEvent, quiet, readable, broken, Events, Session, on_typed, on_socket, client_round,
  client_loop,
}
use cosc402_assignment.Client.Typed.{IsTyped, IsTyped-IsCommand, line_to_send-print}

-- Nothing or a command is typed; bytes come from the socket or none.
pub data Types : Option (Option (List ℕ)) → List Command → Type 0 where
  idle : Types none []
  enters : {bs : List ℕ} {cmd : Command} → IsTyped bs cmd → Types (some (some bs)) (cmd ∷ [])

pub data Receives : SocketEvent → List ℕ → Type 0 where
  silent : Receives quiet []
  failed : Receives (readable none) []
  gets_bytes : {b : ℕ} {bs : List ℕ} → Receives (readable (some (b ∷ bs))) (b ∷ bs)

-- Rounds in which the connection stands, with the commands and the bytes.
pub data Goes : List Events → List Command → List ℕ → Type 0 where
  start : Goes [] [] []
  round :
      {e : Events} {es : List Events} {cs cmds : List Command} {out outs : List ℕ}
      → ((n : ℕ) → e.write_takes n ≡ some n)
      → Types e.typed cs
      → Receives e.socket out
      → Goes es cmds outs
      → Goes (e ∷ es) (cs ++ cmds) (out ++ outs)

-- The server has closed the connection, or it is broken.
pub data Closes : Events → Type 0 where
  closed :
      {takes : _}
      → Closes (record { typed = none; write_takes = takes; socket = readable (some []) })
  fails : {takes : _} → Closes (record { typed = none; write_takes = takes; socket = broken })

abbrev pub session_after : Session → List Command → List ℕ → Session
session_after s cmds outs = record s { sent = s.sent ++ print_all cmds; shown = s.shown ++ outs }

print_all-append :
    (cs cmds : List Command) → print_all (cs ++ cmds) ≡ print_all cs ++ print_all cmds
print_all-append [] cmds = refl
print_all-append (c ∷ cs) cmds =
    ap (λ xs. print c ++ xs) (print_all-append cs cmds)
    ∙ sym (append_assoc (print c) (print_all cs) (print_all cmds))

same_session : (s : Session) → session_after s [] [] ≡ s
same_session s =
    ap (λ xs. record s { sent = xs; shown = s.shown ++ [] }) (append-nil s.sent)
    ∙ ap (λ xs. record s { shown = xs }) (append-nil s.shown)

on_typed-Types :
    {t : Option (Option (List ℕ))} {cs : List Command} (takes : ℕ → Option ℕ) (s : Session)
    → ((n : ℕ) → takes n ≡ some n)
    → Types t cs
    → on_typed t takes s ≡ done (record s { sent = s.sent ++ print_all cs })
on_typed-Types takes s all idle = ap (λ xs. done (record s { sent = xs })) (sym (append-nil s.sent))
on_typed-Types takes s all (enters {bs} {cmd} k) =
    rw (line_to_send-print k, all (length (print cmd)))
      (ap (λ xs. done (record s { sent = s.sent ++ xs }))
        (take_all (length (print cmd)) (print cmd) (omega arith) ∙ sym (append-nil (print cmd))))

on_socket-Receives :
    {e : SocketEvent} {out : List ℕ} (s : Session)
    → Receives e out
    → on_socket e s ≡ record s { shown = s.shown ++ out }
on_socket-Receives s silent = ap (λ xs. record s { shown = xs }) (sym (append-nil s.shown))
on_socket-Receives s failed = ap (λ xs. record s { shown = xs }) (sym (append-nil s.shown))
on_socket-Receives s gets_bytes = refl

next_round :
    (e : Events) (es : List Events) (s : Session)
    → s.is_online ≡ true
    → client_loop (e ∷ es) s ≡ client_round e s >>= client_loop es
unfolding client_loop
next_round e es s online =
    ap (λ b. if b then client_round e s >>= client_loop es else done s) online

client_loop-Goes :
    {es : List Events} {cmds : List Command} {outs : List ℕ} (tail : List Events) (s : Session)
    → Goes es cmds outs
    → s.is_online ≡ true
    → client_loop (es ++ tail) s ≡ client_loop tail (session_after s cmds outs)
unfolding client_loop
client_loop-Goes tail s start online = ap (client_loop tail) (sym (same_session s))
client_loop-Goes tail s (round {e} {es} {cs} {cmds} {out} {outs} takes t r g) online =
    let s' : Session = record s { sent = s.sent ++ print_all cs } in
    let s'' : Session = record s' { shown = s.shown ++ out } in
    let sent : (s.sent ++ print_all cs) ++ print_all cmds ≡ s.sent ++ print_all (cs ++ cmds) =
      append_assoc s.sent (print_all cs) (print_all cmds)
      ∙ ap (λ xs. s.sent ++ xs) (sym (print_all-append cs cmds)) in
    next_round e (es ++ tail) s online
    ∙ rw (on_typed-Types e.write_takes s takes t, on_socket-Receives s' r)
        (client_loop-Goes tail s'' g online
          ∙ ap (λ xs. client_loop tail (record s { sent = xs; shown = (s.shown ++ out) ++ outs }))
              sent
          ∙ ap
              (λ xs.
                client_loop tail (record s { sent = s.sent ++ print_all (cs ++ cmds); shown = xs }))
              (append_assoc s.shown out outs))

stopped : (es : List Events) (s : Session) → s.is_online ≡ false → client_loop es s ≡ done s
unfolding client_loop
stopped [] s offline = refl
stopped (e ∷ es) s offline = rw offline refl

closed_loop :
    (e : Events) (tail : List Events) (s : Session)
    → Closes e
    → s.is_online ≡ true
    → client_loop (e ∷ tail) s ≡ done (record s { is_online = false })
unfolding client_loop
closed_loop e tail s closed online = rw online (stopped tail (record s { is_online = false }) refl)
closed_loop e tail s fails online = rw online (stopped tail (record s { is_online = false }) refl)

-- If in each round nothing or a well-formed line is typed, every write takes all of its bytes, and
-- the socket gives bytes, nothing or an error, and then, with nothing typed, the server closes the
-- connection or it breaks, client_loop ends there, whatever would come after, having sent the
-- lines of all commands and shown all bytes received, in their order.
pub client_loop_until_closed :
    {es : List Events} {cmds : List Command} {outs : List ℕ} (e : Events) (tail : List Events)
    (s : Session)
    → Goes es cmds outs
    → Closes e
    → s.is_online ≡ true
    → client_loop (es ++ (e ∷ tail)) s
      ≡ done (record (session_after s cmds outs) { is_online = false })
client_loop_until_closed {es} {cmds} {outs} e tail s g c online =
    client_loop-Goes (e ∷ tail) s g online ∙ closed_loop e tail (session_after s cmds outs) c online

AllCommands-append :
    (cs cmds : List Command) → AllCommands cs → AllCommands cmds → AllCommands (cs ++ cmds)
AllCommands-append [] cmds h k = k
AllCommands-append (c ∷ cs) cmds h k = (h.0, AllCommands-append cs cmds h.1 k)

Types-AllCommands : {t : Option (Option (List ℕ))} {cs : List Command} → Types t cs → AllCommands cs
Types-AllCommands idle = tt
Types-AllCommands (enters k) = (IsTyped-IsCommand k, tt)

Goes-AllCommands :
    {es : List Events} {cmds : List Command} {outs : List ℕ} → Goes es cmds outs → AllCommands cmds
Goes-AllCommands start = tt
Goes-AllCommands (round {cs} {cmds} takes t r g) =
    AllCommands-append cs cmds (Types-AllCommands t) (Goes-AllCommands g)

-- If a client has sent its login line, then lives through rounds in which nothing or a well-formed
-- line is typed, every write takes all of its bytes and the socket gives bytes, nothing or an
-- error, until the server closes the connection or it breaks, and all that client_loop has sent
-- lies in one good node of the reading buffer of a client of a server whose state is as for
-- try_to_handle_msg, then try_to_handle_msg does in the server what the login and the typed
-- commands say, one after the other.
pub client_loop-Serves :
    {es : List Events} {cmds : List Command} {outs : List ℕ} (e : Events) (tail : List Events)
    (name : List ℕ) (s r : Session) (others : ℕ → ℕ) (i : ℕ) (gs : ℕ → Surroundings) (st : State)
    (c : ClientData)
    → Goes es cmds outs
    → Closes e
    → s.is_online ≡ true
    → s.sent ≡ print (login name)
    → IsLine name
    → client_loop (es ++ (e ∷ tail)) s ≡ done r
    → Generous gs
    → IsReady others i r.sent st c
    → reached_all (login name ∷ cmds) i (view st.server.clients) < 2 ^ 32
    → Returns (Serves (login name ∷ cmds) others i 0 st) (try_to_handle_msg gs i st)
client_loop-Serves {es} {cmds} {outs} e tail name s r others i gs st c g closes online logged line
      ends generous ready few =
    let same : record (session_after s cmds outs) { is_online = false } ≡ r =
      done_inj (sym (client_loop_until_closed e tail s g closes online) ∙ ends) in
    let input : r.sent ≡ print_all (login name ∷ cmds) =
      ap (λ x. x.sent) (sym same) ∙ ap (λ xs. xs ++ print_all cmds) logged in
    try_to_handle_msg-Serves others i gs (login name ∷ cmds) st c generous
      (line, Goes-AllCommands g) (subst (λ xs. IsReady others i xs st c) input ready) few
  where
    done_inj : {x y : Session} → ◌≡◌ {A = Outcome Session} (done x) (done y) → x ≡ y
    done_inj same = cc same
