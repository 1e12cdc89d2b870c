-- ===== src/Server/Handle/Loop.antt =====
-- The loop of `try_to_handle_msg` does to the room what the client's lines say, line by line, and
-- ends when there is no more.
use cosc402_assignment.Base.{
  ℕ, zero, suc, ◌+◌, ◌^◌, ◌≤◌, ◌<◌, ◌≡◌, refl, sym, ap, ◌∙◌, true, List, [], ◌∷◌, ◌++◌, arith,
  append-nil, ◌==◌, if◌then◌else◌,
}
use mathlib.Core.Path.{subst, fun_ext}
use cosc402_assignment.Base.Lists.{length, get_elem?, length-append}
use cosc402_assignment.Base.Outcome.{Outcome, done, Returns, returns, ◌>>=◌}
use cosc402_assignment.Base.Outcome
use cosc402_assignment.Base.Words.{int_add}
use cosc402_assignment.Buffer.Node.{Node, Buffer, Mem, AllGood, bytes, contents}
use cosc402_assignment.Buffer.Ownership.{and_nodes}
use cosc402_assignment.ClientInfo.{ClientData}
use cosc402_assignment.Message.Laws.{IsGranted}
use cosc402_assignment.Server.{ServerInfo}
use cosc402_assignment.Server.Login.{Surroundings, State, signalled}
use cosc402_assignment.Server.Handle.{handle_loop, Handled, with_client, try_to_handle_msg, waiting}
use cosc402_assignment.Server.Handle.Commands.{Command, print}
use cosc402_assignment.Server.Handle.Room.{
  member, view, view-set, view-get_elem?, obey, reached, obey_all, reached_all,
}
use cosc402_assignment.Server.Handle.Rest.{RestBut, AllAtRest, AllAtRest-set}
use cosc402_assignment.Server.Handle.Healthy.{
  signal_of, signalled-IsHealthy, same_clients, IsHealthy, IsHealthy-set, socket_ids,
  socket_ids-set,
}
use cosc402_assignment.Server.Handle.Lines.{Handles, handle_line-Handles}
use cosc402_assignment.Server.Handle.OneNode.{OneNode, empty, one, fetch_empty}
use cosc402_assignment.Server.Handle.Fetching.{
  body, print_all, AllCommands, print_all-IsText, first_line, set_same, IsReady, taken_from,
  fetch-Fetches,
}

abbrev pub Generous : (ℕ → Surroundings) → Type 0
Generous es = (n : ℕ) → IsGranted (es n).alloc × ((es n).list_granted ≡ true)

-- What the loop leaves.
pub record Serves (cmds : List Command) (others : ℕ → ℕ) (i need : ℕ) (s s' : State) : Type 0 where
  pub room : view s'.server.clients ≡ obey_all cmds i (view s.server.clients)
  pub signal : s'.server.sign_to_flush_msg ≡ (
      if need + reached_all cmds i (view s.server.clients) == 0
      then s.server.sign_to_flush_msg
      else int_add s.server.sign_to_flush_msg 1)
  pub healthy : IsHealthy others s'.server s'.mem
  pub same_sockets : socket_ids s'.server.clients ≡ socket_ids s.server.clients
  pub rest : RestBut i s.server.clients → AllAtRest s'.server.clients

no_input : (b : Buffer) → OneNode b [] → b ≡ []
no_input [] (empty e) = refl
no_input (n ∷ []) (one e pos) = absurd (omega (arith, pos))
no_input (n ∷ (n' ∷ ns)) o = elim o [ ]

input_node :
    (b : Buffer) (xs : List ℕ)
    → OneNode b xs
    → 0 < length xs
    → (n : Node) × (b ≡ n ∷ []) × (bytes n ≡ xs)
input_node [] xs (empty e) pos = absurd (omega (arith, ap length e))
input_node (n ∷ []) xs (one e pos') pos = (n, refl, e)
input_node (n ∷ (n' ∷ ns)) xs o pos = elim o [ ]

no_nodes : (others : ℕ → ℕ) → and_nodes [] others ≡ others
no_nodes others = fun_ext (λ a. omega arith)

some_input : (cmd : Command) (rest : List ℕ) → 0 < length (print cmd ++ rest)
some_input cmd rest =
    omega (arith, ap length (first_line cmd rest), length-append (body cmd) (10 ∷ rest))

module _ (others : ℕ → ℕ) (i : ℕ) where
  -- What follows a line that has been handled.
  next-IsReady :
      (cmd : Command) (rest : List ℕ) (s : State) (c : ClientData) (h : Handled)
      → IsReady others i rest s c
      → (k : Handles cmd (and_nodes c.reading_buffer others) s.server i c h)
      → IsReady others i rest h.state k.sender.now
  next-IsReady cmd rest s c h ready k = record {
    there = k.sender.is_now;
    named = k.sender.named;
    good = subst AllGood (sym k.sender.input) ready.good;
    node = subst (λ b. OneNode b rest) (sym k.sender.input) ready.node;
    start = k.sender.search ∙ ready.start;
    healthy =
        subst (λ b. IsHealthy (and_nodes b others) h.state.server h.state.mem) (sym k.sender.input)
          k.healthy;
  }

  -- The room and the signal after the first line and the others.
  Serves-cons :
      (cmd : Command) (cmds : List Command) (need need' : ℕ) (s s' s'' : State)
      → view s'.server.clients ≡ obey cmd i (view s.server.clients)
      → s'.server.sign_to_flush_msg ≡ s.server.sign_to_flush_msg
      → need' ≡ need + reached cmd i (view s.server.clients)
      → socket_ids s'.server.clients ≡ socket_ids s.server.clients
      → (RestBut i s.server.clients → RestBut i s'.server.clients)
      → Serves cmds others i need' s' s''
      → Serves (cmd ∷ cmds) others i need s s''
  Serves-cons cmd cmds need need' s s' s'' room signal count sockets rest v = record {
    room = v.room ∙ ap (obey_all cmds i) room;
    signal =
        let ms = view s.server.clients in
        let total : need' + reached_all cmds i (view s'.server.clients)
            ≡ need + (reached cmd i ms + reached_all cmds i (obey cmd i ms)) =
          ap (λ rs. need' + reached_all cmds i rs) room ∙ omega (arith, count) in
        v.signal
        ∙ ap
            (λ t.
              if t == 0 then s'.server.sign_to_flush_msg else int_add s'.server.sign_to_flush_msg 1)
            total
        ∙ ap
            (λ f.
              if need + (reached cmd i ms + reached_all cmds i (obey cmd i ms)) == 0
              then f
              else int_add f 1)
            signal;
    healthy = v.healthy;
    same_sockets = v.same_sockets ∙ sockets;
    rest = λ r. v.rest (rest r);
  }

  -- The signal of the last round.
  ended :
      (need : ℕ) (s : State) (server : ServerInfo) (m : Mem)
      → view server.clients ≡ view s.server.clients
      → server.sign_to_flush_msg ≡ s.server.sign_to_flush_msg
      → socket_ids server.clients ≡ socket_ids s.server.clients
      → (RestBut i s.server.clients → AllAtRest server.clients)
      → IsHealthy others server m
      → Serves [] others i need s (record { server = signalled need server; mem = m })
  ended need s server m room signal sockets rest h =
      let nothing : need + 0 ≡ need = omega arith in
      record {
        room = ap view (same_clients need server) ∙ room;
        signal =
            signal_of need server
            ∙ ap (λ f. if need == 0 then f else int_add f 1) signal
            ∙ ap
                (λ t.
                  if t == 0
                  then s.server.sign_to_flush_msg
                  else int_add s.server.sign_to_flush_msg 1)
                (sym nothing);
        healthy = signalled-IsHealthy need others server m h;
        same_sockets = ap socket_ids (same_clients need server) ∙ sockets;
        rest = λ r. subst AllAtRest (sym (same_clients need server)) (rest r);
      }

  last_round :
      (fuel : ℕ) (es : ℕ → Surroundings) (need : ℕ) (s : State) (c : ClientData)
      → IsReady others i [] s c
      → c.reading_buffer ≡ []
      → Returns (Serves [] others i need s) (handle_loop (suc fuel) es i need s)
  unfolding handle_loop
  last_round fuel es need s c ready buffer =
      rw (ready.there, fetch_empty c s.mem.pool buffer)
        (returns (
          ended need s (with_client s.server i emptied) (s.mem)
            (view-set s.server.clients i emptied
              ∙ set_same (view s.server.clients) i (member c)
                  (view-get_elem? s.server.clients i c ready.there))
            refl (socket_ids-set s.server.clients i c emptied ready.there refl)
            (AllAtRest-set s.server.clients i c emptied ready.there
              (λ m. record { unmarked = m; named = ready.named; empty = refl; start = refl }))
            (IsHealthy-set others s.server s.mem i c emptied s.mem.pool ready.there refl
              healthy.owns healthy)))
    where
      healthy : IsHealthy others s.server s.mem
      healthy =
          subst (λ f. IsHealthy f s.server s.mem) (no_nodes others) (rw buffer at ready.healthy)

      emptied : ClientData
      emptied = record c { reading_buffer = []; last_check_cmd_index = 0 }

  serve :
      (fuel : ℕ) (es : ℕ → Surroundings) (cmds : List Command) (need : ℕ) (s : State)
      (c : ClientData)
      → Generous es
      → IsReady others i (print_all cmds) s c
      → AllCommands cmds
      → length cmds < fuel
      → need + reached_all cmds i (view s.server.clients) < 2 ^ 32
      → Returns (Serves cmds others i need s) (handle_loop fuel es i need s)
  unfolding handle_loop
  serve zero es cmds need s c g ready k enough few = absurd (omega arith)
  serve (suc fuel) es [] need s c g ready k enough few =
      last_round fuel es need s c ready (no_input c.reading_buffer ready.node)
  serve (suc fuel) es (cmd ∷ cmds) need s c g ready k enough few =
      let (n, buffer, form) =
        input_node c.reading_buffer (print cmd ++ print_all cmds) ready.node
          (some_input cmd (print_all cmds)) in
      rw ready.there (
        Outcome.bind
          (fetch-Fetches others i s c cmd (print_all cmds) n ready k.0
            (print_all-IsText (cmd ∷ cmds) k) buffer form)
          (λ f t.
            rw (t.some_bytes, t.msg)
              (Outcome.bind
                (handle_line-Handles (and_nodes f.client.reading_buffer others)
                  (with_client s.server i f.client) i f.client (record (s.mem) { pool = f.pool })
                  t.ready.there t.ready.healthy t.ready.named cmd k.0 (es 0) (g 0).0 (g 0).1)
                (λ h v.
                  let reach : ℕ = reached cmd i (view s.server.clients) in
                  let same : h.sent_count ≡ reach = v.count ∙ ap (reached cmd i) t.same_room in
                  let room : view h.state.server.clients ≡ obey cmd i (view s.server.clients) =
                    v.room ∙ ap (obey cmd i) t.same_room in
                  let left = reached_all cmds i (obey cmd i (view s.server.clients)) in
                  let count : int_add need h.sent_count ≡ need + reach = omega (arith, same, few) in
                  Outcome.mono
                    (serve fuel (λ n. es (suc n)) cmds (int_add need h.sent_count) h.state
                      v.sender.now (λ n. g (suc n))
                      (next-IsReady cmd (print_all cmds) (taken_from s i f.client f.pool) f.client h
                        t.ready v)
                      k.1 (omega (arith, enough))
                      (omega (arith, count, few, ap (reached_all cmds i) room)))
                    (λ s'' w.
                      Serves-cons cmd cmds need (int_add need h.sent_count) s h.state s'' room
                        v.signal count (v.same_sockets ∙ t.same_sockets)
                        (λ r. v.rest (t.others_rest r)) w)))))

-- If the input of a client lies in one good node of its reading buffer and is a sequence of
-- well-formed lines LOGIN, TO-ALL and TO-C, the name of the client is a string that fits its
-- array, every allocation is granted, the buffers are good and hold their blocks, client_count is
-- the number of clients, less than 2 ^ 31, and less than 2 ^ 32 copies are sent, then
-- try_to_handle_msg ends, has done to the names and waiting texts of all clients what the lines
-- say one after the other, has raised sign_to_flush_msg by one if anything was sent and left it
-- otherwise, and the buffers are good and hold their blocks again.
pub try_to_handle_msg-Serves :
    (others : ℕ → ℕ) (i : ℕ) (es : ℕ → Surroundings) (cmds : List Command) (s : State)
    (c : ClientData)
    → Generous es
    → AllCommands cmds
    → IsReady others i (print_all cmds) s c
    → reached_all cmds i (view s.server.clients) < 2 ^ 32
    → Returns (Serves cmds others i 0 s) (try_to_handle_msg es i s)
unfolding try_to_handle_msg contents
try_to_handle_msg-Serves others i es cmds s c g k ready few =
    serve others i (suc (waiting (get_elem? s.server.clients i))) es cmds 0 s c g ready k
      (omega (
        arith,
        ap waiting ready.there,
        enough c.reading_buffer (print_all cmds) ready.node,
        print_all_long cmds,
      ))
      (omega (arith, few))
  where
    enough : (b : Buffer) (xs : List ℕ) → OneNode b xs → length (contents b) ≡ length xs
    enough [] xs (empty e) = sym (ap length e)
    enough (n ∷ []) xs (one e pos) = ap length (append-nil (bytes n) ∙ e)
    enough (n ∷ (n' ∷ ns)) xs o = elim o [ ]

    print_all_long : (cmds : List Command) → length cmds ≤ length (print_all cmds)
    print_all_long [] = omega arith
    print_all_long (cmd ∷ cmds) = omega (
      arith,
      print_all_long cmds,
      ap length (first_line cmd (print_all cmds)),
      length-append (body cmd) (10 ∷ print_all cmds),
    )
