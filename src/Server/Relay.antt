-- ===== src/Server/Relay.antt =====
-- A round of the reading thread in which a client's lines arrive, and the round of the writing thread
-- after it.
pub mod Members
pub mod Exchanges
use cosc402_assignment.Base.{
  ℕ, zero, suc, ◌+◌, ◌^◌, ◌<◌, ◌≡◌, refl, sym, ap, ◌∙◌, false, Option, none, some, List, [], ◌∷◌,
  ◌++◌, arith, if◌then◌else◌, ◌==◌,
}
use mathlib.Core.Path.{subst}
use cosc402_assignment.Base.Lists.{length, get_elem?, set}
use cosc402_assignment.Base.Outcome.{Outcome, Returns, returns, ◌>>=◌}
use cosc402_assignment.Base.Outcome
use cosc402_assignment.Base.Words.{int_add}
use cosc402_assignment.Buffer.Node.{contents}
use cosc402_assignment.Buffer.Fill.{Pull}
use cosc402_assignment.Buffer.Drain.{Put}
use cosc402_assignment.Buffer.Drain.Writing.{IsSink}
use cosc402_assignment.ClientInfo.{ClientData}
use cosc402_assignment.Server.{is_leaving}
use cosc402_assignment.Server.Login.{Surroundings, State}
use cosc402_assignment.Server.Login.Leaving.{NotIn}
use cosc402_assignment.Server.Handle.Commands.{Command, Post, posted, login, to_all, to_client}
use cosc402_assignment.Server.Handle.Room.{
  Member, view, give_all, rename, obey, obey_all, reached_all,
}
use cosc402_assignment.Server.Handle.Rest.{RestBut, AllAtRest}
use cosc402_assignment.Server.Handle.Healthy.{IsHealthy, socket_ids}
use cosc402_assignment.Server.Handle.Fetching.{print_all, AllCommands}
use cosc402_assignment.Server.Handle.Loop.{Generous}
use cosc402_assignment.Server.Writing.{write_round, Round}
use cosc402_assignment.Server.Writing.Flush.{Distinct, AllSmall}
use cosc402_assignment.Server.Writing.Drained.{drain_all, NoneLeaving, AllSent}
use cosc402_assignment.Server.Writing.Rounds.{Writes, write_round-Writes}
use cosc402_assignment.Server.Reading.{PollEvent, Turn, read_round}
use cosc402_assignment.Server.Reading.Polling.{AllQuiet}
use cosc402_assignment.Server.Reading.Input.{IsHeard, Heeds, read_round-Heeds}
use cosc402_assignment.Server.Relay.Members.{
  Distinct-socket_ids, NobodyLeaves, NobodyLeaves-view, NoneLeaving-view, NobodyLeaves-obey_all,
  WaitsSmall, AllSmall-view,
}

-- To each of the sockets the waiting text of its member has been given.
abbrev pub AllHeard :
    {S : Type 0} → (S → List ℕ) → (ℕ → S) → (ℕ → S) → List ℕ → List Member → Type 0
AllHeard sent before after [] [] = Unit {0}
AllHeard sent before after [] (m ∷ ms) = ⊥
AllHeard sent before after (k ∷ ks) [] = ⊥
AllHeard sent before after (k ∷ ks) (m ∷ ms) =
    (sent (after k) ≡ sent (before k) ++ (if m.leaving then [] else m.waits))
    × AllHeard sent before after ks ms

module _ {S : Type 0} (put : List ℕ → S → Put S) (sent : S → List ℕ) (sink : IsSink put sent) where
  AllSent-AllHeard :
      (before between after : ℕ → S) (cs : List ClientData)
      → ((k : ℕ) → sent (between k) ≡ sent (before k))
      → AllSent put sent sink between after cs
      → AllHeard sent before after (socket_ids cs) (view cs)
  AllSent-AllHeard before between after [] same a = tt
  AllSent-AllHeard before between after (c ∷ cs) same a = (
    a.0
        ∙ ap (λ t. t ++ (if is_leaving c then [] else contents c.writing_buffer))
            (same c.socket_id),
    AllSent-AllHeard before between after cs same a.1,
  )

  -- The lines have been done to the room and all that waited then has been sent.
  pub record Relays (cmds : List Command) (others : ℕ → ℕ) (i : ℕ) (s : State) (sockets : ℕ → S)
      (r : Round S) : Type 0 where
    pub room : view r.state.server.clients ≡ drain_all (obey_all cmds i (view s.server.clients))
    pub heard :
        AllHeard sent sockets r.sockets
          (socket_ids s.server.clients)
          (obey_all cmds i (view s.server.clients))
    pub signal : r.state.server.sign_to_flush_msg ≡ (
        if reached_all cmds i (view s.server.clients) == 0
        then s.server.sign_to_flush_msg
        else int_add s.server.sign_to_flush_msg 1)
    pub waits : r.waits ≡ (r.state.server.sign_to_flush_msg == 0)
    pub healthy : IsHealthy others r.state.server r.state.mem
    pub same_sockets : socket_ids r.state.server.clients ≡ socket_ids s.server.clients
    pub rest : RestBut i s.server.clients → AllAtRest r.state.server.clients

  both_rounds :
      (cmds : List Command) (others : ℕ → ℕ) (i : ℕ) (s : State) (sockets : ℕ → S) (t : Turn S)
      (r : Round S)
      → Heeds sent cmds others i s sockets t
      → Writes put sent sink others t.state t.sockets r
      → Relays cmds others i s sockets r
  both_rounds cmds others i s sockets t r v w = record {
    room = w.room ∙ ap drain_all v.serves.room;
    heard =
        subst (λ ks. AllHeard sent sockets r.sockets ks (obey_all cmds i (view s.server.clients)))
          v.serves.same_sockets
          (subst (AllHeard sent sockets r.sockets (socket_ids t.state.server.clients)) v.serves.room
            (AllSent-AllHeard sockets t.sockets r.sockets t.state.server.clients v.unsent
              w.output));
    signal =
        let none_before : 0 + reached_all cmds i (view s.server.clients)
            ≡ reached_all cmds i (view s.server.clients) =
          omega arith in
        w.sign
        ∙ v.serves.signal
        ∙ ap
            (λ n.
              if n == 0 then s.server.sign_to_flush_msg else int_add s.server.sign_to_flush_msg 1)
            none_before;
    waits = w.waits ∙ ap (λ n. n == 0) (sym w.sign);
    healthy = w.healthy;
    same_sockets = w.same_sockets ∙ v.serves.same_sockets;
    rest = λ a. w.rest (v.serves.rest a);
  }

  -- If poll returns a positive number and reports input on the socket of one client and nothing of
  -- the others, the client is not marked, its reading buffer is empty, its search starts at 0 and
  -- its name is a string that fits its array, the socket gives at once, without what it was sent
  -- being changed, as many bytes as ioctl says, at most 512 and at least one, and they are
  -- well-formed lines LOGIN, TO-ALL and TO-C that make less than 2 ^ 32 copies, nobody is marked,
  -- no two clients have the same socket, the sockets take bytes, every allocation is granted, the
  -- buffers are good, hold their blocks and would hold less than 2 ^ 64 bytes each, and
  -- client_count is the number of clients, less than 2 ^ 31, then a read_round and the write_round
  -- after it end, do to the names what the lines say one after the other, send to the socket of
  -- every client exactly what waited for it and what the lines bring it, and raise
  -- sign_to_flush_msg by one if there was anything to bring.
  pub relay_lines :
      (read : ℕ → S → Pull S) (available : S → Option ℕ) (events : ℕ → PollEvent) (others : ℕ → ℕ)
      (es : ℕ → ℕ → Surroundings) (gs : ℕ → Surroundings) (s : State) (sockets : ℕ → S)
      (xs ys : List ClientData) (c : ClientData) (cmds : List Command) (rest : S) (ret : ℕ)
      → (0 < ret) × (ret < 2 ^ 31)
      → ((n : ℕ) → Generous (es n))
      → AllCommands cmds
      → s.server.clients ≡ xs ++ (c ∷ ys)
      → AllQuiet events xs × AllQuiet events ys
      → IsHealthy others s.server s.mem
      → IsHeard read available events (print_all cmds) c (sockets c.socket_id) rest
      → sent rest ≡ sent (sockets c.socket_id)
      → reached_all cmds (length xs) (view s.server.clients) < 2 ^ 32
      → WaitsSmall (obey_all cmds (length xs) (view s.server.clients))
      → Distinct s.server.clients × NoneLeaving s.server.clients
      → Returns (Relays cmds others (length xs) s sockets) (
          read_round read available events ret es s sockets
          >>= (λ t. write_round put gs t.state t.sockets))
  relay_lines read available events others es gs s sockets xs ys c cmds rest ret reports g k list
        quiet h heard unsent few small alone =
      let i = length xs in
      Outcome.bind
        (read_round-Heeds read available events sent others es s sockets xs ys c cmds rest ret
          reports g k list quiet h heard unsent few)
        (λ t v.
          Outcome.mono
            (write_round-Writes put sent sink others gs t.state t.sockets v.serves.healthy
              (AllSmall-view t.state.server.clients (subst WaitsSmall (sym v.serves.room) small))
              (Distinct-socket_ids s.server.clients t.state.server.clients v.serves.same_sockets
                alone.0)
              (NoneLeaving-view t.state.server.clients (
                subst NobodyLeaves (sym v.serves.room) (
                  NobodyLeaves-obey_all cmds i (view s.server.clients)
                    (NobodyLeaves-view s.server.clients alone.1)))))
            (λ r w. both_rounds cmds others i s sockets t r v w))
