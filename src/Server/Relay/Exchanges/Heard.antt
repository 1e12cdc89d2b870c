-- ===== src/Server/Relay/Exchanges/Heard.antt =====
-- What the exchanges make of the room, and what each socket is given by them all.
use cosc402_assignment.Base.{
  ℕ, zero, suc, ◌≡◌, refl, sym, ap, ◌∙◌, Option, some, List, [], ◌∷◌, ◌++◌, arith, append_assoc,
  append-nil,
}
use mathlib.Core.Path.{subst}
use cosc402_assignment.Base.Lists.{get_elem?}
use cosc402_assignment.Base.Outcome.{Outcome, done, Returns, returns, ◌>>=◌}
use cosc402_assignment.Base.Outcome
use cosc402_assignment.Buffer.Fill.{Pull}
use cosc402_assignment.Buffer.Drain.{Put}
use cosc402_assignment.Buffer.Drain.Writing.{IsSink}
use cosc402_assignment.ClientInfo.{ClientData}
use cosc402_assignment.Server.Login.{State}
use cosc402_assignment.Server.Handle.Room.{Member, view}
use cosc402_assignment.Server.Handle.Healthy.{IsHealthy, socket_ids}
use cosc402_assignment.Server.Handle.Rest.{AllAtRest}
use cosc402_assignment.Server.Writing.{write_round}
use cosc402_assignment.Server.Writing.Flush.{Distinct}
use cosc402_assignment.Server.Writing.Drained.{drain_all, NoneLeaving}
use cosc402_assignment.Server.Reading.{Turn, read_round}
use cosc402_assignment.Server.Writing.{Round}
use cosc402_assignment.Server.Writing.Rounds.{Writes, write_round-Writes}
use cosc402_assignment.Server.Reading.Several.{FewCopies, HeedsAll}
use cosc402_assignment.Server.Reading.Several.WholeRound.{read_round-HeedsAll}
use cosc402_assignment.Server.Relay.{AllSent-AllHeard, AllHeard}
use cosc402_assignment.Server.Relay.Members.{Distinct-socket_ids, WaitsSmall, AllSmall-view}
use cosc402_assignment.Server.Relay.Exchanges.{spoken}
use cosc402_assignment.Server.Relay.Exchanges.{
  Exchange, serve_exchanges, room_after, hears, heard, Fits, IsOffered, AllOffered,
}

AllAtRest-NoneLeaving : (cs : List ClientData) → AllAtRest cs → NoneLeaving cs
AllAtRest-NoneLeaving [] h = tt
AllAtRest-NoneLeaving (c ∷ cs) h = (ground (arith, h.0.unmarked), AllAtRest-NoneLeaving cs h.1)

AllHeard-place :
    {S : Type 0} (sent : S → List ℕ) (before after : ℕ → S) (ks : List ℕ) (ms : List Member)
    (j k : ℕ)
    → AllHeard sent before after ks ms
    → get_elem? ks j ≡ some k
    → sent (after k) ≡ sent (before k) ++ hears (get_elem? ms j)
AllHeard-place sent before after [] ms j k a e = absurd (cc e)
AllHeard-place sent before after (l ∷ ks) [] j k a e = absurd a
AllHeard-place sent before after (l ∷ ks) (m ∷ ms) zero k a e =
    let same : l ≡ k = cc e in
    subst (λ x. sent (after x) ≡ sent (before x) ++ hears (some m)) same a.0
AllHeard-place sent before after (l ∷ ks) (m ∷ ms) (suc j) k a e =
    AllHeard-place sent before after ks ms j k a.1 e

-- Nothing is left over of earlier rounds.
pub record IsIdle (others : ℕ → ℕ) (s : State) : Type 0 where
  pub healthy : IsHealthy others s.server s.mem
  pub rest : AllAtRest s.server.clients
  pub apart : Distinct s.server.clients

module _ {S : Type 0} (read : ℕ → S → Pull S) (available : S → Option ℕ) (put : List ℕ → S → Put S)
    (sent : S → List ℕ) (sink : IsSink put sent) (others : ℕ → ℕ) where
  -- The room is as the lines say, and each socket has been given what its member heard.
  pub record CarriesOut (xs : List (Exchange S)) (s : State) (sockets : ℕ → S) (t : Turn S)
      : Type 0 where
    pub room :
        view t.state.server.clients
        ≡ room_after (socket_ids s.server.clients) xs (view s.server.clients)
    pub output :
        (j k : ℕ)
        → get_elem? (socket_ids s.server.clients) j ≡ some k
        → sent (t.sockets k)
          ≡ sent (sockets k) ++ heard (socket_ids s.server.clients) xs (view s.server.clients) j
    pub idle : IsIdle others t.state

  -- The two rounds of one exchange.
  record Exchanges (x : Exchange S) (s : State) (sockets : ℕ → S) (r : Round S) : Type 0 where
    room :
        view r.state.server.clients
        ≡ drain_all (spoken (socket_ids s.server.clients) x (view s.server.clients))
    output :
        AllHeard sent sockets r.sockets
          (socket_ids s.server.clients)
          (spoken (socket_ids s.server.clients) x (view s.server.clients))
    same_sockets : socket_ids r.state.server.clients ≡ socket_ids s.server.clients
    idle : IsIdle others r.state

  both_rounds :
      (x : Exchange S) (s : State) (sockets : ℕ → S) (t : Turn S) (r : Round S)
      → IsIdle others s
      → ((k : ℕ) → sent (x.arrive sockets k) ≡ sent (sockets k))
      → HeedsAll read available sent x.events x.lines others 0
          (socket_ids s.server.clients)
          s
          (x.arrive sockets)
          t
      → Writes put sent sink others t.state t.sockets r
      → Exchanges x s sockets r
  both_rounds x s sockets t r h unsent v w =
      let same = w.same_sockets ∙ v.same_sockets in
      record {
        room = w.room ∙ ap drain_all v.room;
        output =
            subst
              (λ ks.
                AllHeard sent sockets r.sockets ks
                  (spoken (socket_ids s.server.clients) x (view s.server.clients)))
              v.same_sockets
              (subst (AllHeard sent sockets r.sockets (socket_ids t.state.server.clients)) v.room (
                AllSent-AllHeard put sent sink sockets t.sockets r.sockets t.state.server.clients
                  (λ k. v.unsent k ∙ unsent k) w.output));
        same_sockets = same;
        idle = record {
          healthy = w.healthy;
          rest = w.rest v.rest;
          apart = Distinct-socket_ids s.server.clients r.state.server.clients same h.apart;
        };
      }

  one_exchange :
      (x : Exchange S) (s : State) (sockets : ℕ → S)
      → IsIdle others s
      → IsOffered read available sent (socket_ids s.server.clients) x
      → FewCopies x.lines 0 (socket_ids s.server.clients) (view s.server.clients)
      → WaitsSmall (spoken (socket_ids s.server.clients) x (view s.server.clients))
      → Returns (Exchanges x s sockets) (
          read_round read available x.events x.reported x.reading s (x.arrive sockets)
          >>= (λ t. write_round put x.writing t.state t.sockets))
  one_exchange x s sockets h o few small =
      Outcome.bind
        (read_round-HeedsAll read available sent x.events x.lines others x.reported x.reading s
          (x.arrive sockets) o.positive o.granted h.rest h.apart h.healthy (o.speak sockets) few)
        (λ t v.
          Outcome.mono
            (write_round-Writes put sent sink others x.writing t.state t.sockets v.healthy
              (AllSmall-view t.state.server.clients (subst WaitsSmall (sym v.room) small))
              (Distinct-socket_ids s.server.clients t.state.server.clients v.same_sockets h.apart)
              (AllAtRest-NoneLeaving t.state.server.clients v.rest))
            (λ r w. both_rounds x s sockets t r h (o.unsent sockets) v w))

  CarriesOut-cons :
      (x : Exchange S) (xs : List (Exchange S)) (s : State) (sockets : ℕ → S) (r : Round S)
      (t : Turn S)
      → Exchanges x s sockets r
      → CarriesOut xs r.state r.sockets t
      → CarriesOut (x ∷ xs) s sockets t
  CarriesOut-cons x xs s sockets r t w u =
      let ks = socket_ids s.server.clients in
      let ms = spoken ks x (view s.server.clients) in
      record {
        room =
            u.room
            ∙ ap (λ l. room_after l xs (view r.state.server.clients)) w.same_sockets
            ∙ ap (room_after ks xs) w.room;
        output = λ j k e.
            u.output j k (ap (λ l. get_elem? l j) w.same_sockets ∙ e)
            ∙ ap (λ l. sent (r.sockets k) ++ heard l xs (view r.state.server.clients) j)
                w.same_sockets
            ∙ ap (λ l. sent (r.sockets k) ++ heard ks xs l j) w.room
            ∙ ap (λ ys. ys ++ heard ks xs (drain_all ms) j)
                (AllHeard-place sent sockets r.sockets ks ms j k w.output e)
            ∙ append_assoc (sent (sockets k)) (hears (get_elem? ms j))
                (heard ks xs (drain_all ms) j);
        idle = u.idle;
      }

  -- From a state in which no client is marked, no two have the same socket, every name is a string
  -- that fits its array, every reading buffer is empty with its search at 0, the buffers are good
  -- and hold their blocks, and client_count is the number of clients, less than 2 ^ 31, for any
  -- list of exchanges, in each of which poll returns a positive number and reports nothing or
  -- input of each socket, and a socket with input gives at once, whatever was on it before and
  -- without what it was sent being changed, as many bytes as ioctl says, at most 512 and at least
  -- one, and they are well-formed lines LOGIN, TO-ALL and TO-C, if the sockets take bytes, every
  -- allocation for the reading is granted, the lines of one client in one exchange make less than
  -- 2 ^ 32 copies, and no waiting text reaches 2 ^ 64 bytes, then a round of the reading and one
  -- of the writing thread for each exchange end in such a state again, with the names that the
  -- lines give, and the socket of every client has been sent exactly what the lines of all clients
  -- in all exchanges bring it, in the order of the exchanges and, in each, of the list.
  pub serve_exchanges-CarriesOut :
      (xs : List (Exchange S)) (s : State) (sockets : ℕ → S)
      → IsIdle others s
      → AllOffered read available sent (socket_ids s.server.clients) xs
      → Fits (socket_ids s.server.clients) xs (view s.server.clients)
      → Returns (CarriesOut xs s sockets) (serve_exchanges read available put xs s sockets)
  unfolding serve_exchanges
  serve_exchanges-CarriesOut [] s sockets h o f =
      returns
        (record { room = refl; output = λ j k e. sym (append-nil (sent (sockets k))); idle = h })
  serve_exchanges-CarriesOut (x ∷ xs) s sockets h o f =
      Outcome.bind (one_exchange x s sockets h o.0 f.0.0 f.0.1) (λ r w.
        Outcome.mono
          (serve_exchanges-CarriesOut xs r.state r.sockets w.idle
            (subst (λ ks. AllOffered read available sent ks xs) (sym w.same_sockets) o.1)
            (subst (λ ks. Fits ks xs (view r.state.server.clients)) (sym w.same_sockets)
              (subst (Fits (socket_ids s.server.clients) xs) (sym w.room) f.1)))
          (λ t u. CarriesOut-cons x xs s sockets r t w u))
