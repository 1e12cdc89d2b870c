-- ===== src/Server/Reading/Several/OneClient.antt =====
-- One entry of the list in such a round: nothing is done, or the client's lines are.
use cosc402_assignment.Base.{
  ℕ, zero, suc, ◌+◌, ◌^◌, ◌≤◌, ◌<◌, ◌≡◌, ◌≢◌, refl, sym, ap, ◌∙◌, true, Option, some, List, [], ◌∷◌,
  arith, ◌==◌, ==_self,
}
use mathlib.Core.Path.{subst}
use cosc402_assignment.Base.Lists.{length, get_elem?}
use cosc402_assignment.Base.Outcome.{Outcome, done, Returns, returns}
use cosc402_assignment.Base.Outcome
use cosc402_assignment.Buffer.Fill.{Pull, got}
use cosc402_assignment.ClientInfo.{ClientData}
use cosc402_assignment.Server.Login.{Surroundings, State}
use cosc402_assignment.Server.Handle.Commands.{Command}
use cosc402_assignment.Server.Handle.Room.{view, obey_all, reached_all}
use cosc402_assignment.Server.Handle.Healthy.{IsHealthy, socket_ids}
use cosc402_assignment.Server.Handle.Rest.{
  AtRest, AllAtRest, AllAtRest-RestBut, AllAtRest-get_elem?,
}
use cosc402_assignment.Server.Handle.Fetching.{print_all, AllCommands}
use cosc402_assignment.Server.Handle.Loop.{Generous}
use cosc402_assignment.Server.Reading.{PollEvent, no_event, input, polled, Turn, read_one}
use cosc402_assignment.Server.Reading.Input.{Heeds, read_one-Heeds}
use cosc402_assignment.Server.Reading.Several.{Speaks, says_nothing, says, raised}

-- The client at a place.
client_of :
    (cs : List ClientData) (i k : ℕ)
    → get_elem? (socket_ids cs) i ≡ some k
    → (c : ClientData) × (get_elem? cs i ≡ some c) × (c.socket_id ≡ k)
client_of [] i k e = absurd (cc e)
client_of (c ∷ cs) zero k e = (c, refl, cc e)
client_of (c ∷ cs) (suc i) k e = client_of cs i k e

module _ {S : Type 0} (read : ℕ → S → Pull S) (available : S → Option ℕ) (sent : S → List ℕ)
    (events : ℕ → PollEvent) (lines : ℕ → List Command) where
  module _ (others : ℕ → ℕ) where
    -- One entry of the list, for the client that is at the place now.
    one_quiet :
        (es : ℕ → Surroundings) (s : State) (sockets : ℕ → S) (i : ℕ) (c d : ClientData)
        → get_elem? s.server.clients i ≡ some d
        → d.socket_id ≡ c.socket_id
        → c.pub_mark ≡ 0
        → events c.socket_id ≡ no_event
        → read_one read available events es s sockets (polled c, i)
          ≡ done (record { state = s; sockets = sockets })
    one_quiet es s sockets i c d there own unmarked quiet =
        let open_one : (c.pub_mark == 0) ≡ true = ground (arith, unmarked) in
        rw (open_one, there, own, ==_self c.socket_id, quiet) refl

    one_heard :
        (es : ℕ → Surroundings) (s : State) (sockets : ℕ → S) (i : ℕ) (c d : ClientData) (rest : S)
        → Generous es
        → get_elem? s.server.clients i ≡ some d
        → d.socket_id ≡ c.socket_id
        → c.pub_mark ≡ 0
        → AtRest d
        → IsHealthy others s.server s.mem
        → events c.socket_id ≡ input
        → AllCommands (lines c.socket_id)
        → (0 < length (print_all (lines c.socket_id)))
          × (length (print_all (lines c.socket_id)) ≤ 512)
        → available (sockets c.socket_id) ≡ some (length (print_all (lines c.socket_id)))
        → read (length (print_all (lines c.socket_id))) (sockets c.socket_id)
          ≡ got (print_all (lines c.socket_id)) rest
        → sent rest ≡ sent (sockets c.socket_id)
        → reached_all (lines c.socket_id) i (view s.server.clients) < 2 ^ 32
        → Returns
            (Heeds sent (lines c.socket_id) others i s sockets)
            (read_one read available events es s sockets (polled c, i))
    one_heard es s sockets i c d rest g there own unmarked calm h reported cmds size announced gives
          unsent few =
        let text = print_all (lines c.socket_id) in
        let same : polled d ≡ polled c =
          let open_one : (c.pub_mark == 0) ≡ true = ground (arith, unmarked) in
          let open_two : (d.pub_mark == 0) ≡ true = ground (arith, calm.unmarked) in
          rw (open_one, open_two) (ap some own) in
        subst
          (λ p.
            Returns (Heeds sent (lines c.socket_id) others i s sockets)
              (read_one read available events es s sockets (p, i)))
          same
          (read_one-Heeds sent (lines c.socket_id) others s sockets i d rest there h calm.named
            calm.start (unsent ∙ ap (λ k. sent (sockets k)) (sym own)) read available events es g
            cmds few
            (record {
              unmarked = calm.unmarked;
              empty = calm.empty;
              start = calm.start;
              named = calm.named;
              reported = ap events own ∙ reported;
              some_text = size.0;
              fits = size.1;
              announced = ap (λ k. available (sockets k)) own ∙ announced;
              gives = ap (λ k. read (length text) (sockets k)) own ∙ gives;
            }))

    -- One client's part of the round.
    pub record Follows (i k : ℕ) (s : State) (sockets : ℕ → S) (t : Turn S) : Type 0 where
      pub room : view t.state.server.clients ≡ obey_all (lines k) i (view s.server.clients)
      pub signal :
          t.state.server.sign_to_flush_msg
          ≡ raised (reached_all (lines k) i (view s.server.clients)) s.server.sign_to_flush_msg
      pub healthy : IsHealthy others t.state.server t.state.mem
      pub rest : AllAtRest t.state.server.clients
      pub same_sockets : socket_ids t.state.server.clients ≡ socket_ids s.server.clients
      pub unsent : (j : ℕ) → sent (t.sockets j) ≡ sent (sockets j)
      pub untouched : (j : ℕ) → j ≢ k → t.sockets j ≡ sockets j

    module _ (es : ℕ → Surroundings) (s : State) (sockets : ℕ → S) (i : ℕ) (c : ClientData)
        (g : Generous es) (unmarked : c.pub_mark ≡ 0)
        (at_place : get_elem? (socket_ids s.server.clients) i ≡ some c.socket_id)
        (calm : AllAtRest s.server.clients) (h : IsHealthy others s.server s.mem) where
      Heeds-Follows :
          (t : Turn S)
          → Heeds sent (lines c.socket_id) others i s sockets t
          → Follows i c.socket_id s sockets t
      Heeds-Follows t v =
          let from_zero : 0 + reached_all (lines c.socket_id) i (view s.server.clients)
              ≡ reached_all (lines c.socket_id) i (view s.server.clients) =
            omega arith in
          record {
            room = v.serves.room;
            signal = v.serves.signal ∙ ap (λ n. raised n s.server.sign_to_flush_msg) from_zero;
            healthy = v.serves.healthy;
            rest = v.serves.rest (AllAtRest-RestBut i s.server.clients calm);
            same_sockets = v.serves.same_sockets;
            unsent = v.unsent;
            untouched = λ j ne. v.untouched j c.socket_id at_place ne;
          }

      pub read_one-Follows :
          Speaks read available sent events lines sockets c.socket_id
          → reached_all (lines c.socket_id) i (view s.server.clients) < 2 ^ 32
          → Returns
              (Follows i c.socket_id s sockets)
              (read_one read available events es s sockets (polled c, i))
      read_one-Follows (says_nothing quiet nothing) few =
          let (d, there, own) = client_of s.server.clients i c.socket_id at_place in
          let room = λ (l : List Command). obey_all l i (view s.server.clients) in
          let sign = λ (l : List Command).
            raised (reached_all l i (view s.server.clients)) s.server.sign_to_flush_msg in
          rw (one_quiet es s sockets i c d there own unmarked quiet) (
            returns (record {
              room = sym (ap room nothing);
              signal = sym (ap sign nothing);
              healthy = h;
              rest = calm;
              same_sockets = refl;
              unsent = λ j. refl;
              untouched = λ j ne. refl;
            }))
      read_one-Follows (says rest reported cmds size announced gives unsent) few =
          let (d, there, own) = client_of s.server.clients i c.socket_id at_place in
          Outcome.mono
            (one_heard es s sockets i c d rest g there own unmarked
              (AllAtRest-get_elem? s.server.clients i d there calm) h reported cmds size announced
              gives unsent few)
            Heeds-Follows
