-- ===== src/Server/Reading/Broken.antt =====
-- A client whose connection is over is marked by the reading thread, and the next round of the writing
-- thread logs it out.
use cosc402_assignment.Base.{
  ◌^◌, ℕ, ◌<◌, ◌≡◌, refl, sym, ap, ◌∙◌, true, Option, some, List, [], ◌∷◌, ◌++◌, arith, ◌==◌,
  ==_self,
}
use mathlib.Core.Path.{subst}
use cosc402_assignment.Base.Lists.{length, get_elem?, set}
use cosc402_assignment.Base.Strings.{IsLine, c_string}
use cosc402_assignment.Base.Outcome.{done, Returns, returns, ◌>>=◌}
use cosc402_assignment.Base.Outcome
use cosc402_assignment.Buffer.Node.{AllGood}
use cosc402_assignment.Buffer.Ownership.{and_nodes}
use cosc402_assignment.Buffer.Fill.{Pull}
use cosc402_assignment.Buffer.Drain.{Put}
use cosc402_assignment.Buffer.Drain.Writing.{IsSink}
use cosc402_assignment.ClientInfo.{ClientData}
use cosc402_assignment.Server.Login.{Surroundings, State}
use cosc402_assignment.Server.Login.Leaving.{NotIn}
use cosc402_assignment.Server.Handle.Healthy.{IsHealthy, IsHealthy-set, length-set}
use cosc402_assignment.Server.Handle.Loop.{Generous}
use cosc402_assignment.Server.Writing.{write_round}
use cosc402_assignment.Server.Writing.Flush.{Distinct, AllSmall}
use cosc402_assignment.Server.Writing.Drained.{NoneLeaving}
use cosc402_assignment.Server.Writing.Leaver.{Departs, write_round-Departs}
use cosc402_assignment.Server.Reading.{
  PollEvent, problem, polled, in_place, mark, read_one, read_round,
}
use cosc402_assignment.Server.Reading.Polling.{
  get_elem?-append, set-append, AllQuiet, read_round-one,
}

module _ {S : Type 0} (read : ℕ → S → Pull S) (available : S → Option ℕ)
    (events : ℕ → PollEvent) where
  problem_one :
      (es : ℕ → Surroundings) (s : State) (sockets : ℕ → S) (c : ClientData) (i : ℕ)
      → get_elem? s.server.clients i ≡ some c
      → c.pub_mark ≡ 0
      → events c.socket_id ≡ problem
      → read_one read available events es s sockets (polled c, i)
        ≡ done (record { state = in_place s i (mark c) s.mem; sockets = sockets })
  problem_one es s sockets c i there unmarked broken =
      let open_one : (c.pub_mark == 0) ≡ true = ground (arith, unmarked) in
      rw (open_one, there, ==_self c.socket_id, broken) refl

-- The mark does not change sockets and waiting texts.
NotIn-marked :
    (k : ℕ) (xs ys : List ClientData) (c : ClientData)
    → NotIn k (xs ++ (c ∷ ys))
    → NotIn k (xs ++ (mark c ∷ ys))
NotIn-marked k [] ys c h = h
NotIn-marked k (x ∷ xs) ys c h = (h.0, NotIn-marked k xs ys c h.1)

Distinct-marked :
    (xs ys : List ClientData) (c : ClientData)
    → Distinct (xs ++ (c ∷ ys))
    → Distinct (xs ++ (mark c ∷ ys))
Distinct-marked [] ys c h = h
Distinct-marked (x ∷ xs) ys c h =
    (NotIn-marked x.socket_id xs ys c h.0, Distinct-marked xs ys c h.1)

AllSmall-marked :
    (xs ys : List ClientData) (c : ClientData)
    → AllSmall (xs ++ (c ∷ ys))
    → AllSmall (xs ++ (mark c ∷ ys))
AllSmall-marked [] ys c h = h
AllSmall-marked (x ∷ xs) ys c h = (h.0, AllSmall-marked xs ys c h.1)

-- If nobody is marked, poll returns a positive number and reports an error of the socket of one
-- client and nothing of the others, no two clients have the same socket, the name of that client
-- is a string of one line that fits its array, the sockets take bytes, every allocation is
-- granted, the buffers are good, hold their blocks and less than 2 ^ 64 bytes each, and
-- client_count is the number of clients, less than 2 ^ 31, then a read_round marks the client and
-- the write_round after it logs it out: the others get what waited for them, and those that get
-- posts the notice that it has logged out, and its blocks are given back, so that every allocated
-- block is free or held by the others.
pub broken_client-Departs :
    {S : Type 0} (read : ℕ → S → Pull S) (available : S → Option ℕ) (events : ℕ → PollEvent)
    (put : List ℕ → S → Put S) (sent : S → List ℕ) (sink : IsSink put sent) (others : ℕ → ℕ)
    (es : ℕ → ℕ → Surroundings) (gs : ℕ → Surroundings) (s : State) (sockets : ℕ → S)
    (xs ys : List ClientData) (c : ClientData) (ret : ℕ)
    → (0 < ret) × (ret < 2 ^ 31)
    → Generous gs
    → s.server.clients ≡ xs ++ (c ∷ ys)
    → IsHealthy (and_nodes c.reading_buffer others) s.server s.mem
    → c.pub_mark ≡ 0
    → events c.socket_id ≡ problem
    → AllQuiet events xs × AllQuiet events ys
    → NoneLeaving xs × NoneLeaving ys
    → IsLine (c_string c.name) × (length (c_string c.name) < 30)
    → AllGood c.reading_buffer
    → AllSmall s.server.clients × Distinct s.server.clients
    → Returns
        (Departs put sent sink others
          (in_place s (length xs) (mark c) s.mem)
          sockets
          xs
          ys
          (c_string c.name))
        (read_round read available events ret es s sockets
          >>= (λ t. write_round put gs t.state t.sockets))
broken_client-Departs read available events put sent sink others es gs s sockets xs ys c ret reports
      g list h unmarked broken quiet stay named good apart =
    let marked = in_place s (length xs) (mark c) s.mem in
    let list' : marked.server.clients ≡ xs ++ (mark c ∷ ys) =
      ap (λ l. set l (length xs) (mark c)) list ∙ set-append xs c (mark c) ys in
    let there : get_elem? s.server.clients (length xs) ≡ some c =
      ap (λ l. get_elem? l (length xs)) list ∙ get_elem?-append xs c ys in
    Outcome.bind
      (read_round-one read available events
        {P = λ t. t ≡ record { state = marked; sockets = sockets }} ret es s sockets xs ys c reports
        h.counted list quiet
        (λ n there.
          rw
            (problem_one read available events (es n) s sockets c (length xs) there unmarked broken)
            (returns (refl, length-set s.server.clients (length xs) (mark c)))))
      (λ t e. rw e (
        write_round-Departs put sent sink others gs g marked sockets xs ys (mark c) list'
          (IsHealthy-set (and_nodes c.reading_buffer others) s.server s.mem (length xs) c (mark c)
            s.mem.pool there refl h.owns h)
          refl stay.0 stay.1 named.0 named.1 good
          (subst AllSmall (sym list') (AllSmall-marked xs ys c (subst AllSmall list apart.0)))
          (subst Distinct (sym list') (Distinct-marked xs ys c (subst Distinct list apart.1)))))
