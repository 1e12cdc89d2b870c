-- ===== src/Server/Relay/Exchanges.antt =====
-- Any number of rounds of the reading and of the writing thread in turn: who sends what, in which
-- order, and what each socket gets of it in the end.
pub mod Heard
use cosc402_assignment.Base.{
  ℕ, zero, suc, ◌^◌, ◌≤◌, ◌<◌, ◌≡◌, ◌≢◌, refl, sym, ap, ◌∙◌, false, Option, none, some, List, [],
  ◌∷◌, ◌++◌, arith, append_assoc, append-nil, if◌then◌else◌,
}
use mathlib.Core.Path.{subst}
use cosc402_assignment.Base.Lists.{length, get_elem?}
use cosc402_assignment.Base.Outcome.{Outcome, done, Returns, returns, ◌>>=◌}
use cosc402_assignment.Base.Outcome
use cosc402_assignment.Buffer.Fill.{Pull, got}
use cosc402_assignment.Buffer.Drain.{Put}
use cosc402_assignment.Buffer.Drain.Writing.{IsSink}
use cosc402_assignment.ClientInfo.{ClientData}
use cosc402_assignment.Server.Login.{Surroundings, State}
use cosc402_assignment.Server.Login.Leaving.{NotIn}
use cosc402_assignment.Server.Handle.Commands.{Command}
use cosc402_assignment.Server.Handle.Room.{Member, view, obey_all, reached_all}
use cosc402_assignment.Server.Handle.Healthy.{IsHealthy, socket_ids}
use cosc402_assignment.Server.Handle.Rest.{
  AtRest, AllAtRest, AllAtRest-RestBut, AllAtRest-get_elem?,
}
use cosc402_assignment.Server.Handle.Fetching.{print_all, AllCommands}
use cosc402_assignment.Server.Handle.Loop.{Generous}
use cosc402_assignment.Server.Writing.{write_round}
use cosc402_assignment.Server.Writing.Flush.{Distinct}
use cosc402_assignment.Server.Writing.Drained.{drain_all, NoneLeaving}
use cosc402_assignment.Server.Reading.{PollEvent, input, no_event, Turn, read_round}
use cosc402_assignment.Server.Reading.Polling.{AllQuiet}
use cosc402_assignment.Server.Reading.Several.{obey_round, FewCopies, AllSpeak}
use cosc402_assignment.Server.Relay.Members.{WaitsSmall}

-- Some of the clients send lines: whose socket they come from, what the sockets are when they have
-- arrived, and the answers of the environment in the two rounds.
pub record Exchange (S : Type 0) : Type 0 where
  pub lines : ℕ → List Command
  pub arrive : (ℕ → S) → ℕ → S
  pub events : ℕ → PollEvent
  pub reported : ℕ
  pub reading : ℕ → ℕ → Surroundings
  pub writing : ℕ → Surroundings

module _ {S : Type 0} (read : ℕ → S → Pull S) (available : S → Option ℕ)
    (put : List ℕ → S → Put S) where
  -- A round of each thread for each exchange.
  unfoldable pub serve_exchanges : List (Exchange S) → State → (ℕ → S) → Outcome (Turn S)
  unfolding read_round write_round
  serve_exchanges [] s sockets = done (record { state = s; sockets = sockets })
  serve_exchanges (x ∷ xs) s sockets =
      let next : State → (ℕ → S) → Outcome (Turn S) = serve_exchanges xs in
      read_round read available x.events x.reported x.reading s (x.arrive sockets)
      >>= (λ t. write_round put x.writing t.state t.sockets)
      >>= (λ r. next r.state r.sockets)

-- What the members of the room see of it; `ks` are their sockets, in the order of the list.
abbrev pub spoken : {S : Type 0} → List ℕ → Exchange S → List Member → List Member
spoken ks x ms = obey_round x.lines 0 ks ms

abbrev pub room_after : {S : Type 0} → List ℕ → List (Exchange S) → List Member → List Member
room_after ks [] ms = ms
room_after ks (x ∷ xs) ms = room_after ks xs (drain_all (spoken ks x ms))

abbrev pub hears : Option Member → List ℕ
hears none = []
hears (some m) = if m.leaving then [] else m.waits

-- The text that the member at the place is sent.
abbrev pub heard : {S : Type 0} → List ℕ → List (Exchange S) → List Member → ℕ → List ℕ
heard ks [] ms j = []
heard ks (x ∷ xs) ms j =
    hears (get_elem? (spoken ks x ms) j) ++ heard ks xs (drain_all (spoken ks x ms)) j

-- The counters of the server are large enough.
abbrev pub Fits : {S : Type 0} → List ℕ → List (Exchange S) → List Member → Type 0
Fits ks [] ms = Unit {0}
Fits ks (x ∷ xs) ms =
    (FewCopies x.lines 0 ks ms × WaitsSmall (spoken ks x ms))
    × Fits ks xs (drain_all (spoken ks x ms))

module _ {S : Type 0} (read : ℕ → S → Pull S) (available : S → Option ℕ) (sent : S → List ℕ)
    (ks : List ℕ) where
  -- On each socket the client's lines arrive, or nothing happens, whatever was there before.
  pub record IsOffered (x : Exchange S) : Type 0 where
    pub positive : (0 < x.reported) × (x.reported < 2 ^ 31)
    pub granted : (n : ℕ) → Generous (x.reading n)
    pub speak :
        (before : ℕ → S) → AllSpeak read available sent x.events x.lines (x.arrive before) ks
    pub unsent : (before : ℕ → S) (j : ℕ) → sent (x.arrive before j) ≡ sent (before j)

  abbrev pub AllOffered : List (Exchange S) → Type 0
  AllOffered [] = Unit {0}
  AllOffered (x ∷ xs) = IsOffered x × AllOffered xs
