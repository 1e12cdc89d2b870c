-- ===== src/Server/Reading/Several.antt =====
-- A round of `read_sockets` in which any of the clients have sent lines.
pub mod OneClient
pub mod WholeRound
use cosc402_assignment.Base.{
  ℕ, zero, suc, ◌+◌, ◌^◌, ◌≤◌, ◌<◌, ◌≡◌, ◌≢◌, refl, sym, ap, ◌∙◌, true, false, Option, some, List,
  [], ◌∷◌, arith, ◌==◌, ◌||◌, ==_self, if◌then◌else◌,
}
use mathlib.Core.Path.{subst}
use cosc402_assignment.Base.Lists.{length, get_elem?}
use cosc402_assignment.Base.Outcome.{Outcome, done, Returns, returns}
use cosc402_assignment.Base.Outcome
use cosc402_assignment.Base.Words.{int_add, minus_one}
use cosc402_assignment.Buffer.Fill.{Pull, got}
use cosc402_assignment.ClientInfo.{ClientData}
use cosc402_assignment.Server.Login.{Surroundings, State}
use cosc402_assignment.Server.Login.Leaving.{NotIn}
use cosc402_assignment.Server.Handle.Commands.{Command}
use cosc402_assignment.Server.Handle.Room.{Member, view, obey_all, reached_all}
use cosc402_assignment.Server.Handle.Healthy.{IsHealthy, socket_ids}
use cosc402_assignment.Server.Handle.Rest.{
  AtRest, AllAtRest, AllAtRest-RestBut, AllAtRest-get_elem?,
}
use cosc402_assignment.Server.Handle.Fetching.{print_all, AllCommands}
use cosc402_assignment.Server.Handle.Loop.{Generous}
use cosc402_assignment.Server.Writing.Flush.{Distinct}
use cosc402_assignment.Server.Reading.{
  PollEvent, no_event, input, polled, polled_from, get_polling_and_client_list, Turn, read_one,
  read_each, read_round,
}
use cosc402_assignment.Server.Reading.Input.{Heeds, read_one-Heeds}

-- What happens on a socket: nothing, or its client's lines are there, all of them at once.
pub data Speaks {S : Type 0} (read : ℕ → S → Pull S) (available : S → Option ℕ) (sent : S → List ℕ)
    (events : ℕ → PollEvent) (lines : ℕ → List Command) (sockets : ℕ → S) (k : ℕ) : Type 0 where
  says_nothing :
      events k ≡ no_event → lines k ≡ [] → Speaks read available sent events lines sockets k
  says :
      (rest : S)
      → events k ≡ input
      → AllCommands (lines k)
      → (0 < length (print_all (lines k))) × (length (print_all (lines k)) ≤ 512)
      → available (sockets k) ≡ some (length (print_all (lines k)))
      → read (length (print_all (lines k))) (sockets k) ≡ got (print_all (lines k)) rest
      → sent rest ≡ sent (sockets k)
      → Speaks read available sent events lines sockets k

-- The members' lines in the order of the list; `i` is the place of the first.
abbrev pub obey_round : (ℕ → List Command) → ℕ → List ℕ → List Member → List Member
obey_round lines i [] ms = ms
obey_round lines i (k ∷ ks) ms = obey_round lines (suc i) ks (obey_all (lines k) i ms)

-- Each member whose lines reach somebody raises the signal by one.
abbrev pub raised : ℕ → ℕ → ℕ
raised reached sign = if reached == 0 then sign else int_add sign 1

abbrev pub sign_round : (ℕ → List Command) → ℕ → List ℕ → List Member → ℕ → ℕ
sign_round lines i [] ms sign = sign
sign_round lines i (k ∷ ks) ms sign =
    sign_round lines (suc i) ks (obey_all (lines k) i ms) (raised (reached_all (lines k) i ms) sign)

-- No member's lines make 2 ^ 32 copies.
abbrev pub FewCopies : (ℕ → List Command) → ℕ → List ℕ → List Member → Type 0
FewCopies lines i [] ms = Unit {0}
FewCopies lines i (k ∷ ks) ms =
    (reached_all (lines k) i ms < 2 ^ 32) × FewCopies lines (suc i) ks (obey_all (lines k) i ms)

module _ {S : Type 0} (read : ℕ → S → Pull S) (available : S → Option ℕ) (sent : S → List ℕ)
    (events : ℕ → PollEvent) (lines : ℕ → List Command) where
  abbrev pub AllSpeak : (ℕ → S) → List ℕ → Type 0
  AllSpeak sockets [] = Unit {0}
  AllSpeak sockets (k ∷ ks) =
      Speaks read available sent events lines sockets k × AllSpeak sockets ks

  -- What the loop does for the clients from the place `i` on, which have the sockets `ks`.
  pub record HeedsAll (others : ℕ → ℕ) (i : ℕ) (ks : List ℕ) (s : State) (sockets : ℕ → S)
      (t : Turn S) : Type 0 where
    pub room : view t.state.server.clients ≡ obey_round lines i ks (view s.server.clients)
    pub signal :
        t.state.server.sign_to_flush_msg
        ≡ sign_round lines i ks (view s.server.clients) s.server.sign_to_flush_msg
    pub healthy : IsHealthy others t.state.server t.state.mem
    pub rest : AllAtRest t.state.server.clients
    pub same_sockets : socket_ids t.state.server.clients ≡ socket_ids s.server.clients
    pub unsent : (k : ℕ) → sent (t.sockets k) ≡ sent (sockets k)
