-- ===== src/Server/Reading/Several/WholeRound.antt =====
-- The entries of such a round one after the other.
use cosc402_assignment.Base.{
  ℕ, suc, ◌+◌, ◌^◌, ◌<◌, ◌≡◌, ◌≢◌, refl, sym, ap, ◌∙◌, true, false, Option, some, List, [], ◌∷◌,
  arith, ◌==◌, ◌||◌,
}
use mathlib.Core.Path.{subst}
use cosc402_assignment.Base.Lists.{length, get_elem?}
use cosc402_assignment.Base.Outcome.{Outcome, done, Returns, returns}
use cosc402_assignment.Base.Outcome
use cosc402_assignment.Base.Words.{minus_one}
use cosc402_assignment.Buffer.Fill.{Pull}
use cosc402_assignment.ClientInfo.{ClientData}
use cosc402_assignment.Server.Login.{Surroundings, State}
use cosc402_assignment.Server.Login.Leaving.{NotIn}
use cosc402_assignment.Server.Handle.Commands.{Command}
use cosc402_assignment.Server.Handle.Room.{view, obey_all}
use cosc402_assignment.Server.Handle.Healthy.{IsHealthy, socket_ids}
use cosc402_assignment.Server.Handle.Rest.{AllAtRest}
use cosc402_assignment.Server.Handle.Fetching.{print_all}
use cosc402_assignment.Server.Handle.Loop.{Generous}
use cosc402_assignment.Server.Writing.Flush.{Distinct}
use cosc402_assignment.Server.Reading.{
  PollEvent, polled_from, get_polling_and_client_list, Turn, read_each, read_round,
}
use cosc402_assignment.Server.Reading.Several.{
  Speaks, says_nothing, says, obey_round, sign_round, FewCopies, AllSpeak, HeedsAll,
}
use cosc402_assignment.Server.Reading.Several.OneClient.{Follows, read_one-Follows}

module _ {S : Type 0} (read : ℕ → S → Pull S) (available : S → Option ℕ) (sent : S → List ℕ)
    (events : ℕ → PollEvent) (lines : ℕ → List Command) where
  Speaks-same :
      (k : ℕ) (before after : ℕ → S)
      → after k ≡ before k
      → Speaks read available sent events lines before k
      → Speaks read available sent events lines after k
  Speaks-same k before after e (says_nothing quiet nothing) = says_nothing quiet nothing
  Speaks-same k before after e (says rest reported cmds size announced gives unsent) =
      says rest reported cmds size (ap available e ∙ announced)
        (ap (read (length (print_all (lines k)))) e ∙ gives) (unsent ∙ ap sent (sym e))

  AllSpeak-same :
      (k : ℕ) (before after : ℕ → S) (cs : List ClientData)
      → ((j : ℕ) → j ≢ k → after j ≡ before j)
      → NotIn k cs
      → AllSpeak read available sent events lines before (socket_ids cs)
      → AllSpeak read available sent events lines after (socket_ids cs)
  AllSpeak-same k before after [] same apart h = tt
  AllSpeak-same k before after (c ∷ cs) same apart h = (
    Speaks-same c.socket_id before after (same c.socket_id apart.0) h.0,
    AllSpeak-same k before after cs same apart.1 h.1,
  )

  module _ (others : ℕ → ℕ) where
    -- What the loop does from a place on is what it does there, and then for the others.
    HeedsAll-cons :
        (i k : ℕ) (ks : List ℕ) (s : State) (sockets : ℕ → S) (u t : Turn S)
        → Follows read available sent events lines others i k s sockets u
        → HeedsAll read available sent events lines others (suc i) ks u.state u.sockets t
        → HeedsAll read available sent events lines others i (k ∷ ks) s sockets t
    HeedsAll-cons i k ks s sockets u t v w = record {
      room = w.room ∙ ap (obey_round lines (suc i) ks) v.room;
      signal =
          w.signal
          ∙ ap (λ ms. sign_round lines (suc i) ks ms u.state.server.sign_to_flush_msg) v.room
          ∙ ap (sign_round lines (suc i) ks (obey_all (lines k) i (view s.server.clients)))
              v.signal;
      healthy = w.healthy;
      rest = w.rest;
      same_sockets = w.same_sockets ∙ v.same_sockets;
      unsent = λ j. w.unsent j ∙ v.unsent j;
    }

    -- The clients of the rest of the list are in the server's list from the place on.
    abbrev StandFrom : ℕ → List ClientData → State → Type 0
    StandFrom i cs s =
        (j k : ℕ)
        → get_elem? (socket_ids cs) j ≡ some k
        → get_elem? (socket_ids s.server.clients) (i + j) ≡ some k

    StandFrom-next :
        (i : ℕ) (c : ClientData) (cs : List ClientData) (s s' : State)
        → socket_ids s'.server.clients ≡ socket_ids s.server.clients
        → StandFrom i (c ∷ cs) s
        → StandFrom (suc i) cs s'
    StandFrom-next i c cs s s' same h j k e =
        let place : suc i + j ≡ i + suc j = omega arith in
        ap (λ ks. get_elem? ks (suc i + j)) same
        ∙ ap (get_elem? (socket_ids s.server.clients)) place
        ∙ h (suc j) k e

    read_each-HeedsAll :
        (es : ℕ → ℕ → Surroundings) (s : State) (sockets : ℕ → S) (cs : List ClientData) (i : ℕ)
        → ((n : ℕ) → Generous (es n))
        → AllAtRest cs
        → Distinct cs
        → StandFrom i cs s
        → AllAtRest s.server.clients
        → IsHealthy others s.server s.mem
        → AllSpeak read available sent events lines sockets (socket_ids cs)
        → FewCopies lines i (socket_ids cs) (view s.server.clients)
        → Returns
            (HeedsAll read available sent events lines others i (socket_ids cs) s sockets)
            (read_each read available events es (polled_from i cs) s sockets)
    unfolding read_each
    read_each-HeedsAll es s sockets [] i g a apart stand calm h speak few = returns (record {
      room = refl;
      signal = refl;
      healthy = h;
      rest = calm;
      same_sockets = refl;
      unsent = λ k. refl;
    })
    read_each-HeedsAll es s sockets (c ∷ cs) i g a apart stand calm h speak few =
        let none_before : i + 0 ≡ i = omega arith in
        let at_place : get_elem? (socket_ids s.server.clients) i ≡ some c.socket_id =
          ap (get_elem? (socket_ids s.server.clients)) (sym none_before)
          ∙ stand 0 c.socket_id refl in
        Outcome.bind
          (read_one-Follows read available sent events lines others (es 0) s sockets i c (g 0)
            a.0.unmarked at_place calm h speak.0 few.0)
          (λ u v.
            Outcome.mono
              (read_each-HeedsAll (λ n. es (suc n)) u.state u.sockets cs (suc i) (λ n. g (suc n))
                a.1 apart.1 (StandFrom-next i c cs s u.state v.same_sockets stand) v.rest v.healthy
                (AllSpeak-same c.socket_id sockets u.sockets cs v.untouched apart.0 speak.1)
                (subst (FewCopies lines (suc i) (socket_ids cs)) (sym v.room) few.1))
              (λ t w. HeedsAll-cons i c.socket_id (socket_ids cs) s sockets u t v w))

    -- A whole round, for any clients that have sent lines.
    pub read_round-HeedsAll :
        (ret : ℕ) (es : ℕ → ℕ → Surroundings) (s : State) (sockets : ℕ → S)
        → (0 < ret) × (ret < 2 ^ 31)
        → ((n : ℕ) → Generous (es n))
        → AllAtRest s.server.clients
        → Distinct s.server.clients
        → IsHealthy others s.server s.mem
        → AllSpeak read available sent events lines sockets (socket_ids s.server.clients)
        → FewCopies lines 0 (socket_ids s.server.clients) (view s.server.clients)
        → Returns
            (HeedsAll read available sent events lines others 0
              (socket_ids s.server.clients)
              s
              sockets)
            (read_round read available events ret es s sockets)
    unfolding read_round get_polling_and_client_list
    read_round-HeedsAll ret es s sockets reports g calm apart h speak few =
        let happened : ((ret == minus_one) || (ret == 0)) ≡ false = ground (arith, reports) in
        let counted : (length s.server.clients == s.server.client_count) ≡ true =
          ground (arith, h.counted) in
        rw (counted, happened)
          (read_each-HeedsAll es s sockets s.server.clients 0 g calm apart
            (λ j k e.
              let place : 0 + j ≡ j = omega arith in
              ap (get_elem? (socket_ids s.server.clients)) place ∙ e)
            calm h speak few)
