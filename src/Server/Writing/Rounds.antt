-- ===== src/Server/Writing/Rounds.antt =====
-- Whole rounds of `write_sockets`: when nobody leaves, and when one client does.
use cosc402_assignment.Base.{
  ℕ, suc, ◌≡◌, refl, sym, ap, ◌∙◌, true, List, [], ◌∷◌, ◌++◌, arith, ◌==◌, inl, inr, Bool-cases,
}
use mathlib.Core.Path.{subst}
use cosc402_assignment.Base.Lists.{length}
use cosc402_assignment.Base.Outcome.{Outcome, done, Returns, returns, ◌>>=◌}
use cosc402_assignment.Base.Outcome
use cosc402_assignment.Buffer.Drain.{Put}
use cosc402_assignment.Buffer.Drain.Writing.{IsSink}
use cosc402_assignment.ClientInfo.{ClientData}
use cosc402_assignment.Server.{ServerInfo, get_client_list}
use cosc402_assignment.Server.Login.{Surroundings, State}
use cosc402_assignment.Server.Handle.Room.{view}
use cosc402_assignment.Server.Handle.Healthy.{IsHealthy, socket_ids}
use cosc402_assignment.Server.Handle.Rest.{AllAtRest}
use cosc402_assignment.Server.Handle.Loop.{Generous}
use cosc402_assignment.Server.Writing.{
  Flushing, logout_each, settle_sign, must_wait, Round, round_end, flushed_state, write_round,
}
use cosc402_assignment.Server.Writing.Flush.{Distinct, AllSmall, FlushesAll, flush_each-FlushesAll}
use cosc402_assignment.Server.Writing.Drained.{
  drain_all, NoneLeaving, AllSent, AllFlushed-AllSent, AllFlushed-socket_ids, AllFlushed-AllAtRest,
  AllFlushed-drain_all, NoneLeaving-flushed, flushed-IsHealthy,
}

pub logout_each-skip :
    {P : State → Type 0} (es : ℕ → Surroundings) (xs ys : List ClientData) (s : State)
    → Generous es
    → NoneLeaving xs
    → ((es' : ℕ → Surroundings) → Generous es' → Returns P (logout_each es' ys s))
    → Returns P (logout_each es (xs ++ ys) s)
unfolding logout_each
logout_each-skip es [] ys s g h next = next es g
logout_each-skip es (x ∷ xs) ys s g h next =
    Outcome.Returns-else _ h.0
      (logout_each-skip (λ n. es (suc n)) xs ys s (λ n. g (suc n)) h.1 next)

pub logout_each_none :
    {P : State → Type 0} (es : ℕ → Surroundings) (xs : List ClientData) (s : State)
    → NoneLeaving xs
    → P s
    → Returns P (logout_each es xs s)
unfolding logout_each
logout_each_none es [] s h p = returns p
logout_each_none es (x ∷ xs) s h p =
    Outcome.Returns-else _ h.0 (logout_each_none (λ n. es (suc n)) xs s h.1 p)

pub settled_clients : (server : ServerInfo) → (settle_sign server).clients ≡ server.clients
settled_clients server = elim (Bool-cases (must_wait server)) [
  | inl e ↦ rw e refl
  | inr ne ↦ rw ne refl
]

-- What was signalled stays signalled.
pub settled_sign :
    (server : ServerInfo) → (settle_sign server).sign_to_flush_msg ≡ server.sign_to_flush_msg
settled_sign server = elim (Bool-cases (must_wait server)) [
  | inl e ↦ let zero_there : 0 ≡ server.sign_to_flush_msg = ground (arith, e) in rw e zero_there
  | inr ne ↦ rw ne refl
]

pub settled-IsHealthy :
    (others : ℕ → ℕ) (s : State)
    → IsHealthy others s.server s.mem
    → IsHealthy others (settle_sign s.server) s.mem
settled-IsHealthy others s h = elim (Bool-cases (must_wait s.server)) [
  | inl e ↦ rw e (record {
    writable = h.writable;
    owns = h.owns;
    calm = h.calm;
    counted = h.counted;
    few = h.few;
  })
  | inr ne ↦ rw ne h
]

module _ {S : Type 0} (put : List ℕ → S → Put S) (sent : S → List ℕ) (sink : IsSink put sent) where
  -- A round in which nobody leaves.
  pub record Writes (others : ℕ → ℕ) (s : State) (sockets : ℕ → S) (r : Round S) : Type 0 where
    pub room : view r.state.server.clients ≡ drain_all (view s.server.clients)
    pub output : AllSent put sent sink sockets r.sockets s.server.clients
    pub sign : r.state.server.sign_to_flush_msg ≡ s.server.sign_to_flush_msg
    pub waits : r.waits ≡ (s.server.sign_to_flush_msg == 0)
    pub healthy : IsHealthy others r.state.server r.state.mem
    pub same_sockets : socket_ids r.state.server.clients ≡ socket_ids s.server.clients
    pub rest : AllAtRest s.server.clients → AllAtRest r.state.server.clients

  round-Writes :
      (others : ℕ → ℕ) (s : State) (sockets : ℕ → S) (f : Flushing S)
      → IsHealthy others s.server s.mem
      → FlushesAll put sent sink s.server.clients others sockets f
      → Writes others s sockets (round_end f.sockets (flushed_state s f))
  round-Writes others s sockets f h v = record {
    room =
        ap view (settled_clients (flushed_state s f).server)
        ∙ AllFlushed-drain_all put sent sink sockets f.sockets s.server.clients f.clients v.each;
    output = AllFlushed-AllSent put sent sink sockets f.sockets s.server.clients f.clients v.each;
    sign = settled_sign (flushed_state s f).server;
    waits = refl;
    healthy =
        settled-IsHealthy others (flushed_state s f)
          (flushed-IsHealthy put sent sink others s sockets f h v);
    same_sockets =
        ap socket_ids (settled_clients (flushed_state s f).server)
        ∙ AllFlushed-socket_ids put sent sink sockets f.sockets s.server.clients f.clients v.each;
    rest = λ a.
        subst AllAtRest (sym (settled_clients (flushed_state s f).server)) (
          AllFlushed-AllAtRest put sent sink sockets f.sockets s.server.clients f.clients v.each a);
  }

  -- If no client is marked, no two have the same socket, the sockets take bytes, the buffers are
  -- good, hold their blocks and less than 2 ^ 64 bytes each, and client_count is the number of
  -- clients, less than 2 ^ 31, then write_round sends to every client what waited for it, waits
  -- only if sign_to_flush_msg was 0, and otherwise leaves it as it was, so that no round takes
  -- back a signal that came before its wait.
  pub write_round-Writes :
      (others : ℕ → ℕ) (es : ℕ → Surroundings) (s : State) (sockets : ℕ → S)
      → IsHealthy others s.server s.mem
      → AllSmall s.server.clients
      → Distinct s.server.clients
      → NoneLeaving s.server.clients
      → Returns (Writes others s sockets) (write_round put es s sockets)
  unfolding write_round get_client_list
  write_round-Writes others es s sockets h small apart stay =
      let same : (length s.server.clients == s.server.client_count) ≡ true =
        ground (arith, h.counted) in
      rw same (
        Outcome.bind
          (flush_each-FlushesAll put sent sink others s.server.clients s.mem.pool sockets h.writable
            small apart h.owns)
          (λ f v.
            Outcome.bind
              (logout_each_none {P = λ s'. s' ≡ flushed_state s f} es f.clients (flushed_state s f)
                (NoneLeaving-flushed put sent sink sockets f.sockets s.server.clients f.clients
                  v.each stay)
                refl)
              (λ s' e. returns (rw e (round-Writes others s sockets f h v)))))
