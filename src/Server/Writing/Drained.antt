-- ===== src/Server/Writing/Drained.antt =====
-- The room after the first loop of a round of `write_sockets`.
use cosc402_assignment.Base.{
  ℕ, suc, ◌≡◌, refl, sym, ap, ◌∙◌, false, List, [], ◌∷◌, ◌++◌, arith, if◌then◌else◌, inl, inr,
  Bool-cases,
}
use cosc402_assignment.Base.Lists.{length}
use cosc402_assignment.Buffer.Node.{contents}
use cosc402_assignment.Buffer.Drain.{Put}
use cosc402_assignment.Buffer.Drain.Writing.{IsSink}
use cosc402_assignment.ClientInfo.{ClientData}
use cosc402_assignment.Server.{is_leaving}
use cosc402_assignment.Server.Deliver.{AllWritable}
use cosc402_assignment.Server.Login.{State}
use cosc402_assignment.Server.Handle.Room.{Member, member, view}
use cosc402_assignment.Server.Handle.Healthy.{IsHealthy, socket_ids}
use cosc402_assignment.Server.Handle.Rest.{AllAtRest, same_but_written}
use cosc402_assignment.Server.Writing.{Flushing, flushed_state}
use cosc402_assignment.Server.Writing.Flush.{IsFlushed, AllFlushed, FlushesAll}

abbrev pub drain : Member → Member
drain m = if m.leaving then m else record m { waits = [] }

-- The texts of all members who stay have been sent.
abbrev pub drain_all : List Member → List Member
drain_all [] = []
drain_all (m ∷ ms) = drain m ∷ drain_all ms

abbrev pub NoneLeaving : List ClientData → Type 0
NoneLeaving [] = Unit {0}
NoneLeaving (c ∷ cs) = (is_leaving c ≡ false) × NoneLeaving cs

module _ {S : Type 0} (put : List ℕ → S → Put S) (sent : S → List ℕ) (sink : IsSink put sent) where
  -- Every socket has got what waited for its client.
  abbrev pub AllSent : (ℕ → S) → (ℕ → S) → List ClientData → Type 0
  AllSent before after [] = Unit {0}
  AllSent before after (c ∷ cs) =
      (sent (after c.socket_id)
        ≡ sent (before c.socket_id) ++ (if is_leaving c then [] else contents c.writing_buffer))
      × AllSent before after cs

  module _ (before after : ℕ → S) where
    pub AllFlushed-AllSent :
        (cs ds : List ClientData)
        → AllFlushed put sent sink before after cs ds
        → AllSent before after cs
    AllFlushed-AllSent [] [] a = tt
    AllFlushed-AllSent [] (d ∷ ds) a = absurd a
    AllFlushed-AllSent (c ∷ cs) [] a = absurd a
    AllFlushed-AllSent (c ∷ cs) (d ∷ ds) a = (a.0.output, AllFlushed-AllSent cs ds a.1)

    IsFlushed-drain :
        (c d : ClientData) → IsFlushed put sent sink before after c d → member d ≡ drain (member c)
    IsFlushed-drain c d g = elim (Bool-cases (is_leaving c)) [
      | inl leaving ↦
          ap member g.same
          ∙ ap (λ w. record (member c) { waits = w })
              (g.waits ∙ ap (λ b. if b then contents c.writing_buffer else []) leaving)
          ∙ sym (ap (λ b. if b then member c else record (member c) { waits = [] }) leaving)
      | inr stays ↦
          ap member g.same
          ∙ ap (λ w. record (member c) { waits = w })
              (g.waits ∙ ap (λ b. if b then contents c.writing_buffer else []) stays)
          ∙ sym (ap (λ b. if b then member c else record (member c) { waits = [] }) stays)
    ]

    pub AllFlushed-drain_all :
        (cs ds : List ClientData)
        → AllFlushed put sent sink before after cs ds
        → view ds ≡ drain_all (view cs)
    AllFlushed-drain_all [] [] a = refl
    AllFlushed-drain_all [] (d ∷ ds) a = absurd a
    AllFlushed-drain_all (c ∷ cs) [] a = absurd a
    AllFlushed-drain_all (c ∷ cs) (d ∷ ds) a =
        ap (λ m. m ∷ view ds) (IsFlushed-drain c d a.0)
        ∙ ap (λ ms. drain (member c) ∷ ms) (AllFlushed-drain_all cs ds a.1)

    pub AllFlushed-socket_ids :
        (cs ds : List ClientData)
        → AllFlushed put sent sink before after cs ds
        → socket_ids ds ≡ socket_ids cs
    AllFlushed-socket_ids [] [] a = refl
    AllFlushed-socket_ids [] (d ∷ ds) a = absurd a
    AllFlushed-socket_ids (c ∷ cs) [] a = absurd a
    AllFlushed-socket_ids (c ∷ cs) (d ∷ ds) a =
        ap (λ k. k ∷ socket_ids ds) (ap (λ x. x.socket_id) a.0.same)
        ∙ ap (λ ks. c.socket_id ∷ ks) (AllFlushed-socket_ids cs ds a.1)

    pub AllFlushed-AllAtRest :
        (cs ds : List ClientData)
        → AllFlushed put sent sink before after cs ds
        → AllAtRest cs
        → AllAtRest ds
    AllFlushed-AllAtRest [] [] a h = tt
    AllFlushed-AllAtRest [] (d ∷ ds) a h = absurd a
    AllFlushed-AllAtRest (c ∷ cs) [] a h = absurd a
    AllFlushed-AllAtRest (c ∷ cs) (d ∷ ds) a h =
        (same_but_written c d a.0.same h.0, AllFlushed-AllAtRest cs ds a.1 h.1)

    AllFlushed-AllWritable :
        (cs ds : List ClientData) → AllFlushed put sent sink before after cs ds → AllWritable ds
    AllFlushed-AllWritable [] [] a = tt
    AllFlushed-AllWritable [] (d ∷ ds) a = absurd a
    AllFlushed-AllWritable (c ∷ cs) [] a = absurd a
    AllFlushed-AllWritable (c ∷ cs) (d ∷ ds) a = (a.0.good, AllFlushed-AllWritable cs ds a.1)

    pub AllFlushed-length :
        (cs ds : List ClientData)
        → AllFlushed put sent sink before after cs ds
        → length ds ≡ length cs
    AllFlushed-length [] [] a = refl
    AllFlushed-length [] (d ∷ ds) a = absurd a
    AllFlushed-length (c ∷ cs) [] a = absurd a
    AllFlushed-length (c ∷ cs) (d ∷ ds) a = ap suc (AllFlushed-length cs ds a.1)

    pub NoneLeaving-flushed :
        (cs ds : List ClientData)
        → AllFlushed put sent sink before after cs ds
        → NoneLeaving cs
        → NoneLeaving ds
    NoneLeaving-flushed [] [] a h = tt
    NoneLeaving-flushed [] (d ∷ ds) a h = absurd a
    NoneLeaving-flushed (c ∷ cs) [] a h = absurd a
    NoneLeaving-flushed (c ∷ cs) (d ∷ ds) a h =
        (ap is_leaving a.0.same ∙ h.0, NoneLeaving-flushed cs ds a.1 h.1)

  pub flushed-IsHealthy :
      (others : ℕ → ℕ) (s : State) (sockets : ℕ → S) (f : Flushing S)
      → IsHealthy others s.server s.mem
      → FlushesAll put sent sink s.server.clients others sockets f
      → IsHealthy others (flushed_state s f).server (flushed_state s f).mem
  flushed-IsHealthy others s sockets f h v =
      let len = AllFlushed-length sockets f.sockets s.server.clients f.clients v.each in
      record {
        writable = AllFlushed-AllWritable sockets f.sockets s.server.clients f.clients v.each;
        owns = v.owns;
        calm = h.calm;
        counted = h.counted ∙ sym len;
        few = omega (arith, h.few, len);
      }
