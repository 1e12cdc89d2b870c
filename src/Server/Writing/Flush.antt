-- ===== src/Server/Writing/Flush.antt =====
-- What the first loop of a round of `write_sockets` sends to each socket.
use cosc402_assignment.Base.{
  ℕ, ◌^◌, ◌<◌, ◌≡◌, ◌≢◌, refl, sym, ap, ◌∙◌, false, List, [], ◌∷◌, ◌++◌, arith, append-nil, ◌==◌,
  ==_self, if◌then◌else◌, inl, inr, Bool-cases,
}
use cosc402_assignment.Base.Lists.{length}
use cosc402_assignment.Base.Outcome.{Outcome, done, Returns, returns}
use cosc402_assignment.Base.Outcome
use cosc402_assignment.Cache.{Pool}
use cosc402_assignment.Cache.Ownership.{Owns}
use cosc402_assignment.Buffer.Node.{AllGood, contents}
use cosc402_assignment.Buffer.Ownership.{and_nodes}
use cosc402_assignment.Buffer.Drain.{Put}
use cosc402_assignment.Buffer.Drain.Writing.{IsSink}
use cosc402_assignment.ClientInfo.{ClientData}
use cosc402_assignment.ClientInfo.Laws.{flush_messages-Flushes}
use cosc402_assignment.Server.{is_leaving}
use cosc402_assignment.Server.Deliver.{and_clients, to_front, from_front, AllWritable}
use cosc402_assignment.Server.Login.Leaving.{NotIn}
use cosc402_assignment.Server.Writing.{socket_at, Flushing, flush_each}

-- No two clients have the same socket.
abbrev pub Distinct : List ClientData → Type 0
Distinct [] = Unit {0}
Distinct (c ∷ cs) = NotIn c.socket_id cs × Distinct cs

abbrev pub AllSmall : List ClientData → Type 0
AllSmall [] = Unit {0}
AllSmall (c ∷ cs) = (length (contents c.writing_buffer) < 2 ^ 64) × AllSmall cs

module _ {S : Type 0} (put : List ℕ → S → Put S) (sent : S → List ℕ) (sink : IsSink put sent) where
  -- The text of a client has gone to its socket, unless it is marked.
  pub record IsFlushed (before after : ℕ → S) (c d : ClientData) : Type 0 where
    pub same : d ≡ record c { writing_buffer = d.writing_buffer }
    pub waits : contents d.writing_buffer ≡ (if is_leaving c then contents c.writing_buffer else [])
    pub output :
        sent (after c.socket_id)
        ≡ sent (before c.socket_id) ++ (if is_leaving c then [] else contents c.writing_buffer)
    pub good : AllGood d.writing_buffer

  abbrev pub AllFlushed : (ℕ → S) → (ℕ → S) → List ClientData → List ClientData → Type 0
  AllFlushed before after [] [] = Unit {0}
  AllFlushed before after [] (d ∷ ds) = ⊥
  AllFlushed before after (c ∷ cs) [] = ⊥
  AllFlushed before after (c ∷ cs) (d ∷ ds) =
      IsFlushed before after c d × AllFlushed before after cs ds

  pub record FlushesAll (cs : List ClientData) (others : ℕ → ℕ) (sockets : ℕ → S) (f : Flushing S)
      : Type 0 where
    pub each : AllFlushed sockets f.sockets cs f.clients
    pub frame : (k : ℕ) → NotIn k cs → f.sockets k ≡ sockets k
    pub owns : Owns f.pool (and_clients f.clients others)

  other_socket : (k j : ℕ) (s : S) (sockets : ℕ → S) → j ≢ k → socket_at k s sockets j ≡ sockets j
  other_socket k j s sockets ne =
      let differs : (j == k) ≡ false = ground (arith, ne) in rw differs refl

  own_socket : (k : ℕ) (s : S) (sockets : ℕ → S) → socket_at k s sockets k ≡ s
  own_socket k s sockets = rw (==_self k) refl

  -- A socket that none of the clients has does not matter to them.
  AllFlushed-before :
      (k : ℕ) (s : S) (sockets after : ℕ → S) (cs ds : List ClientData)
      → NotIn k cs
      → AllFlushed (socket_at k s sockets) after cs ds
      → AllFlushed sockets after cs ds
  AllFlushed-before k s sockets after [] [] h a = tt
  AllFlushed-before k s sockets after [] (d ∷ ds) h a = absurd a
  AllFlushed-before k s sockets after (c ∷ cs) [] h a = absurd a
  AllFlushed-before k s sockets after (c ∷ cs) (d ∷ ds) h a = (
    record {
      same = a.0.same;
      waits = a.0.waits;
      output =
          a.0.output
          ∙ ap (λ x. sent x ++ (if is_leaving c then [] else contents c.writing_buffer))
              (other_socket k c.socket_id s sockets h.0);
      good = a.0.good;
    },
    AllFlushed-before k s sockets after cs ds h.1 a.1,
  )

  pub flush_each-FlushesAll :
      (others : ℕ → ℕ) (cs : List ClientData) (p : Pool) (sockets : ℕ → S)
      → AllWritable cs
      → AllSmall cs
      → Distinct cs
      → Owns p (and_clients cs others)
      → Returns (FlushesAll cs others sockets) (flush_each put cs p sockets)
  unfolding flush_each
  flush_each-FlushesAll others [] p sockets w small apart o =
      returns (record { each = tt; frame = λ k h. refl; owns = o })
  flush_each-FlushesAll others (c ∷ cs) p sockets w small apart o =
      elim (Bool-cases (is_leaving c)) [
        | inl leaving ↦ Outcome.Returns-then _ leaving (
            Outcome.bind
              (flush_each-FlushesAll (and_nodes c.writing_buffer others) cs p sockets w.1 small.1
                apart.1 (from_front cs c.writing_buffer others o))
              (λ f v. returns (record {
                each = (
                  record {
                    same = refl;
                    waits = sym (ap (λ b. if b then contents c.writing_buffer else []) leaving);
                    output =
                        ap sent (v.frame c.socket_id apart.0)
                        ∙ sym (append-nil (sent (sockets c.socket_id)))
                        ∙ sym (
                            ap
                              (λ b.
                                sent (sockets c.socket_id)
                                ++ (if b then [] else contents c.writing_buffer))
                              leaving);
                    good = w.0;
                  },
                  v.each,
                );
                frame = λ k h. v.frame k h.1;
                owns = to_front f.clients c.writing_buffer others v.owns;
              })))
        | inr stays ↦ Outcome.Returns-else _ stays (
            Outcome.bind
              (flush_messages-Flushes put sent sink (and_clients cs others) c p
                (sockets c.socket_id) w.0 o small.0)
              (λ r l.
                Outcome.bind
                  (flush_each-FlushesAll (and_nodes r.client.writing_buffer others) cs r.pool
                    (socket_at c.socket_id r.rest sockets) w.1 small.1 apart.1
                    (from_front cs r.client.writing_buffer others l.owns))
                  (λ f v. returns (record {
                    each = (
                      record {
                        same = l.same;
                        waits =
                            l.empty
                            ∙ sym (ap (λ b. if b then contents c.writing_buffer else []) stays);
                        output =
                            ap sent
                              (v.frame c.socket_id apart.0 ∙ own_socket c.socket_id r.rest sockets)
                            ∙ l.output
                            ∙ sym (
                                ap
                                  (λ b.
                                    sent (sockets c.socket_id)
                                    ++ (if b then [] else contents c.writing_buffer))
                                  stays);
                        good = l.good;
                      },
                      AllFlushed-before c.socket_id r.rest sockets f.sockets cs f.clients apart.0
                          v.each,
                    );
                    frame = λ k h.
                        v.frame k h.1
                        ∙ other_socket c.socket_id k r.rest sockets (λ same. h.0 (sym same));
                    owns = to_front f.clients r.client.writing_buffer others v.owns;
                  }))))
      ]
