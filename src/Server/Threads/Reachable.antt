-- ===== src/Server/Threads/Reachable.antt =====
-- A client that is accepted, and the states that the threads can reach.
use cosc402_assignment.Base.{
  ℕ, ◌≡◌, ◌≢◌, sym, ap, ◌∙◌, ◌⊎◌, true, false, arith, inl, inr, Bool-cases,
}
use cosc402_assignment.Server.Threads.{
  update, Shared, with_newcomer, ReaderAt, WriterAt, System, Step, reads, writes, listens, start,
  Reach, at_start, later,
}
use cosc402_assignment.Server.Threads.Clients.{has, has_snoc, absent, NoneTwice-snoc}
use cosc402_assignment.Server.Threads.Invariant.{
  IsSound, IsOff, WriterSafe, ReaderSafe, Safe, ReaderSafe-mono, WriterSafe-mono,
}
use cosc402_assignment.Server.Threads.Steps.{update_own, update_other, ReaderStep-Safe}
use cosc402_assignment.Server.Threads.WriterSteps.{WriterStep-Safe}

module _ (sh : Shared) (a fd : ℕ) (h : IsSound sh) (unused : sh.live a ≡ false)
    (unopened : sh.opened fd ≡ false) where
  now : Shared
  now = with_newcomer a fd sh

  new_one : has a sh.clients ≡ false
  new_one = absent a sh.clients (λ t. absurd (cc (unused, h.allocated a t)))

  not_new : (b : ℕ) → has b sh.clients ≡ true → b ≢ a
  not_new b t e = cc (new_one, ap (λ x. has x sh.clients) e, t)

  joined : (b : ℕ) → has b now.clients ≡ true → (has b sh.clients ≡ true) ⊎ (b ≡ a)
  unfolding now
  joined b t = elim (Bool-cases (has b sh.clients)) [
    | inl e ↦ inl e
    | inr ne ↦ inr (ground (arith, has_snoc b a sh.clients, ne, t))
  ]

  still_there : (b : ℕ) → has b sh.clients ≡ true → has b now.clients ≡ true
  unfolding now
  still_there b t = ground (arith, has_snoc b a sh.clients, t)

  same_socket : (b : ℕ) → b ≢ a → now.socket_of b ≡ sh.socket_of b
  unfolding now
  same_socket b ne = update_other sh.socket_of a fd b ne

  keeps_descriptor : (k : ℕ) → sh.opened k ≡ true → now.opened k ≡ true
  unfolding now
  keeps_descriptor k o =
      update_other sh.opened fd true k (λ e. cc (unopened, ap sh.opened e, o)) ∙ o

  now-IsSound : IsSound now
  unfolding now
  now-IsSound = record {
    allocated = λ b t. elim (joined b t) [
      | inl old ↦ update_other sh.live a true b (not_new b old) ∙ h.allocated b old
      | inr e ↦ ap (update sh.live a true) e ∙ update_own sh.live a true
    ];
    connected = λ b t. elim (joined b t) [
      | inl old ↦
          ap now.opened (same_socket b (not_new b old))
          ∙ keeps_descriptor (sh.socket_of b) (h.connected b old)
      | inr e ↦
          ap (λ x. now.opened (now.socket_of x)) e
          ∙ ap now.opened (update_own sh.socket_of a fd)
          ∙ update_own sh.opened fd true
    ];
    alone = λ b c t u e. elim (joined b t) [
      | inl old ↦ elim (joined c u) [
        | inl old' ↦
            h.alone b c old old'
              (sym (same_socket b (not_new b old)) ∙ e ∙ same_socket c (not_new c old'))
        | inr new ↦ absurd (
            new_socket b old (
              sym (same_socket b (not_new b old))
              ∙ e
              ∙ ap now.socket_of new
              ∙ update_own sh.socket_of a fd))
      ]
      | inr new ↦ elim (joined c u) [
        | inl old' ↦ absurd (
            new_socket c old' (
              sym (same_socket c (not_new c old'))
              ∙ sym e
              ∙ ap now.socket_of new
              ∙ update_own sh.socket_of a fd))
        | inr new' ↦ new ∙ sym new'
      ]
    ];
    once = NoneTwice-snoc a sh.clients new_one h.once;
  }
    where
      new_socket : (b : ℕ) → has b sh.clients ≡ true → sh.socket_of b ≡ fd → ⊥
      new_socket b t e = cc (unopened, ap sh.opened e, h.connected b t)

  now-ReaderSafe : (r : ReaderAt) → ReaderSafe sh r → ReaderSafe now r
  unfolding now
  now-ReaderSafe r k =
      ReaderSafe-mono sh now
        (λ fd b g. record {
          linked = still_there b g.linked;
          unmarked = update_other sh.marked a false b (not_new b g.linked) ∙ g.unmarked;
          own_socket = same_socket b (not_new b g.linked) ∙ g.own_socket;
        })
        r k

  now-WriterSafe : (w : WriterAt) → WriterSafe sh w → WriterSafe now w
  unfolding now
  now-WriterSafe w k =
      WriterSafe-mono sh now (λ l u b t. still_there b (u b t))
        (λ c o. record {
          allocated = update_other sh.live a true c (other c o) ∙ o.allocated;
          off = absent c now.clients (λ t. elim (joined c t) [
            | inl old ↦ absurd (cc (o.off, old))
            | inr new ↦ absurd (other c o new)
          ]);
        })
        (λ c o p. record {
          connected =
              ap now.opened (same_socket c (other c o))
              ∙ keeps_descriptor (sh.socket_of c) p.connected;
          own = λ b t. elim (joined b t) [
            | inl old ↦ λ e.
                p.own b old (sym (same_socket b (not_new b old)) ∙ e ∙ same_socket c (other c o))
            | inr new ↦ λ e. absurd (
                cc (
                  unopened,
                  ap sh.opened (
                      sym (update_own sh.socket_of a fd)
                      ∙ ap now.socket_of (sym new)
                      ∙ e
                      ∙ same_socket c (other c o)),
                  p.connected,
                ))
          ];
        })
        w k
    where
      other : (c : ℕ) → IsOff sh c → c ≢ a
      other c o e = cc (unused, ap sh.live e, o.allocated)

start-Safe : Safe start
start-Safe = record {
  sound = record {
    allocated = λ b t. absurd (cc t);
    connected = λ b t. absurd (cc t);
    alone = λ b c t u e. absurd (cc t);
    once = tt;
  };
  reader = tt;
  writer = tt;
}

Step-Safe : {s s' : System} → Step s s' → Safe s → Safe s'
unfolding now
Step-Safe {s} (reads step) v =
    let (sound, (r, w)) = ReaderStep-Safe s.writer step v.sound v.reader v.writer in
    record { sound = sound; reader = r; writer = w }
Step-Safe {s} (writes step) v =
    let (sound, (r, w)) = WriterStep-Safe s.reader step v.sound v.reader v.writer in
    record { sound = sound; reader = r; writer = w }
Step-Safe {s} (listens a fd unused unopened) v = record {
  sound = now-IsSound s.shared a fd v.sound unused unopened;
  reader = now-ReaderSafe s.shared a fd v.sound unused unopened s.reader v.reader;
  writer = now-WriterSafe s.shared a fd v.sound unused unopened s.writer v.writer;
}

pub Reach-Safe : {s : System} → Reach s → Safe s
Reach-Safe at_start = start-Safe
Reach-Safe (later r step) = Step-Safe step (Reach-Safe r)
