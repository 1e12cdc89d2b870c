-- ===== src/Server/Threads/WriterSteps.antt =====
-- Every step of the writing thread keeps the invariant.
use cosc402_assignment.Base.{ℕ, ◌≡◌, ◌≢◌, refl, ap, ◌∙◌, true, false, List}
use cosc402_assignment.Server.Threads.{
  update, Shared, unlink, ReaderAt, WriterAt, WriterStep, take_clients, flushes, all_flushed, keeps,
  logs_out, all_checked, tells, tells_nobody, gives_notice, closes, frees,
}
use cosc402_assignment.Server.Threads.Clients.{
  has, has_first, has_later, has-unlink, has-unlink_other, has-unlink_own, NoneTwice-unlink,
}
use cosc402_assignment.Server.Threads.Invariant.{
  IsSound, Kept, IsOff, IsOpen, WriterSafe, IsHeard, ReaderSafe, ReaderSafe-mono,
}
use cosc402_assignment.Server.Threads.Steps.{update_other}

-- A client that user_logout takes off the list.
module _ (sh : Shared) (a : ℕ) (h : IsSound sh) (there : has a sh.clients ≡ true)
    (bad : sh.marked a ≡ true) where
  without : Shared
  without = record sh { clients = unlink sh.socket_of (sh.socket_of a) sh.clients }

  was_linked : (b : ℕ) → has b without.clients ≡ true → has b sh.clients ≡ true
  unfolding without
  was_linked b t = has-unlink sh.socket_of (sh.socket_of a) b sh.clients t

  still_linked : (b : ℕ) → has b sh.clients ≡ true → b ≢ a → has b without.clients ≡ true
  unfolding without
  still_linked b t ne =
      has-unlink_other sh.socket_of (sh.socket_of a) b sh.clients t
        (λ e. ne (h.alone b a t there e))

  gone : has a without.clients ≡ false
  unfolding without
  gone = has-unlink_own sh.socket_of a sh.clients h.once (λ b t e. h.alone b a t there e)

  differs : (b : ℕ) → has b without.clients ≡ true → b ≢ a
  differs b t e = cc (gone, ap (λ x. has x without.clients) e, t)

  without-IsSound : IsSound without
  unfolding without
  without-IsSound = record {
    allocated = λ b t. h.allocated b (was_linked b t);
    connected = λ b t. h.connected b (was_linked b t);
    alone = λ b c t u e. h.alone b c (was_linked b t) (was_linked c u) e;
    once = NoneTwice-unlink sh.socket_of (sh.socket_of a) sh.clients h.once;
  }

  without-ReaderSafe : (r : ReaderAt) → ReaderSafe sh r → ReaderSafe without r
  unfolding without
  without-ReaderSafe r k =
      ReaderSafe-mono sh without
        (λ fd b g. record {
          linked = still_linked b g.linked (λ e. cc (g.unmarked, ap sh.marked e, bad));
          unmarked = g.unmarked;
          own_socket = g.own_socket;
        })
        r k

  without-Leaving : IsOff without a × IsOpen without a
  unfolding without
  without-Leaving = (
    record { allocated = h.allocated a there; off = gone },
    record {
      connected = h.connected a there;
      own = λ b t e. differs b t (h.alone b a (was_linked b t) there e);
    },
  )

  without-Kept : (left : List ℕ) → has a left ≡ false → Kept sh left → Kept without left
  without-Kept left not_again k =
      (λ b t. still_linked b (k.0 b t) (λ e. cc (not_again, ap (λ x. has x left) e, t)), k.1)

-- Its descriptor is closed.
module _ (sh : Shared) (a : ℕ) (h : IsSound sh) (o : IsOpen sh a) where
  closed_one : Shared
  closed_one = record sh { opened = update sh.opened (sh.socket_of a) false }

  closed-IsSound : IsSound closed_one
  unfolding closed_one
  closed-IsSound = record {
    allocated = h.allocated;
    connected = λ b t.
        update_other sh.opened (sh.socket_of a) false (sh.socket_of b) (o.own b t)
        ∙ h.connected b t;
    alone = h.alone;
    once = h.once;
  }

-- It is freed.
module _ (sh : Shared) (a : ℕ) (h : IsSound sh) (k : IsOff sh a) where
  freed_one : Shared
  freed_one = record sh { live = update sh.live a false }

  freed-IsSound : IsSound freed_one
  unfolding freed_one
  freed-IsSound = record {
    allocated = λ b t.
        update_other sh.live a false b (λ e. cc (k.off, ap (λ x. has x sh.clients) e, t))
        ∙ h.allocated b t;
    connected = h.connected;
    alone = h.alone;
    once = h.once;
  }

same_reader :
    (sh sh' : Shared)
    → sh'.clients ≡ sh.clients
    → sh'.marked ≡ sh.marked
    → sh'.socket_of ≡ sh.socket_of
    → (fd b : ℕ) → IsHeard sh fd b
    → IsHeard sh' fd b
same_reader sh sh' e e' e'' fd b h = record {
  linked = ap (has b) e ∙ h.linked;
  unmarked = ap (λ f. f b) e' ∙ h.unmarked;
  own_socket = ap (λ f. f b) e'' ∙ h.own_socket;
}

pub WriterStep-Safe :
    {sh sh' : Shared} {w w' : WriterAt} (r : ReaderAt)
    → WriterStep sh w sh' w'
    → IsSound sh
    → ReaderSafe sh r
    → WriterSafe sh w
    → IsSound sh' × (ReaderSafe sh' r × WriterSafe sh' w')
unfolding without closed_one freed_one
WriterStep-Safe r take_clients h k w = (h, (k, (λ b t. t, (λ b t. t, h.once))))
WriterStep-Safe r (flushes {a} {left}) h k w = (h, (k, (λ b t. w.0 b (has_later b a left t), w.1)))
WriterStep-Safe r all_flushed h k w = (h, (k, w.1))
WriterStep-Safe r (keeps {a} {left} fine) h k w =
    (h, (k, (λ b t. w.0 b (has_later b a left t), w.1.1)))
WriterStep-Safe {sh} r (logs_out {a} {left} bad) h k w =
    let there = w.0 a (has_first a left) in
    (
      without-IsSound sh a h there bad,
      (
        without-ReaderSafe sh a h there bad r k,
        (
          without-Leaving sh a h there bad,
          without-Kept sh a h there bad left w.1.0 (λ b t. w.0 b (has_later b a left t), w.1.1),
        ),
      ),
    )
WriterStep-Safe r all_checked h k w = (h, (k, tt))
WriterStep-Safe r tells h k w = (h, (k, (λ b t. t, w)))
WriterStep-Safe r tells_nobody h k w = (h, (k, (λ b t. absurd (cc t), w)))
WriterStep-Safe r (gives_notice {t} {a} {ts}) h k w =
    (h, (k, (λ b u. w.0 b (has_later b t ts u), w.1)))
WriterStep-Safe {sh} r (closes {a} {left}) h k w = (
  closed-IsSound sh a h w.1.0.1,
  (
    ReaderSafe-mono sh (closed_one sh a h w.1.0.1)
        (same_reader sh (closed_one sh a h w.1.0.1) refl refl refl) r k,
    (record { allocated = w.1.0.0.allocated; off = w.1.0.0.off }, w.1.1),
  ),
)
WriterStep-Safe {sh} r (frees {a} {left}) h k w = (
  freed-IsSound sh a h w.0,
  (
    ReaderSafe-mono sh (freed_one sh a h w.0) (same_reader sh (freed_one sh a h w.0) refl refl refl)
        r k,
    w.1,
  ),
)
