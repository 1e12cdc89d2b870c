-- ===== src/Server/Threads/Steps.antt =====
-- Every step of the reading thread keeps the invariant.
use cosc402_assignment.Base.{ℕ, ◌≡◌, ◌≢◌, refl, sym, ap, ◌∙◌, true, false, ◌==◌, arith, ==_self}
use mathlib.Core.Path.{subst}
use cosc402_assignment.Server.Threads.{
  update, Shared, ReaderAt, ReaderStep, take_entries, print_socket, polls, polls_nothing, ignore,
  no_event, fetches, marks, round_ends, takes_line, no_line, delivers, delivered, WriterAt,
}
use cosc402_assignment.Server.Threads.Clients.{has, NoneTwice}
use cosc402_assignment.Server.Threads.Invariant.{
  IsSound, WriterSafe, IsHeard, addresses, ReaderSafe, entries_of-AllSafe, addresses-entries_of,
  AllSafe-mono, WriterSafe-mono,
}

pub update_own : {A : Type 0} (f : ℕ → A) (k : ℕ) (x : A) → update f k x k ≡ x
update_own f k x = rw (==_self k) refl

pub update_other : {A : Type 0} (f : ℕ → A) (k : ℕ) (x : A) (j : ℕ) → j ≢ k → update f k x j ≡ f j
update_other f k x j ne = let differs : (j == k) ≡ false = ground (arith, ne) in rw differs refl

-- A client that is marked is not one that is heard, and one in the list is not one off it.
module _ (sh : Shared) (a : ℕ) where
  marked_one : Shared
  marked_one = record sh { marked = update sh.marked a true }

  marked-IsHeard : (fd b : ℕ) → b ≢ a → IsHeard sh fd b → IsHeard marked_one fd b
  unfolding marked_one
  marked-IsHeard fd b ne h = record {
    linked = h.linked;
    unmarked = update_other sh.marked a true b ne ∙ h.unmarked;
    own_socket = h.own_socket;
  }

  marked-IsSound : IsSound sh → IsSound marked_one
  unfolding marked_one
  marked-IsSound h = record {
    allocated = h.allocated;
    connected = h.connected;
    alone = h.alone;
    once = h.once;
  }

  marked-WriterSafe : (w : WriterAt) → WriterSafe sh w → WriterSafe marked_one w
  unfolding marked_one
  marked-WriterSafe w h =
      WriterSafe-mono sh marked_one (λ l k. k)
        (λ c k. record { allocated = k.allocated; off = k.off })
        (λ c k o. record { connected = o.connected; own = o.own }) w h

pub ReaderStep-Safe :
    {sh sh' : Shared} {r r' : ReaderAt} (w : WriterAt)
    → ReaderStep sh r sh' r'
    → IsSound sh
    → ReaderSafe sh r
    → WriterSafe sh w
    → IsSound sh' × (ReaderSafe sh' r' × WriterSafe sh' w)
unfolding marked_one
ReaderStep-Safe {sh} w take_entries h r k = (
  h,
  (
    (
      entries_of-AllSafe sh sh.clients (λ b t. t),
      subst NoneTwice (sym (addresses-entries_of sh sh.clients)) h.once,
    ),
    k,
  ),
)
ReaderStep-Safe w print_socket h r k = (h, (r, k))
ReaderStep-Safe w polls h r k = (h, (r, k))
ReaderStep-Safe w polls_nothing h r k = (h, (tt, k))
ReaderStep-Safe w ignore h r k = (h, ((r.0.1, r.1.1), k))
ReaderStep-Safe w no_event h r k = (h, ((r.0.1, r.1.1), k))
ReaderStep-Safe w fetches h r k = (
  h,
  (
    (
      record { linked = r.0.0.linked; unmarked = r.0.0.unmarked; own_socket = refl },
      (r.0.1, r.1.1),
    ),
    k,
  ),
)
ReaderStep-Safe {sh} w (marks {fd} {a} {left}) h r k = (
  marked-IsSound sh a h,
  (
    (
      AllSafe-mono sh (marked_one sh a) left
          (λ fd b t g.
            marked-IsHeard sh a fd b (λ e. cc (r.1.0, ap (λ x. has x (addresses left)) e, t)) g)
          r.0.1,
      r.1.1,
    ),
    marked-WriterSafe sh a w k,
  ),
)
ReaderStep-Safe w round_ends h r k = (h, (tt, k))
ReaderStep-Safe w takes_line h r k = (h, (r, k))
ReaderStep-Safe w no_line h r k = (h, (r.1, k))
ReaderStep-Safe w delivers h r k = (h, (r, k))
ReaderStep-Safe w delivered h r k = (h, (r, k))
