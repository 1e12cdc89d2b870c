-- ===== src/Server/Threads/Races.antt =====
-- Which accesses of the threads are to clients that are still allocated.
use mathlib.Core.Path.{subst}
use cosc402_assignment.Base.{
  ℕ, ◌≡◌, refl, sym, ap, ◌∙◌, Bool, true, false, Option, none, some, List, [], ◌∷◌, ◌++◌,
}
use cosc402_assignment.Server.Threads.{
  Shared, Entry, entries_of, ReaderAt, resting, printing, looping, hearing, delivering,
  take_entries, print_socket, takes_line, delivers, WriterAt, idle, flushing, checking, unlinked,
  telling, closed, take_clients, flushes, all_flushed, keeps, logs_out, tells_nobody, closes, frees,
  System, reads, writes, Reach, later, Leads, here, onward, reader_uses, writer_uses,
}
use cosc402_assignment.Server.Threads.Clients.{has, has_first}
use cosc402_assignment.Server.Threads.Invariant.{IsSound, IsHeard, WriterSafe, ReaderSafe}
use cosc402_assignment.Server.Threads.Steps.{update_own}
use cosc402_assignment.Server.Threads.Reachable.{Reach-Safe}

used_by_writer :
    (sh : Shared) (w : WriterAt) (a : ℕ)
    → IsSound sh
    → WriterSafe sh w
    → writer_uses w ≡ some a
    → sh.live a ≡ true
used_by_writer sh idle a h k u = absurd (cc u)
used_by_writer sh (flushing [] clients) a h k u = absurd (cc u)
used_by_writer sh (flushing (c ∷ left) clients) a h k u =
    let same : c ≡ a = cc u in ap sh.live (sym same) ∙ h.allocated c (k.0 c (has_first c left))
used_by_writer sh (checking []) a h k u = absurd (cc u)
used_by_writer sh (checking (c ∷ left)) a h k u =
    let same : c ≡ a = cc u in ap sh.live (sym same) ∙ h.allocated c (k.0 c (has_first c left))
used_by_writer sh (unlinked c left) a h k u =
    let same : c ≡ a = cc u in ap sh.live (sym same) ∙ k.0.0.allocated
used_by_writer sh (telling [] c left) a h k u =
    let same : c ≡ a = cc u in ap sh.live (sym same) ∙ k.1.0.0.allocated
used_by_writer sh (telling (t ∷ ts) c left) a h k u =
    let same : t ≡ a = cc u in ap sh.live (sym same) ∙ h.allocated t (k.0 t (has_first t ts))
used_by_writer sh (closed c left) a h k u =
    let same : c ≡ a = cc u in ap sh.live (sym same) ∙ k.0.allocated

-- In every state that the three threads can reach, however their steps follow each other, the
-- client that the writing thread accesses next is allocated.
pub writer_uses_live :
    {s : System} (a : ℕ) → Reach s → writer_uses s.writer ≡ some a → s.shared.live a ≡ true
writer_uses_live {s} a r u =
    let v = Reach-Safe r in used_by_writer s.shared s.writer a v.sound v.writer u

-- The client that the reading thread is busy with: it reads from its socket, or handles its lines.
abbrev pub busy_with : ReaderAt → Option ℕ
busy_with resting = none
busy_with (printing left entries) = none
busy_with (looping []) = none
busy_with (looping ((none, a) ∷ left)) = none
busy_with (looping ((some fd, a) ∷ left)) = some a
busy_with (hearing a left) = some a
busy_with (delivering ts a left) = some a

pub record IsServed (sh : Shared) (a : ℕ) : Type 0 where
  pub allocated : sh.live a ≡ true
  pub linked : has a sh.clients ≡ true
  pub unmarked : sh.marked a ≡ false
  pub connected : sh.opened (sh.socket_of a) ≡ true

heard-IsServed : (sh : Shared) (fd a : ℕ) → IsSound sh → IsHeard sh fd a → IsServed sh a
heard-IsServed sh fd a h k = record {
  allocated = h.allocated a k.linked;
  linked = k.linked;
  unmarked = k.unmarked;
  connected = h.connected a k.linked;
}

busy-IsServed :
    (sh : Shared) (r : ReaderAt) (a : ℕ)
    → IsSound sh
    → ReaderSafe sh r
    → busy_with r ≡ some a
    → IsServed sh a
busy-IsServed sh resting a h k u = absurd (cc u)
busy-IsServed sh (printing left entries) a h k u = absurd (cc u)
busy-IsServed sh (looping []) a h k u = absurd (cc u)
busy-IsServed sh (looping ((none, c) ∷ left)) a h k u = absurd (cc u)
busy-IsServed sh (looping ((some fd, c) ∷ left)) a h k u =
    let same : c ≡ a = cc u in subst (IsServed sh) same (heard-IsServed sh fd c h k.0.0)
busy-IsServed sh (hearing c left) a h k u =
    let same : c ≡ a = cc u in subst (IsServed sh) same (heard-IsServed sh (sh.socket_of c) c h k.0)
busy-IsServed sh (delivering ts c left) a h k u =
    let same : c ≡ a = cc u in subst (IsServed sh) same (heard-IsServed sh (sh.socket_of c) c h k.0)

-- In every state that the three threads can reach, however their steps follow each other, the
-- client that the reading thread reads from or whose lines it handles is allocated, in the list,
-- not marked, and its descriptor is open.
pub reader_serves_live :
    {s : System} (a : ℕ) → Reach s → busy_with s.reader ≡ some a → IsServed s.shared a
reader_serves_live {s} a r u =
    let v = Reach-Safe r in busy-IsServed s.shared s.reader a v.sound v.reader u

-- The moments at which the reading thread takes the whole list, the marked clients included.
pub data TakesAll : ReaderAt → Type 0 where
  for_events : TakesAll resting
  for_line : (b : ℕ) (left : List Entry) → TakesAll (hearing b left)

abbrev pub NoneMarked : (ℕ → Bool) → List ℕ → Type 0
NoneMarked marked [] = Unit {0}
NoneMarked marked (c ∷ cs) = (marked c ≡ false) × NoneMarked marked cs

abbrev pub at_place : Shared → ReaderAt → WriterAt → System
at_place sh r w = record { shared = sh; reader = r; writer = w }

Reach-Leads : {s t : System} → Reach s → Leads s t → Reach t
Reach-Leads r here = r
Reach-Leads r (onward l step) = later (Reach-Leads r l) step

-- The threads can go from `s` to a state in which the reading thread accesses the freed client next.
-- `s` is one that they reach, so that state is too.
pub record UsesFreed (s : System) (a : ℕ) : Type 0 where
  pub state : System
  pub led : Leads s state
  pub reached : Reach state
  pub used : reader_uses state.reader ≡ some a
  pub freed : state.shared.live a ≡ false

used_freed :
    {s t : System} {a : ℕ}
    → Reach s
    → Leads s t
    → reader_uses t.reader ≡ some a
    → t.shared.live a ≡ false
    → UsesFreed s a
used_freed {t} r l u f = record {
  state = t;
  led = l;
  reached = Reach-Leads r l;
  used = u;
  freed = f;
}

module _ (from : System) (sh : Shared) where
  print_past :
      (w : WriterAt) (xs ys : List ℕ) (es : List Entry)
      → Leads from (at_place sh (printing (entries_of sh (xs ++ ys)) es) w)
      → Leads from (at_place sh (printing (entries_of sh ys) es) w)
  print_past w [] ys es r = r
  print_past w (x ∷ xs) ys es r = print_past w xs ys es (onward r (reads print_socket))

  deliver_past :
      (w : WriterAt) (xs ys : List ℕ) (b : ℕ) (left : List Entry)
      → Leads from (at_place sh (delivering (xs ++ ys) b left) w)
      → Leads from (at_place sh (delivering ys b left) w)
  deliver_past w [] ys b left r = r
  deliver_past w (x ∷ xs) ys b left r = deliver_past w xs ys b left (onward r (reads delivers))

  module _ (r : ReaderAt) where
    flush_past :
        (l cs : List ℕ)
        → Leads from (at_place sh r (flushing l cs))
        → Leads from (at_place sh r (checking cs))
    flush_past [] cs s = onward s (writes all_flushed)
    flush_past (x ∷ l) cs s = flush_past l cs (onward s (writes flushes))

    check_past :
        (xs ys : List ℕ)
        → NoneMarked sh.marked xs
        → Leads from (at_place sh r (checking (xs ++ ys)))
        → Leads from (at_place sh r (checking ys))
    check_past [] ys h s = s
    check_past (x ∷ xs) ys h s = check_past xs ys h.1 (onward s (writes (keeps h.0)))

    -- The writing thread goes through a round up to the client and frees it, while the reading
    -- thread stays where it is.
    frees_meanwhile :
        (xs ys : List ℕ) (a : ℕ)
        → sh.clients ≡ xs ++ (a ∷ ys)
        → NoneMarked sh.marked xs
        → sh.marked a ≡ true
        → reader_uses r ≡ some a
        → Reach from
        → Leads from (at_place sh r idle)
        → UsesFreed from a
    frees_meanwhile xs ys a list fine bad uses reached s =
        let checks : Leads from (at_place sh r (checking (a ∷ ys))) = check_past xs (a ∷ ys) fine (
          subst (λ l. Leads from (at_place sh r (checking l))) list
            (flush_past sh.clients sh.clients (onward s (writes take_clients)))) in
        let off = onward (onward checks (writes (logs_out bad))) (writes tells_nobody) in
        used_freed reached (onward (onward off (writes closes)) (writes frees)) uses
          (update_own sh.live a false)

-- From every state that the threads can reach in which the writing thread is at the head of its
-- loop, a marked client is in the list with no marked one before it, and the reading thread is
-- about to take the whole list, for polling or to deliver a line, they can go on from it to a
-- state in which the reading thread accesses that client after it was freed.
pub stale_client-UsesFreed :
    (sh : Shared) (r : ReaderAt) (xs ys : List ℕ) (a : ℕ)
    → Reach (at_place sh r idle)
    → TakesAll r
    → sh.clients ≡ xs ++ (a ∷ ys)
    → NoneMarked sh.marked xs
    → sh.marked a ≡ true
    → UsesFreed (at_place sh r idle) a
stale_client-UsesFreed sh resting xs ys a s for_events list fine bad =
    let es = entries_of sh sh.clients in
    frees_meanwhile (at_place sh resting idle) sh (printing (entries_of sh (a ∷ ys)) es) xs ys a
      list fine bad refl s
      (print_past (at_place sh resting idle) sh idle xs (a ∷ ys) es (
        subst
          (λ l. Leads (at_place sh resting idle) (at_place sh (printing (entries_of sh l) es) idle))
          list (onward here (reads take_entries))))
stale_client-UsesFreed sh r xs ys a s (for_line b left) list fine bad =
    frees_meanwhile (at_place sh (hearing b left) idle) sh (delivering (a ∷ ys) b left) xs ys a list
      fine bad refl s
      (deliver_past (at_place sh (hearing b left) idle) sh idle xs (a ∷ ys) b left (
        subst
          (λ l. Leads (at_place sh (hearing b left) idle) (at_place sh (delivering l b left) idle))
          list (onward here (reads takes_line))))
