-- ===== src/Server/Writing/Leaver.antt =====
-- A round of `write_sockets` in which one client is marked and leaves.
use cosc402_assignment.Base.{
  ℕ, suc, ◌<◌, ◌≡◌, ◌≢◌, refl, sym, ap, ◌∙◌, true, List, [], ◌∷◌, ◌++◌, arith, ◌==◌, if◌then◌else◌,
}
use mathlib.Core.Path.{subst}
use cosc402_assignment.Base.Lists.{length}
use cosc402_assignment.Base.Strings.{IsLine, c_string}
use cosc402_assignment.Base.Outcome.{Outcome, done, Returns, returns, ◌>>=◌}
use cosc402_assignment.Base.Outcome
use cosc402_assignment.Base.Words.{int_add}
use cosc402_assignment.Buffer.Node.{AllGood}
use cosc402_assignment.Buffer.Ownership.{and_nodes}
use cosc402_assignment.Buffer.Drain.{Put}
use cosc402_assignment.Buffer.Drain.Writing.{IsSink}
use cosc402_assignment.ClientInfo.{ClientData}
use cosc402_assignment.Server.{get_client_list, is_leaving}
use cosc402_assignment.Server.Login.{Surroundings, State}
use cosc402_assignment.Server.Login.Leaving.{NotIn, farewell}
use cosc402_assignment.Server.Login.Logout.{Leaves, user_logout-Leaves}
use cosc402_assignment.Server.Handle.Room.{view, give_all, count_gets}
use cosc402_assignment.Server.Handle.Healthy.{IsHealthy}
use cosc402_assignment.Server.Handle.Loop.{Generous}
use cosc402_assignment.Server.Writing.{
  Flushing, logout_each, Round, round_end, flushed_state, write_round,
}
use cosc402_assignment.Server.Writing.Flush.{
  Distinct, AllSmall, IsFlushed, AllFlushed, FlushesAll, flush_each-FlushesAll,
}
use cosc402_assignment.Server.Writing.Drained.{
  drain_all, NoneLeaving, AllSent, AllFlushed-AllSent, AllFlushed-drain_all, NoneLeaving-flushed,
  flushed-IsHealthy,
}
use cosc402_assignment.Server.Writing.Rounds.{
  logout_each-skip, logout_each_none, settled_clients, settled_sign, settled-IsHealthy,
}

module _ {S : Type 0} (put : List ℕ → S → Put S) (sent : S → List ℕ) (sink : IsSink put sent) where
  module _ (before after : ℕ → S) where
    -- The flushed list, around the client that leaves.
    record Around (xs ys : List ClientData) (c : ClientData) (ds : List ClientData) : Type 0 where
      front : List ClientData
      own : ClientData
      back : List ClientData
      form : ds ≡ front ++ (own ∷ back)
      mid : IsFlushed put sent sink before after c own
      left : AllFlushed put sent sink before after (xs ++ ys) (front ++ back)
      front_flushed : AllFlushed put sent sink before after xs front
      back_flushed : AllFlushed put sent sink before after ys back

    around :
        (xs ys : List ClientData) (c : ClientData) (ds : List ClientData)
        → AllFlushed put sent sink before after (xs ++ (c ∷ ys)) ds
        → Around xs ys c ds
    around [] ys c [] a = absurd a
    around [] ys c (d ∷ ds) a = record {
      front = [];
      own = d;
      back = ds;
      form = refl;
      mid = a.0;
      left = a.1;
      front_flushed = tt;
      back_flushed = a.1;
    }
    around (x ∷ xs) ys c [] a = absurd a
    around (x ∷ xs) ys c (d ∷ ds) a =
        let r = around xs ys c ds a.1 in
        record {
          front = d ∷ r.front;
          own = r.own;
          back = r.back;
          form = ap (λ es. d ∷ es) r.form;
          mid = r.mid;
          left = (a.0, r.left);
          front_flushed = (a.0, r.front_flushed);
          back_flushed = r.back_flushed;
        }

    NotIn-flushed :
        (k : ℕ) (cs ds : List ClientData)
        → AllFlushed put sent sink before after cs ds
        → NotIn k cs
        → NotIn k ds
    NotIn-flushed k [] [] a h = tt
    NotIn-flushed k [] (d ∷ ds) a h = absurd a
    NotIn-flushed k (c ∷ cs) [] a h = absurd a
    NotIn-flushed k (c ∷ cs) (d ∷ ds) a h =
        (rw (ap (λ x. x.socket_id) a.0.same) h.0, NotIn-flushed k cs ds a.1 h.1)

  NotIn-front :
      (xs ys : List ClientData) (c : ClientData) → Distinct (xs ++ (c ∷ ys)) → NotIn c.socket_id xs
  NotIn-front [] ys c apart = tt
  NotIn-front (x ∷ xs) ys c apart = (differs xs apart.0, NotIn-front xs ys c apart.1)
    where
      differs :
          (zs : List ClientData) → NotIn x.socket_id (zs ++ (c ∷ ys)) → x.socket_id ≢ c.socket_id
      differs [] h same = h.0 (sym same)
      differs (z ∷ zs) h same = differs zs h.1 same

  -- A round in which the client between `xs` and `ys` leaves.
  pub record Departs (others : ℕ → ℕ) (s : State) (sockets : ℕ → S) (xs ys : List ClientData)
      (name : List ℕ) (r : Round S) : Type 0 where
    pub room : view r.state.server.clients ≡ give_all (farewell name) (drain_all (view (xs ++ ys)))
    pub output : AllSent put sent sink sockets r.sockets s.server.clients
    pub sign : r.state.server.sign_to_flush_msg ≡ (
        if count_gets (farewell name) (drain_all (view (xs ++ ys))) == 0
        then s.server.sign_to_flush_msg
        else int_add s.server.sign_to_flush_msg 1)
    pub healthy : IsHealthy others r.state.server r.state.mem

  module _ (others : ℕ → ℕ) (es : ℕ → Surroundings) (g : Generous es) (s : State) (sockets : ℕ → S)
      (xs ys : List ClientData) (c : ClientData) (list : s.server.clients ≡ xs ++ (c ∷ ys))
      (h : IsHealthy (and_nodes c.reading_buffer others) s.server s.mem)
      (leaving : is_leaving c ≡ true) (stay : NoneLeaving xs) (stay' : NoneLeaving ys)
      (line : IsLine (c_string c.name)) (short : length (c_string c.name) < 30)
      (good : AllGood c.reading_buffer) (small : AllSmall s.server.clients)
      (apart : Distinct s.server.clients) where
    logout_each-Leaves :
        (f : Flushing S)
        (v : FlushesAll put sent sink s.server.clients
          (and_nodes c.reading_buffer others)
          sockets
          f)
        (a : Around sockets f.sockets xs ys c f.clients)
        → Returns
            (Leaves others (flushed_state s f).server (a.front ++ a.back) (c_string c.name))
            (logout_each es f.clients (flushed_state s f))
    unfolding logout_each
    logout_each-Leaves f v a =
        let named : c_string a.own.name ≡ c_string c.name = ap (λ x. c_string x.name) a.mid.same in
        let input : a.own.reading_buffer ≡ c.reading_buffer =
          ap (λ x. x.reading_buffer) a.mid.same in
        let marked : is_leaving a.own ≡ true = ap is_leaving a.mid.same ∙ leaving in
        let absent : NotIn a.own.socket_id a.front = rw (ap (λ x. x.socket_id) a.mid.same) (
          NotIn-flushed sockets f.sockets c.socket_id xs a.front a.front_flushed
            (NotIn-front xs ys c (rw list at apart))) in
        let healthy =
          flushed-IsHealthy put sent sink (and_nodes c.reading_buffer others) s sockets f h v in
        subst
          (λ ds.
            Returns (Leaves others (flushed_state s f).server (a.front ++ a.back) (c_string c.name))
              (logout_each es ds (flushed_state s f)))
          (sym a.form)
          (logout_each-skip es a.front (a.own ∷ a.back) (flushed_state s f) g
            (NoneLeaving-flushed put sent sink sockets f.sockets xs a.front a.front_flushed stay)
            (λ es' g'. Outcome.Returns-then _ marked (
              Outcome.bind
                (user_logout-Leaves (es' 0) others (flushed_state s f).server a.own a.front a.back
                  (flushed_state s f).mem (g' 0).0 (g' 0).1 a.form absent
                  (subst IsLine (sym named) line) (omega (arith, ap length named))
                  (subst AllGood (sym input) good)
                  (subst
                    (λ b.
                      IsHealthy (and_nodes b others) (flushed_state s f).server
                        (flushed_state s f).mem)
                    (sym input) healthy))
                (λ s' l.
                  logout_each_none (λ n. es' (suc n)) a.back s'
                    (NoneLeaving-flushed put sent sink sockets f.sockets ys a.back a.back_flushed
                      stay')
                    (subst (λ n. Leaves others (flushed_state s f).server (a.front ++ a.back) n s')
                      named l)))))

    departed :
        (f : Flushing S)
        (v : FlushesAll put sent sink s.server.clients
          (and_nodes c.reading_buffer others)
          sockets
          f)
        (a : Around sockets f.sockets xs ys c f.clients) (s' : State)
        → Leaves others (flushed_state s f).server (a.front ++ a.back) (c_string c.name) s'
        → Departs others s sockets xs ys (c_string c.name) (round_end f.sockets s')
    departed f v a s' l =
        let room : view (a.front ++ a.back) ≡ drain_all (view (xs ++ ys)) =
          AllFlushed-drain_all put sent sink sockets f.sockets (xs ++ ys) (a.front ++ a.back)
            a.left in
        record {
          room =
              ap view (settled_clients s'.server)
              ∙ l.room
              ∙ ap (give_all (farewell (c_string c.name))) room;
          output =
              AllFlushed-AllSent put sent sink sockets f.sockets s.server.clients f.clients v.each;
          sign =
              settled_sign s'.server
              ∙ l.signal
              ∙ ap
                  (λ ms.
                    if count_gets (farewell (c_string c.name)) ms == 0
                    then s.server.sign_to_flush_msg
                    else int_add s.server.sign_to_flush_msg 1)
                  room;
          healthy = settled-IsHealthy others s' l.healthy;
        }

    -- If exactly one client is marked, no two clients have the same socket, the name of the marked
    -- one is a string of one line that fits its array, the sockets take bytes, every allocation is
    -- granted, the buffers are good, hold their blocks and less than 2 ^ 64 bytes each, and
    -- client_count is the number of clients, less than 2 ^ 31, then write_round sends to every
    -- other client what waited for it, takes the marked client out of the list, gives its blocks
    -- back, so that every allocated block is free or held by the others, puts the notice that it
    -- has logged out into the writing buffers of the others that get posts, and raises
    -- sign_to_flush_msg by one if there is one.
    pub write_round-Departs :
        Returns (Departs others s sockets xs ys (c_string c.name)) (write_round put es s sockets)
    unfolding write_round get_client_list
    write_round-Departs =
        let same : (length s.server.clients == s.server.client_count) ≡ true =
          ground (arith, h.counted) in
        rw same (
          Outcome.bind
            (flush_each-FlushesAll put sent sink (and_nodes c.reading_buffer others)
              s.server.clients s.mem.pool sockets h.writable small apart h.owns)
            (λ f v.
              let a : Around sockets f.sockets xs ys c f.clients =
                around sockets f.sockets xs ys c f.clients (
                  subst (λ cs. AllFlushed put sent sink sockets f.sockets cs f.clients) list
                    v.each) in
              Outcome.bind (logout_each-Leaves f v a) (λ s' l. returns (departed f v a s' l))))
