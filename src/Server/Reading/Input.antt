-- ===== src/Server/Reading/Input.antt =====
-- A round of `read_sockets` in which one client has sent lines: they are fetched from its socket and
-- done to the room.
use cosc402_assignment.Base.{
  ℕ, suc, ◌+◌, ◌^◌, ◌≤◌, ◌<◌, ◌≡◌, ◌≢◌, refl, sym, ap, ◌∙◌, true, false, Option, some, List, [],
  ◌∷◌, ◌++◌, arith, ◌==◌, ==_self, if◌then◌else◌, inl, inr, Bool-cases,
}
use mathlib.Core.Path.{subst}
use cosc402_assignment.Base.Lists.{length, get_elem?}
use cosc402_assignment.Base.Outcome.{Outcome, done, Returns, returns, ◌>>=◌}
use cosc402_assignment.Base.Outcome
use cosc402_assignment.Base.Words.{int_add, to_int}
use cosc402_assignment.Buffer.Ownership.{and_nodes}
use cosc402_assignment.Buffer.Fill.{Pull, got}
use cosc402_assignment.ClientInfo.{ClientData, Answer}
use cosc402_assignment.Server.Login.{Surroundings, State}
use cosc402_assignment.Server.Deliver.{from_front, and_clients}
use cosc402_assignment.Server.Handle.Commands.{Command}
use cosc402_assignment.Server.Handle.Room.{
  member, view, view-set, view-get_elem?, obey_all, reached_all,
}
use cosc402_assignment.Server.Handle.Healthy.{
  IsHealthy, IsHealthy-set, get_elem?-set, socket_ids, socket_ids-set, socket_ids-get_elem?,
}
use cosc402_assignment.Server.Handle.Rest.{IsNamed, RestBut-set}
use cosc402_assignment.Server.Handle.Fetching.{print_all, AllCommands, set_same, IsReady}
use cosc402_assignment.Server.Handle.Loop.{Generous, Serves, try_to_handle_msg-Serves}
use cosc402_assignment.Server.Writing.{socket_at}
use cosc402_assignment.Server.Reading.{
  PollEvent, input, polled, in_place, Turn, after_fetch, read_one, read_round,
}
use cosc402_assignment.Server.Reading.Arrival.{Brings, fetch_from_client-Brings}
use cosc402_assignment.Server.Reading.Polling.{AllQuiet, read_round-one}

-- A client whose socket has bytes: it is not marked, and nothing is left of what it sent before.
pub record IsHeard {S : Type 0} (read : ℕ → S → Pull S) (available : S → Option ℕ)
    (events : ℕ → PollEvent) (text : List ℕ) (c : ClientData) (socket rest : S) : Type 0 where
  pub unmarked : c.pub_mark ≡ 0
  pub empty : c.reading_buffer ≡ []
  pub start : c.last_check_cmd_index ≡ 0
  pub named : IsNamed c
  pub reported : events c.socket_id ≡ input
  pub some_text : 0 < length text
  pub fits : length text ≤ 512
  pub announced : available socket ≡ some (length text)
  pub gives : read (length text) socket ≡ got text rest

-- What the round does to the room; `sent` is what a socket has been given.
pub record Heeds {S : Type 0} (sent : S → List ℕ) (cmds : List Command) (others : ℕ → ℕ) (i : ℕ)
    (s : State) (sockets : ℕ → S) (t : Turn S) : Type 0 where
  pub serves : Serves cmds others i 0 s t.state
  pub unsent : (k : ℕ) → sent (t.sockets k) ≡ sent (sockets k)
  pub untouched :
      (j k : ℕ)
      → get_elem? (socket_ids s.server.clients) i ≡ some k
      → j ≢ k
      → t.sockets j ≡ sockets j

module _ {S : Type 0} (sent : S → List ℕ) (cmds : List Command) (others : ℕ → ℕ) (s : State)
    (sockets : ℕ → S) (i : ℕ) (c : ClientData) (rest : S)
    (there : get_elem? s.server.clients i ≡ some c) (h : IsHealthy others s.server s.mem)
    (n : IsNamed c) (start : c.last_check_cmd_index ≡ 0)
    (unsent : sent rest ≡ sent (sockets c.socket_id)) where
  -- The state that the lines are handled in.
  arrived-IsReady :
      (a : Answer S)
      → Brings (and_clients s.server.clients others) c (print_all cmds) rest a
      → IsReady others i (print_all cmds) (in_place s i a.client a.mem) a.client
  arrived-IsReady a b =
      let same : a.client.writing_buffer ≡ c.writing_buffer = ap (λ x. x.writing_buffer) b.client in
      let owns = from_front s.server.clients a.client.reading_buffer others b.owns in
      record {
        there = get_elem?-set s.server.clients i c a.client there;
        named = subst IsNamed (sym b.client) n;
        good = b.good;
        node = b.node;
        start = ap (λ x. x.last_check_cmd_index) b.client ∙ start;
        healthy =
            IsHealthy-set (and_nodes a.client.reading_buffer others) s.server a.mem i c a.client
              a.mem.pool there same owns
              (record {
                writable = h.writable;
                owns = owns;
                calm = b.calm;
                counted = h.counted;
                few = h.few;
              });
      }

  same_room :
      (a : Answer S)
      → Brings (and_clients s.server.clients others) c (print_all cmds) rest a
      → view (in_place s i a.client a.mem).server.clients ≡ view s.server.clients
  same_room a b =
      view-set s.server.clients i a.client
      ∙ set_same (view s.server.clients) i (member a.client)
          (view-get_elem? s.server.clients i c there ∙ ap (λ x. some (member x)) (sym b.client))

  socket_at-unsent :
      (a : Answer S)
      → a.rest ≡ rest
      → (k : ℕ) → sent (socket_at c.socket_id a.rest sockets k) ≡ sent (sockets k)
  socket_at-unsent a e k = elim (Bool-cases (k == c.socket_id)) [
    | inl own ↦
        let place : k ≡ c.socket_id = ground (arith, own) in
        rw own (ap sent e ∙ unsent ∙ ap (λ j. sent (sockets j)) (sym place))
    | inr other ↦ rw other refl
  ]

  other_place :
      (a : Answer S) (j : ℕ) → j ≢ c.socket_id → socket_at c.socket_id a.rest sockets j ≡ sockets j
  other_place a j ne =
      let differs : (j == c.socket_id) ≡ false = ground (arith, ne) in rw differs refl

  own_place : (k : ℕ) → get_elem? (socket_ids s.server.clients) i ≡ some k → c.socket_id ≡ k
  own_place k e =
      let own : get_elem? (socket_ids s.server.clients) i ≡ some c.socket_id =
        socket_ids-get_elem? s.server.clients i c there in
      cc (own, e)

  -- What the lines have done counts from the state before the fetch.
  Serves-fetched :
      (a : Answer S) (s' : State)
      → Brings (and_clients s.server.clients others) c (print_all cmds) rest a
      → Serves cmds others i 0 (in_place s i a.client a.mem) s'
      → Serves cmds others i 0 s s'
  Serves-fetched a s' b v = record {
    room = v.room ∙ ap (obey_all cmds i) (same_room a b);
    signal =
        v.signal
        ∙ ap
            (λ r.
              if 0 + r == 0
              then s.server.sign_to_flush_msg
              else int_add s.server.sign_to_flush_msg 1)
            (ap (reached_all cmds i) (same_room a b));
    healthy = v.healthy;
    same_sockets =
        v.same_sockets
        ∙ socket_ids-set s.server.clients i c a.client there (ap (λ x. x.socket_id) b.client);
    rest = λ r.
        v.rest (RestBut-set s.server.clients i c a.client there (ap (λ x. x.pub_mark) b.client) r);
  }

  module _ (read : ℕ → S → Pull S) (available : S → Option ℕ) (events : ℕ → PollEvent)
      (es : ℕ → Surroundings) (g : Generous es) (k : AllCommands cmds)
      (few : reached_all cmds i (view s.server.clients) < 2 ^ 32)
      (heard : IsHeard read available events (print_all cmds) c (sockets c.socket_id) rest) where
    after_fetch-Heeds :
        (a : Answer S)
        → Brings (and_clients s.server.clients others) c (print_all cmds) rest a
        → Returns
            (Heeds sent cmds others i s sockets)
            (after_fetch read available events es i s sockets c.socket_id a)
    after_fetch-Heeds a b =
        let some_bytes : (to_int a.ret == 0) ≡ false =
          ground (arith, b.ret, heard.some_text, heard.fits) in
        rw some_bytes (
          Outcome.bind
            (try_to_handle_msg-Serves others i es cmds (in_place s i a.client a.mem) a.client g k
              (arrived-IsReady a b) (omega (arith, few, ap (reached_all cmds i) (same_room a b))))
            (λ s' v. returns (record {
              serves = Serves-fetched a s' b v;
              unsent = socket_at-unsent a b.rest_is;
              untouched = λ j k at_place ne. other_place a j (λ e. ne (e ∙ own_place k at_place));
            })))

    pub read_one-Heeds :
        Returns
          (Heeds sent cmds others i s sockets)
          (read_one read available events es s sockets (polled c, i))
    read_one-Heeds =
        let open_one : (c.pub_mark == 0) ≡ true = ground (arith, heard.unmarked) in
        rw (open_one, there, ==_self c.socket_id, heard.reported, heard.announced)
          (Outcome.bind
            (fetch_from_client-Brings read (and_clients s.server.clients others) (print_all cmds)
              (sockets c.socket_id) rest heard.some_text heard.fits heard.gives c s.mem heard.empty
              h.calm h.owns)
            after_fetch-Heeds)

length-socket_ids : (cs : List ClientData) → length (socket_ids cs) ≡ length cs
length-socket_ids [] = refl
length-socket_ids (c ∷ cs) = ap suc (length-socket_ids cs)

-- The round of the reading thread in which one client's lines are there: they are done to the room, and
-- no socket is written to.
pub read_round-Heeds :
    {S : Type 0} (read : ℕ → S → Pull S) (available : S → Option ℕ) (events : ℕ → PollEvent)
    (sent : S → List ℕ) (others : ℕ → ℕ) (es : ℕ → ℕ → Surroundings) (s : State) (sockets : ℕ → S)
    (xs ys : List ClientData) (c : ClientData) (cmds : List Command) (rest : S) (ret : ℕ)
    → (0 < ret) × (ret < 2 ^ 31)
    → ((n : ℕ) → Generous (es n))
    → AllCommands cmds
    → s.server.clients ≡ xs ++ (c ∷ ys)
    → AllQuiet events xs × AllQuiet events ys
    → IsHealthy others s.server s.mem
    → IsHeard read available events (print_all cmds) c (sockets c.socket_id) rest
    → sent rest ≡ sent (sockets c.socket_id)
    → reached_all cmds (length xs) (view s.server.clients) < 2 ^ 32
    → Returns
        (Heeds sent cmds others (length xs) s sockets)
        (read_round read available events ret es s sockets)
read_round-Heeds {S} read available events sent others es s sockets xs ys c cmds rest ret reports g
      k list quiet h heard unsent few =
    read_round-one read available events ret es s sockets xs ys c reports h.counted list quiet
      (λ n there.
        Outcome.mono
          (read_one-Heeds sent cmds others s sockets (length xs) c rest there h heard.named
            heard.start unsent read available events (es n) (g n) k few heard)
          (λ t v. (v, same_length t v)))
  where
    same_length :
        (t : Turn S)
        → Heeds sent cmds others (length xs) s sockets t
        → length t.state.server.clients ≡ length s.server.clients
    same_length t v = omega (
      arith,
      ap length v.serves.same_sockets,
      length-socket_ids t.state.server.clients,
      length-socket_ids s.server.clients,
    )
