-- ===== src/Server/Handle/Fetching.antt =====
-- A client's lines in one node of its reading buffer, and what fetching one of them leaves.
use cosc402_assignment.Base.{
  ℕ, zero, suc, ◌^◌, ◌<◌, ◌≡◌, refl, sym, ap, ◌∙◌, true, none, some, List, [], ◌∷◌, ◌++◌, arith,
  append_assoc, append-nil, ltb,
}
use mathlib.Core.Path.{subst}
use cosc402_assignment.Base.Lists.{
  length, get_elem?, set, take, length-append, take-append_left, take_all,
}
use cosc402_assignment.Base.Strings.{
  IsText, IsText-append, IsLine, IsLine-IsText, IsLine-append, first_of, first_of_line,
}
use cosc402_assignment.Base.Outcome.{done, Returns, returns}
use cosc402_assignment.Cache.{Pool}
use cosc402_assignment.Cache.Ownership.{Owns}
use cosc402_assignment.Buffer.Node.{Node, Buffer, AllGood, bytes, contents, length-bytes}
use cosc402_assignment.Buffer.Ownership.{and_nodes}
use cosc402_assignment.ClientInfo.{ClientData, Fetched, fetched_msg, fetch_msg_from_client}
use cosc402_assignment.ClientInfo.Laws.{HandsOut, fetch_msg_from_client-line}
use cosc402_assignment.Server.Login.{State}
use cosc402_assignment.Server.Deliver.{to_front, from_front, and_clients}
use cosc402_assignment.Server.Handle.{with_client}
use cosc402_assignment.Server.Handle.Commands.{Command, login, to_all, to_client, print, IsCommand}
use cosc402_assignment.Server.Handle.Room.{Member, member, view, view-set, view-get_elem?}
use cosc402_assignment.Server.Handle.Healthy.{
  IsHealthy, IsHealthy-set, get_elem?-set, socket_ids, socket_ids-set,
}
use cosc402_assignment.Server.Handle.Rest.{IsNamed, RestBut, RestBut-set}
use cosc402_assignment.Server.Handle.OneNode.{OneNode, fetch_one}

-- The line without its newline.
pub body : Command → List ℕ
body (login name) = b'L' ∷ b'O' ∷ b'G' ∷ b'I' ∷ b'N' ∷ b':' ∷ b' ' ∷ name
body (to_all text) = b'T' ∷ b'O' ∷ b'-' ∷ b'A' ∷ b'L' ∷ b'L' ∷ b':' ∷ b' ' ∷ text
body (to_client name text) = b'T' ∷ b'O' ∷ b'-' ∷ b'C' ∷ b'-' ∷ (name ++ (b':' ∷ b' ' ∷ text))

print-body : (cmd : Command) → print cmd ≡ body cmd ++ (10 ∷ [])
unfolding body
print-body (login name) = refl
print-body (to_all text) = refl
print-body (to_client name text) =
    ap (λ xs. b'T' ∷ b'O' ∷ b'-' ∷ b'C' ∷ b'-' ∷ xs)
      (sym (append_assoc name (b':' ∷ b' ' ∷ text) (10 ∷ [])))

body-IsLine : (cmd : Command) → IsCommand cmd → IsLine (body cmd)
unfolding body
body-IsLine (login name) h = ground (arith, h)
body-IsLine (to_all text) h = ground (arith, h.0)
body-IsLine (to_client name text) h =
    let tail : IsLine (name ++ (b':' ∷ b' ' ∷ text)) =
      IsLine-append name (b':' ∷ b' ' ∷ text) h.0.0
        (omega arith, (omega arith, (omega arith, (omega arith, h.1.0)))) in
    ground (arith, tail)

abbrev pub print_all : List Command → List ℕ
print_all [] = []
print_all (cmd ∷ cmds) = print cmd ++ print_all cmds

abbrev pub AllCommands : List Command → Type 0
AllCommands [] = Unit {0}
AllCommands (cmd ∷ cmds) = IsCommand cmd × AllCommands cmds

pub print-IsText : (cmd : Command) → IsCommand cmd → IsText (print cmd)
print-IsText cmd h = rw (print-body cmd) (
    IsText-append (body cmd) (10 ∷ []) (IsLine-IsText (body cmd) (body-IsLine cmd h))
      (omega arith, tt))

pub print_all-IsText : (cmds : List Command) → AllCommands cmds → IsText (print_all cmds)
print_all-IsText [] h = tt
print_all-IsText (cmd ∷ cmds) h =
    IsText-append (print cmd) (print_all cmds) (print-IsText cmd h.0) (print_all-IsText cmds h.1)

pub first_line : (cmd : Command) (rest : List ℕ) → print cmd ++ rest ≡ body cmd ++ (10 ∷ rest)
first_line cmd rest =
    ap (λ xs. xs ++ rest) (print-body cmd) ∙ append_assoc (body cmd) (10 ∷ []) rest

pub set_same : (ms : List Member) (i : ℕ) (m : Member) → get_elem? ms i ≡ some m → set ms i m ≡ ms
set_same [] i m e = refl
set_same (x ∷ ms) zero m e = let same : x ≡ m = cc e in ap (λ y. y ∷ ms) (sym same)
set_same (x ∷ ms) (suc i) m e = ap (λ ys. x ∷ ys) (set_same ms i m e)

taken_line :
    (cmd : Command) (rest : List ℕ) (n : Node)
    → bytes n ≡ print cmd ++ rest
    → take (suc (length (body cmd))) (bytes n ++ []) ≡ print cmd
taken_line cmd rest n form =
    let size : suc (length (body cmd)) ≡ length (print cmd) =
      omega (arith, ap length (print-body cmd), length-append (body cmd) (10 ∷ [])) in
    ap (take (suc (length (body cmd)))) (append-nil (bytes n) ∙ form)
    ∙ ap (λ k. take k (print cmd ++ rest)) size
    ∙ take-append_left (length (print cmd)) (print cmd) rest (omega arith)
    ∙ take_all (length (print cmd)) (print cmd) (omega arith)

-- The client at the place, whose input lies in one node, and whose other blocks `others` counts.
pub record IsReady (others : ℕ → ℕ) (i : ℕ) (input : List ℕ) (s : State) (c : ClientData)
    : Type 0 where
  pub there : get_elem? s.server.clients i ≡ some c
  pub named : IsNamed c
  pub good : AllGood c.reading_buffer
  pub node : OneNode c.reading_buffer input
  pub start : c.last_check_cmd_index ≡ 0
  pub healthy : IsHealthy (and_nodes c.reading_buffer others) s.server s.mem

-- The state after the line has been taken.
abbrev pub taken_from : State → ℕ → ClientData → Pool → State
taken_from s i c p = record { server = with_client s.server i c; mem = record (s.mem) { pool = p } }

pub record Fetches (others : ℕ → ℕ) (i : ℕ) (cmd : Command) (rest : List ℕ) (s : State)
    (c : ClientData) (r : Fetched) : Type 0 where
  pub some_bytes : ltb 0 r.ret ≡ true
  pub msg : r.msg ≡ print cmd
  pub ready : IsReady others i rest (taken_from s i r.client r.pool) r.client
  pub same_room : view (taken_from s i r.client r.pool).server.clients ≡ view s.server.clients
  pub same_sockets :
      socket_ids (taken_from s i r.client r.pool).server.clients ≡ socket_ids s.server.clients
  pub others_rest :
      RestBut i s.server.clients → RestBut i (taken_from s i r.client r.pool).server.clients

of_done : {A : Type 0} {P : A → Type 0} {a : A} → Returns P (done a) → P a
of_done (returns p) = p

module _ (others : ℕ → ℕ) (i : ℕ) (s : State) (c : ClientData) where
  -- With the buffer of the client changed, what is held is changed in its place.
  with_buffer-IsHealthy :
      (b' : Buffer) (p : Pool)
      → get_elem? s.server.clients i ≡ some c
      → IsHealthy (and_nodes c.reading_buffer others) s.server s.mem
      → Owns p (and_nodes b' (and_clients s.server.clients others))
      → (c' : ClientData) → c'.writing_buffer ≡ c.writing_buffer
      → IsHealthy (and_nodes b' others) (with_client s.server i c') (record (s.mem) { pool = p })
  with_buffer-IsHealthy b' p there h o c' same =
      IsHealthy-set (and_nodes b' others) s.server (record (s.mem) { pool = p }) i c c' p there same
        (from_front s.server.clients b' others o)
        (record {
          writable = h.writable;
          owns = from_front s.server.clients b' others o;
          calm = h.calm;
          counted = h.counted;
          few = h.few;
        })

  pub fetch-Fetches :
      (cmd : Command) (rest : List ℕ) (n : Node)
      → IsReady others i (print cmd ++ rest) s c
      → IsCommand cmd
      → IsText (print cmd ++ rest)
      → c.reading_buffer ≡ n ∷ []
      → bytes n ≡ print cmd ++ rest
      → Returns (Fetches others i cmd rest s c) (fetch_msg_from_client c s.mem.pool)
  unfolding contents
  fetch-Fetches cmd rest n ready k text buffer form =
      let line = body cmd in
      let no_newline : first_of 10 line ≡ none = first_of_line line (body-IsLine cmd k) in
      let form' : bytes n ≡ line ++ (10 ∷ rest) = form ∙ first_line cmd rest in
      let goods : AllGood (n ∷ []) = rw buffer at ready.good in
      let bytes_text : IsText (bytes n) = rw form text in
      let (t, runs, node) =
        fetch_one c s.mem.pool n line rest buffer ready.start goods.0 bytes_text form' no_newline in
      let small : length (contents c.reading_buffer) < 2 ^ 31 = omega (
        arith,
        ap (λ b. length (contents b)) buffer,
        length-append (bytes n) [],
        length-bytes goods.0,
        goods.0.within,
      ) in
      let o : HandsOut (and_clients s.server.clients others) c (suc (length line))
          (fetched_msg c t) =
        of_done (
          subst (Returns (HandsOut (and_clients s.server.clients others) c (suc (length line))))
            runs
            (fetch_msg_from_client-line (and_clients s.server.clients others) c s.mem.pool n []
              buffer ready.start ready.good
              (to_front s.server.clients c.reading_buffer others ready.healthy.owns) small
              bytes_text line rest form' no_newline)) in
      rw runs (
        returns (record {
          some_bytes = ground (arith, o.ret);
          msg =
              o.msg
              ∙ ap (λ b. take (suc (length line)) (contents b)) buffer
              ∙ taken_line cmd rest n form;
          ready = record {
            there = get_elem?-set s.server.clients i c (fetched_msg c t).client ready.there;
            named = ready.named;
            good = o.good;
            node = node;
            start = refl;
            healthy =
                with_buffer-IsHealthy t.queue.buffer t.queue.pool ready.there ready.healthy o.owns
                  (fetched_msg c t).client refl;
          };
          same_room =
              view-set s.server.clients i (fetched_msg c t).client
              ∙ set_same (view s.server.clients) i (member c)
                  (view-get_elem? s.server.clients i c ready.there);
          same_sockets =
              socket_ids-set s.server.clients i c (fetched_msg c t).client ready.there refl;
          others_rest = RestBut-set s.server.clients i c (fetched_msg c t).client ready.there refl;
        }))
