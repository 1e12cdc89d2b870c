-- ===== src/Server/Handle/Lines.antt =====
-- `handle_line` does in the server what `obey` does in the room.
use cosc402_assignment.Base.{
  ℕ, ◌^◌, ◌≤◌, ◌<◌, ◌≡◌, refl, sym, ap, ◌∙◌, true, Option, none, some, List, [], ◌∷◌, arith,
}
use mathlib.Core.Path.{subst}
use cosc402_assignment.Base.Lists.{length, get_elem?, set, take, length-take}
use cosc402_assignment.Base.Strings.{IsLine-IsText, IsLine-take, c_string}
use cosc402_assignment.Base.Outcome.{Outcome, done, Returns, returns, ◌>>=◌}
use cosc402_assignment.Base.Outcome
use cosc402_assignment.Cache.{Pool}
use cosc402_assignment.Cache.Ownership.{Owns}
use cosc402_assignment.Buffer.Node.{Mem}
use cosc402_assignment.ClientInfo.{ClientData, update_client_name}
use cosc402_assignment.ClientInfo.Laws.{update_client_name-c_string}
use cosc402_assignment.Message.{Msg}
use cosc402_assignment.Message.Laws.{IsGranted}
use cosc402_assignment.Message.Carries.{Carries, Carried, carried}
use cosc402_assignment.Server.{ServerInfo, Delivery}
use cosc402_assignment.Server.Login.{Surroundings, deliver_made}
use cosc402_assignment.Server.Deliver.{
  and_clients, count_receivers, Delivers, deliver_msg_to_all_clients-Delivers,
}
use cosc402_assignment.Server.Handle.{handle_line, Handled, with_client, after_delivery}
use cosc402_assignment.Server.Handle.Commands.{
  Command, login, to_all, to_client, print, IsCommand, posted, renamed, parse_line-Obeys,
}
use cosc402_assignment.Server.Handle.Room.{
  member, view, view-set, view-get_elem?, give_all, count_gets, AllGot-give_all,
  count_receivers-gets, rename, renamed-rename, obey, reached,
}
use cosc402_assignment.Server.Handle.Rest.{IsNamed, RestBut, RestBut-set, AllGot-RestBut}
use cosc402_assignment.Server.Handle.Healthy.{
  IsHealthy, IsHealthy-set, IsHealthy-delivered, get_elem?-set, AllGot-Place, socket_ids,
  socket_ids-set, AllGot-socket_ids,
}

pub renamed-IsNamed :
    (cmd : Command) (c : ClientData) → IsCommand cmd → IsNamed c → IsNamed (renamed cmd c)
unfolding update_client_name
renamed-IsNamed (login name) c h n =
    let is_name = (update_client_name-c_string name c (IsLine-IsText name h)).0 in
    (
      rw is_name (IsLine-IsText (take 29 name) (IsLine-take 29 name h)),
      omega (arith, ap length is_name, length-take 29 name),
    )
renamed-IsNamed (to_all text) c h n = n
renamed-IsNamed (to_client name text) c h n = n

pub renamed-search :
    (cmd : Command) (c : ClientData) → (renamed cmd c).last_check_cmd_index ≡ c.last_check_cmd_index
unfolding update_client_name
renamed-search (login name) c = refl
renamed-search (to_all text) c = refl
renamed-search (to_client name text) c = refl

renamed-writing_buffer :
    (cmd : Command) (c : ClientData) → (renamed cmd c).writing_buffer ≡ c.writing_buffer
unfolding update_client_name
renamed-writing_buffer (login name) c = refl
renamed-writing_buffer (to_all text) c = refl
renamed-writing_buffer (to_client name text) c = refl

pub renamed-reading_buffer :
    (cmd : Command) (c : ClientData) → (renamed cmd c).reading_buffer ≡ c.reading_buffer
unfolding update_client_name
renamed-reading_buffer (login name) c = refl
renamed-reading_buffer (to_all text) c = refl
renamed-reading_buffer (to_client name text) c = refl

renamed-socket_id : (cmd : Command) (c : ClientData) → (renamed cmd c).socket_id ≡ c.socket_id
unfolding update_client_name
renamed-socket_id (login name) c = refl
renamed-socket_id (to_all text) c = refl
renamed-socket_id (to_client name text) c = refl

renamed-pub_mark : (cmd : Command) (c : ClientData) → (renamed cmd c).pub_mark ≡ c.pub_mark
unfolding update_client_name
renamed-pub_mark (login name) c = refl
renamed-pub_mark (to_all text) c = refl
renamed-pub_mark (to_client name text) c = refl

-- What has become of the sender: its name is the one of the line, its input is as before.
pub record Sender (cmd : Command) (c : ClientData) (o : Option ClientData) : Type 0 where
  pub now : ClientData
  pub is_now : o ≡ some now
  pub named : IsNamed now
  pub input : now.reading_buffer ≡ c.reading_buffer
  pub search : now.last_check_cmd_index ≡ c.last_check_cmd_index

pub record Handles (cmd : Command) (others : ℕ → ℕ) (server : ServerInfo) (i : ℕ) (c : ClientData)
    (h : Handled) : Type 0 where
  pub room : view h.state.server.clients ≡ obey cmd i (view server.clients)
  pub count : h.sent_count ≡ reached cmd i (view server.clients)
  pub few : h.sent_count < 2 ^ 31
  pub healthy : IsHealthy others h.state.server h.state.mem
  pub sender : Sender cmd c (get_elem? h.state.server.clients i)
  pub signal : h.state.server.sign_to_flush_msg ≡ server.sign_to_flush_msg
  pub same_sockets : socket_ids h.state.server.clients ≡ socket_ids server.clients
  pub rest : RestBut i server.clients → RestBut i h.state.server.clients

count_receivers-le : (msg : Msg) (cs : List ClientData) → count_receivers msg cs ≤ length cs
count_receivers-le msg [] = omega arith
count_receivers-le msg (c ∷ cs) = ground (arith, count_receivers-le msg cs)

module _ (others : ℕ → ℕ) (server : ServerInfo) (i : ℕ) (c : ClientData) (m : Mem)
    (there : get_elem? server.clients i ≡ some c) (h : IsHealthy others server m) (n : IsNamed c)
    (cmd : Command) (k : IsCommand cmd) where
  server' : ServerInfo
  server' = with_client server i (renamed cmd c)

  -- The room after the sender has got its name.
  room' : view server'.clients ≡ set (view server.clients) i (rename cmd (member c))
  unfolding server'
  room' =
      view-set server.clients i (renamed cmd c)
      ∙ ap (set (view server.clients) i) (renamed-rename cmd c k)

  sender_of :
      (msg : Msg) (d : Delivery)
      → Delivers msg server'.clients others 0 d
      → Sender cmd c (get_elem? d.clients i)
  unfolding server'
  sender_of msg d v =
      let p =
        AllGot-Place msg server'.clients d.clients i (renamed cmd c) v.each
          (get_elem?-set server.clients i c (renamed cmd c) there) in
      record {
        now = p.found;
        is_now = p.is_found;
        named = subst IsNamed (sym p.got.same) (renamed-IsNamed cmd c k n);
        input = ap (λ x. x.reading_buffer) p.got.same ∙ renamed-reading_buffer cmd c;
        search = ap (λ x. x.last_check_cmd_index) p.got.same ∙ renamed-search cmd c;
      }

  delivered-Handles :
      (msg : Msg) (d : Delivery)
      → (let post = posted (c_string c.name) cmd in Carries post.text post.target post.exclude msg)
      → (p : Pool) → IsHealthy others server' (record m { pool = p })
      → Delivers msg server'.clients others 0 d
      → Handles cmd others server i c (after_delivery server' d)
  unfolding server'
  delivered-Handles msg d carries p healthy v =
      let post = posted (c_string c.name) cmd in
      let before = view-get_elem? server.clients i c there in
      record {
        room =
            AllGot-give_all post msg carries server'.clients d.clients v.each
            ∙ ap (give_all post) room'
            ∙ rw before refl;
        count =
            v.count
            ∙ omega (arith, count_receivers-gets post msg carries server'.clients)
            ∙ ap (count_gets post) room'
            ∙ rw before refl;
        few = omega (arith, v.count, count_receivers-le msg server'.clients, healthy.few);
        healthy =
            IsHealthy-delivered others server' (record m { pool = p }) msg d carries.nonempty
              healthy v;
        sender = sender_of msg d v;
        signal = refl;
        same_sockets =
            AllGot-socket_ids msg server'.clients d.clients v.each
            ∙ socket_ids-set server.clients i c (renamed cmd c) there (renamed-socket_id cmd c);
        rest = λ r.
            AllGot-RestBut msg server'.clients d.clients i v.each
              (RestBut-set server.clients i c (renamed cmd c) there (renamed-pub_mark cmd c) r);
      }

  module _ (e : Surroundings) (g : IsGranted e.alloc) (l : e.list_granted ≡ true) where
    deliver_made-Handles :
        (p : Pool) (o : Option Msg)
        → Owns p (and_clients server.clients others)
        → (let post = posted (c_string c.name) cmd in Carried post.text post.target post.exclude o)
        → Returns
            (λ d. Handles cmd others server i c (after_delivery server' d))
            (deliver_made e server' (record m { pool = p }) o)
    unfolding server'
    deliver_made-Handles p none owns b = elim b [ ]
    deliver_made-Handles p (some msg) owns (carried carries) =
        let healthy =
          IsHealthy-set others server m i c (renamed cmd c) p there (renamed-writing_buffer cmd c)
            owns h in
        rw l (
          Outcome.mono
            (deliver_msg_to_all_clients-Delivers msg carries.whole carries.small server'
              (record m { pool = p }) others healthy.writable healthy.owns healthy.calm
              healthy.counted healthy.few)
            (λ d v. delivered-Handles msg d carries p healthy v))

    -- For a well-formed line of a client in the list, if the name of the client is a string that
    -- fits its array, every allocation is granted, the buffers are good and hold their blocks, and
    -- client_count is the number of clients, less than 2 ^ 31, handle_line changes names and
    -- waiting texts as the line says, counts the clients that the text went to, and leaves the
    -- reading buffer of the sender and the other fields of the server as they were, with the
    -- buffers good and holding their blocks.
    pub handle_line-Handles :
        Returns (Handles cmd others server i c) (handle_line e server i c (print cmd) m)
    unfolding handle_line server'
    handle_line-Handles =
        Outcome.bind
          (parse_line-Obeys e g c m.pool (and_clients server.clients others) h.owns n cmd k)
          (λ r o.
            subst
              (λ x. Returns (Handles cmd others server i c) (
                deliver_made e (with_client server i x) (record m { pool = r.pool }) r.message
                >>= (λ d. done (after_delivery (with_client server i x) d))))
              (sym o.client)
              (Outcome.bind (deliver_made-Handles r.pool r.message o.owns o.message)
                (λ d v. returns v)))
