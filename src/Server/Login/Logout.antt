-- ===== src/Server/Login/Logout.antt =====
-- `user_logout` takes a client out of the list, tells the others, and gives its blocks back.
use cosc402_assignment.Base.{
  ℕ, ◌+◌, ◌<◌, ◌≡◌, refl, sym, ap, ◌∙◌, true, Option, none, some, List, ◌∷◌, ◌++◌, arith, ◌==◌,
  if◌then◌else◌,
}
use mathlib.Core.Path.{subst}
use cosc402_assignment.Base.Lists.{length}
use cosc402_assignment.Base.Strings.{IsLine, c_string}
use cosc402_assignment.Base.Outcome.{Outcome, done, Returns, returns, ◌>>=◌}
use cosc402_assignment.Base.Outcome
use cosc402_assignment.Base.Words.{int_add, int_sub}
use cosc402_assignment.Cache.{Cache, Pool, recycle_cache}
use cosc402_assignment.Cache.Ownership.{Owns, Owns-eq, and_at}
use cosc402_assignment.Buffer.Node.{Mem, AllGood}
use cosc402_assignment.Buffer.Ownership.{and_nodes}
use cosc402_assignment.ClientInfo.{ClientData, release_client_info}
use cosc402_assignment.ClientInfo.Laws.{release_client_info-Owns}
use cosc402_assignment.Message.{Msg}
use cosc402_assignment.Message.Laws.{IsGranted}
use cosc402_assignment.Message.Carries.{Carries, Carried, carried}
use cosc402_assignment.Server.{ServerInfo, Delivery, remove_client}
use cosc402_assignment.Server.Login.{
  Surroundings, State, notice_size, msg_logout_suffix, deliver_made, logout_with, recycling,
  logged_out, user_logout,
}
use cosc402_assignment.Server.Login.Notice.{Borrowed, borrow, notice-Notes}
use cosc402_assignment.Server.Deliver.{
  and_clients, Delivers, delivered-Owns, deliver_msg_to_all_clients-Delivers,
}
use cosc402_assignment.Server.Handle.Room.{
  view, give_all, count_gets, AllGot-give_all, count_receivers-gets,
}
use cosc402_assignment.Server.Handle.Healthy.{
  signal_of, signalled-IsHealthy, same_clients, IsHealthy, IsHealthy-delivered,
}
use cosc402_assignment.Server.Login.Leaving.{
  farewell, NotIn, and_clients-split, remove_first-found, and_clients-taken, AllWritable-taken,
  length-taken,
}

-- What becomes of the server when the client between `before` and `after` leaves.
pub record Leaves (others : ℕ → ℕ) (server : ServerInfo) (left : List ClientData) (name : List ℕ)
    (s : State) : Type 0 where
  pub room : view s.server.clients ≡ give_all (farewell name) (view left)
  pub signal : s.server.sign_to_flush_msg ≡ (
      if count_gets (farewell name) (view left) == 0
      then server.sign_to_flush_msg
      else int_add server.sign_to_flush_msg 1)
  pub healthy : IsHealthy others s.server s.mem

suffix-IsLine : IsLine msg_logout_suffix
suffix-IsLine = omega arith

module _ (others : ℕ → ℕ) (server : ServerInfo) (c : ClientData) (before after : List ClientData)
    (m : Mem) (list : server.clients ≡ before ++ (c ∷ after)) (good : AllGood c.reading_buffer)
    (h : IsHealthy (and_nodes c.reading_buffer others) server m) where
  abbrev left : List ClientData
  left = before ++ after

  abbrev without : ServerInfo
  without = record server { clients = left; client_count = int_sub server.client_count 1 }

  abbrev held : ℕ → ℕ
  held = and_nodes c.writing_buffer (and_nodes c.reading_buffer others)

  remove_client-left : NotIn c.socket_id before → remove_client c.socket_id server ≡ without
  unfolding remove_client
  remove_client-left absent = rw (list, remove_first-found c before after absent) refl

  without-IsHealthy :
      (f : ℕ → ℕ) (p : Pool)
      → Owns p (and_clients left f)
      → IsHealthy f without (record m { pool = p })
  without-IsHealthy f p o =
      let total : length server.clients ≡ 1 + length left =
        ap length list ∙ length-taken c before after in
      record {
        writable = (AllWritable-taken c before after (rw list at h.writable)).1;
        owns = o;
        calm = h.calm;
        counted = omega (arith, total, h.counted, h.few);
        few = omega (arith, total, h.few);
      }

  held-Owns : Owns m.pool (and_clients left held)
  held-Owns =
      Owns-eq _ (rw list at h.owns)
        (λ a. omega (arith, and_clients-taken c before after (and_nodes c.reading_buffer others) a))

  leaving-IsHealthy :
      (s : ServerInfo) (mem : Mem) (k : Cache)
      → IsHealthy (and_at k.addr held) s mem
      → Owns (recycle_cache k mem.pool).1 (and_clients s.clients held)
      → IsHealthy others s
          (record mem { pool = release_client_info c (recycle_cache k mem.pool).1 })
  leaving-IsHealthy s mem k v o = record {
    writable = v.writable;
    owns =
        release_client_info-Owns c (recycle_cache k mem.pool).1 (and_clients s.clients others) good
          (AllWritable-taken c before after (rw list at h.writable)).0
          (Owns-eq _ o (λ a.
            omega
              (arith, and_clients-split s.clients held a, and_clients-split s.clients others a)));
    calm = v.calm;
    counted = v.counted;
    few = v.few;
  }

  module _ (e : Surroundings) (g : IsGranted e.alloc) (l : e.list_granted ≡ true)
      (line : IsLine (c_string c.name)) (short : length (c_string c.name) < 30)
      (b : Borrowed
        (notice_size (c_string c.name) msg_logout_suffix)
        (and_clients left held)
        m.pool) where
    abbrev name : List ℕ
    name = c_string c.name

    in_turn :
        (p : Pool)
        → Owns p (and_at b.block.addr (and_clients left held))
        → Owns p (and_clients left (and_at b.block.addr held))
    in_turn p o = Owns-eq _ o (λ a.
        omega (
          arith,
          and_clients-split left held a,
          and_clients-split left (and_at b.block.addr held) a,
        ))

    out_of_turn :
        (p : Pool) (cs : List ClientData)
        → Owns p (and_clients cs (and_at b.block.addr held))
        → Owns p (and_at b.block.addr (and_clients cs held))
    out_of_turn p cs o = Owns-eq _ o (λ a.
        omega
          (arith, and_clients-split cs held a, and_clients-split cs (and_at b.block.addr held) a))

    -- After the delivery of the notice.
    delivered-Leaves :
        (msg : Msg) (k : Cache) (d : Delivery)
        → Carries (farewell name).text (farewell name).target (farewell name).exclude msg
        → k ≡ record (b.block) { buff = k.buff }
        → length k.buff ≡ length b.block.buff
        → Delivers msg left (and_at b.block.addr held) 0 d
        → Leaves others server left name (logged_out without c (recycling k d))
    delivered-Leaves msg k d carries block size v =
        let healthy : IsHealthy (and_at b.block.addr held) (record without { clients = d.clients })
            d.mem =
          IsHealthy-delivered (and_at b.block.addr held) without (record m { pool = b.rest }) msg d
            carries.nonempty
            (without-IsHealthy (and_at b.block.addr held) b.rest (in_turn b.rest b.owns)) v in
        let back : Owns (recycle_cache k d.mem.pool).1 (and_clients d.clients held) =
          subst (λ x. Owns (recycle_cache x d.mem.pool).1 (and_clients d.clients held)) (sym block)
            (b.back d.mem.pool (and_clients d.clients held) k.buff size (
              out_of_turn d.mem.pool d.clients
                (delivered-Owns msg left (and_at b.block.addr held) 0 d carries.nonempty v))) in
        let count : d.sent_count ≡ count_gets (farewell name) (view left) =
          v.count ∙ omega (arith, count_receivers-gets (farewell name) msg carries left) in
        record {
          room =
              ap view (same_clients d.sent_count (record without { clients = d.clients }))
              ∙ AllGot-give_all (farewell name) msg carries left d.clients v.each;
          signal =
              signal_of d.sent_count (record without { clients = d.clients })
              ∙ ap
                  (λ t.
                    if t == 0 then server.sign_to_flush_msg else int_add server.sign_to_flush_msg 1)
                  count;
          healthy =
              signalled-IsHealthy d.sent_count others (record without { clients = d.clients }) _
                (leaving-IsHealthy (record without { clients = d.clients }) d.mem k
                  (rw (ap (λ x. x.addr) block) healthy) back);
        }

    deliver_made-Leaves :
        (k : Cache) (o : Option Msg)
        → Carried (farewell name).text (farewell name).target (farewell name).exclude o
        → k ≡ record (b.block) { buff = k.buff }
        → length k.buff ≡ length b.block.buff
        → Returns
            (λ d. Leaves others server left name (logged_out without c (recycling k d)))
            (deliver_made e without (record m { pool = b.rest }) o)
    deliver_made-Leaves k none made block size = elim made [ ]
    deliver_made-Leaves k (some msg) (carried carries) block size =
        let v = without-IsHealthy (and_at b.block.addr held) b.rest (in_turn b.rest b.owns) in
        rw l (
          Outcome.mono
            (deliver_msg_to_all_clients-Delivers msg carries.whole carries.small without
              (record m { pool = b.rest }) (and_at b.block.addr held) v.writable v.owns v.calm
              v.counted v.few)
            (λ d w. delivered-Leaves msg k d carries block size w))

    logout_with-Leaves : Returns (Leaves others server left name) (
        logout_with e without name m (some b.block, b.rest)
        >>= (λ d. done (logged_out without c d)))
    logout_with-Leaves =
        Outcome.bind
          (Outcome.bind
            (notice-Notes e.alloc g name msg_logout_suffix line suffix-IsLine short (omega arith)
              b.block (omega (arith, b.fits)))
            (λ n k.
              Outcome.bind (deliver_made-Leaves n.cache n.message k.message k.block k.same_size)
                (λ d v. returns v)))
          (λ d v. returns v)

-- If a client is in the list and nobody before it has its socket, its name is a string of one line
-- that fits its array, every allocation is granted, the buffers are good and hold their blocks,
-- and client_count is the number of clients, less than 2 ^ 31, then user_logout takes the client
-- out of the list, puts the text FROM SYSTEM: name has logged out at the end of the writing
-- buffers of the others that get posts, raises sign_to_flush_msg by one if there is one and leaves
-- it otherwise, and gives all blocks of the client back: every allocated block is then free or
-- held by the others as before or by their writing buffers.
pub user_logout-Leaves :
    (e : Surroundings) (others : ℕ → ℕ) (server : ServerInfo) (c : ClientData)
    (before after : List ClientData) (m : Mem)
    → IsGranted e.alloc
    → e.list_granted ≡ true
    → server.clients ≡ before ++ (c ∷ after)
    → NotIn c.socket_id before
    → IsLine (c_string c.name)
    → length (c_string c.name) < 30
    → AllGood c.reading_buffer
    → IsHealthy (and_nodes c.reading_buffer others) server m
    → Returns (Leaves others server (before ++ after) (c_string c.name)) (user_logout e server c m)
unfolding user_logout
user_logout-Leaves e others server c before after m g l list absent line short good h =
    let b : Borrowed (notice_size (c_string c.name) msg_logout_suffix)
        (and_clients (before ++ after)
          (and_nodes c.writing_buffer (and_nodes c.reading_buffer others)))
        m.pool =
      borrow (notice_size (c_string c.name) msg_logout_suffix) _ m.pool (omega arith)
        (held-Owns others server c before after m list good h) in
    rw (remove_client-left others server c before after m list good h absent, b.granted)
      (logout_with-Leaves others server c before after m list good h e g l line short b)
