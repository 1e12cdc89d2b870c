-- ===== src/Server/Listening/Newcomers.antt =====
-- Who has connected and not logged in, and the list after any connections.
use cosc402_assignment.Base.{
  ℕ, ◌+◌, ◌^◌, ◌<◌, ◌≡◌, refl, ap, ◌∙◌, Bool, true, false, Option, none, some, List, [], ◌∷◌, ◌++◌,
  ◌||◌, if◌then◌else◌, append-nil, append_assoc, sym,
}
use cosc402_assignment.Base.Lists.{length}
use cosc402_assignment.Base.Strings.{c_string}
use cosc402_assignment.Base.Outcome.{done}
use cosc402_assignment.Buffer.Node.{contents}
use cosc402_assignment.ClientInfo.{
  ClientData, Setup, new_client_info, update_client_name, with_peer, zero_data, c_type_c,
}
use cosc402_assignment.Message.{unknown_client}
use cosc402_assignment.Server.{ServerInfo, add_client, get_client_list}
use cosc402_assignment.Server.Clients.{IsReachable, get_client_list_reachable}
use cosc402_assignment.Server.Handle.Commands.{Post}
use cosc402_assignment.Server.Handle.Room.{member, view, gets, count_gets, same_name}
use cosc402_assignment.Server.Handle.Healthy.{socket_ids}
use cosc402_assignment.Server.Listening.{Accepted, Listener, runs_on}

pub record AllGranted (e : Setup) : Type 0 where
  pub data_there : e.data_granted ≡ true
  pub reading_there : e.reading_granted ≡ true
  pub writing_there : e.writing_granted ≡ true
  pub reading_locks : e.reading_lock ≡ true
  pub writing_locks : e.writing_lock ≡ true

-- A client that has not told its name.
pub record IsNewcomer (c : ClientData) : Type 0 where
  pub unnamed : c_string c.name ≡ unknown_client
  pub unmarked : c.pub_mark ≡ 0
  pub no_text : contents c.writing_buffer ≡ []

abbrev pub newcomer_of : Setup → ℕ → ClientData
newcomer_of e client_id =
    record (update_client_name (some unknown_client) (with_peer e c_type_c zero_data)) {
      client_type = c_type_c;
      socket_id = client_id;
      login_time = e.now;
      reading_buffer = [];
      writing_buffer = [];
    }

pub newcomer :
    (e : Setup) (client_id : ℕ)
    → AllGranted e
    → (new_client_info e client_id (some unknown_client) c_type_c
        ≡ done (some (newcomer_of e client_id)))
      × IsNewcomer (newcomer_of e client_id)
unfolding new_client_info update_client_name c_string contents
newcomer e client_id g = (
  rw (g.data_there, g.reading_there, g.writing_there, g.reading_locks, g.writing_locks) refl,
  record { unnamed = refl; unmarked = refl; no_text = refl },
)

either_way : (a x y : Bool) → (if a || true then x else y) ≡ x
either_way true x y = refl
either_way false x y = refl

newcomer_gets_none : (post : Post) (c : ClientData) → IsNewcomer c → gets post (member c) ≡ false
newcomer_gets_none post c n =
    rw (n.unmarked, n.unnamed) (either_way (same_name post.exclude unknown_client) false _)

count_gets-append :
    (post : Post) (cs : List ClientData) (c : ClientData)
    → gets post (member c) ≡ false
    → count_gets post (view (cs ++ (c ∷ []))) ≡ count_gets post (view cs)
count_gets-append post [] c h = rw h refl
count_gets-append post (d ∷ cs) c h =
    ap (λ n. (if gets post (member d) then 1 else 0) + n) (count_gets-append post cs c h)

abbrev pub AllNewcomers : List ClientData → Type 0
AllNewcomers [] = Unit {0}
AllNewcomers (c ∷ cs) = IsNewcomer c × AllNewcomers cs

-- Both threads exist behind a client that was put into the list.
abbrev pub threads_there : Bool → Accepted → Bool
threads_there has e = has || (if e.reading_created then e.writing_created else false)

abbrev pub taken_by : Option ℕ → Bool → Bool → List ℕ → List ℕ → List ℕ
taken_by none granted there same more = same
taken_by (some k) false there same more = same
taken_by (some k) true there same more = k ∷ (if there then more else [])

-- The sockets of the connections that become clients, the threads being there or not before them.
abbrev pub accepted_sockets : Bool → List Accepted → List ℕ
accepted_sockets has [] = []
accepted_sockets has (e ∷ es) =
    taken_by e.socket e.node_granted (threads_there has e) (accepted_sockets has es)
      (accepted_sockets true es)

abbrev pub stopped_by : Option ℕ → Bool → Bool → Bool → Bool → Bool
stopped_by none granted there same more = same
stopped_by (some k) false there same more = same
stopped_by (some k) true there same more = if there then more else true

-- A thread that is needed cannot be created in one of the rounds.
abbrev pub gives_up : Bool → List Accepted → Bool
gives_up has [] = false
gives_up has (e ∷ es) =
    stopped_by e.socket e.node_granted (threads_there has e) (gives_up has es) (gives_up true es)

-- The list has grown at its end by unnamed clients with the sockets `taken`, which get no posts, and
-- the loop is left if `ends`.
pub record Grows (taken : List ℕ) (ends : Bool) (before : ServerInfo) (l' : Listener) : Type 0 where
  pub news : List ClientData
  pub grown : l'.server.clients ≡ before.clients ++ news
  pub newcomers : AllNewcomers news
  pub sockets : socket_ids news ≡ taken
  pub stays : runs_on l' ≡ (if ends then false else true)
  pub reachable : IsReachable l'.server
  pub listed :
      length l'.server.clients < 2 ^ 32 → get_client_list true l'.server ≡ done l'.server.clients
  pub unreached :
      (post : Post)
      → count_gets post (view l'.server.clients) ≡ count_gets post (view before.clients)

pub Grows-start :
    (ends : Bool) (l : Listener)
    → runs_on l ≡ (if ends then false else true)
    → IsReachable l.server
    → Grows [] ends l.server l
Grows-start ends l on r = record {
  news = [];
  grown = sym (append-nil l.server.clients);
  newcomers = tt;
  sockets = refl;
  stays = on;
  reachable = r;
  listed = get_client_list_reachable r;
  unreached = λ post. refl;
}

-- A client is put into the list first.
pub Grows-joined :
    (taken : List ℕ) (ends : Bool) (l l' l'' : Listener) (c : ClientData)
    → IsNewcomer c
    → l'.server ≡ add_client c l.server
    → Grows taken ends l'.server l''
    → Grows (c.socket_id ∷ taken) ends l.server l''
unfolding add_client
Grows-joined taken ends l l' l'' c n e g = record {
  news = c ∷ g.news;
  grown =
      g.grown
      ∙ ap (λ server. server.clients ++ g.news) e
      ∙ append_assoc l.server.clients (c ∷ []) g.news;
  newcomers = (n, g.newcomers);
  sockets = ap (λ ks. c.socket_id ∷ ks) g.sockets;
  stays = g.stays;
  reachable = g.reachable;
  listed = g.listed;
  unreached = λ post.
      g.unreached post
      ∙ ap (λ server. count_gets post (view server.clients)) e
      ∙ count_gets-append post l.server.clients c (newcomer_gets_none post c n);
}

abbrev pub AllConnect : List Accepted → Type 0
AllConnect [] = Unit {0}
AllConnect (e ∷ es) = AllGranted e.setup × AllConnect es
