-- ===== src/Server/Threads.antt =====
-- The three threads of src/IMServer.c over the clients that they share, one access at a time. A client
-- is its address; of what it holds there are its socket and its mark, and whether it is allocated.
-- What is under the lock of the server is one step. Accesses to the other fields of a client are
-- steps that change nothing here.
pub mod Clients
pub mod Invariant
pub mod Steps
pub mod WriterSteps
pub mod Reachable
pub mod Races
use cosc402_assignment.Base.{
  ℕ, ◌≡◌, Bool, true, false, Option, none, some, List, [], ◌∷◌, ◌++◌, ◌==◌, if◌then◌else◌,
}

abbrev pub update : {A : Type 0} → (ℕ → A) → ℕ → A → ℕ → A
update f k x j = if j == k then x else f j

pub record Shared : Type 0 where
  pub clients : List ℕ  -- the list of the server
  pub live : ℕ → Bool  -- allocated and not freed
  pub marked : ℕ → Bool  -- `pub` is FAIL
  pub socket_of : ℕ → ℕ
  pub opened : ℕ → Bool  -- of descriptors

-- What get_polling_and_client_list keeps of a client: the descriptor, or -1 for a marked client,
-- and the client's address.
abbrev pub Entry : Type 0
Entry = Option ℕ × ℕ

abbrev pub entry_of : Shared → ℕ → Entry
entry_of sh a = (if sh.marked a then none else some (sh.socket_of a), a)

abbrev pub entries_of : Shared → List ℕ → List Entry
entries_of sh [] = []
entries_of sh (a ∷ cs) = entry_of sh a ∷ entries_of sh cs

-- The list without the first client with the socket, as the loop of user_logout takes it off.
unfoldable pub unlink : (ℕ → ℕ) → ℕ → List ℕ → List ℕ
unlink socket_of k [] = []
unlink socket_of k (a ∷ cs) =
    let rest = unlink socket_of k cs in if socket_of a == k then cs else a ∷ rest

-- Where read_sockets stands.
pub data ReaderAt : Type 0 where
  resting : ReaderAt  -- head of the loop
  printing : (left entries : List Entry) → ReaderAt  -- the loop of the DEBUG_BLOCK
  looping : (left : List Entry) → ReaderAt  -- the loop behind `poll`
  hearing : (a : ℕ) → (left : List Entry) → ReaderAt  -- the loop of try_to_handle_msg
  -- the loop of deliver_msg_to_all_clients in it
  delivering : (targets : List ℕ) → (a : ℕ) → (left : List Entry) → ReaderAt

pub data ReaderStep (sh : Shared) : ReaderAt → Shared → ReaderAt → Type 0 where
  take_entries :
      ReaderStep sh resting sh (printing (entries_of sh sh.clients) (entries_of sh sh.clients))
  print_socket :
      {e : Entry} {left entries : List Entry}
      → ReaderStep sh (printing (e ∷ left) entries) sh (printing left entries)
  -- `poll` reports events, or it fails or times out.
  polls : {entries : List Entry} → ReaderStep sh (printing [] entries) sh (looping entries)
  polls_nothing : {entries : List Entry} → ReaderStep sh (printing [] entries) sh resting
  ignore :
      {a : ℕ} {left : List Entry} → ReaderStep sh (looping ((none, a) ∷ left)) sh (looping left)
  no_event :
      {fd a : ℕ} {left : List Entry}
      → ReaderStep sh (looping ((some fd, a) ∷ left)) sh (looping left)
  fetches :
      {fd a : ℕ} {left : List Entry}
      → ReaderStep sh (looping ((some fd, a) ∷ left)) sh (hearing a left)
  -- `handle_socket_exception`
  marks :
      {fd a : ℕ} {left : List Entry}
      → ReaderStep sh
          (looping ((some fd, a) ∷ left))
          (record sh { marked = update sh.marked a true })
          (looping left)
  round_ends : ReaderStep sh (looping []) sh resting
  takes_line :
      {a : ℕ} {left : List Entry} → ReaderStep sh (hearing a left) sh (delivering sh.clients a left)
  no_line : {a : ℕ} {left : List Entry} → ReaderStep sh (hearing a left) sh (looping left)
  delivers :
      {t a : ℕ} {ts : List ℕ} {left : List Entry}
      → ReaderStep sh (delivering (t ∷ ts) a left) sh (delivering ts a left)
  delivered : {a : ℕ} {left : List Entry} → ReaderStep sh (delivering [] a left) sh (hearing a left)

-- Where write_sockets stands.
pub data WriterAt : Type 0 where
  idle : WriterAt  -- head of the loop
  flushing : (left clients : List ℕ) → WriterAt  -- the loop with flush_messages
  checking : (left : List ℕ) → WriterAt  -- the loop with user_logout
  unlinked : (a : ℕ) → (left : List ℕ) → WriterAt  -- in user_logout, behind its first lock
  -- the loop of deliver_msg_to_all_clients in it
  telling : (targets : List ℕ) → (a : ℕ) → (left : List ℕ) → WriterAt
  closed : (a : ℕ) → (left : List ℕ) → WriterAt  -- behind `close`

pub data WriterStep (sh : Shared) : WriterAt → Shared → WriterAt → Type 0 where
  take_clients : WriterStep sh idle sh (flushing sh.clients sh.clients)
  flushes :
      {a : ℕ} {left clients : List ℕ}
      → WriterStep sh (flushing (a ∷ left) clients) sh (flushing left clients)
  all_flushed : {clients : List ℕ} → WriterStep sh (flushing [] clients) sh (checking clients)
  keeps :
      {a : ℕ} {left : List ℕ}
      → sh.marked a ≡ false
      → WriterStep sh (checking (a ∷ left)) sh (checking left)
  logs_out :
      {a : ℕ} {left : List ℕ}
      → sh.marked a ≡ true
      → WriterStep sh
          (checking (a ∷ left))
          (record sh { clients = unlink sh.socket_of (sh.socket_of a) sh.clients })
          (unlinked a left)
  all_checked : WriterStep sh (checking []) sh idle
  -- With the notice, or without if there is no memory for it.
  tells : {a : ℕ} {left : List ℕ} → WriterStep sh (unlinked a left) sh (telling sh.clients a left)
  tells_nobody : {a : ℕ} {left : List ℕ} → WriterStep sh (unlinked a left) sh (telling [] a left)
  gives_notice :
      {t a : ℕ} {ts left : List ℕ} → WriterStep sh (telling (t ∷ ts) a left) sh (telling ts a left)
  closes :
      {a : ℕ} {left : List ℕ}
      → WriterStep sh
          (telling [] a left)
          (record sh { opened = update sh.opened (sh.socket_of a) false })
          (closed a left)
  frees :
      {a : ℕ} {left : List ℕ}
      → WriterStep sh (closed a left) (record sh { live = update sh.live a false }) (checking left)

-- What handle_listen puts into the list: a client at an address that is not allocated, with a
-- descriptor that was not open.
abbrev pub with_newcomer : ℕ → ℕ → Shared → Shared
with_newcomer a fd sh = record {
  clients = sh.clients ++ (a ∷ []);
  live = update sh.live a true;
  marked = update sh.marked a false;
  socket_of = update sh.socket_of a fd;
  opened = update sh.opened fd true;
}

pub record System : Type 0 where
  pub shared : Shared
  pub reader : ReaderAt
  pub writer : WriterAt

pub data Step (s : System) : System → Type 0 where
  reads :
      {sh : Shared} {r : ReaderAt}
      → ReaderStep s.shared s.reader sh r
      → Step s (record s { shared = sh; reader = r })
  writes :
      {sh : Shared} {w : WriterAt}
      → WriterStep s.shared s.writer sh w
      → Step s (record s { shared = sh; writer = w })
  listens :
      (a fd : ℕ)
      → s.shared.live a ≡ false
      → s.shared.opened fd ≡ false
      → Step s (record s { shared = with_newcomer a fd s.shared })

abbrev pub start : System
start = record {
  shared = record {
    clients = [];
    live = λ a. false;
    marked = λ a. false;
    socket_of = λ a. 0;
    opened = λ fd. false;
  };
  reader = resting;
  writer = idle;
}

pub data Reach : System → Type 0 where
  at_start : Reach start
  later : {s s' : System} → Reach s → Step s s' → Reach s'

-- The threads can go from the one state to the other.
pub data Leads (s : System) : System → Type 0 where
  here : Leads s s
  onward : {t t' : System} → Leads s t → Step t t' → Leads s t'

-- The client that the next step of a thread accesses.
abbrev pub reader_uses : ReaderAt → Option ℕ
reader_uses resting = none
reader_uses (printing [] entries) = none
reader_uses (printing (e ∷ left) entries) = some e.1
reader_uses (looping []) = none
reader_uses (looping ((none, a) ∷ left)) = none
reader_uses (looping ((some fd, a) ∷ left)) = some a
reader_uses (hearing a left) = some a
reader_uses (delivering [] a left) = none
reader_uses (delivering (t ∷ ts) a left) = some t

abbrev pub writer_uses : WriterAt → Option ℕ
writer_uses idle = none
writer_uses (flushing [] clients) = none
writer_uses (flushing (a ∷ left) clients) = some a
writer_uses (checking []) = none
writer_uses (checking (a ∷ left)) = some a
writer_uses (unlinked a left) = some a
writer_uses (telling [] a left) = some a
writer_uses (telling (t ∷ ts) a left) = some t
writer_uses (closed a left) = some a
