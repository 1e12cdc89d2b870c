-- ===== src/Server/Threads/Invariant.antt =====
-- What holds of the shared clients and of what each thread keeps, whatever order the threads run in.
use cosc402_assignment.Base.{
  ℕ, ◌≡◌, ◌≢◌, refl, ap, true, false, none, some, List, [], ◌∷◌, inl, inr, Bool-cases,
}
use cosc402_assignment.Server.Threads.{
  Shared, Entry, entry_of, entries_of, ReaderAt, resting, printing, looping, hearing, delivering,
  WriterAt, idle, flushing, checking, unlinked, telling, closed, System,
}
use cosc402_assignment.Server.Threads.Clients.{has, has_first, has_later, NoneTwice}

-- The clients in the list are allocated, each has a descriptor of its own, and it is open.
pub record IsSound (sh : Shared) : Type 0 where
  pub allocated : (b : ℕ) → has b sh.clients ≡ true → sh.live b ≡ true
  pub connected : (b : ℕ) → has b sh.clients ≡ true → sh.opened (sh.socket_of b) ≡ true
  pub alone :
      (b c : ℕ)
      → has b sh.clients ≡ true
      → has c sh.clients ≡ true
      → sh.socket_of b ≡ sh.socket_of c
      → b ≡ c
  pub once : NoneTwice sh.clients

abbrev pub Within : Shared → List ℕ → Type 0
Within sh l = (b : ℕ) → has b l ≡ true → has b sh.clients ≡ true

abbrev pub Kept : Shared → List ℕ → Type 0
Kept sh left = Within sh left × NoneTwice left

-- A client that user_logout has taken off the list.
pub record IsOff (sh : Shared) (a : ℕ) : Type 0 where
  pub allocated : sh.live a ≡ true
  pub off : has a sh.clients ≡ false

-- Its descriptor is still open and nobody else's.
pub record IsOpen (sh : Shared) (a : ℕ) : Type 0 where
  pub connected : sh.opened (sh.socket_of a) ≡ true
  pub own : (b : ℕ) → has b sh.clients ≡ true → sh.socket_of b ≢ sh.socket_of a

abbrev pub WriterSafe : Shared → WriterAt → Type 0
WriterSafe sh idle = Unit {0}
WriterSafe sh (flushing left clients) = Within sh left × Kept sh clients
WriterSafe sh (checking left) = Kept sh left
WriterSafe sh (unlinked a left) = (IsOff sh a × IsOpen sh a) × Kept sh left
WriterSafe sh (telling ts a left) = Within sh ts × ((IsOff sh a × IsOpen sh a) × Kept sh left)
WriterSafe sh (closed a left) = IsOff sh a × Kept sh left

-- A client that the reading thread has found with a descriptor.
pub record IsHeard (sh : Shared) (fd a : ℕ) : Type 0 where
  pub linked : has a sh.clients ≡ true
  pub unmarked : sh.marked a ≡ false
  pub own_socket : sh.socket_of a ≡ fd

abbrev pub EntrySafe : Shared → Entry → Type 0
EntrySafe sh (none, a) = Unit {0}
EntrySafe sh (some fd, a) = IsHeard sh fd a

abbrev pub AllSafe : Shared → List Entry → Type 0
AllSafe sh [] = Unit {0}
AllSafe sh (e ∷ es) = EntrySafe sh e × AllSafe sh es

abbrev pub addresses : List Entry → List ℕ
addresses [] = []
addresses (e ∷ es) = e.1 ∷ addresses es

abbrev pub EntriesSafe : Shared → List Entry → Type 0
EntriesSafe sh es = AllSafe sh es × NoneTwice (addresses es)

abbrev pub ReaderSafe : Shared → ReaderAt → Type 0
ReaderSafe sh resting = Unit {0}
ReaderSafe sh (printing left entries) = EntriesSafe sh entries
ReaderSafe sh (looping left) = EntriesSafe sh left
ReaderSafe sh (hearing a left) = IsHeard sh (sh.socket_of a) a × EntriesSafe sh left
ReaderSafe sh (delivering ts a left) = IsHeard sh (sh.socket_of a) a × EntriesSafe sh left

pub record Safe (s : System) : Type 0 where
  pub sound : IsSound s.shared
  pub reader : ReaderSafe s.shared s.reader
  pub writer : WriterSafe s.shared s.writer

-- What get_polling_and_client_list takes.
entry_of-Safe : (sh : Shared) (a : ℕ) → has a sh.clients ≡ true → EntrySafe sh (entry_of sh a)
entry_of-Safe sh a there = elim (Bool-cases (sh.marked a)) [
  | inl e ↦ rw e tt
  | inr ne ↦ rw ne (record { linked = there; unmarked = ne; own_socket = refl })
]

pub entries_of-AllSafe : (sh : Shared) (l : List ℕ) → Within sh l → AllSafe sh (entries_of sh l)
entries_of-AllSafe sh [] h = tt
entries_of-AllSafe sh (a ∷ l) h = (
  entry_of-Safe sh a (h a (has_first a l)),
  entries_of-AllSafe sh l (λ b t. h b (has_later b a l t)),
)

pub addresses-entries_of : (sh : Shared) (l : List ℕ) → addresses (entries_of sh l) ≡ l
addresses-entries_of sh [] = refl
addresses-entries_of sh (a ∷ l) = ap (λ bs. a ∷ bs) (addresses-entries_of sh l)

-- The entries stay safe if the clients that they are about stay as they are.
pub AllSafe-mono :
    (sh sh' : Shared) (es : List Entry)
    → ((fd b : ℕ) → has b (addresses es) ≡ true → IsHeard sh fd b → IsHeard sh' fd b)
    → AllSafe sh es
    → AllSafe sh' es
AllSafe-mono sh sh' [] f h = tt
AllSafe-mono sh sh' ((none, a) ∷ es) f h =
    (tt, AllSafe-mono sh sh' es (λ fd b t. f fd b (has_later b a (addresses es) t)) h.1)
AllSafe-mono sh sh' ((some fd, a) ∷ es) f h = (
  f fd a (has_first a (addresses es)) h.0,
  AllSafe-mono sh sh' es (λ fd b t. f fd b (has_later b a (addresses es) t)) h.1,
)

module _ (sh sh' : Shared) (f : (fd b : ℕ) → IsHeard sh fd b → IsHeard sh' fd b) where
  EntriesSafe-mono : (es : List Entry) → EntriesSafe sh es → EntriesSafe sh' es
  EntriesSafe-mono es h = (AllSafe-mono sh sh' es (λ fd b t. f fd b) h.0, h.1)

  IsHeard-again : (a : ℕ) → IsHeard sh (sh.socket_of a) a → IsHeard sh' (sh'.socket_of a) a
  IsHeard-again a h =
      let k = f (sh.socket_of a) a h in
      record { linked = k.linked; unmarked = k.unmarked; own_socket = refl }

  pub ReaderSafe-mono : (r : ReaderAt) → ReaderSafe sh r → ReaderSafe sh' r
  ReaderSafe-mono resting h = tt
  ReaderSafe-mono (printing left es) h = EntriesSafe-mono es h
  ReaderSafe-mono (looping es) h = EntriesSafe-mono es h
  ReaderSafe-mono (hearing a es) h = (IsHeard-again a h.0, EntriesSafe-mono es h.1)
  ReaderSafe-mono (delivering ts a es) h = (IsHeard-again a h.0, EntriesSafe-mono es h.1)

-- The same for the writing thread.
module _ (sh sh' : Shared) (within : (l : List ℕ) → Within sh l → Within sh' l)
    (off : (c : ℕ) → IsOff sh c → IsOff sh' c)
    (open_one : (c : ℕ) → IsOff sh c → IsOpen sh c → IsOpen sh' c) where
  pub WriterSafe-mono : (w : WriterAt) → WriterSafe sh w → WriterSafe sh' w
  WriterSafe-mono idle h = tt
  WriterSafe-mono (flushing left clients) h = (within left h.0, (within clients h.1.0, h.1.1))
  WriterSafe-mono (checking left) h = (within left h.0, h.1)
  WriterSafe-mono (unlinked c left) h =
      ((off c h.0.0, open_one c h.0.0 h.0.1), (within left h.1.0, h.1.1))
  WriterSafe-mono (telling ts c left) h =
      (within ts h.0, ((off c h.1.0.0, open_one c h.1.0.0 h.1.0.1), (within left h.1.1.0, h.1.1.1)))
  WriterSafe-mono (closed c left) h = (off c h.0, (within left h.1.0, h.1.1))
