-- ===== src/Server/Listening/Rounds.antt =====
-- The rounds of the loop of handle_listen: who is in the list after them, and when it is left.
use cosc402_assignment.Base.{
  ℕ, ◌≡◌, refl, Bool, true, false, Option, none, some, List, [], ◌∷◌, ◌==◌, if◌then◌else◌, inl, inr,
  Bool-cases,
}
use cosc402_assignment.Base.Outcome.{Outcome, done, Returns, returns, ◌>>=◌}
use cosc402_assignment.Base.Outcome
use cosc402_assignment.ClientInfo.{ClientData}
use cosc402_assignment.Server.{ServerInfo, add_client}
use cosc402_assignment.Server.Clients.{IsReachable, joins}
use cosc402_assignment.Server.Listening.{
  Accepted, Listener, with_threads, accept_client, runs_on, listen_rounds,
}
use cosc402_assignment.Server.Listening.Newcomers.{
  newcomer, newcomer_of, IsNewcomer, threads_there, taken_by, stopped_by, accepted_sockets,
  gives_up, Grows, Grows-start, Grows-joined, AllGranted, AllConnect,
}

abbrev After : Bool → List Accepted → ServerInfo → Listener → Type 0
After has es = Grows (accepted_sockets has es) (gives_up has es)

is_on : (l : Listener) → runs_on l ≡ true → (l.server.is_running == 0) ≡ false
is_on l on = elim (Bool-cases (l.server.is_running == 0)) [
  | inl off ↦ absurd (cc (rw off at on))
  | inr running ↦ running
]

-- The loop was left.
left-After :
    (es : List Accepted) (l : Listener)
    → runs_on l ≡ false
    → IsReachable l.server
    → Returns (Grows [] true l.server) (listen_rounds es l)
unfolding listen_rounds
left-After [] l off r = returns (Grows-start true l off r)
left-After (e ∷ es) l off r = rw off (returns (Grows-start true l off r))

module _ (e : Accepted) (es : List Accepted)
    (follow : (l : Listener)
      → runs_on l ≡ true
      → IsReachable l.server
      → Returns (After l.has_threads es l.server) (listen_rounds es l))
    (l : Listener) (on : runs_on l ≡ true) (r : IsReachable l.server) where
  module _ (c : ClientData) (n : IsNewcomer c) where
    with_client : Listener
    with_client = record l { server = add_client c l.server }

    joined_first :
        (taken : List ℕ) (ends : Bool) (l' : Listener)
        → l'.server ≡ add_client c l.server
        → Returns (Grows taken ends l'.server) (listen_rounds es l')
        → Returns (Grows (c.socket_id ∷ taken) ends l.server) (listen_rounds es l')
    joined_first taken ends l' same g =
        Outcome.mono g (λ l'' h. Grows-joined taken ends l l' l'' c n same h)

    -- The threads that are needed are created, and the loop goes on, or it is left.
    threads-After :
        Returns
          (Grows
            (c.socket_id ∷ (if threads_there l.has_threads e then accepted_sockets true es else []))
            (if threads_there l.has_threads e then gives_up true es else true)
            l.server)
          (listen_rounds es (with_threads e with_client))
    unfolding add_client with_client
    threads-After = elim (Bool-cases l.has_threads) [
      | inl there ↦ rw there (
          joined_first (accepted_sockets true es) (gives_up true es)
            (record with_client { has_threads = true }) refl
            (follow (record with_client { has_threads = true }) on (joins c r)))
      | inr missing ↦ elim (Bool-cases e.reading_created) [
        | inr refused ↦
            rw (missing, refused)
              (joined_first [] true (record with_client { has_threads = false; goes_on = false })
                refl
                (left-After es (record with_client { has_threads = false; goes_on = false })
                  (rw (is_on l on) refl) (joins c r)))
        | inl reading ↦ elim (Bool-cases e.writing_created) [
          | inl writing ↦
              rw (missing, reading, writing)
                (joined_first (accepted_sockets true es) (gives_up true es)
                  (record with_client { has_threads = true; goes_on = true }) refl
                  (follow (record with_client { has_threads = true; goes_on = true })
                    (rw (is_on l on) refl) (joins c r)))
          | inr refused ↦
              rw (missing, reading, refused)
                (joined_first [] true (record with_client { has_threads = true; goes_on = false })
                  refl
                  (left-After es (record with_client { has_threads = true; goes_on = false })
                    (rw (is_on l on) refl) (joins c r)))
        ]
      ]
    ]

  accepted-After :
      (o : Option ℕ)
      → AllGranted e.setup
      → Returns
          (Grows
            (taken_by o e.node_granted
              (threads_there l.has_threads e)
              (accepted_sockets l.has_threads es)
              (accepted_sockets true es))
            (stopped_by o e.node_granted
              (threads_there l.has_threads e)
              (gives_up l.has_threads es)
              (gives_up true es))
            l.server)
          (accept_client e l o >>= listen_rounds es)
  unfolding with_client
  accepted-After none g = follow l on r
  accepted-After (some k) g =
      let (made, n) = newcomer e.setup k g in
      rw made (elim (Bool-cases e.node_granted) [
        | inr refused ↦ rw refused (follow l on r)
        | inl granted ↦ rw granted (threads-After (newcomer_of e.setup k) n)
      ])

-- If every allocation and lock for the new clients is granted, then from any list that joining and
-- leaving can lead to, and as long as the loop of handle_listen is not left, any rounds of it put
-- one unnamed and unmarked client at the end of the list for each connection that is accepted and
-- gets a node, with its socket and in this order, up to the first for which a thread that is
-- needed cannot be created, and the loop is left exactly if there is one; the list is then such a
-- list again, get_client_list gives all clients as long as there are less than 2 ^ 32, and every
-- post goes to as many clients as before: who has connected and sent no login gets none.
pub listen_rounds-Grows :
    (es : List Accepted) (l : Listener)
    → AllConnect es
    → runs_on l ≡ true
    → IsReachable l.server
    → Returns
        (Grows (accepted_sockets l.has_threads es) (gives_up l.has_threads es) l.server)
        (listen_rounds es l)
unfolding listen_rounds
listen_rounds-Grows [] l g on r = returns (Grows-start false l on r)
listen_rounds-Grows (e ∷ es) l g on r =
    rw on
      (accepted-After e es (λ l' on' r'. listen_rounds-Grows es l' g.1 on' r') l on r e.socket g.0)
