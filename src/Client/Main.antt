-- ===== src/Client/Main.antt =====
-- main of src/IMClient.c, from its arguments to its end, around the line and the loop of Client. The
-- calls of the system are answered by the environment.
use cosc402_assignment.Base.{
  ℕ, ◌⊎◌, ◌≡◌, refl, Bool, true, false, Option, none, some, List, [], ◌∷◌, ◌==◌, ◌&&◌,
  if◌then◌else◌, inl, inr, Bool-cases,
}
use cosc402_assignment.Base.Outcome.{Outcome, done, fault, Returns, returns, ◌>>=◌}
use cosc402_assignment.Base.Words.{minus_one}
use cosc402_assignment.Net.{Parsers, SockAddr, get_addr_info_from_ip_and_port}
use cosc402_assignment.Client.{login_line, Events, Session, client_loop}
use cosc402_assignment.Client.Typed.{login_line_overflow}

-- What the environment answers: whether there is a socket, whether `connect` succeeds, `send` takes
-- the whole line, the three allocations, and the rounds of the loop.
pub record ClientAnswers : Type 0 where
  pub parsers : Parsers
  pub socket_made : Bool
  pub connected : Bool
  pub name_granted : Bool
  pub all_sent : Bool
  pub poll_granted : Bool
  pub buff_granted : Bool
  pub events : List Events

-- How the program ends: its status, whether its socket is still open, and what it has sent and shown,
-- if it came to its loop.
pub record ClientEnd : Type 0 where
  pub status : ℕ
  pub socket_open : Bool
  pub session : Option Session

abbrev pub leaves_with : ℕ → ClientEnd
leaves_with status = record { status = status; socket_open = false; session = none }

-- Behind `send`: the memory for `poll` and for reading, and the loop.
abbrev pub chat : ClientAnswers → List ℕ → Outcome ClientEnd
chat e line =
    if e.all_sent && (e.poll_granted && e.buff_granted)
    then (client_loop e.events (record { is_online = true; sent = line; shown = [] })
        >>= (λ s. done (record { status = 0; socket_open = false; session = some s })))
    else done (leaves_with 0)

-- The labels `main_register_error` and `main_socket_error`.
abbrev pub logs_in : ClientAnswers → Option (List ℕ) → Outcome ClientEnd
logs_in e none = done (leaves_with 0)
logs_in e (some line) = chat e line

abbrev pub with_server : ClientAnswers → List ℕ → ℕ × Option SockAddr → Outcome ClientEnd
with_server e name (ret, addr) =
    if ret == 0
    then (if e.socket_made
        then (if e.connected
            then (login_line e.name_granted name >>= logs_in e)
            else done (leaves_with 0))
        else done (leaves_with 1))
    else done (leaves_with minus_one)

unfoldable pub client_main : ClientAnswers → List (List ℕ) → Outcome ClientEnd
unfolding login_line client_loop get_addr_info_from_ip_and_port
client_main e (program ∷ ip ∷ port ∷ name ∷ others) =
    with_server e name (get_addr_info_from_ip_and_port e.parsers ip port)
client_main e few_arguments = done (leaves_with 1)

-- There are enough arguments, the address is understood, the connection is there, and there is memory
-- for the line of the login.
abbrev pub reaches_login : ClientAnswers → List (List ℕ) → Bool
reaches_login e (program ∷ ip ∷ port ∷ name ∷ others) =
    ((get_addr_info_from_ip_and_port e.parsers ip port).0 == 0)
    && (e.socket_made && (e.connected && e.name_granted))
reaches_login e few_arguments = false

-- The end before the loop: nothing has been sent, no socket is left open.
pub record IsRefused (r : ClientEnd) : Type 0 where
  pub closed : r.socket_open ≡ false
  pub silent : r.session ≡ none
  pub status : (r.status ≡ 0) ⊎ ((r.status ≡ 1) ⊎ (r.status ≡ minus_one))

abbrev EndsEarly : Bool → Outcome ClientEnd → Type 0
EndsEarly reaches r = (reaches ≡ false → Returns IsRefused r) × (reaches ≡ true → r ≡ fault)

with_server-EndsEarly :
    (e : ClientAnswers) (name : List ℕ) (ret : ℕ) (addr : Option SockAddr)
    → EndsEarly
        ((ret == 0) && (e.socket_made && (e.connected && e.name_granted)))
        (with_server e name (ret, addr))
unfolding login_line
with_server-EndsEarly e name ret addr = elim (Bool-cases (ret == 0)) [
  | inr unresolved ↦ rw unresolved (λ h. returns (left (inr (inr refl))), λ h. absurd (cc h))
  | inl resolved ↦ elim (Bool-cases e.socket_made) [
    | inr none_made ↦
        rw (resolved, none_made) (λ h. returns (left (inr (inl refl))), λ h. absurd (cc h))
    | inl made ↦ elim (Bool-cases e.connected) [
      | inr alone ↦ rw (resolved, made, alone) (λ h. returns (left (inl refl)), λ h. absurd (cc h))
      | inl connected ↦ elim (Bool-cases e.name_granted) [
        | inr no_memory ↦
            rw (resolved, made, connected, no_memory)
              (λ h. returns (left (inl refl)), λ h. absurd (cc h))
        | inl granted ↦
            rw (resolved, made, connected, granted, login_line_overflow name)
              (λ h. absurd (cc h), λ h. refl)
      ]
    ]
  ]
]
  where
    left :
        {status : ℕ}
        → (status ≡ 0) ⊎ ((status ≡ 1) ⊎ (status ≡ minus_one))
        → IsRefused (leaves_with status)
    left h = record { closed = refl; silent = refl; status = h }

few : IsRefused (leaves_with 1)
few = record { closed = refl; silent = refl; status = inr (inl refl) }

-- The main of the client ends with the status 0, 1 or -1, its socket closed and nothing sent, if
-- an argument is missing, the address is not understood, there is no socket, no connection or no
-- memory for the line of the login, and in every other case it writes behind the block of that
-- line.
pub client_main-EndsEarly :
    (e : ClientAnswers) (args : List (List ℕ))
    → (reaches_login e args ≡ false → Returns IsRefused (client_main e args))
      × (reaches_login e args ≡ true → client_main e args ≡ fault)
unfolding client_main
client_main-EndsEarly e (program ∷ ip ∷ port ∷ name ∷ others) =
    let (ret, addr) = get_addr_info_from_ip_and_port e.parsers ip port in
    with_server-EndsEarly e name ret addr
client_main-EndsEarly e [] = (λ h. returns few, λ h. absurd (cc h))
client_main-EndsEarly e (program ∷ []) = (λ h. returns few, λ h. absurd (cc h))
client_main-EndsEarly e (program ∷ ip ∷ []) = (λ h. returns few, λ h. absurd (cc h))
client_main-EndsEarly e (program ∷ ip ∷ port ∷ []) = (λ h. returns few, λ h. absurd (cc h))
