-- ===== src/Server/Reading/Polling.antt =====
-- A round of `read_sockets` in which `poll` reports something of one socket only.
use cosc402_assignment.Base.{
  ℕ, zero, suc, ◌+◌, ◌≤◌, ◌<◌, ◌≡◌, refl, sym, ap, ◌∙◌, Option, some, List, [], ◌∷◌, ◌++◌, arith,
  ◌==◌, ◌||◌, ◌^◌, false, true, inl, inr, Bool-cases,
}
use mathlib.Core.Path.{subst}
use cosc402_assignment.Base.Lists.{length, get_elem?, set, length-append}
use cosc402_assignment.Base.Outcome.{Outcome, done, Returns, returns}
use cosc402_assignment.Base.Outcome
use cosc402_assignment.Base.Words.{minus_one}
use cosc402_assignment.Buffer.Fill.{Pull}
use cosc402_assignment.ClientInfo.{ClientData}
use cosc402_assignment.Server.Login.{Surroundings, State}
use cosc402_assignment.Server.Reading.{
  PollEvent, no_event, polled, polled_from, Turn, read_one, read_each, read_round,
  get_polling_and_client_list,
}

pub get_elem?-append :
    (xs : List ClientData) (c : ClientData) (ys : List ClientData)
    → get_elem? (xs ++ (c ∷ ys)) (length xs) ≡ some c
get_elem?-append [] c ys = refl
get_elem?-append (x ∷ xs) c ys = get_elem?-append xs c ys

pub set-append :
    (xs : List ClientData) (c d : ClientData) (ys : List ClientData)
    → set (xs ++ (c ∷ ys)) (length xs) d ≡ xs ++ (d ∷ ys)
set-append [] c d ys = refl
set-append (x ∷ xs) c d ys = ap (λ zs. x ∷ zs) (set-append xs c d ys)

get_elem?-within :
    (cs : List ClientData) (i : ℕ) → i < length cs → (c : ClientData) × (get_elem? cs i ≡ some c)
get_elem?-within [] i lt = absurd (omega (arith, lt))
get_elem?-within (c ∷ cs) zero lt = (c, refl)
get_elem?-within (c ∷ cs) (suc i) lt = get_elem?-within cs i (omega (arith, lt))

-- `poll` reports nothing of the clients' sockets.
abbrev pub AllQuiet : (ℕ → PollEvent) → List ClientData → Type 0
AllQuiet events [] = Unit {0}
AllQuiet events (c ∷ cs) = (events c.socket_id ≡ no_event) × AllQuiet events cs

module _ {S : Type 0} (read : ℕ → S → Pull S) (available : S → Option ℕ)
    (events : ℕ → PollEvent) where
  -- Whoever is at the place now: nothing is done.
  quiet_one :
      (es : ℕ → Surroundings) (s : State) (sockets : ℕ → S) (c : ClientData) (i : ℕ)
      → i < length s.server.clients
      → events c.socket_id ≡ no_event
      → read_one read available events es s sockets (polled c, i)
        ≡ done (record { state = s; sockets = sockets })
  quiet_one es s sockets c i lt quiet =
      let (d, there) = get_elem?-within s.server.clients i lt in
      elim (Bool-cases (c.pub_mark == 0)) [
        | inl open_one ↦ elim (Bool-cases (c.socket_id == d.socket_id)) [
          | inl same ↦ rw (open_one, there, same, quiet) refl
          | inr other ↦ rw (open_one, there, other) refl
        ]
        | inr marked ↦ rw marked refl
      ]

  quiet_each :
      (es : ℕ → ℕ → Surroundings) (s : State) (sockets : ℕ → S) (cs : List ClientData) (i : ℕ)
      → i + length cs ≤ length s.server.clients
      → AllQuiet events cs
      → read_each read available events es (polled_from i cs) s sockets
        ≡ done (record { state = s; sockets = sockets })
  unfolding read_each
  quiet_each es s sockets [] i le quiet = refl
  quiet_each es s sockets (c ∷ cs) i le quiet =
      rw (quiet_one (es 0) s sockets c i (omega (arith, le)) quiet.0)
        (quiet_each (λ n. es (suc n)) s sockets cs (suc i) (omega (arith, le)) quiet.1)

  -- What is done for the one client is what the loop does, if it leaves the places of the others.
  read_each-one :
      {P : Turn S → Type 0} (es : ℕ → ℕ → Surroundings) (s : State) (sockets : ℕ → S)
      (xs ys : List ClientData) (c : ClientData) (i : ℕ)
      → AllQuiet events xs
      → AllQuiet events ys
      → i + (length xs + suc (length ys)) ≤ length s.server.clients
      → ((n : ℕ)
          → Returns
              (λ t. P t × (length t.state.server.clients ≡ length s.server.clients))
              (read_one read available events (es n) s sockets (polled c, i + length xs)))
      → Returns P (read_each read available events es (polled_from i (xs ++ (c ∷ ys))) s sockets)
  unfolding read_each
  read_each-one {P} es s sockets [] ys c i quiet quiet' le act =
      let place : i + 0 ≡ i = omega arith in
      Outcome.bind (rw place at (act 0)) (λ t p.
        rw
          (quiet_each (λ n. es (suc n)) t.state t.sockets ys (suc i) (omega (arith, le, p.1))
            quiet')
          (returns p.0))
  read_each-one es s sockets (x ∷ xs) ys c i quiet quiet' le act =
      let place : i + suc (length xs) ≡ suc i + length xs = omega arith in
      rw (quiet_one (es 0) s sockets x i (omega (arith, le)) quiet.0) (
        read_each-one (λ n. es (suc n)) s sockets xs ys c (suc i) quiet.1 quiet' (omega (arith, le))
          (λ n. rw place at (act (suc n))))

  -- The same of a round: only what is done for the one client remains to be shown.
  pub read_round-one :
      {P : Turn S → Type 0} (ret : ℕ) (es : ℕ → ℕ → Surroundings) (s : State) (sockets : ℕ → S)
      (xs ys : List ClientData) (c : ClientData)
      → (0 < ret) × (ret < 2 ^ 31)
      → s.server.client_count ≡ length s.server.clients
      → s.server.clients ≡ xs ++ (c ∷ ys)
      → AllQuiet events xs × AllQuiet events ys
      → ((n : ℕ)
          → get_elem? s.server.clients (length xs) ≡ some c
          → Returns
              (λ t. P t × (length t.state.server.clients ≡ length s.server.clients))
              (read_one read available events (es n) s sockets (polled c, length xs)))
      → Returns P (read_round read available events ret es s sockets)
  unfolding read_round get_polling_and_client_list
  read_round-one {P} ret es s sockets xs ys c reports count list quiet act =
      let happened : ((ret == minus_one) || (ret == 0)) ≡ false = ground (arith, reports) in
      let counted : (length s.server.clients == s.server.client_count) ≡ true =
        ground (arith, count) in
      let there : get_elem? s.server.clients (length xs) ≡ some c =
        ap (λ l. get_elem? l (length xs)) list ∙ get_elem?-append xs c ys in
      let room : length s.server.clients ≡ length xs + suc (length ys) =
        ap length list ∙ length-append xs (c ∷ ys) in
      let place : length xs ≡ 0 + length xs = omega arith in
      rw (counted, happened)
        (subst (λ l. Returns P (read_each read available events es (polled_from 0 l) s sockets))
          (sym list)
          (read_each-one es s sockets xs ys c 0 quiet.0 quiet.1 (omega (arith, room)) (λ n.
            subst
              (λ i.
                Returns (λ t. P t × (length t.state.server.clients ≡ length s.server.clients))
                  (read_one read available events (es n) s sockets (polled c, i)))
              place (act n there))))
