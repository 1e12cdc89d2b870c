-- ===== src/Server/Handle/Commands.antt =====
-- The lines that the server understands, and what it makes of each: a new name for the sender, and a
-- message that carries a text to the ones it is for.
use mathlib.Core.Path.{subst}
use cosc402_assignment.Base.{
  ℕ, zero, suc, ◌+◌, ◌-◌, ◌^◌, ◌<◌, ◌≡◌, refl, ap, ◌∙◌, true, none, some, List, [], ◌∷◌, ◌++◌,
  arith, leb, append_assoc,
}
use cosc402_assignment.Base.Lists.{
  length, take, drop, replicate, length-append, length-drop, take-append_left, take_all,
  drop-append_right,
}
use cosc402_assignment.Base.Strings.{
  IsText, IsLine, IsLine-IsText, c_string, c_string-append, c_string-padded, cut_at_newline,
  cut_line, first_of, first_of-append,
}
use cosc402_assignment.Base.Outcome.{Outcome, done, Returns, returns, ◌>>=◌}
use cosc402_assignment.Base.Outcome
use cosc402_assignment.Base.Words.{to_int, int_sub}
use cosc402_assignment.Cache.{Pool}
use cosc402_assignment.Cache.Ownership.{Owns}
use cosc402_assignment.ClientInfo.{ClientData, update_client_name}
use cosc402_assignment.Message.{cmd_to_all, sys_text, p2p_text}
use cosc402_assignment.Message.Laws.{IsGranted}
use cosc402_assignment.Message.Carries.{Carried, create_p2p-Carried}
use cosc402_assignment.Server.Login.{Surroundings, Redirect, string_at, msg_login_suffix}
use cosc402_assignment.Server.Login.Notice.{Borrowed, borrow, noted, user_login-LogsIn}
use cosc402_assignment.Server.Handle.{parse_line, to_c_at, to_c_with, to_c_stored}

pub data Command : Type 0 where
  login : List ℕ → Command
  to_all : List ℕ → Command
  to_client : List ℕ → List ℕ → Command

-- The line of a command, with its newline.
abbrev pub print : Command → List ℕ
print (login name) = b'L' ∷ b'O' ∷ b'G' ∷ b'I' ∷ b'N' ∷ b':' ∷ b' ' ∷ (name ++ (b'\n' ∷ []))
print (to_all text) = b'T' ∷ b'O' ∷ b'-' ∷ b'A' ∷ b'L' ∷ b'L' ∷ b':' ∷ b' ' ∷ (text ++ (b'\n' ∷ []))
print (to_client name text) =
    b'T' ∷ b'O' ∷ b'-' ∷ b'C' ∷ b'-' ∷ (name ++ (b':' ∷ b' ' ∷ (text ++ (b'\n' ∷ []))))

-- Texts of one line of less than 2 ^ 29 bytes; a receiver's name has no `:` and fits its array.
abbrev pub IsCommand : Command → Type 0
IsCommand (login name) = IsLine name
IsCommand (to_all text) = IsLine text × (length text < 2 ^ 29)
IsCommand (to_client name text) =
    (IsLine name × ((first_of b':' name ≡ none) × (length name < 30)))
    × (IsLine text × (length text < 2 ^ 29))

-- A text, whom it is for, and whom it is kept from.
pub record Post : Type 0 where
  pub text : List ℕ
  pub target : List ℕ
  pub exclude : List ℕ

-- What a command of `sender` has the server post.
abbrev pub posted : List ℕ → Command → Post
posted sender (login name) = record {
  text = sys_text (noted (take 29 name) msg_login_suffix);
  target = cmd_to_all;
  exclude = take 29 name;
}
posted sender (to_all text) = record {
  text = p2p_text sender text;
  target = cmd_to_all;
  exclude = sender;
}
posted sender (to_client name text) = record {
  text = p2p_text sender text;
  target = name;
  exclude = sender;
}

abbrev pub renamed : Command → ClientData → ClientData
renamed (login name) c = update_client_name (some name) c
renamed (to_all text) c = c
renamed (to_client name text) c = c

pub record Obeys (cmd : Command) (f : ℕ → ℕ) (c : ClientData) (r : Redirect) : Type 0 where
  pub client : r.client ≡ renamed cmd c
  pub message :
      let post = posted (c_string c.name) cmd in
      Carried post.text post.target post.exclude r.message
  pub owns : Owns r.pool f

drop-replicate {ℓ} : {A : Type ℓ} (n m : ℕ) (a : A) → drop n (replicate m a) ≡ replicate (m - n) a
drop-replicate zero m a = ap (λ k. replicate k a) (omega arith)
drop-replicate (suc n) zero a =
    let none_left : ◌≡◌ {A = ℕ} 0 (zero - suc n) = omega arith in ap (λ k. replicate k a) none_left
drop-replicate (suc n) (suc m) a = drop-replicate n m a ∙ ap (λ k. replicate k a) less
  where
    less : m - n ≡ suc m - suc n
    less = omega arith

-- A name stored in a zeroed block that is longer ends with a 0.
stored_name :
    (name : List ℕ) (n : ℕ)
    → IsText name
    → length name < n
    → c_string (name ++ drop (length name) (replicate n 0)) ≡ name
stored_name name n t lt =
    let more : n - length name ≡ suc (n - length name - 1) = omega arith in
    ap (λ xs. c_string (name ++ xs)) (drop-replicate (length name) n 0)
    ∙ ap (λ k. c_string (name ++ replicate k 0)) more
    ∙ c_string-padded name (replicate (n - length name - 1) 0) t

module _ (e : Surroundings) (g : IsGranted e.alloc) (c : ClientData) (p : Pool) (f : ℕ → ℕ)
    (o : Owns p f) (s_name : IsText (c_string c.name) × (length (c_string c.name) < 30)) where
  -- The line of `to_client`, from the block with the receiver's name on.
  module _ (name text content : List ℕ) (line : IsLine name) (short : length name < 30)
      (small : length text < 2 ^ 29) (is_text : cut_at_newline content ≡ text)
      (b : Borrowed (length name) f p) where
    buff : List ℕ
    buff = name ++ drop (length name) b.block.buff

    length-buff : length buff ≡ length b.block.buff
    unfolding buff
    length-buff = omega (
      arith,
      b.large,
      length-append name (drop (length name) b.block.buff),
      length-drop (length name) b.block.buff,
    )

    buff-name : c_string buff ≡ name
    unfolding buff
    buff-name =
        ap (λ xs. c_string (name ++ drop (length name) xs)) b.zeros
        ∙ stored_name name (length b.block.buff) (IsLine-IsText name line) (omega (arith, b.large))

    to_c_with-Obeys :
        Returns
          (Obeys (to_client name text) f c)
          (to_c_with e c name content (some b.block, b.rest))
    unfolding buff
    to_c_with-Obeys =
        let fits : leb (0 + length name) (length b.block.buff) ≡ true = ground (arith, b.large) in
        let moved : 0 + length name ≡ length name = omega arith in
        rw (fits, to_c_stored, moved, buff-name)
          (Outcome.bind
            (create_p2p-Carried e.alloc g name content (c_string c.name)
              (omega (arith, ap length is_text)) (IsLine-IsText name line, short) s_name)
            (λ m k. returns (record {
              client = refl;
              message =
                  subst (λ t. Carried (p2p_text (c_string c.name) t) name (c_string c.name) m)
                    is_text k;
              owns = b.back b.rest f buff length-buff b.owns;
            })))

  -- What `string_at` finds behind a prefix of the line.
  text_at :
      (text : List ℕ)
      → IsLine text
      → cut_at_newline (c_string ((text ++ (b'\n' ∷ [])) ++ e.behind)) ≡ text
  text_at text line =
      ap (λ xs. cut_at_newline (c_string xs)) (append_assoc text (b'\n' ∷ []) e.behind)
      ∙ cut_line text e.behind line

  parse_line-login :
      (name : List ℕ)
      → IsLine name
      → Returns (Obeys (login name) f c) (parse_line e c (print (login name)) p)
  unfolding parse_line c_string
  parse_line-login name line =
      let (is_name, logged) = user_login-LogsIn e g p f o c name (print (login name)) line refl in
      Outcome.mono logged (λ r l. record {
        client = l.client;
        message =
            subst (λ n. Carried (sys_text (noted n msg_login_suffix)) cmd_to_all n r.message)
              is_name l.message;
        owns = l.owns;
      })

  parse_line-to_all :
      (text : List ℕ)
      → IsCommand (to_all text)
      → Returns (Obeys (to_all text) f c) (parse_line e c (print (to_all text)) p)
  unfolding parse_line c_string
  parse_line-to_all text h =
      let content = string_at 8 (print (to_all text)) e.behind in
      let same : cut_at_newline content ≡ text = text_at text h.0 in
      Outcome.bind
        (create_p2p-Carried e.alloc g cmd_to_all content (c_string c.name)
          (omega (arith, ap length same, h.1)) (omega arith, omega arith) s_name)
        (λ m k. returns (record {
          client = refl;
          message =
              subst (λ t. Carried (p2p_text (c_string c.name) t) cmd_to_all (c_string c.name) m)
                same k;
          owns = o;
        }))

  parse_line-to_client :
      (name text : List ℕ)
      → IsCommand (to_client name text)
      → Returns (Obeys (to_client name text) f c) (parse_line e c (print (to_client name text)) p)
  unfolding parse_line c_string
  parse_line-to_client name text h =
      let (line, (no_colon, short)) = h.0 in
      let rest = b' ' ∷ ((text ++ (b'\n' ∷ [])) ++ e.behind) in
      let whole : (name ++ (b':' ∷ b' ' ∷ (text ++ (b'\n' ∷ [])))) ++ e.behind
          ≡ name ++ (b':' ∷ rest) =
        append_assoc name (b':' ∷ b' ' ∷ (text ++ (b'\n' ∷ []))) e.behind in
      let string : c_string (name ++ (b':' ∷ rest)) ≡ name ++ (b':' ∷ c_string rest) =
        c_string-append name (b':' ∷ rest) (IsLine-IsText name line) in
      let place : first_of b':' (c_string (name ++ (b':' ∷ rest))) ≡ some (length name) =
        ap (first_of b':') string ∙ first_of-append b':' name (c_string rest) no_colon in
      let size : int_sub (to_int (1 + (1 + (1 + (1 + (1 + length name)))))) 5 ≡ length name =
        omega arith in
      let taken : take (length name) (c_string (name ++ (b':' ∷ rest))) ≡ name =
        ap (take (length name)) string
        ∙ take-append_left (length name) name (b':' ∷ c_string rest) (omega arith)
        ∙ take_all (length name) name (omega arith) in
      let behind : 1 + (1 + (1 + (1 + (1 + length name)))) + 2
          ≡ suc (suc (suc (suc (suc (length name + 2))))) =
        omega arith in
      let left : drop (length name + 2) (name ++ (b':' ∷ rest))
          ≡ (text ++ (b'\n' ∷ [])) ++ e.behind =
        drop-append_right 2 name (b':' ∷ rest) in
      let b : Borrowed (length name) f p = borrow (length name) f p (omega arith) o in
      rw (whole, place, to_c_at, size, whole, taken, behind, left, b.granted)
        (to_c_with-Obeys name text (c_string ((text ++ (b'\n' ∷ [])) ++ e.behind)) line short h.1.1
          (text_at text h.1.0) b)

  -- If every allocation is granted, the blocks are held as counted, and the name of the sender is
  -- a string that fits its array, then the line that a command prints to is parsed as that
  -- command: LOGIN renames the sender to the first 29 bytes and announces it, TO-ALL makes a
  -- message to all, TO-C one to the client named, each with the whole text, the sender left out,
  -- and every allocated block is free or held as before.
  pub parse_line-Obeys :
      (cmd : Command) → IsCommand cmd → Returns (Obeys cmd f c) (parse_line e c (print cmd) p)
  parse_line-Obeys (login name) h = parse_line-login name h
  parse_line-Obeys (to_all text) h = parse_line-to_all text h
  parse_line-Obeys (to_client name text) h = parse_line-to_client name text h
