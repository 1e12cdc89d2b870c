-- ===== src/Client/Typed.antt =====
-- What the client sends of what is typed: the lines of commands, which the server parses.
use cosc402_assignment.Base.{
  ℕ, suc, ◌+◌, ◌-◌, ◌<◌, ◌≡◌, refl, sym, ap, ◌∙◌, true, false, none, some, List, [], ◌∷◌, ◌++◌,
  arith, append_assoc, leb, ltb, ◌==◌, inl, inr, Bool-cases,
}
use cosc402_assignment.Base.Lists.{
  length, take, replicate, length-append, length-replicate, take-append_left, take_all,
}
use cosc402_assignment.Base.Strings.{
  IsText, IsText-append, IsLine, IsLine-IsText, c_string, c_string-append, c_string-padded,
  first_of, first_of_tail,
}
use cosc402_assignment.Base.Outcome.{done, fault}
use cosc402_assignment.Base.Words.{int_add}
use cosc402_assignment.Server.Handle.{cmd_login}
use cosc402_assignment.Server.Handle.Commands.{Command, to_all, to_client, print, IsCommand}
use cosc402_assignment.Server.Handle.Fetching.{print-IsText}
use cosc402_assignment.Client.{
  login_line, strstr, indicator, is_to_client, line_to_send, to_all_prefix,
}

-- If its memory is granted, building the login line writes behind the block, whatever the name is:
-- there is no place for the 0 that ends it.
pub login_line_overflow : (name : List ℕ) → login_line true name ≡ fault
unfolding login_line
login_line_overflow name =
    let size : length (replicate {A = ℕ} (length name + 7 + 1) 0) ≡ length name + 7 + 1 =
      length-replicate {A = ℕ} (length name + 7 + 1) 0 in
    let tight : leb (1 + length (cmd_login ++ (name ++ (b'\n' ∷ []))))
          (length (replicate {A = ℕ} (length name + 7 + 1) 0))
        ≡ false =
      ground (arith, size, length-append name (b'\n' ∷ [])) in
    rw tight refl

strstr-name :
    (name rest : List ℕ)
    → first_of 58 name ≡ none
    → strstr (name ++ (58 ∷ 32 ∷ rest)) indicator ≡ some (length name)
unfolding first_of
strstr-name [] rest h = refl
strstr-name (x ∷ name) rest h = elim (Bool-cases (x == 58)) [
  | inl e ↦ absurd (cc (rw e at h))
  | inr ne ↦
      let other : (58 == x) ≡ false = ground (arith, ne) in
      rw (other, strstr-name name rest (first_of_tail (first_of 58 name) (rw ne at h)))
        (ap some (omega arith))
]

-- What has been read lies in the block with zeros behind it.
module _ (bs : List ℕ) (text : IsText bs) (short : length bs < 1016) where
  padded : c_string (bs ++ replicate (1016 - length bs) 0) ≡ bs
  padded =
      let more : 1016 - length bs ≡ suc (1016 - length bs - 1) = omega arith in
      ap (λ k. c_string (bs ++ replicate k 0)) more
      ∙ c_string-padded bs (replicate (1016 - length bs - 1) 0) text

  ends :
      ltb
        (length (c_string (bs ++ replicate (1016 - length bs) 0)))
        (length (bs ++ replicate (1016 - length bs) 0))
      ≡ true
  ends = ground (
    arith,
    ap length padded,
    length-append bs (replicate (1016 - length bs) 0),
    length-replicate {A = ℕ} (1016 - length bs) 0,
  )

  as_typed : is_to_client bs ≡ true → line_to_send (some bs) ≡ done bs
  unfolding line_to_send
  as_typed direct =
      rw (ends, padded, direct)
        (ap done (
          take-append_left (length bs) bs (replicate (1016 - length bs) 0) (omega arith)
          ∙ take_all (length bs) bs (omega arith)))

  with_prefix : is_to_client bs ≡ false → line_to_send (some bs) ≡ done (to_all_prefix ++ bs)
  unfolding line_to_send
  with_prefix plain =
      let count : int_add (length bs) 8 ≡ length (to_all_prefix ++ bs) =
        omega (arith, length-append to_all_prefix bs) in
      rw (ends, padded, plain, count)
        (ap done (
          ap (take (length (to_all_prefix ++ bs)))
            (sym (append_assoc to_all_prefix bs (replicate (1016 - length bs) 0)))
          ∙ take-append_left (length (to_all_prefix ++ bs)) (to_all_prefix ++ bs)
              (replicate (1016 - length bs) 0) (omega arith)
          ∙ take_all (length (to_all_prefix ++ bs)) (to_all_prefix ++ bs) (omega arith)))

-- A line that is typed, and the command that it is.
pub data IsTyped : List ℕ → Command → Type 0 where
  plain :
      {text : List ℕ}
      → IsLine text
      → is_to_client (text ++ (10 ∷ [])) ≡ false
      → length text < 1015
      → IsTyped (text ++ (10 ∷ [])) (to_all text)
  direct :
      {name text : List ℕ}
      → IsCommand (to_client name text)
      → length (print (to_client name text)) < 1016
      → IsTyped (print (to_client name text)) (to_client name text)

pub IsTyped-IsCommand : {bs : List ℕ} {cmd : Command} → IsTyped bs cmd → IsCommand cmd
IsTyped-IsCommand (plain line other short) = (line, omega arith)
IsTyped-IsCommand (direct k short) = k

-- A typed line of less than 1015 bytes that is not addressed to a client is sent with TO-ALL: in
-- front of it, and a well-formed line TO-C of less than 1016 bytes as it is; in both cases what is
-- sent is the line of the command, which the server parses.
pub line_to_send-print :
    {bs : List ℕ} {cmd : Command} → IsTyped bs cmd → line_to_send (some bs) ≡ done (print cmd)
line_to_send-print (plain {text} line other short) =
    with_prefix (text ++ (10 ∷ []))
      (IsText-append text (10 ∷ []) (IsLine-IsText text line) (omega arith, tt))
      (omega (arith, length-append text (10 ∷ []))) other
line_to_send-print (direct {name} {text} k short) =
    let place : strstr (name ++ (58 ∷ 32 ∷ (text ++ (10 ∷ [])))) indicator ≡ some (length name) =
      strstr-name name (text ++ (10 ∷ [])) k.0.1.0 in
    as_typed (print (to_client name text)) (print-IsText (to_client name text) k) short
      (rw place (ground (arith, k.0.1.1)))

-- If 1016 bytes without a 0 are typed at once, line_to_send reads behind the buffer.
pub line_to_send_overrun :
    (bs : List ℕ) → IsText bs → length bs ≡ 1016 → line_to_send (some bs) ≡ fault
unfolding line_to_send c_string
line_to_send_overrun bs text full =
    let none_left : 1016 - length bs ≡ 0 = omega arith in
    let whole : c_string (bs ++ []) ≡ bs ++ [] = c_string-append bs [] text in
    let unending : ltb (length (bs ++ [])) (length (bs ++ [])) ≡ false = ground arith in
    rw (none_left, whole, unending) refl
