-- ===== src/Message.antt =====
-- src/entity/message.c: a message with the names it is for and not for. `malloc` and what its memory
-- holds at first are given by the environment. A string is the bytes before its 0.
pub mod Laws
pub mod Carries
use cosc402_assignment.Base.{
  ℕ, ◌+◌, Bool, true, false, Option, none, some, List, [], ◌∷◌, ◌++◌, ltb, leb, ◌==◌, ◌||◌,
  if◌then◌else◌,
}
use cosc402_assignment.Base.Lists.{length, drop, replicate}
use cosc402_assignment.Base.Strings.{c_string, cut_at_newline}
use cosc402_assignment.Base.Outcome.{Outcome, done, fault, out_of_fuel, ◌>>=◌}
use cosc402_assignment.Base.Words.{to_int, to_size, size_sub, minus_one}

-- `Msg`; `target` and `exclude` are whole arrays of 30 bytes.
pub record Msg : Type 0 where
  pub target : List ℕ
  pub exclude : List ℕ
  pub size : ℕ
  pub content : List ℕ

-- "TO-ALL:", "unknown", "FROM", "FROM SYSTEM:"
abbrev pub cmd_to_all : List ℕ
cmd_to_all = 84 ∷ 79 ∷ 45 ∷ 65 ∷ 76 ∷ 76 ∷ 58 ∷ []

abbrev pub unknown_client : List ℕ
unknown_client = 117 ∷ 110 ∷ 107 ∷ 110 ∷ 111 ∷ 119 ∷ 110 ∷ []

abbrev pub msg_peer_prefix : List ℕ
msg_peer_prefix = 70 ∷ 82 ∷ 79 ∷ 77 ∷ []

abbrev pub msg_sys_prefix : List ℕ
msg_sys_prefix = 70 ∷ 82 ∷ 79 ∷ 77 ∷ 32 ∷ 83 ∷ 89 ∷ 83 ∷ 84 ∷ 69 ∷ 77 ∷ 58 ∷ []

-- `strcmp` on strings: 0 if they are the same, else an `int` below or above 0.
abbrev pub strcmp : List ℕ → List ℕ → ℕ
strcmp [] [] = 0
strcmp [] (y ∷ ys) = minus_one
strcmp (x ∷ xs) [] = 1
strcmp (x ∷ xs) (y ∷ ys) = if x == y then strcmp xs ys else if ltb x y then minus_one else 1

unfoldable pub is_msg_to_all : Msg → ℕ
is_msg_to_all msg = strcmp (c_string msg.target) cmd_to_all

unfoldable pub filter_out : Msg → List ℕ → ℕ
filter_out msg target =
    if (strcmp (c_string msg.exclude) target == 0) || (strcmp target unknown_client == 0)
    then 0
    else minus_one

unfoldable pub is_target : Msg → List ℕ → ℕ
is_target msg target = strcmp (c_string msg.target) target

-- What the two calls of `malloc` answer, and what the fields of the new `Msg` hold at first.
pub record Alloc : Type 0 where
  pub content_granted : Bool
  pub msg_granted : Bool
  pub junk : Msg

unfoldable pub create_new_msg : Alloc → ℕ → Option Msg
create_new_msg a size =
    if a.content_granted
    then (if a.msg_granted
        then some (record (a.junk) { content = replicate size 0; size = size })
        else none)
    else none

-- `strcpy` and `sprintf` into an array: the string and its 0, or a write behind the array.
abbrev pub strcpy : List ℕ → List ℕ → Outcome (List ℕ)
strcpy dst s =
    if leb (1 + length s) (length dst) then done (s ++ (0 ∷ drop (1 + length s) dst)) else fault

abbrev pub with_target : Option (List ℕ) → Msg → Outcome Msg
with_target none msg = done msg
with_target (some t) msg = strcpy msg.target t >>= (λ a. done (record msg { target = a }))

abbrev pub with_exclude : List ℕ → Msg → Outcome Msg
with_exclude name msg = strcpy msg.exclude name >>= (λ a. done (record msg { exclude = a }))

-- `sprintf` into the content, and the size without the 0.
abbrev pub with_content : List ℕ → Msg → Outcome Msg
with_content text msg =
    strcpy msg.content text >>= (λ a. done (record msg { content = a; size = size_sub msg.size 1 }))

-- `MSG_PEER_PREFIX " %s" MSG_PREFIX_INDICATOR " %s\n"`
abbrev pub p2p_text : List ℕ → List ℕ → List ℕ
p2p_text sender line = msg_peer_prefix ++ (32 ∷ (sender ++ (58 ∷ 32 ∷ (line ++ (10 ∷ [])))))

-- `MSG_SYS_PREFIX " %s\n"`
abbrev pub sys_text : List ℕ → List ℕ
sys_text line = msg_sys_prefix ++ (32 ∷ (line ++ (10 ∷ [])))

abbrev pub fill_p2p : List ℕ → Option (List ℕ) → List ℕ → Option Msg → Outcome (Option Msg)
fill_p2p sender target line none = done none
fill_p2p sender target line (some msg) =
    with_content (p2p_text sender line) msg
    >>= with_target target
    >>= with_exclude sender
    >>= (λ built. done (some built))

-- `cut_at_newline` is what is left of a string when the newline in it has been overwritten by a 0.
-- `target` is `none` for the null pointer. Of `s_content`, what is left of it is the line.
unfoldable pub create_p2p_msg_base_on_content :
    Alloc → List ℕ → Option (List ℕ) → List ℕ → Outcome (Option Msg)
unfolding create_new_msg
create_p2p_msg_base_on_content a sender target s_content =
    let line = cut_at_newline s_content in
    let message_len = to_int (length msg_peer_prefix + length sender + length line + 5) in
    fill_p2p sender target line (create_new_msg a (to_size message_len))

abbrev pub fill_sys : Option (List ℕ) → List ℕ → Option Msg → Outcome (Option Msg)
fill_sys target line none = done none
fill_sys target line (some msg) =
    with_content (sys_text line) msg >>= with_target target >>= (λ built. done (some built))

unfoldable pub create_sys_msg_base_on_content :
    Alloc → Option (List ℕ) → List ℕ → Outcome (Option Msg)
unfolding create_new_msg
create_sys_msg_base_on_content a target s_content =
    let line = cut_at_newline s_content in
    let msg_len = to_int (length msg_sys_prefix + length line + 3) in
    fill_sys target line (create_new_msg a (to_size msg_len))
