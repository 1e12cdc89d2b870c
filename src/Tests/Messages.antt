-- ===== src/Tests/Messages.antt =====
-- The theorems on messages, applied to concrete messages.
use cosc402_assignment.Base.{ℕ, ◌≡◌, refl, true, none, some, List, [], ◌∷◌, arith}
use cosc402_assignment.Base.Lists.{replicate}
use cosc402_assignment.Base.Strings.{c_string}
use cosc402_assignment.Base.Outcome.{fault, Returns}
use cosc402_assignment.Message.{
  Msg, Alloc, create_p2p_msg_base_on_content, create_sys_msg_base_on_content, p2p_text, sys_text,
}
use cosc402_assignment.Message.Laws.{
  IsGranted, Builds, create_p2p_msg_base_on_content-Builds, create_sys_msg_base_on_content-Builds,
  create_p2p_msg_base_on_content_overflow,
}

abbrev pub granted : Alloc
granted = record {
  content_granted = true;
  msg_granted = true;
  junk = record { target = replicate 30 7; exclude = replicate 30 7; size = 0; content = [] };
}

pub granted-IsGranted : IsGranted granted
granted-IsGranted = record {
  content_there = refl;
  msg_there = refl;
  target_room = refl;
  exclude_room = refl;
}

-- "ab", and "hi\n" with more behind it.
abbrev name_ab : List ℕ
name_ab = 97 ∷ 98 ∷ []

abbrev said : List ℕ
said = 104 ∷ 105 ∷ 10 ∷ 120 ∷ []

-- "FROM ab: hi\n"
p2p_text_run :
    p2p_text name_ab (104 ∷ 105 ∷ [])
    ≡ 70 ∷ 82 ∷ 79 ∷ 77 ∷ 32 ∷ 97 ∷ 98 ∷ 58 ∷ 32 ∷ 104 ∷ 105 ∷ 10 ∷ []
p2p_text_run = refl

create_p2p_msg_base_on_content-Builds_example :
    Returns
      (Builds
        (p2p_text name_ab (104 ∷ 105 ∷ []))
        (some name_ab)
        (λ msg. c_string msg.exclude ≡ name_ab))
      (create_p2p_msg_base_on_content granted name_ab (some name_ab) said)
create_p2p_msg_base_on_content-Builds_example =
    create_p2p_msg_base_on_content-Builds granted granted-IsGranted (some name_ab) said
      (omega arith) name_ab ((omega arith, (omega arith, tt)), omega arith)
      ((omega arith, (omega arith, tt)), omega arith)

create_sys_msg_base_on_content-Builds_example :
    Returns
      (Builds (sys_text (104 ∷ 105 ∷ [])) none (λ msg. Unit {0}))
      (create_sys_msg_base_on_content granted none said)
create_sys_msg_base_on_content-Builds_example =
    create_sys_msg_base_on_content-Builds granted granted-IsGranted none said (omega arith) tt

create_p2p_msg_base_on_content_overflow_example :
    create_p2p_msg_base_on_content granted name_ab (some (replicate 30 97)) said ≡ fault
create_p2p_msg_base_on_content_overflow_example =
    create_p2p_msg_base_on_content_overflow granted granted-IsGranted (some (replicate 30 97)) said
      (omega arith) name_ab (replicate 30 97) refl (omega arith) (omega arith)

abbrev from_ab : Msg
from_ab = record {
  target = replicate 30 0;
  exclude = 97 ∷ 98 ∷ replicate 28 0;
  size = 0;
  content = [];
}
