-- ===== src/Message/Carries.antt =====
-- What a message carries, and to whom: the view of it that its delivery depends on.
use cosc402_assignment.Base.{
  ℕ, ◌^◌, ◌≤◌, ◌<◌, ◌≡◌, ap, ◌∙◌, Option, none, some, List, [], ◌∷◌, arith,
}
use cosc402_assignment.Base.Lists.{length, take, length-append, take-append_left, take_all}
use cosc402_assignment.Base.Strings.{c_string, cut_at_newline}
use cosc402_assignment.Base.Outcome.{Outcome, done, Returns, returns}
use cosc402_assignment.Base.Outcome
use cosc402_assignment.Message.{
  Msg, Alloc, p2p_text, sys_text, with_exclude, create_p2p_msg_base_on_content,
  create_sys_msg_base_on_content,
}
use cosc402_assignment.Message.Laws.{
  IsGranted, IsName, Holds, Builds, builds, create_p2p_msg_base_on_content-Builds,
  create_sys_msg_base_on_content-Builds, strcpy-HoldsString, length-p2p_text, length-sys_text,
}

pub record Carries (text target exclude : List ℕ) (msg : Msg) : Type 0 where
  pub nonempty : 0 < msg.size
  pub whole : msg.size ≤ length msg.content
  pub small : msg.size < 2 ^ 31
  pub text_is : take msg.size msg.content ≡ text
  pub target_is : c_string msg.target ≡ target
  pub exclude_is : c_string msg.exclude ≡ exclude

pub data Carried (text target exclude : List ℕ) : Option Msg → Type 0 where
  carried : {msg : Msg} → Carries text target exclude msg → Carried text target exclude (some msg)

Holds-Carries :
    {text target exclude : List ℕ} {msg : Msg}
    → 0 < length text
    → length text < 2 ^ 31
    → Holds text (some target) msg
    → c_string msg.exclude ≡ exclude
    → Carries text target exclude msg
Holds-Carries {text} {target} {exclude} {msg} pos small h e = record {
  nonempty = omega (arith, h.without_end);
  whole = omega (arith, h.without_end, ap length h.exact, length-append text (0 ∷ []));
  small = omega (arith, h.without_end);
  text_is =
      ap (λ n. take n msg.content) h.without_end
      ∙ ap (take (length text)) h.exact
      ∙ take-append_left (length text) text (0 ∷ []) (omega arith)
      ∙ take_all (length text) text (omega arith);
  target_is = h.receiver;
  exclude_is = e;
}

module _ (a : Alloc) (g : IsGranted a) (target s_content exclude : List ℕ)
    (small : length (cut_at_newline s_content) < 2 ^ 30) (t_name : IsName (some target))
    (x_name : IsName (some exclude)) where
  p2p_of :
      (o : Option Msg)
      → Builds
          (p2p_text exclude (cut_at_newline s_content))
          (some target)
          (λ msg. c_string msg.exclude ≡ exclude)
          o
      → Carried (p2p_text exclude (cut_at_newline s_content)) target exclude o
  p2p_of (some msg) (builds h e) = carried (
      Holds-Carries (omega (arith, length-p2p_text exclude (cut_at_newline s_content)))
        (omega (arith, length-p2p_text exclude (cut_at_newline s_content), x_name.1)) h e)
  p2p_of none b = elim b [ ]

  pub create_p2p-Carried :
      Returns
        (Carried (p2p_text exclude (cut_at_newline s_content)) target exclude)
        (create_p2p_msg_base_on_content a exclude (some target) s_content)
  create_p2p-Carried =
      Outcome.mono
        (create_p2p_msg_base_on_content-Builds a g (some target) s_content small exclude x_name
          t_name)
        p2p_of

  -- A message of the system, from which its sender is then left out.
  pub create_sys-Builds :
      Returns
        (Builds (sys_text (cut_at_newline s_content)) (some target) (λ msg. Unit {0}))
        (create_sys_msg_base_on_content a (some target) s_content)
  create_sys-Builds = create_sys_msg_base_on_content-Builds a g (some target) s_content small t_name

  pub with_exclude-Carried :
      {msg : Msg}
      → Holds (sys_text (cut_at_newline s_content)) (some target) msg
      → Returns
          (Carries (sys_text (cut_at_newline s_content)) target exclude)
          (with_exclude exclude msg)
  with_exclude-Carried {msg} h =
      Outcome.bind (strcpy-HoldsString msg.exclude exclude x_name.0 h.room x_name.1) (λ b s.
        returns (
          Holds-Carries (omega (arith, length-sys_text (cut_at_newline s_content)))
            (omega (arith, length-sys_text (cut_at_newline s_content)))
            (record {
              exact = h.exact;
              without_end = h.without_end;
              receiver = h.receiver;
              room = s.1;
            })
            s.0))
