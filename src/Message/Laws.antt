-- ===== src/Message/Laws.antt =====
-- What the messages of message.c hold, that they fill their memory exactly, and who gets them.
use cosc402_assignment.Base.{
  ℕ, suc, ◌+◌, ◌^◌, ◌≤◌, ◌<◌, ◌≡◌, refl, ap, ◌∙◌, ◌⊎◌, inl, inr, true, false, Option, none, some,
  List, [], ◌∷◌, ◌++◌, arith, leb, Bool-cases, if◌then◌else◌, ◌==◌, ==_self, ◌||◌,
}
use cosc402_assignment.Base.Lists.{
  length, drop, replicate, length-append, length-replicate, length-drop, drop_all,
}
use cosc402_assignment.Base.Strings.{IsText, c_string, c_string-padded, cut_at_newline}
use cosc402_assignment.Base.Outcome.{Outcome, done, fault, Returns, returns}
use cosc402_assignment.Base.Outcome
use cosc402_assignment.Base.Words.{to_int, to_size, size_sub, minus_one}
use cosc402_assignment.Message.{
  Msg, Alloc, strcmp, strcpy, create_new_msg, with_content, with_target, with_exclude, p2p_text,
  sys_text, create_p2p_msg_base_on_content, create_sys_msg_base_on_content, filter_out,
  unknown_client,
}

pub strcmp_zero : (a b : List ℕ) → strcmp a b ≡ 0 → a ≡ b
strcmp_zero [] [] e = refl
strcmp_zero [] (y ∷ b) e = absurd (omega arith)
strcmp_zero (x ∷ a) [] e = absurd (omega arith)
strcmp_zero (x ∷ a) (y ∷ b) e = elim (Bool-cases (x == y)) [
  | inl same ↦
      let head : x ≡ y = ground arith in
      rw head (ap (λ xs. y ∷ xs) (strcmp_zero a b (rw same at e)))
  | inr other ↦ absurd (ground arith)
]

pub strcmp_self : (a : List ℕ) → strcmp a a ≡ 0
strcmp_self [] = refl
strcmp_self (x ∷ a) = rw (==_self x) (strcmp_self a)

either_zero : (a b : ℕ) → (if (a == 0) || (b == 0) then 0 else minus_one) ≡ 0 → (a ≡ 0) ⊎ (b ≡ 0)
either_zero a b e = ground arith

zero_either : (a b : ℕ) → (a ≡ 0) ⊎ (b ≡ 0) → (if (a == 0) || (b == 0) then 0 else minus_one) ≡ 0
zero_either a b e = ground arith

-- A message is kept from a client if and only if the client has the name in the field exclude of
-- the message, or the name "unknown".
pub filter_out_iff :
    (msg : Msg) (name : List ℕ)
    → (filter_out msg name ≡ 0 → (c_string msg.exclude ≡ name) ⊎ (name ≡ unknown_client))
      × ((c_string msg.exclude ≡ name) ⊎ (name ≡ unknown_client) → filter_out msg name ≡ 0)
unfolding filter_out
filter_out_iff msg name = (
  λ e. elim (either_zero (strcmp (c_string msg.exclude) name) (strcmp name unknown_client) e) [
    | inl same ↦ inl (strcmp_zero (c_string msg.exclude) name same)
    | inr same ↦ inr (strcmp_zero name unknown_client same)
  ],
  λ e. zero_either (strcmp (c_string msg.exclude) name) (strcmp name unknown_client) (elim e [
    | inl same ↦ inl (ap (λ x. strcmp x name) same ∙ strcmp_self name)
    | inr same ↦ inr (ap (λ x. strcmp x unknown_client) same ∙ strcmp_self unknown_client)
  ]),
)

-- The array `a` holds the string `s`.
abbrev pub HoldsString : List ℕ → List ℕ → Type 0
HoldsString s a = (c_string a ≡ s) × (length a ≡ 30)

pub strcpy-HoldsString :
    (dst s : List ℕ)
    → IsText s
    → length dst ≡ 30
    → length s < 30
    → Returns (HoldsString s) (strcpy dst s)
strcpy-HoldsString dst s t size lt =
    let fit : leb (1 + length s) (length dst) ≡ true = ground arith in
    let len : length (s ++ (0 ∷ drop (1 + length s) dst)) ≡ 30 =
      omega
        (arith, length-append s (0 ∷ drop (1 + length s) dst), length-drop (1 + length s) dst) in
    rw fit (returns (c_string-padded s (drop (1 + length s) dst) t, len))

strcpy-fault : (dst s : List ℕ) → length dst ≤ length s → strcpy dst s ≡ fault
strcpy-fault dst s le =
    let over : leb (1 + length s) (length dst) ≡ false = ground arith in rw over refl

-- A text that fills the array to its last byte.
strcpy_full : (dst s : List ℕ) → length dst ≡ suc (length s) → strcpy dst s ≡ done (s ++ (0 ∷ []))
strcpy_full dst s e =
    let fit : leb (1 + length s) (length dst) ≡ true = ground arith in
    let none_left : drop (1 + length s) dst ≡ [] = drop_all (1 + length s) dst (omega arith) in
    rw (fit, none_left) refl

with_content_full :
    (text : List ℕ) (msg : Msg)
    → length msg.content ≡ suc (length text)
    → msg.size ≡ suc (length text)
    → length text < 2 ^ 32
    → with_content text msg ≡ done (record msg { content = text ++ (0 ∷ []); size = length text })
with_content_full text msg full size small =
    let less : size_sub msg.size 1 ≡ length text = omega arith in
    rw (strcpy_full msg.content text full, less) refl

-- A name that may be given to a message, and that it has been given.
abbrev pub IsName : Option (List ℕ) → Type 0
IsName none = Unit {0}
IsName (some t) = IsText t × (length t < 30)

abbrev pub IsFor : Option (List ℕ) → Msg → Type 0
IsFor none msg = Unit {0}
IsFor (some t) msg = c_string msg.target ≡ t

-- A message with the text `text`, whose content is that text and a 0, with no byte to spare.
pub record Holds (text : List ℕ) (target : Option (List ℕ)) (msg : Msg) : Type 0 where
  pub exact : msg.content ≡ text ++ (0 ∷ [])
  pub without_end : msg.size ≡ length text
  pub receiver : IsFor target msg
  pub room : length msg.exclude ≡ 30

pub data Builds (text : List ℕ) (target : Option (List ℕ)) (P : Msg → Type 0)
    : Option Msg → Type 0 where
  builds : {msg : Msg} → Holds text target msg → P msg → Builds text target P (some msg)

with_target-Holds :
    (text : List ℕ) (target : Option (List ℕ)) (msg : Msg)
    → IsName target
    → length msg.target ≡ 30
    → Holds text none msg
    → Returns (Holds text target) (with_target target msg)
with_target-Holds text none msg name size h = returns h
with_target-Holds text (some t) msg name size h =
    Outcome.bind (strcpy-HoldsString msg.target t name.0 size name.1) (λ a s.
      returns
        (record { exact = h.exact; without_end = h.without_end; receiver = s.0; room = h.room }))

with_exclude-Builds :
    (text : List ℕ) (target : Option (List ℕ)) (sender : List ℕ) (msg : Msg)
    → IsName (some sender)
    → Holds text target msg
    → Returns (λ m. Holds text target m × (c_string m.exclude ≡ sender)) (with_exclude sender msg)
with_exclude-Builds text target sender msg name h =
    Outcome.bind (strcpy-HoldsString msg.exclude sender name.0 h.room name.1) (λ a s. returns (
      record {
        exact = h.exact;
        without_end = h.without_end;
        receiver = keep a target h.receiver;
        room = s.1;
      },
      s.0,
    ))
  where
    keep :
        (a : List ℕ) (target : Option (List ℕ))
        → IsFor target msg
        → IsFor target (record msg { exclude = a })
    keep a none e = e
    keep a (some t) e = e

pub length-cut : (xs : List ℕ) → length (cut_at_newline xs) ≤ length xs
length-cut [] = omega arith
length-cut (x ∷ xs) = elim (Bool-cases (x == 10)) [
  | inl e ↦ rw e (omega arith)
  | inr ne ↦ rw ne (omega (arith, length-cut xs))
]

pub length-p2p_text :
    (sender line : List ℕ) → length (p2p_text sender line) ≡ 8 + length sender + length line
length-p2p_text sender line =
    omega
      (arith, length-append sender (58 ∷ 32 ∷ (line ++ (10 ∷ []))), length-append line (10 ∷ []))

pub length-sys_text : (line : List ℕ) → length (sys_text line) ≡ 14 + length line
length-sys_text line = omega (arith, length-append line (10 ∷ []))

-- The environment grants both allocations; the arrays of a `Msg` have 30 bytes.
pub record IsGranted (a : Alloc) : Type 0 where
  pub content_there : a.content_granted ≡ true
  pub msg_there : a.msg_granted ≡ true
  pub target_room : length a.junk.target ≡ 30
  pub exclude_room : length a.junk.exclude ≡ 30

abbrev pub sized : Alloc → ℕ → Msg
sized a size = record (a.junk) { content = replicate size 0; size = size }

create_new_msg_granted :
    (a : Alloc) (size : ℕ) → IsGranted a → create_new_msg a size ≡ some (sized a size)
unfolding create_new_msg
create_new_msg_granted a size g = rw (g.content_there, g.msg_there) refl

module _ (a : Alloc) (g : IsGranted a) (target : Option (List ℕ)) (s_content : List ℕ)
    (small : length (cut_at_newline s_content) < 2 ^ 30) where
  full_msg : List ℕ → Msg
  full_msg text = record (a.junk) { content = text ++ (0 ∷ []); size = length text }

  full_msg-Holds : (text : List ℕ) → Holds text none (full_msg text)
  unfolding full_msg
  full_msg-Holds text = record {
    exact = refl;
    without_end = refl;
    receiver = tt;
    room = g.exclude_room;
  }

  -- If both allocations are granted, the sender and the target, where there is one, are strings of
  -- less than 30 bytes, and the line, up to the first newline, has less than 2 ^ 30,
  -- create_p2p_msg_base_on_content builds a message whose memory holds exactly "FROM sender:
  -- line", a newline and a 0, with the line up to the first newline, whose size leaves out the 0,
  -- for the target and not for the sender; nothing is written behind an array.
  pub create_p2p_msg_base_on_content-Builds :
      (sender : List ℕ)
      → IsName (some sender)
      → IsName target
      → Returns
          (Builds
            (p2p_text sender (cut_at_newline s_content))
            target
            (λ msg. c_string msg.exclude ≡ sender))
          (create_p2p_msg_base_on_content a sender target s_content)
  unfolding create_p2p_msg_base_on_content full_msg
  create_p2p_msg_base_on_content-Builds sender s_name t_name =
      let line = cut_at_newline s_content in
      let text = p2p_text sender line in
      let fit : to_size (to_int (4 + length sender + length line + 5)) ≡ suc (length text) =
        ground (arith, length-p2p_text sender line, s_name.1) in
      rw
        (
          fit,
          create_new_msg_granted a (suc (length text)) g,
          with_content_full text (sized a (suc (length text)))
              (length-replicate (suc (length text)) 0) refl
              (omega (arith, length-p2p_text sender line, s_name.1)),
        )
        (Outcome.bind
          (Outcome.bind
            (with_target-Holds text target (full_msg text) t_name g.target_room
              (full_msg-Holds text))
            (λ m h. with_exclude-Builds text target sender m s_name h))
          (λ m b. returns (builds b.0 b.1)))

  -- If both allocations are granted, the target, where there is one, is a string of less than 30
  -- bytes, and the line, up to the first newline, has less than 2 ^ 30,
  -- create_sys_msg_base_on_content builds a message whose memory holds exactly "FROM SYSTEM:
  -- line", a newline and a 0, whose size leaves out the 0, for the target; nothing is written
  -- behind an array.
  pub create_sys_msg_base_on_content-Builds :
      IsName target
      → Returns
          (Builds (sys_text (cut_at_newline s_content)) target (λ msg. Unit {0}))
          (create_sys_msg_base_on_content a target s_content)
  unfolding create_sys_msg_base_on_content full_msg
  create_sys_msg_base_on_content-Builds t_name =
      let line = cut_at_newline s_content in
      let text = sys_text line in
      let fit : to_size (to_int (12 + length line + 3)) ≡ suc (length text) =
        ground (arith, length-sys_text line) in
      rw
        (
          fit,
          create_new_msg_granted a (suc (length text)) g,
          with_content_full text (sized a (suc (length text)))
              (length-replicate (suc (length text)) 0) refl (omega (arith, length-sys_text line)),
        )
        (Outcome.bind
          (with_target-Holds text target (full_msg text) t_name g.target_room (full_msg-Holds text))
          (λ m h. returns (builds h tt)))

  -- If both allocations are granted, the sender has less than 30 bytes, the line, up to the first
  -- newline, has less than 2 ^ 30, and the target has 30 bytes or more,
  -- create_p2p_msg_base_on_content writes behind the array target.
  pub create_p2p_msg_base_on_content_overflow :
      (sender t : List ℕ)
      → target ≡ some t
      → length sender < 30
      → 30 ≤ length t
      → create_p2p_msg_base_on_content a sender target s_content ≡ fault
  unfolding create_p2p_msg_base_on_content
  create_p2p_msg_base_on_content_overflow sender t e short long =
      let line = cut_at_newline s_content in
      let text = p2p_text sender line in
      let fit : to_size (to_int (4 + length sender + length line + 5)) ≡ suc (length text) =
        ground (arith, length-p2p_text sender line) in
      rw
        (
          fit,
          create_new_msg_granted a (suc (length text)) g,
          with_content_full text (sized a (suc (length text)))
              (length-replicate (suc (length text)) 0) refl
              (omega (arith, length-p2p_text sender line)),
          e,
          strcpy-fault a.junk.target t (omega (arith, g.target_room)),
        )
        refl
