-- ===== src/Server/Login/Notice.antt =====
-- What a notice says and to whom, that it fits its block, and that `user_login` gives it to the name
-- that the client has sent.
use cosc402_assignment.Base.{
  ℕ, ◌+◌, ◌≤◌, ◌<◌, ◌≡◌, refl, sym, ap, ◌∙◌, true, Option, none, some, List, [], ◌∷◌, ◌++◌, arith,
  leb, append_assoc, append-nil,
}
use mathlib.Core.Path.{subst}
use cosc402_assignment.Base.Lists.{
  length, replicate, take, drop, length-append, length-drop, length-take,
}
use cosc402_assignment.Base.Strings.{
  IsText, IsLine, IsLine-IsText, IsLine-append, c_string, c_string-padded, cut_at_newline,
  cut_at_newline-append, cut_line, IsLine-take,
}
use cosc402_assignment.Base.Outcome.{Outcome, done, Returns, returns, ◌>>=◌}
use cosc402_assignment.Base.Outcome
use cosc402_assignment.Cache.{Cache, Pool, get_new_cache, recycle_cache}
use cosc402_assignment.Cache.Classes.{HasSize}
use cosc402_assignment.Cache.Invariant.{Grants, get_new_cache-Grants}
use cosc402_assignment.Cache.Ownership.{Owns, Owns-grant, Owns-return, and_at}
use cosc402_assignment.ClientInfo.{ClientData, update_client_name}
use cosc402_assignment.ClientInfo.Laws.{update_client_name-c_string}
use cosc402_assignment.Message.{Msg, Alloc, cmd_to_all, strcpy, sys_text}
use cosc402_assignment.Message.Laws.{IsGranted, builds, Builds, length-cut}
use cosc402_assignment.Message.Carries.{Carried, carried, create_sys-Builds, with_exclude-Carried}
use cosc402_assignment.Server.Login.{
  Surroundings, Note, Redirect, notice, notice_size, excluding, login_with, user_login,
  msg_login_suffix, string_at,
}

-- A block that has been granted, from a pool in which `f` says what is held.
pub record Borrowed (n : ℕ) (f : ℕ → ℕ) (p : Pool) : Type 0 where
  pub block : Cache
  pub rest : Pool
  pub granted : get_new_cache n p ≡ (some block, rest)
  pub fits : n ≤ length block.buff
  pub large : 64 ≤ length block.buff
  pub zeros : block.buff ≡ replicate (length block.buff) 0
  pub back :
      (q : Pool) (g : ℕ → ℕ) (buff : List ℕ)
      → length buff ≡ length block.buff
      → Owns q (and_at block.addr g)
      → Owns (recycle_cache (record block { buff = buff }) q).1 g
  pub owns : Owns rest (and_at block.addr f)

at_least_64 : (n : ℕ) → HasSize n → 64 ≤ n
at_least_64 n h = ground arith

borrow_of :
    (n : ℕ) (f : ℕ → ℕ) (p : Pool) (r : Option Cache × Pool)
    → get_new_cache n p ≡ r
    → Owns p f
    → Grants n p r
    → Borrowed n f p
borrow_of n f p (none, p') e o g = absurd g
borrow_of n f p (some c, p') e o g = record {
  block = c;
  rest = p';
  granted = e;
  fits = omega (arith, g.size.fits, g.held.memory);
  large = omega (arith, at_least_64 c.allocated_size g.held.size, g.held.memory);
  zeros = g.zeros ∙ ap (λ k. replicate k 0) (sym g.held.memory);
  back = λ q h buff len o'.
      Owns-return (record c { buff = buff }) h o' g.held.size (omega (arith, len, g.held.memory));
  owns = Owns-grant o g;
}

pub borrow : (n : ℕ) (f : ℕ → ℕ) (p : Pool) → n ≤ 2048 → Owns p f → Borrowed n f p
borrow n f p small o =
    borrow_of n f p (get_new_cache n p) refl o (get_new_cache-Grants n small o.valid)

-- "name suffix"
abbrev pub noted : List ℕ → List ℕ → List ℕ
noted name suffix = name ++ (32 ∷ suffix)

pub IsLine-noted : (name suffix : List ℕ) → IsLine name → IsLine suffix → IsLine (noted name suffix)
IsLine-noted name suffix h k = IsLine-append name (32 ∷ suffix) h (omega arith, (omega arith, k))

pub cut-noted : (xs : List ℕ) → IsLine xs → cut_at_newline xs ≡ xs
cut-noted xs h =
    ap cut_at_newline (sym (append-nil xs)) ∙ cut_at_newline-append xs [] h ∙ append-nil xs

-- The string and its 0 stand in the array, which keeps its size.
pub record Copied (dst s : List ℕ) (a : List ℕ) : Type 0 where
  pub is_string : c_string a ≡ s
  pub same_size : length a ≡ length dst

pub strcpy-Copied :
    (dst s : List ℕ) → IsText s → length s < length dst → Returns (Copied dst s) (strcpy dst s)
strcpy-Copied dst s t lt =
    let fit : leb (1 + length s) (length dst) ≡ true = ground arith in
    let size : length (s ++ (0 ∷ drop (1 + length s) dst)) ≡ length dst =
      omega
        (arith, length-append s (0 ∷ drop (1 + length s) dst), length-drop (1 + length s) dst) in
    rw fit (
      returns
        (record { is_string = c_string-padded s (drop (1 + length s) dst) t; same_size = size }))

-- The message that a notice makes, and its block.
pub record Notes (name suffix : List ℕ) (c : Cache) (n : Note) : Type 0 where
  pub message : Carried (sys_text (noted name suffix)) cmd_to_all name n.message
  pub block : n.cache ≡ record c { buff = n.cache.buff }
  pub same_size : length n.cache.buff ≡ length c.buff

cmd_to_all_name : IsText cmd_to_all × (length cmd_to_all < 30)
cmd_to_all_name = (omega arith, omega arith)

module _ (a : Alloc) (g : IsGranted a) (name suffix : List ℕ) (line : IsLine name)
    (line' : IsLine suffix) (short : length name < 30) (short' : length suffix < 30) where
  excluding-Carried :
      (text : List ℕ)
      → text ≡ noted name suffix
      → (o : Option Msg)
      → Builds (sys_text (cut_at_newline text)) (some cmd_to_all) (λ msg. Unit {0}) o
      → Returns (Carried (sys_text (noted name suffix)) cmd_to_all name) (excluding name o)
  excluding-Carried text e none b = elim b [ ]
  excluding-Carried text e (some msg) (builds h u) =
      Outcome.bind
        (with_exclude-Carried a g cmd_to_all text name
          (omega (arith, length-cut text, ap length e, length-append name (32 ∷ suffix)))
          cmd_to_all_name (IsLine-IsText name line, short) h)
        (λ m k.
          let same : cut_at_newline text ≡ noted name suffix =
            ap cut_at_newline e
            ∙ cut-noted (noted name suffix) (IsLine-noted name suffix line line') in
          returns (carried (rw same at k)))

  pub notice-Notes :
      (c : Cache)
      → length name + length suffix + 2 ≤ length c.buff
      → Returns (Notes name suffix c) (notice a name suffix c)
  notice-Notes c room =
      Outcome.bind
        (strcpy-Copied c.buff (noted name suffix)
          (IsLine-IsText (noted name suffix) (IsLine-noted name suffix line line'))
          (omega (arith, length-append name (32 ∷ suffix))))
        (λ buff s.
          Outcome.bind
            (Outcome.bind
              (create_sys-Builds a g cmd_to_all (c_string buff) name
                (omega (
                  arith,
                  length-cut (c_string buff),
                  ap length s.is_string,
                  length-append name (32 ∷ suffix),
                ))
                cmd_to_all_name (IsLine-IsText name line, short))
              (excluding-Carried (c_string buff) s.is_string))
            (λ m k. returns (record { message = k; block = refl; same_size = s.same_size })))

-- A client that logs in keeps its name, and the message announces it.
pub record LogsIn (f : ℕ → ℕ) (c : ClientData) (r : Redirect) : Type 0 where
  pub client : r.client ≡ c
  pub message :
      Carried
        (sys_text (noted (c_string c.name) msg_login_suffix))
        cmd_to_all
        (c_string c.name)
        r.message
  pub owns : Owns r.pool f

login_suffix-IsLine : IsLine msg_login_suffix
login_suffix-IsLine = omega arith

module _ (e : Surroundings) (g : IsGranted e.alloc) (p : Pool) (f : ℕ → ℕ) where
  login_with-LogsIn :
      (c : ClientData) (b : Borrowed (notice_size (c_string c.name) msg_login_suffix) f p)
      → IsLine (c_string c.name)
      → length (c_string c.name) < 30
      → Returns (LogsIn f c) (login_with e.alloc c (some b.block, b.rest))
  login_with-LogsIn c b line short =
      Outcome.bind
        (notice-Notes e.alloc g (c_string c.name) msg_login_suffix line login_suffix-IsLine short
          (omega arith) b.block (omega (arith, b.fits)))
        (λ n k. returns (record {
          client = refl;
          message = k.message;
          owns =
              subst (λ block. Owns (recycle_cache block b.rest).1 f) (sym k.block)
                (b.back b.rest f n.cache.buff k.same_size b.owns);
        }))

  -- The line LOGIN: name gives the client the first 29 bytes of the name and the notice of its login.
  pub user_login-LogsIn :
      Owns p f
      → (c : ClientData) (name msg : List ℕ) → IsLine name
      → msg ≡ b'L' ∷ b'O' ∷ b'G' ∷ b'I' ∷ b'N' ∷ b':' ∷ b' ' ∷ (name ++ (b'\n' ∷ []))
      → (c_string (update_client_name (some name) c).name ≡ take 29 name)
        × Returns (LogsIn f (update_client_name (some name) c)) (user_login e c msg p)
  unfolding user_login
  user_login-LogsIn o c name msg line form =
      let named = update_client_name (some name) c in
      let is_name : c_string named.name ≡ take 29 name =
        (update_client_name-c_string name c (IsLine-IsText name line)).0 in
      let short : length (c_string named.name) < 30 =
        omega (arith, ap length is_name, length-take 29 name) in
      let b : Borrowed (notice_size (c_string named.name) msg_login_suffix) f p =
        borrow (notice_size (c_string named.name) msg_login_suffix) f p (omega arith) o in
      let cut : cut_at_newline (string_at 7 msg e.behind) ≡ name =
        ap (λ m. cut_at_newline (string_at 7 m e.behind)) form
        ∙ ap (λ xs. cut_at_newline (c_string xs)) (append_assoc name (b'\n' ∷ []) e.behind)
        ∙ cut_line name e.behind line in
      (
        is_name,
        subst
            (λ n. Returns (LogsIn f named) (
              login_with e.alloc (update_client_name (some n) c) (
                get_new_cache
                  (notice_size (c_string (update_client_name (some n) c).name) msg_login_suffix)
                  p)))
            (sym cut)
            (subst (λ r. Returns (LogsIn f named) (login_with e.alloc named r)) (sym b.granted)
              (login_with-LogsIn named b (rw is_name (IsLine-take 29 name line)) short)),
      )
