-- ===== src/Server/Login/Leaving.antt =====
-- A client that is taken out of the list, and what the others are told.
use cosc402_assignment.Base.{
  ℕ, ◌+◌, ◌≡◌, ◌≢◌, refl, false, some, List, [], ◌∷◌, ◌++◌, arith, ◌==◌, ==_self,
}
use cosc402_assignment.Base.Lists.{length, length-append}
use cosc402_assignment.Buffer.Node.{AllGood}
use cosc402_assignment.Buffer.Ownership.{and_nodes}
use cosc402_assignment.ClientInfo.{ClientData}
use cosc402_assignment.Message.{cmd_to_all, sys_text}
use cosc402_assignment.Server.{remove_first}
use cosc402_assignment.Server.Login.{msg_logout_suffix}
use cosc402_assignment.Server.Login.Notice.{noted}
use cosc402_assignment.Server.Deliver.{and_clients, AllWritable}
use cosc402_assignment.Server.Handle.Commands.{Post}

-- The notice of a client that leaves.
abbrev pub farewell : List ℕ → Post
farewell name = record {
  text = sys_text (noted name msg_logout_suffix);
  target = cmd_to_all;
  exclude = name;
}

-- No client of the list has the socket.
abbrev pub NotIn : ℕ → List ClientData → Type 0
NotIn socket_id [] = Unit {0}
NotIn socket_id (c ∷ cs) = (c.socket_id ≢ socket_id) × NotIn socket_id cs

pub and_clients-split :
    (cs : List ClientData) (f : ℕ → ℕ) (a : ℕ)
    → and_clients cs f a ≡ and_clients cs (λ x. 0) a + f a
and_clients-split [] f a = omega arith
and_clients-split (c ∷ cs) f a = omega (arith, and_clients-split cs f a)

module _ (c : ClientData) where
  pub remove_first-found :
      (before after : List ClientData)
      → NotIn c.socket_id before
      → remove_first c.socket_id (before ++ (c ∷ after)) ≡ some (before ++ after)
  unfolding remove_first
  remove_first-found [] after h = rw (==_self c.socket_id) refl
  remove_first-found (d ∷ before) after h =
      let other : (d.socket_id == c.socket_id) ≡ false = ground (arith, h.0) in
      rw (other, remove_first-found before after h.1) refl

  pub and_clients-taken :
      (before after : List ClientData) (f : ℕ → ℕ) (a : ℕ)
      → and_clients (before ++ (c ∷ after)) f a
        ≡ and_clients (before ++ after) (and_nodes c.writing_buffer f) a
  and_clients-taken [] after f a =
      omega (
        arith,
        and_clients-split after f a,
        and_clients-split after (and_nodes c.writing_buffer f) a,
      )
  and_clients-taken (d ∷ before) after f a = omega (arith, and_clients-taken before after f a)

  pub AllWritable-taken :
      (before after : List ClientData)
      → AllWritable (before ++ (c ∷ after))
      → AllGood c.writing_buffer × AllWritable (before ++ after)
  AllWritable-taken [] after w = w
  AllWritable-taken (d ∷ before) after w =
      let (g, ws) = AllWritable-taken before after w.1 in (g, (w.0, ws))

  pub length-taken :
      (before after : List ClientData)
      → length (before ++ (c ∷ after)) ≡ 1 + length (before ++ after)
  length-taken before after =
      omega (arith, length-append before (c ∷ after), length-append before after)
