-- ===== src/Server/Handle/Room.antt =====
-- The server as its users see it: members with a name and the text that waits for them, and what a
-- line does to them. `view` forgets buffers, blocks and sockets.
use cosc402_assignment.Base.{
  ℕ, zero, suc, ◌+◌, ◌≡◌, refl, ap, ◌∙◌, Bool, false, List, [], ◌∷◌, ◌++◌, arith, ◌==◌, ◌||◌,
  if◌then◌else◌, Option, none, some,
}
use cosc402_assignment.Base.Lists.{set, get_elem?, take}
use cosc402_assignment.Base.Strings.{c_string, IsLine-IsText}
use cosc402_assignment.Base.Words.{minus_one}
use cosc402_assignment.Buffer.Node.{contents}
use cosc402_assignment.ClientInfo.{ClientData, update_client_name}
use cosc402_assignment.ClientInfo.Laws.{update_client_name-c_string}
use cosc402_assignment.Message.{
  Msg, strcmp, filter_out, is_msg_to_all, is_target, cmd_to_all, unknown_client,
}
use cosc402_assignment.Message.Carries.{Carries}
use cosc402_assignment.Server.{is_leaving, is_receiver}
use cosc402_assignment.Server.Deliver.{Got, AllGot, text_of, count_receivers}
use cosc402_assignment.Server.Handle.Commands.{
  Command, login, to_all, to_client, IsCommand, Post, posted, renamed,
}

-- Someone in the room; `waits` is the text that has not been sent to them yet.
pub record Member : Type 0 where
  pub name : List ℕ
  pub leaving : Bool
  pub waits : List ℕ

abbrev pub member : ClientData → Member
member c = record {
  name = c_string c.name;
  leaving = is_leaving c;
  waits = contents c.writing_buffer;
}

abbrev pub view : List ClientData → List Member
view [] = []
view (c ∷ cs) = member c ∷ view cs

abbrev pub same_name : List ℕ → List ℕ → Bool
same_name s t = strcmp s t == 0

-- A post is for a member who stays, who is neither left out nor without a name, and who is meant.
abbrev pub gets : Post → Member → Bool
gets post m =
    if m.leaving
    then false
    else if same_name post.exclude m.name || same_name m.name unknown_client
    then false
    else same_name post.target cmd_to_all || same_name post.target m.name

abbrev pub give : Post → Member → Member
give post m = record m { waits = m.waits ++ (if gets post m then post.text else []) }

abbrev pub give_all : Post → List Member → List Member
give_all post [] = []
give_all post (m ∷ ms) = give post m ∷ give_all post ms

abbrev pub count_gets : Post → List Member → ℕ
count_gets post [] = 0
count_gets post (m ∷ ms) = (if gets post m then 1 else 0) + count_gets post ms

either_test :
    (a b : ℕ) → ((if (a == 0) || (b == 0) then 0 else minus_one) == 0) ≡ ((a == 0) || (b == 0))
either_test a b = ground arith

module _ (post : Post) (msg : Msg) (k : Carries post.text post.target post.exclude msg) where
  is_receiver-gets : (c : ClientData) → is_receiver msg c ≡ gets post (member c)
  unfolding filter_out is_msg_to_all is_target
  is_receiver-gets c =
      rw
        (
          k.target_is,
          k.exclude_is,
          either_test (strcmp post.exclude (c_string c.name))
              (strcmp (c_string c.name) unknown_client),
        )
        refl

  Got-give : (c d : ClientData) → Got msg c d → member d ≡ give post (member c)
  Got-give c d g =
      ap member g.same
      ∙ ap (λ w. record (member c) { waits = w })
          (g.text
            ∙ ap (λ b. contents c.writing_buffer ++ (if b then text_of msg else []))
                (is_receiver-gets c)
            ∙ ap (λ t. contents c.writing_buffer ++ (if gets post (member c) then t else []))
                k.text_is)

  pub AllGot-give_all :
      (cs ds : List ClientData) → AllGot msg cs ds → view ds ≡ give_all post (view cs)
  AllGot-give_all [] [] g = refl
  AllGot-give_all [] (d ∷ ds) g = absurd g
  AllGot-give_all (c ∷ cs) [] g = absurd g
  AllGot-give_all (c ∷ cs) (d ∷ ds) g =
      ap (λ m. m ∷ view ds) (Got-give c d g.0)
      ∙ ap (λ ms. give post (member c) ∷ ms) (AllGot-give_all cs ds g.1)

  pub count_receivers-gets :
      (cs : List ClientData) → count_receivers msg cs ≡ count_gets post (view cs)
  count_receivers-gets [] = refl
  count_receivers-gets (c ∷ cs) =
      ap (λ b. (if b then 1 else 0) + count_receivers msg cs) (is_receiver-gets c)
      ∙ ap (λ n. (if gets post (member c) then 1 else 0) + n) (count_receivers-gets cs)

pub view-set :
    (cs : List ClientData) (i : ℕ) (c : ClientData) → view (set cs i c) ≡ set (view cs) i (member c)
view-set [] i c = refl
view-set (d ∷ cs) zero c = refl
view-set (d ∷ cs) (suc i) c = ap (λ ms. member d ∷ ms) (view-set cs i c)

pub view-get_elem? :
    (cs : List ClientData) (i : ℕ) (c : ClientData)
    → get_elem? cs i ≡ some c
    → get_elem? (view cs) i ≡ some (member c)
view-get_elem? [] i c e = absurd (cc e)
view-get_elem? (d ∷ cs) zero c e = let same : d ≡ c = cc e in ap (λ x. some (member x)) same
view-get_elem? (d ∷ cs) (suc i) c e = view-get_elem? cs i c e

-- What a line of the member at a place makes of the room.
abbrev pub rename : Command → Member → Member
rename (login name) m = record m { name = take 29 name }
rename (to_all text) m = m
rename (to_client name text) m = m

abbrev obey_from : Command → ℕ → List Member → Option Member → List Member
obey_from cmd i ms none = ms
obey_from cmd i ms (some m) = give_all (posted m.name cmd) (set ms i (rename cmd m))

abbrev pub obey : Command → ℕ → List Member → List Member
obey cmd i ms = obey_from cmd i ms (get_elem? ms i)

abbrev reached_from : Command → ℕ → List Member → Option Member → ℕ
reached_from cmd i ms none = 0
reached_from cmd i ms (some m) = count_gets (posted m.name cmd) (set ms i (rename cmd m))

-- To how many members its text goes.
abbrev pub reached : Command → ℕ → List Member → ℕ
reached cmd i ms = reached_from cmd i ms (get_elem? ms i)

-- The lines of one member, one after the other.
abbrev pub obey_all : List Command → ℕ → List Member → List Member
obey_all [] i ms = ms
obey_all (cmd ∷ cmds) i ms = obey_all cmds i (obey cmd i ms)

abbrev pub reached_all : List Command → ℕ → List Member → ℕ
reached_all [] i ms = 0
reached_all (cmd ∷ cmds) i ms = reached cmd i ms + reached_all cmds i (obey cmd i ms)

pub renamed-rename :
    (cmd : Command) (c : ClientData)
    → IsCommand cmd
    → member (renamed cmd c) ≡ rename cmd (member c)
unfolding update_client_name
renamed-rename (login name) c h =
    ap (λ s. record (member c) { name = s })
      (update_client_name-c_string name c (IsLine-IsText name h)).0
renamed-rename (to_all text) c h = refl
renamed-rename (to_client name text) c h = refl
