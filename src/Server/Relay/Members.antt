-- ===== src/Server/Relay/Members.antt =====
-- What is known of the clients by their sockets and by the members that they are.
use cosc402_assignment.Base.{
  ℕ, zero, suc, ◌^◌, ◌<◌, ◌≡◌, refl, sym, ap, ◌∙◌, false, Option, none, some, List, [], ◌∷◌,
}
use mathlib.Core.Path.{subst}
use cosc402_assignment.Base.Lists.{length, get_elem?, set}
use cosc402_assignment.ClientInfo.{ClientData}
use cosc402_assignment.Server.Login.Leaving.{NotIn}
use cosc402_assignment.Server.Handle.Commands.{Command, Post, posted, login, to_all, to_client}
use cosc402_assignment.Server.Handle.Room.{Member, view, give_all, rename, obey, obey_all}
use cosc402_assignment.Server.Handle.Healthy.{socket_ids}
use cosc402_assignment.Server.Writing.Flush.{Distinct, AllSmall}
use cosc402_assignment.Server.Writing.Drained.{NoneLeaving}

-- What holds of clients by their sockets, names and waiting texts only.
pub NotIn-socket_ids :
    (k : ℕ) (cs ds : List ClientData) → socket_ids ds ≡ socket_ids cs → NotIn k cs → NotIn k ds
NotIn-socket_ids k [] [] e h = tt
NotIn-socket_ids k [] (d ∷ ds) e h = absurd (cc e)
NotIn-socket_ids k (c ∷ cs) [] e h = absurd (cc e)
NotIn-socket_ids k (c ∷ cs) (d ∷ ds) e h =
    let first : d.socket_id ≡ c.socket_id = cc e in
    let later : socket_ids ds ≡ socket_ids cs = cc e in
    (λ own. h.0 (sym first ∙ own), NotIn-socket_ids k cs ds later h.1)

pub Distinct-socket_ids :
    (cs ds : List ClientData) → socket_ids ds ≡ socket_ids cs → Distinct cs → Distinct ds
Distinct-socket_ids [] [] e h = tt
Distinct-socket_ids [] (d ∷ ds) e h = absurd (cc e)
Distinct-socket_ids (c ∷ cs) [] e h = absurd (cc e)
Distinct-socket_ids (c ∷ cs) (d ∷ ds) e h =
    let first : c.socket_id ≡ d.socket_id = cc e in
    let later : socket_ids ds ≡ socket_ids cs = cc e in
    (
      NotIn-socket_ids d.socket_id cs ds later (subst (λ k. NotIn k cs) first h.0),
      Distinct-socket_ids cs ds later h.1,
    )

abbrev pub NobodyLeaves : List Member → Type 0
NobodyLeaves [] = Unit {0}
NobodyLeaves (m ∷ ms) = (m.leaving ≡ false) × NobodyLeaves ms

pub NobodyLeaves-view : (cs : List ClientData) → NoneLeaving cs → NobodyLeaves (view cs)
NobodyLeaves-view [] h = tt
NobodyLeaves-view (c ∷ cs) h = (h.0, NobodyLeaves-view cs h.1)

pub NoneLeaving-view : (cs : List ClientData) → NobodyLeaves (view cs) → NoneLeaving cs
NoneLeaving-view [] h = tt
NoneLeaving-view (c ∷ cs) h = (h.0, NoneLeaving-view cs h.1)

NobodyLeaves-give_all :
    (post : Post) (ms : List Member) → NobodyLeaves ms → NobodyLeaves (give_all post ms)
NobodyLeaves-give_all post [] h = tt
NobodyLeaves-give_all post (m ∷ ms) h = (h.0, NobodyLeaves-give_all post ms h.1)

NobodyLeaves-set :
    (ms : List Member) (i : ℕ) (m : Member)
    → m.leaving ≡ false
    → NobodyLeaves ms
    → NobodyLeaves (set ms i m)
NobodyLeaves-set [] i m e h = tt
NobodyLeaves-set (x ∷ ms) zero m e h = (e, h.1)
NobodyLeaves-set (x ∷ ms) (suc i) m e h = (h.0, NobodyLeaves-set ms i m e h.1)

stays :
    (ms : List Member) (i : ℕ) (m : Member)
    → get_elem? ms i ≡ some m
    → NobodyLeaves ms
    → m.leaving ≡ false
stays [] i m e h = absurd (cc e)
stays (x ∷ ms) zero m e h = let same : x ≡ m = cc e in ap (λ y. y.leaving) (sym same) ∙ h.0
stays (x ∷ ms) (suc i) m e h = stays ms i m e h.1

rename-leaving : (cmd : Command) (m : Member) → (rename cmd m).leaving ≡ m.leaving
rename-leaving (login name) m = refl
rename-leaving (to_all text) m = refl
rename-leaving (to_client name text) m = refl

-- The line of somebody in the room.
obeyed :
    (cmd : Command) (i : ℕ) (ms : List Member) (m : Member)
    → get_elem? ms i ≡ some m
    → obey cmd i ms ≡ give_all (posted m.name cmd) (set ms i (rename cmd m))
obeyed cmd i ms m e = rw e refl

NobodyLeaves-obey :
    (cmd : Command) (i : ℕ) (ms : List Member) → NobodyLeaves ms → NobodyLeaves (obey cmd i ms)
NobodyLeaves-obey cmd i ms h = at_place (get_elem? ms i) refl
  where
    at_place : (o : Option Member) → get_elem? ms i ≡ o → NobodyLeaves (obey cmd i ms)
    at_place none e = rw e h
    at_place (some m) e = rw (obeyed cmd i ms m e) (
        NobodyLeaves-give_all (posted m.name cmd) (set ms i (rename cmd m))
          (NobodyLeaves-set ms i (rename cmd m) (rename-leaving cmd m ∙ stays ms i m e h) h))

pub NobodyLeaves-obey_all :
    (cmds : List Command) (i : ℕ) (ms : List Member)
    → NobodyLeaves ms
    → NobodyLeaves (obey_all cmds i ms)
NobodyLeaves-obey_all [] i ms h = h
NobodyLeaves-obey_all (cmd ∷ cmds) i ms h =
    NobodyLeaves-obey_all cmds i (obey cmd i ms) (NobodyLeaves-obey cmd i ms h)

-- The waiting texts can be counted by a `size_t`.
abbrev pub WaitsSmall : List Member → Type 0
WaitsSmall [] = Unit {0}
WaitsSmall (m ∷ ms) = (length m.waits < 2 ^ 64) × WaitsSmall ms

pub AllSmall-view : (cs : List ClientData) → WaitsSmall (view cs) → AllSmall cs
AllSmall-view [] h = tt
AllSmall-view (c ∷ cs) h = (h.0, AllSmall-view cs h.1)
