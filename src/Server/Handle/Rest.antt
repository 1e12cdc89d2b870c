-- ===== src/Server/Handle/Rest.antt =====
-- Clients of whom nothing is left to be read, between the rounds of the reading thread.
use cosc402_assignment.Base.{ℕ, zero, suc, ◌<◌, ◌≡◌, sym, ap, ◌∙◌, some, List, [], ◌∷◌}
use mathlib.Core.Path.{subst}
use cosc402_assignment.Base.Lists.{length, get_elem?, set}
use cosc402_assignment.Base.Strings.{IsText, c_string}
use cosc402_assignment.ClientInfo.{ClientData}
use cosc402_assignment.Message.{Msg}
use cosc402_assignment.Server.Deliver.{AllGot}

-- A name as the server stores it.
abbrev pub IsNamed : ClientData → Type 0
IsNamed c = IsText (c_string c.name) × (length (c_string c.name) < 30)

-- Not marked, with a name as the server stores it and an empty reading buffer.
pub record AtRest (c : ClientData) : Type 0 where
  pub unmarked : c.pub_mark ≡ 0
  pub named : IsNamed c
  pub empty : c.reading_buffer ≡ []
  pub start : c.last_check_cmd_index ≡ 0

abbrev pub AllAtRest : List ClientData → Type 0
AllAtRest [] = Unit {0}
AllAtRest (c ∷ cs) = AtRest c × AllAtRest cs

-- All but the one at the place, which is only known not to be marked.
abbrev pub RestBut : ℕ → List ClientData → Type 0
RestBut i [] = Unit {0}
RestBut zero (c ∷ cs) = (c.pub_mark ≡ 0) × AllAtRest cs
RestBut (suc i) (c ∷ cs) = AtRest c × RestBut i cs

pub AllAtRest-RestBut : (i : ℕ) (cs : List ClientData) → AllAtRest cs → RestBut i cs
AllAtRest-RestBut i [] h = tt
AllAtRest-RestBut zero (c ∷ cs) h = (h.0.unmarked, h.1)
AllAtRest-RestBut (suc i) (c ∷ cs) h = (h.0, AllAtRest-RestBut i cs h.1)

pub AllAtRest-get_elem? :
    (cs : List ClientData) (i : ℕ) (c : ClientData)
    → get_elem? cs i ≡ some c
    → AllAtRest cs
    → AtRest c
AllAtRest-get_elem? [] i c e h = absurd (cc e)
AllAtRest-get_elem? (d ∷ cs) zero c e h = let same : d ≡ c = cc e in subst AtRest same h.0
AllAtRest-get_elem? (d ∷ cs) (suc i) c e h = AllAtRest-get_elem? cs i c e h.1

-- The client at the place is changed, or has come to rest as well.
pub RestBut-set :
    (cs : List ClientData) (i : ℕ) (c c' : ClientData)
    → get_elem? cs i ≡ some c
    → c'.pub_mark ≡ c.pub_mark
    → RestBut i cs
    → RestBut i (set cs i c')
RestBut-set [] i c c' e same h = tt
RestBut-set (d ∷ cs) zero c c' e same h =
    let there : c ≡ d = cc e in (same ∙ ap (λ x. x.pub_mark) there ∙ h.0, h.1)
RestBut-set (d ∷ cs) (suc i) c c' e same h = (h.0, RestBut-set cs i c c' e same h.1)

pub AllAtRest-set :
    (cs : List ClientData) (i : ℕ) (c c' : ClientData)
    → get_elem? cs i ≡ some c
    → (c.pub_mark ≡ 0 → AtRest c')
    → RestBut i cs
    → AllAtRest (set cs i c')
AllAtRest-set [] i c c' e rest h = tt
AllAtRest-set (d ∷ cs) zero c c' e rest h =
    let there : c ≡ d = cc e in (rest (ap (λ x. x.pub_mark) there ∙ h.0), h.1)
AllAtRest-set (d ∷ cs) (suc i) c c' e rest h = (h.0, AllAtRest-set cs i c c' e rest h.1)

-- A change of the writing buffer is none here.
pub same_but_written :
    (c d : ClientData) → d ≡ record c { writing_buffer = d.writing_buffer } → AtRest c → AtRest d
same_but_written c d same h =
    subst AtRest (sym same)
      (record { unmarked = h.unmarked; named = h.named; empty = h.empty; start = h.start })

AllGot-AllAtRest :
    (msg : Msg) (cs ds : List ClientData) → AllGot msg cs ds → AllAtRest cs → AllAtRest ds
AllGot-AllAtRest msg [] [] g h = tt
AllGot-AllAtRest msg [] (d ∷ ds) g h = absurd g
AllGot-AllAtRest msg (c ∷ cs) [] g h = absurd g
AllGot-AllAtRest msg (c ∷ cs) (d ∷ ds) g h =
    (same_but_written c d g.0.same h.0, AllGot-AllAtRest msg cs ds g.1 h.1)

pub AllGot-RestBut :
    (msg : Msg) (cs ds : List ClientData) (i : ℕ) → AllGot msg cs ds → RestBut i cs → RestBut i ds
AllGot-RestBut msg [] [] i g h = tt
AllGot-RestBut msg [] (d ∷ ds) i g h = absurd g
AllGot-RestBut msg (c ∷ cs) [] i g h = absurd g
AllGot-RestBut msg (c ∷ cs) (d ∷ ds) zero g h =
    (ap (λ x. x.pub_mark) g.0.same ∙ h.0, AllGot-AllAtRest msg cs ds g.1 h.1)
AllGot-RestBut msg (c ∷ cs) (d ∷ ds) (suc i) g h =
    (same_but_written c d g.0.same h.0, AllGot-RestBut msg cs ds i g.1 h.1)
