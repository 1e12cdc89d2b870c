-- ===== src/Server/Handle/Healthy.antt =====
-- The states in which the server can deliver: what holds of the clients and their blocks before a
-- line is handled, and after it.
use cosc402_assignment.Base.{
  ℕ, zero, suc, ◌^◌, ◌<◌, ◌≡◌, refl, sym, ap, ◌∙◌, Option, none, some, List, [], ◌∷◌, arith, ◌==◌,
  if◌then◌else◌, inl, inr, Bool-cases,
}
use cosc402_assignment.Base.Lists.{length, get_elem?, set}
use cosc402_assignment.Cache.{Pool}
use cosc402_assignment.Cache.Ownership.{Owns}
use cosc402_assignment.Buffer.Node.{Mem}
use cosc402_assignment.Buffer.Ownership.{and_nodes}
use cosc402_assignment.Buffer.Fill.Calm.{IsCalm}
use cosc402_assignment.ClientInfo.{ClientData}
use cosc402_assignment.Message.{Msg}
use cosc402_assignment.Server.{ServerInfo, Delivery}
use cosc402_assignment.Server.Login.{signalled}
use cosc402_assignment.Base.Words.{int_add}
use cosc402_assignment.Server.Deliver.{
  and_clients, AllWritable, Got, AllGot, Delivers, delivered-Owns,
}

-- `others` counts the blocks that are held beside those of the writing buffers.
pub record IsHealthy (others : ℕ → ℕ) (server : ServerInfo) (m : Mem) : Type 0 where
  pub writable : AllWritable server.clients
  pub owns : Owns m.pool (and_clients server.clients others)
  pub calm : IsCalm m
  pub counted : server.client_count ≡ length server.clients
  pub few : length server.clients < 2 ^ 31

none_is_some : {A : Type 0} {B : Type 0} {a : A} → ◌≡◌ {A = Option A} none (some a) → B
none_is_some e = absurd (cc e)

some_inj : {c d : ClientData} → ◌≡◌ {A = Option ClientData} (some c) (some d) → c ≡ d
some_inj e = cc e

pub length-set : (cs : List ClientData) (i : ℕ) (c : ClientData) → length (set cs i c) ≡ length cs
length-set [] i c = refl
length-set (d ∷ cs) zero c = refl
length-set (d ∷ cs) (suc i) c = ap suc (length-set cs i c)

-- A client is replaced by itself with another name or another reading buffer.
module _ (c c' : ClientData) (same : c'.writing_buffer ≡ c.writing_buffer) where
  and_clients-set :
      (cs : List ClientData) (i : ℕ) (others : ℕ → ℕ)
      → get_elem? cs i ≡ some c
      → and_clients (set cs i c') others ≡ and_clients cs others
  and_clients-set [] i others e = none_is_some e
  and_clients-set (d ∷ cs) zero others e =
      ap (λ b. and_nodes b (and_clients cs others))
        (same ∙ ap (λ x. x.writing_buffer) (sym (some_inj e)))
  and_clients-set (d ∷ cs) (suc i) others e =
      ap (λ f. and_nodes d.writing_buffer f) (and_clients-set cs i others e)

  AllWritable-set :
      (cs : List ClientData) (i : ℕ)
      → get_elem? cs i ≡ some c
      → AllWritable cs
      → AllWritable (set cs i c')
  AllWritable-set [] i e w = none_is_some e
  AllWritable-set (d ∷ cs) zero e w =
      (rw (same ∙ ap (λ x. x.writing_buffer) (sym (some_inj e))) w.0, w.1)
  AllWritable-set (d ∷ cs) (suc i) e w = (w.0, AllWritable-set cs i e w.1)

pub get_elem?-set :
    (cs : List ClientData) (i : ℕ) (c c' : ClientData)
    → get_elem? cs i ≡ some c
    → get_elem? (set cs i c') i ≡ some c'
get_elem?-set [] i c c' e = none_is_some e
get_elem?-set (d ∷ cs) zero c c' e = refl
get_elem?-set (d ∷ cs) (suc i) c c' e = get_elem?-set cs i c c' e

abbrev pub socket_ids : List ClientData → List ℕ
socket_ids [] = []
socket_ids (c ∷ cs) = c.socket_id ∷ socket_ids cs

pub socket_ids-set :
    (cs : List ClientData) (i : ℕ) (c c' : ClientData)
    → get_elem? cs i ≡ some c
    → c'.socket_id ≡ c.socket_id
    → socket_ids (set cs i c') ≡ socket_ids cs
socket_ids-set [] i c c' e same = refl
socket_ids-set (d ∷ cs) zero c c' e same =
    ap (λ k. k ∷ socket_ids cs) (same ∙ ap (λ x. x.socket_id) (sym (some_inj e)))
socket_ids-set (d ∷ cs) (suc i) c c' e same =
    ap (λ ks. d.socket_id ∷ ks) (socket_ids-set cs i c c' e same)

pub socket_ids-get_elem? :
    (cs : List ClientData) (i : ℕ) (c : ClientData)
    → get_elem? cs i ≡ some c
    → get_elem? (socket_ids cs) i ≡ some c.socket_id
socket_ids-get_elem? [] i c e = none_is_some e
socket_ids-get_elem? (d ∷ cs) zero c e = let same : d ≡ c = cc e in ap (λ x. some x.socket_id) same
socket_ids-get_elem? (d ∷ cs) (suc i) c e = socket_ids-get_elem? cs i c e

pub AllGot-socket_ids :
    (msg : Msg) (cs ds : List ClientData) → AllGot msg cs ds → socket_ids ds ≡ socket_ids cs
AllGot-socket_ids msg [] [] g = refl
AllGot-socket_ids msg [] (d ∷ ds) g = absurd g
AllGot-socket_ids msg (c ∷ cs) [] g = absurd g
AllGot-socket_ids msg (c ∷ cs) (d ∷ ds) g =
    ap (λ k. k ∷ socket_ids ds) (ap (λ x. x.socket_id) g.0.same)
    ∙ ap (λ ks. c.socket_id ∷ ks) (AllGot-socket_ids msg cs ds g.1)

-- The client at a place after a delivery.
pub record Place (msg : Msg) (c : ClientData) (o : Option ClientData) : Type 0 where
  pub found : ClientData
  pub is_found : o ≡ some found
  pub got : Got msg c found

pub AllGot-Place :
    (msg : Msg) (cs ds : List ClientData) (i : ℕ) (c : ClientData)
    → AllGot msg cs ds
    → get_elem? cs i ≡ some c
    → Place msg c (get_elem? ds i)
AllGot-Place msg [] [] i c g e = none_is_some e
AllGot-Place msg [] (d ∷ ds) i c g e = absurd g
AllGot-Place msg (x ∷ cs) [] i c g e = absurd g
AllGot-Place msg (x ∷ cs) (d ∷ ds) zero c g e = record {
  found = d;
  is_found = refl;
  got = rw (some_inj e) at g.0;
}
AllGot-Place msg (x ∷ cs) (d ∷ ds) (suc i) c g e = AllGot-Place msg cs ds i c g.1 e

AllGot-AllWritable : (msg : Msg) (cs ds : List ClientData) → AllGot msg cs ds → AllWritable ds
AllGot-AllWritable msg [] [] g = tt
AllGot-AllWritable msg [] (d ∷ ds) g = absurd g
AllGot-AllWritable msg (c ∷ cs) [] g = absurd g
AllGot-AllWritable msg (c ∷ cs) (d ∷ ds) g = (g.0.good, AllGot-AllWritable msg cs ds g.1)

AllGot-length : (msg : Msg) (cs ds : List ClientData) → AllGot msg cs ds → length ds ≡ length cs
AllGot-length msg [] [] g = refl
AllGot-length msg [] (d ∷ ds) g = absurd g
AllGot-length msg (c ∷ cs) [] g = absurd g
AllGot-length msg (c ∷ cs) (d ∷ ds) g = ap suc (AllGot-length msg cs ds g.1)

module _ (others : ℕ → ℕ) (server : ServerInfo) (m : Mem) where
  pub IsHealthy-set :
      (i : ℕ) (c c' : ClientData) (p : Pool)
      → get_elem? server.clients i ≡ some c
      → c'.writing_buffer ≡ c.writing_buffer
      → Owns p (and_clients server.clients others)
      → IsHealthy others server m
      → IsHealthy others
          (record server { clients = set server.clients i c' })
          (record m { pool = p })
  IsHealthy-set i c c' p e same o h = record {
    writable = AllWritable-set c c' same server.clients i e h.writable;
    owns = rw (and_clients-set c c' same server.clients i others e) o;
    calm = h.calm;
    counted = h.counted ∙ sym (length-set server.clients i c');
    few = omega (arith, h.few, length-set server.clients i c');
  }

  pub IsHealthy-delivered :
      (msg : Msg) (d : Delivery)
      → 0 < msg.size
      → IsHealthy others server m
      → Delivers msg server.clients others 0 d
      → IsHealthy others (record server { clients = d.clients }) d.mem
  IsHealthy-delivered msg d pos h v =
      let len : length d.clients ≡ length server.clients =
        AllGot-length msg server.clients d.clients v.each in
      record {
        writable = AllGot-AllWritable msg server.clients d.clients v.each;
        owns = delivered-Owns msg server.clients others 0 d pos v;
        calm = v.calm;
        counted = h.counted ∙ sym len;
        few = omega (arith, h.few, len);
      }

-- `signalled` changes the signal only.
pub signal_of :
    (count : ℕ) (s : ServerInfo)
    → (signalled count s).sign_to_flush_msg
      ≡ (if count == 0 then s.sign_to_flush_msg else int_add s.sign_to_flush_msg 1)
signal_of count s = elim (Bool-cases (count == 0)) [ inl e ↦ rw e refl | inr ne ↦ rw ne refl ]

pub same_clients : (count : ℕ) (s : ServerInfo) → (signalled count s).clients ≡ s.clients
same_clients count s = elim (Bool-cases (count == 0)) [ inl e ↦ rw e refl | inr ne ↦ rw ne refl ]

pub signalled-IsHealthy :
    (count : ℕ) (f : ℕ → ℕ) (s : ServerInfo) (mem : Mem)
    → IsHealthy f s mem
    → IsHealthy f (signalled count s) mem
signalled-IsHealthy count f s mem v = elim (Bool-cases (count == 0)) [
  | inl e ↦ rw e v
  | inr ne ↦ rw ne (record {
    writable = v.writable;
    owns = v.owns;
    calm = v.calm;
    counted = v.counted;
    few = v.few;
  })
]
