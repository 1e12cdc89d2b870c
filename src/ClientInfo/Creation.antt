-- ===== src/ClientInfo/Creation.antt =====
-- How `new_client_info` ends, on every answer of the environment.
use cosc402_assignment.Base.{
  ℕ, ◌≡◌, refl, ◌∙◌, inl, inr, Bool, true, false, Option, none, some, List, [], Bool-cases, ◌==◌,
  ◌&&◌,
}
use cosc402_assignment.Base.Outcome.{Outcome, done, fault}
use cosc402_assignment.Net.{AddrAnswer}
use cosc402_assignment.ClientInfo.{
  ClientData, Setup, update_client_name, new_client_info, zero_data, with_peer, c_type_c,
}

update_client_name-restart :
    (o : Option (List ℕ)) (d : ClientData)
    → (update_client_name o d).last_check_cmd_index ≡ d.last_check_cmd_index
unfolding update_client_name
update_client_name-restart none d = refl
update_client_name-restart (some s) d = refl

-- A client as `new_client_info` sets it up.
pub record IsFresh (socket_id client_type : ℕ) (d : ClientData) : Type 0 where
  pub socket : d.socket_id ≡ socket_id
  pub kind : d.client_type ≡ client_type
  pub no_input : d.reading_buffer ≡ []
  pub no_output : d.writing_buffer ≡ []
  pub start : d.last_check_cmd_index ≡ 0

abbrev pub all_granted : Setup → Bool
all_granted e = e.reading_granted && (e.writing_granted && (e.reading_lock && e.writing_lock))

-- How `new_client_info` ends: without memory for the client, with a fresh client, or by a read of
-- memory that has been freed.
pub data Setups (e : Setup) (socket_id client_type : ℕ) : Outcome (Option ClientData) → Type 0 where
  no_memory : e.data_granted ≡ false → Setups e socket_id client_type (done none)
  fresh :
      {d : ClientData}
      → e.data_granted ≡ true
      → all_granted e ≡ true
      → IsFresh socket_id client_type d
      → Setups e socket_id client_type (done (some d))
  freed : e.data_granted ≡ true → all_granted e ≡ false → Setups e socket_id client_type fault

with_peer-restart :
    (e : Setup) (client_type : ℕ) (d : ClientData)
    → (with_peer e client_type d).last_check_cmd_index ≡ d.last_check_cmd_index
with_peer-restart e client_type d = elim (Bool-cases (c_type_c == client_type)) [
  | inl eq ↦ rw eq refl
  | inr ne ↦ rw ne refl
]

abbrev answers : AddrAnswer → ℕ → Setup
answers peer now = record {
  data_granted = true;
  reading_granted = true;
  writing_granted = true;
  reading_lock = true;
  writing_lock = true;
  peer = peer;
  now = now;
}

setups :
    (data_granted reading_granted writing_granted reading_lock writing_lock : Bool)
    (peer : AddrAnswer) (now socket_id : ℕ) (client_name : Option (List ℕ)) (client_type : ℕ)
    → let e : Setup = record {
      data_granted = data_granted;
      reading_granted = reading_granted;
      writing_granted = writing_granted;
      reading_lock = reading_lock;
      writing_lock = writing_lock;
      peer = peer;
      now = now;
    } in
      Setups e socket_id client_type (new_client_info e socket_id client_name client_type)
unfolding new_client_info
setups false reading writing lock lock' peer now socket_id client_name client_type = no_memory refl
setups true false writing lock lock' peer now socket_id client_name client_type = freed refl refl
setups true true false lock lock' peer now socket_id client_name client_type = freed refl refl
setups true true true false lock' peer now socket_id client_name client_type = freed refl refl
setups true true true true false peer now socket_id client_name client_type = freed refl refl
setups true true true true true peer now socket_id client_name client_type =
    fresh refl refl (record {
      socket = refl;
      kind = refl;
      no_input = refl;
      no_output = refl;
      start =
          update_client_name-restart client_name
            (with_peer (answers peer now) client_type zero_data)
          ∙ with_peer-restart (answers peer now) client_type zero_data;
    })

-- new_client_info returns null if there is no memory for the client, a client with empty buffers
-- whose search begins at 0 if nothing is refused, and reads data after it was freed if a buffer or
-- a lock is refused.
pub new_client_info-Setups :
    (e : Setup) (socket_id : ℕ) (client_name : Option (List ℕ)) (client_type : ℕ)
    → Setups e socket_id client_type (new_client_info e socket_id client_name client_type)
new_client_info-Setups e socket_id client_name client_type =
    setups e.data_granted e.reading_granted e.writing_granted e.reading_lock e.writing_lock e.peer
      e.now socket_id client_name client_type
