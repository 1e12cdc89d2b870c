-- ===== src/ClientInfo.antt =====
-- src/entity/client_info.c: what the server and the client keep of one connection, a name and two
-- buffers. The spin locks make the operations on a buffer atomic, so they do not show; `malloc`,
-- `ioctl`, `read`, `write` and the address of the peer are given by the environment.
pub mod Laws
pub mod Creation
use cosc402_assignment.Base.{
  ℕ, ◌+◌, ◌-◌, Bool, true, false, Option, none, some, List, [], ◌∷◌, ◌++◌, ltb, ◌==◌, if◌then◌else◌,
}
use cosc402_assignment.Base.Lists.{length, take, replicate}
use cosc402_assignment.Base.Outcome.{Outcome, done, fault, out_of_fuel, ◌>>=◌}
use cosc402_assignment.Base.Words.{to_int, to_size, size_add, size_max, minus_one}
use cosc402_assignment.Net.{AddrAnswer}
use cosc402_assignment.Cache.{Pool}
use cosc402_assignment.Buffer.Node.{Buffer, Mem}
use cosc402_assignment.Buffer.Fill.{Pull, Result, read_into_buffer, write_into_buffer}
use cosc402_assignment.Buffer.Drain.{
  Queue, Put, Sent, Taken, create_new_buffer, destroy_buffer, buffer_size, read_from_buffer,
  write_from_buffer,
}
use cosc402_assignment.Buffer.Find.{check_command_suffix, find_in_buffer}

abbrev pub client_name_maximum_size : ℕ
client_name_maximum_size = 30

abbrev pub c_type_c : ℕ
c_type_c = 1

-- `PeerInfo`; the port is the pattern of an `int`.
pub record PeerInfo : Type 0 where
  pub ip : Option (List ℕ)
  pub port : ℕ

-- `ClientData` with the `ClientInfo` in it, less the locks and the unused `priv`; `pub_mark` is its
-- field `pub`. `name` is
-- the whole array, and `client_type` the field `type`.
pub record ClientData : Type 0 where
  pub socket_id : ℕ
  pub peer_info : PeerInfo
  pub name : List ℕ
  pub login_time : ℕ
  pub client_type : ℕ
  pub pub_mark : ℕ
  pub reading_buffer : Buffer
  pub writing_buffer : Buffer
  pub last_check_cmd_index : ℕ

-- "Unknown"
abbrev pub unknown : List ℕ
unknown = 85 ∷ 110 ∷ 107 ∷ 110 ∷ 111 ∷ 119 ∷ 110 ∷ []

-- `dst` after `memset(dst, 0, 30)` and the copy of `bs` to its front.
abbrev pub name_field : List ℕ → List ℕ
name_field bs = bs ++ replicate (client_name_maximum_size - length bs) 0

abbrev pub min_name : ℕ → ℕ
min_name n = if ltb n (client_name_maximum_size - 1) then n else client_name_maximum_size - 1

-- A name is the string's bytes, without the 0 at its end; `none` is the null pointer.
unfoldable pub update_client_name : Option (List ℕ) → ClientData → ClientData
update_client_name none d = record d { name = name_field unknown }
update_client_name (some s) d = record d { name = name_field (take (min_name (length s)) s) }

-- What the environment answers to `new_client_info`: the three allocations, the two locks, what
-- get_addr_and_port gives for the socket, and the time.
pub record Setup : Type 0 where
  pub data_granted : Bool
  pub reading_granted : Bool
  pub writing_granted : Bool
  pub reading_lock : Bool
  pub writing_lock : Bool
  pub peer : AddrAnswer
  pub now : ℕ

abbrev pub zero_data : ClientData
zero_data = record {
  socket_id = 0;
  peer_info = record { ip = none; port = 0 };
  name = replicate client_name_maximum_size 0;
  login_time = 0;
  client_type = 0;
  pub_mark = 0;
  reading_buffer = [];
  writing_buffer = [];
  last_check_cmd_index = 0;
}

-- The memory of the client is filled with zeros before, so a port that is not written is 0.
abbrev pub port_of : Option ℕ → ℕ
port_of none = 0
port_of (some port) = port

-- For the answer of `get_addr_and_port`, which may be 0 without an address.
abbrev pub peer_of : AddrAnswer → PeerInfo
peer_of a =
    if a.ret == 0
    then record { ip = a.addr; port = port_of a.port }
    else record { ip = none; port = minus_one }

-- The branch on `C_TYPE_C == type`.
abbrev pub with_peer : Setup → ℕ → ClientData → ClientData
with_peer e client_type d =
    if c_type_c == client_type then record d { peer_info = peer_of e.peer } else d

-- The rest of `new_client_info`, from the creation of the buffers on. `error_with_data` reads
-- `data->info.peer_info.ip` after `free(data)`.
abbrev pub with_writing : Setup → ClientData → Buffer → Option Buffer → Outcome (Option ClientData)
with_writing e d r none = fault
with_writing e d r (some w) =
    if e.reading_lock
    then (if e.writing_lock
        then done (some (record d { reading_buffer = r; writing_buffer = w }))
        else fault)
    else fault

abbrev pub with_reading : Setup → ClientData → Option Buffer → Outcome (Option ClientData)
with_reading e d none = fault
with_reading e d (some r) = with_writing e d r (create_new_buffer e.writing_granted)

unfoldable pub new_client_info : Setup → ℕ → Option (List ℕ) → ℕ → Outcome (Option ClientData)
unfolding update_client_name
new_client_info e socket_id client_name client_type =
    let named = update_client_name client_name (with_peer e client_type zero_data) in
    let d = record named { client_type = client_type; socket_id = socket_id; login_time = e.now } in
    if e.data_granted then with_reading e d (create_new_buffer e.reading_granted) else done none

-- A client's operation: what it returns as a `size_t`, the client, the memory, and what is behind
-- the descriptor.
pub record Answer (S : Type 0) : Type 0 where
  pub ret : ℕ
  pub client : ClientData
  pub mem : Mem
  pub rest : S

abbrev pub fetched : {S : Type 0} → ClientData → Result S → Answer S
fetched d r = record {
  ret = r.ret;
  client = record d { reading_buffer = r.buffer };
  mem = r.mem;
  rest = r.rest;
}

-- `byte_available` is what `ioctl(FIONREAD)` gives, `none` if it fails.
unfoldable pub fetch_from_client :
    {S : Type 0} → (ℕ → S → Pull S) → Option ℕ → ClientData → Mem → S → Outcome (Answer S)
unfolding read_into_buffer
fetch_from_client read none d m s = done (record { ret = size_max; client = d; mem = m; rest = s })
fetch_from_client read (some byte_available) d m s =
    read_into_buffer read (to_size byte_available) d.reading_buffer m s
    >>= (λ r. done (fetched d r))

-- What `fetch_msg_from_client` returns, with `*msg_buff`.
pub record Fetched : Type 0 where
  pub ret : ℕ
  pub msg : List ℕ
  pub client : ClientData
  pub pool : Pool

abbrev pub fetched_msg : ClientData → Taken → Fetched
fetched_msg d t = record {
  ret = to_size (to_int t.ret);
  msg = t.target;
  client = record d { reading_buffer = t.queue.buffer; last_check_cmd_index = 0 };
  pool = t.queue.pool;
}

-- The test `cmd_suffix_index < 0` is on a `size_t` and never holds, so the branch that would note
-- what has been searched is not taken.
unfoldable pub fetch_msg_from_client : ClientData → Pool → Outcome Fetched
unfolding find_in_buffer check_command_suffix read_from_buffer
fetch_msg_from_client d p =
    find_in_buffer d.reading_buffer d.last_check_cmd_index (check_command_suffix 10)
    >>= (λ i. read_from_buffer d.reading_buffer (size_add i 1) p)
    >>= (λ t. done (fetched_msg d t))

abbrev pub queued : ClientData → Result (List ℕ) → Answer (List ℕ)
queued d r = record {
  ret = r.ret;
  client = record d { writing_buffer = r.buffer };
  mem = r.mem;
  rest = r.rest;
}

-- `size` is the length of `msg`.
unfoldable pub send_msg_to_client : ClientData → List ℕ → Mem → Outcome (Answer (List ℕ))
unfolding write_into_buffer
send_msg_to_client d msg m = write_into_buffer d.writing_buffer msg m >>= (λ r. done (queued d r))

pub record Flushed (S : Type 0) : Type 0 where
  pub ret : ℕ
  pub client : ClientData
  pub pool : Pool
  pub rest : S

abbrev pub flushed : {S : Type 0} → ClientData → Sent S → Flushed S
flushed d t = record {
  ret = t.ret;
  client = record d { writing_buffer = t.queue.buffer };
  pool = t.queue.pool;
  rest = t.rest;
}

unfoldable pub flush_messages :
    {S : Type 0} → (List ℕ → S → Put S) → ClientData → Pool → S → Outcome (Flushed S)
unfolding buffer_size write_from_buffer
flush_messages put d p s =
    let b_size = buffer_size d.writing_buffer in
    if ltb 0 b_size
    then (write_from_buffer put d.writing_buffer b_size p s >>= (λ t. done (flushed d t)))
    else done (record { ret = 0; client = d; pool = p; rest = s })

-- It returns `SUCC`; what is left is the pool.
unfoldable pub release_client_info : ClientData → Pool → Pool
unfolding destroy_buffer
release_client_info d p = destroy_buffer d.writing_buffer (destroy_buffer d.reading_buffer p)
