-- ===== src/Tests.antt =====
-- Concrete runs of the code, and the theorems applied to them.
mod Messages
mod Servers
mod Connections
mod Turns
mod Addresses
mod Sessions
mod Rooms
mod Relays
mod Threads
mod Programs
use cosc402_assignment.Base.{
  ℕ, ◌-◌, ◌≤◌, ◌≡◌, refl, sym, ap, inl, inr, true, false, none, some, List, [], ◌∷◌, ◌++◌, arith,
}
use cosc402_assignment.Base.Lists.{
  length, replicate, length-append, length-replicate, take, drop, take_all, take-append-drop,
  length-take,
}
use cosc402_assignment.Base.Outcome.{done, fault, Returns}
use cosc402_assignment.Base.Strings.{c_string, first_of}
use cosc402_assignment.Base.Words.{size_max}
use cosc402_assignment.Cache.{Cache, Pool, initial_pool, get_new_cache, recycle_cache}
use cosc402_assignment.Cache.Invariant.{
  IsValid, IsHeld, Grants, initial_pool-IsValid, get_new_cache-Grants, get_new_cache_large,
  granted_size,
}
use cosc402_assignment.Cache.Recycle.{IsReturn, recycle_cache-IsReturn}
use cosc402_assignment.Cache.Classes.{first_fit}
use cosc402_assignment.Cache.Ownership.{Owns, Owns-eq}
use cosc402_assignment.Buffer.Node.{Node, Buffer, Mem, IsGood, AllGood, bytes, contents, new_node}
use cosc402_assignment.Buffer.Ownership.{and_nodes}
use cosc402_assignment.Buffer.Fill.{Pull, got, failed, write_into_buffer, read_into_buffer}
use cosc402_assignment.Buffer.Fill.Ends.{IsSource}
use cosc402_assignment.Buffer.Fill.Effects.{Filled, IsReliable}
use cosc402_assignment.Buffer.Fill.Laws.{
  Written, write_into_buffer-Written, read_into_buffer-Filled, read_into_buffer_fault,
}
use cosc402_assignment.Buffer.Drain.{
  Put, wrote, refused, buffer_size, read_from_buffer, write_from_buffer,
}
use cosc402_assignment.Buffer.Drain.Reading.{Reads, buffer_size-length, read_from_buffer-Reads}
use cosc402_assignment.Buffer.Drain.Writing.{
  IsSink, Sends, write_from_buffer-Sends, write_from_buffer_refused,
}
use cosc402_assignment.Buffer.Find.{find_in_buffer, check_command_suffix}
use cosc402_assignment.Buffer.Find.First.{find_in_buffer-first_of, position}
use cosc402_assignment.Net.{error_handle}
use cosc402_assignment.Base.Words.{minus_one}
use cosc402_assignment.ClientInfo.{
  ClientData, Setup, zero_data, update_client_name, new_client_info, fetch_msg_from_client,
  flush_messages, release_client_info,
}
use cosc402_assignment.ClientInfo.Laws.{
  update_client_name-c_string, HandsOut, fetch_msg_from_client-line,
  fetch_msg_from_client-incomplete, fetch_msg_from_client_overrun, Flushes, flush_messages-Flushes,
  release_client_info-Owns,
}
use cosc402_assignment.ClientInfo.Creation.{Setups, new_client_info-Setups}

-- A node with the bytes `bs` in a block that is 0 behind them.
abbrev pub node_of : ℕ → List ℕ → Node
node_of addr bs = record {
  w_offset = length bs;
  r_offset = 0;
  cache = record {
    addr = addr;
    allocated_size = 512;
    cache_size = 512;
    buff = bs ++ replicate (512 - length bs) 0;
  };
}

pub node_of-IsGood : (addr : ℕ) (bs : List ℕ) → length bs ≤ 512 → IsGood (node_of addr bs)
node_of-IsGood addr bs le = record {
  ordered = omega arith;
  within = le;
  block = omega (
    arith,
    length-append bs (replicate (512 - length bs) 0),
    length-replicate {A = ℕ} (512 - length bs) 0,
  );
  allocated = refl;
}

-- "hi\nyo" in the first node, "u\n" in the second.
abbrev greeting : List ℕ
greeting = 104 ∷ 105 ∷ 10 ∷ 121 ∷ 111 ∷ []

abbrev two_nodes : Buffer
two_nodes = node_of 1 greeting ∷ node_of 2 (117 ∷ 10 ∷ []) ∷ []

two_nodes-AllGood : AllGood two_nodes
two_nodes-AllGood =
    (node_of-IsGood 1 greeting (omega arith), (node_of-IsGood 2 (117 ∷ 10 ∷ []) (omega arith), tt))

abbrev nobody : ℕ → ℕ
nobody a = 0

abbrev pub used_pool : Pool
used_pool = record (initial_pool []) { next_addr = 3 }

pub used_pool-IsValid : IsValid used_pool
used_pool-IsValid = record {
  keeps = λ c. refl;
  stocked = tt;
  classes = inl refl;
  once = λ a. omega arith;
  known = λ a pos. absurd (omega arith);
}

used_pool-Owns : Owns used_pool (and_nodes two_nodes nobody)
used_pool-Owns = record {
  valid = used_pool-IsValid;
  once = λ a. ground arith;
  known = λ a pos. ground arith;
  all = λ a pos below. ground arith;
}

initial_pool-Owns : Owns (initial_pool []) (and_nodes [] nobody)
initial_pool-Owns = record {
  valid = initial_pool-IsValid [];
  once = λ a. omega arith;
  known = λ a pos. absurd (omega arith);
  all = λ a pos below. absurd (omega arith);
}

get_new_cache-Grants_example : Grants 100 (initial_pool []) (get_new_cache 100 (initial_pool []))
get_new_cache-Grants_example = get_new_cache-Grants 100 (omega arith) (initial_pool-IsValid [])

get_new_cache_large_example :
    granted_size (get_new_cache 5000 (initial_pool (7 ∷ 9000 ∷ []))).0
    ≡ first_fit 5000 (7 ∷ 9000 ∷ [])
get_new_cache_large_example =
    get_new_cache_large 5000 (omega arith) (omega arith) (initial_pool-IsValid (7 ∷ 9000 ∷ []))

abbrev held_cache : Cache
held_cache = (node_of 1 greeting).cache

held_cache-IsHeld : IsHeld used_pool held_cache
held_cache-IsHeld = record {
  size = ground arith;
  memory = (node_of-IsGood 1 greeting (omega arith)).block;
  not_free = refl;
  below = omega arith;
}

recycle_cache-IsReturn_example : IsReturn used_pool held_cache (recycle_cache held_cache used_pool)
recycle_cache-IsReturn_example = recycle_cache-IsReturn used_pool-IsValid held_cache-IsHeld

abbrev calm : Mem
calm = record { answers = []; pool = used_pool }

write_into_buffer-Written_example :
    Returns (Written nobody two_nodes greeting calm) (write_into_buffer two_nodes greeting calm)
write_into_buffer-Written_example =
    write_into_buffer-Written nobody two_nodes greeting calm two_nodes-AllGood used_pool-Owns
      (omega arith)

read_from_buffer-Reads_example :
    Returns (Reads nobody two_nodes [] 6 6) (read_from_buffer two_nodes 6 used_pool)
unfolding contents
read_from_buffer-Reads_example =
    read_from_buffer-Reads nobody two_nodes 6 used_pool two_nodes-AllGood used_pool-Owns
      (omega arith)

-- A file that gives what it is asked for, and a descriptor that takes all it is given.
abbrev pub from_file : ℕ → List ℕ → Pull (List ℕ)
from_file n s = got (take n s) (drop n s)

from_file-IsSource : IsSource from_file (λ s. s)
from_file-IsSource = record {
  within = λ n s s' bs e.
      let same : bs ≡ take n s = cc e in omega (arith, ap length same, length-take n s);
  in_order = λ n s s' bs e.
      let same : bs ≡ take n s = cc e in
      let rest : s' ≡ drop n s = cc e in rw (same, rest) (sym (take-append-drop n s));
}

abbrev pub take_all_of : List ℕ → List ℕ → Put (List ℕ)
take_all_of bs s = wrote (length bs) (s ++ bs)

pub take_all_of-IsSink : IsSink take_all_of (λ s. s)
take_all_of-IsSink = record {
  within = λ bs s. omega arith;
  progress = λ bs s pos. pos;
  in_order = λ bs s. ap (λ xs. s ++ xs) (sym (take_all (length bs) bs (omega arith)));
}

-- A descriptor on which every call fails.
abbrev no_read : ℕ → ℕ → Pull ℕ
no_read n s = failed 4294967295 s

abbrev no_write : List ℕ → ℕ → Put ℕ
no_write bs s = refused s

from_file-IsReliable : IsReliable from_file
from_file-IsReliable ret (n, s, s', le, e) = absurd (cc e)

read_into_buffer-Filled_example :
    Returns
      (Filled from_file
        (λ s. s)
        nobody
        []
        (record { answers = []; pool = initial_pool [] })
        greeting
        5)
      (read_into_buffer from_file 5 [] (record { answers = []; pool = initial_pool [] }) greeting)
read_into_buffer-Filled_example =
    read_into_buffer-Filled from_file (λ s. s) from_file-IsSource nobody 5 (omega arith) []
      (record { answers = []; pool = initial_pool [] }) greeting tt initial_pool-Owns
      (inr from_file-IsReliable)

read_into_buffer_fault_example : read_into_buffer no_read 10 [] calm 0 ≡ fault
unfolding new_node
read_into_buffer_fault_example =
    read_into_buffer_fault no_read 10 calm _ _ 0 0 4294967295 (omega arith) refl refl

write_from_buffer-Sends_example :
    Returns
      (Sends (λ s. s) nobody two_nodes [] 6 6)
      (write_from_buffer take_all_of two_nodes 6 used_pool [])
unfolding contents
write_from_buffer-Sends_example =
    write_from_buffer-Sends take_all_of (λ s. s) take_all_of-IsSink nobody 6 (omega arith) two_nodes
      used_pool [] two_nodes-AllGood used_pool-Owns (omega arith)

write_from_buffer_refused_example :
    write_from_buffer no_write two_nodes 4 used_pool 0
    ≡ done (record {
      ret = size_max;
      queue = record {
        buffer =
            record (node_of 1 greeting) { r_offset = 4294967295 } ∷ node_of 2 (117 ∷ 10 ∷ []) ∷ [];
        pool = used_pool;
      };
      rest = 0;
    })
write_from_buffer_refused_example =
    write_from_buffer_refused no_write (node_of 1 greeting) (node_of 2 (117 ∷ 10 ∷ []) ∷ []) 4
      used_pool 0 0 two_nodes-AllGood.0 (omega arith) (omega arith) (omega arith) refl

find_in_buffer-first_of_example :
    find_in_buffer two_nodes 0 (check_command_suffix 10)
    ≡ done (position (first_of 10 (bytes (node_of 1 greeting))))
unfolding first_of
find_in_buffer-first_of_example =
    find_in_buffer-first_of (node_of 1 greeting) two_nodes-AllGood.0
      (node_of 2 (117 ∷ 10 ∷ []) ∷ []) 10
      (omega arith, (omega arith, (omega arith, (omega arith, (omega arith, tt)))))
      (λ e. absurd (cc e))

abbrev guest : ClientData
guest = record zero_data { reading_buffer = two_nodes; writing_buffer = [] }

fetch_msg_from_client-line_example :
    Returns (HandsOut nobody guest 3) (fetch_msg_from_client guest used_pool)
unfolding first_of contents
fetch_msg_from_client-line_example =
    fetch_msg_from_client-line nobody guest used_pool (node_of 1 greeting)
      (node_of 2 (117 ∷ 10 ∷ []) ∷ []) refl refl two_nodes-AllGood used_pool-Owns (omega arith)
      (omega arith, (omega arith, (omega arith, (omega arith, (omega arith, tt))))) (104 ∷ 105 ∷ [])
      (121 ∷ 111 ∷ []) refl refl

-- A client of whose line only the beginning has come.
abbrev half_line : Buffer
half_line = node_of 1 (104 ∷ 105 ∷ []) ∷ []

-- A pool whose only block, at the address 1, is in use.
abbrev pub one_used : Pool
one_used = record (initial_pool []) { next_addr = 2 }

pub one_used-IsValid : IsValid one_used
one_used-IsValid = record {
  keeps = λ c. refl;
  stocked = tt;
  classes = inl refl;
  once = λ a. omega arith;
  known = λ a pos. absurd (omega arith);
}

half_line-Owns : Owns one_used (and_nodes half_line nobody)
half_line-Owns = record {
  valid = one_used-IsValid;
  once = λ a. ground arith;
  known = λ a pos. ground arith;
  all = λ a pos below. ground arith;
}

fetch_msg_from_client-incomplete_example :
    Returns
      (HandsOut nobody (record zero_data { reading_buffer = half_line }) 0)
      (fetch_msg_from_client (record zero_data { reading_buffer = half_line }) one_used)
unfolding first_of contents
fetch_msg_from_client-incomplete_example =
    fetch_msg_from_client-incomplete nobody (record zero_data { reading_buffer = half_line })
      one_used (node_of 1 (104 ∷ 105 ∷ [])) [] refl refl
      (node_of-IsGood 1 (104 ∷ 105 ∷ []) (omega arith), tt) half_line-Owns (omega arith)
      (omega arith, (omega arith, tt)) refl (λ e. cc e)

-- The last byte of a full block is left, and the newline is in the next node.
abbrev end_of_block : Node
end_of_block = record {
  w_offset = 512;
  r_offset = 511;
  cache = record {
    addr = 1;
    allocated_size = 512;
    cache_size = 512;
    buff = replicate 511 0 ++ (120 ∷ []);
  };
}

end_of_block-IsGood : IsGood end_of_block
end_of_block-IsGood = record {
  ordered = omega arith;
  within = omega arith;
  block = refl;
  allocated = refl;
}

abbrev straddling : ClientData
straddling = record zero_data { reading_buffer = end_of_block ∷ node_of 2 (10 ∷ []) ∷ [] }

fetch_msg_from_client_overrun_example : fetch_msg_from_client straddling used_pool ≡ fault
unfolding first_of
fetch_msg_from_client_overrun_example =
    fetch_msg_from_client_overrun straddling used_pool end_of_block (node_of 2 (10 ∷ []) ∷ []) refl
      refl end_of_block-IsGood (omega arith, tt) refl refl

abbrev listener : ClientData
listener = record zero_data { writing_buffer = two_nodes }

release_client_info-Owns_example : Owns (release_client_info listener used_pool) nobody
release_client_info-Owns_example =
    release_client_info-Owns listener used_pool nobody tt two_nodes-AllGood
      (Owns-eq _ used_pool-Owns (λ a. omega arith))

abbrev no_lock : Setup
no_lock = record {
  data_granted = true;
  reading_granted = true;
  writing_granted = true;
  reading_lock = false;
  writing_lock = true;
  peer = error_handle minus_one;
  now = 0;
}

new_client_info-Setups_example : Setups no_lock 4 1 (new_client_info no_lock 4 none 1)
new_client_info-Setups_example = new_client_info-Setups no_lock 4 none 1
