-- ===== src/Buffer/Drain.antt =====
-- `write_from_buffer`, `read_from_buffer`, `buffer_size`, `create_new_buffer` and `destroy_buffer` of
-- buffer.c: the functions that take bytes from the front of a buffer, measure it, or begin and end
-- it. The loops run on fuel, one unit for a round.
pub mod Front
pub mod Reading
pub mod Writing
use cosc402_assignment.Base.{
  ℕ, zero, suc, ◌+◌, ◌-◌, Bool, true, false, Option, none, some, List, [], ◌∷◌, ◌++◌, ltb, leb,
  ◌==◌, if◌then◌else◌,
}
use cosc402_assignment.Base.Lists.{length, replicate}
use cosc402_assignment.Base.Outcome.{Outcome, done, fault, out_of_fuel, ◌>>=◌}
use cosc402_assignment.Base.Words.{int_add, to_int, size_add, size_sub, min_size, size_max}
use cosc402_assignment.Cache.{Pool, recycle_cache}
use cosc402_assignment.Buffer.Node.{Node, Buffer, node_size, load_at}
use cosc402_assignment.Buffer.Fill.{recycle_nodes}

-- `null` if `malloc` refuses.
abbrev pub create_new_buffer : Bool → Option Buffer
create_new_buffer granted = if granted then some [] else none

-- It returns `SUCC`; what is left is the pool.
unfoldable pub destroy_buffer : Buffer → Pool → Pool
unfolding recycle_nodes
destroy_buffer b p = recycle_nodes b p

-- The loop of `buffer_size`, from the sum so far.
abbrev pub size_from : ℕ → Buffer → ℕ
size_from size [] = size
size_from size (n ∷ ns) = size_from (size_add size (node_size n)) ns

unfoldable pub buffer_size : Buffer → ℕ
buffer_size b = size_from 0 b

-- A buffer and its pool.
pub record Queue : Type 0 where
  pub buffer : Buffer
  pub pool : Pool

-- `r_offset` moves on, and a node that has been read to its end is recycled.
abbrev pub advance : Node → List Node → ℕ → Pool → Queue
advance n ns count p =
    let n' = record n { r_offset = int_add n.r_offset (to_int count) } in
    if n'.r_offset == n.w_offset
    then record { buffer = ns; pool = (recycle_cache n.cache p).1 }
    else record { buffer = n' ∷ ns; pool = p }

-- The first loop of `read_from_buffer`: how many bytes there are to read, at most `size`.
abbrev pub expected_from : ℕ → ℕ → Buffer → ℕ
expected_from expected size [] = expected
expected_from expected size (n ∷ ns) =
    let expected' = size_add expected (node_size n) in
    if leb size expected' then size else expected_from expected' size ns

pub record Taken : Type 0 where
  pub ret : ℕ
  pub target : List ℕ
  pub queue : Queue

-- The bytes of `*target` that the second loop has not reached are 0.
abbrev pub taken : ℕ → ℕ → List ℕ → Queue → Taken
taken expected already out q = record {
  ret = already;
  target = out ++ replicate (expected - already) 0;
  queue = q;
}

abbrev pub after_load :
    (ℕ → List ℕ → Queue → Outcome Taken)
    → ℕ
    → List ℕ
    → ℕ
    → Node
    → List Node
    → Pool
    → Option (List ℕ)
    → Outcome Taken
after_load next already out count n ns p none = fault
after_load next already out count n ns p (some bs) =
    next (size_add already count) (out ++ bs) (advance n ns count p)

abbrev pub read_first :
    (ℕ → List ℕ → Queue → Outcome Taken) → ℕ → ℕ → List ℕ → List Node → Pool → Outcome Taken
read_first next expected already out [] p =
    done (taken expected already out (record { buffer = []; pool = p }))
read_first next expected already out (n ∷ ns) p =
    let count = min_size (node_size n) (size_sub expected already) in
    after_load next already out count n ns p (load_at n.cache.buff n.r_offset count)

-- The second loop, `while (already_read_size < expected_read_size)`.
unfoldable pub read_loop : ℕ → ℕ → ℕ → List ℕ → Queue → Outcome Taken
unfolding recycle_cache
read_loop zero expected already out q = out_of_fuel
read_loop (suc fuel) expected already out q =
    let body = read_first (read_loop fuel expected) expected already out q.buffer q.pool in
    if ltb already expected then body else done (taken expected already out q)

unfoldable pub read_from_buffer : Buffer → ℕ → Pool → Outcome Taken
unfolding read_loop
read_from_buffer b size p =
    let expected = expected_from 0 size b in
    read_loop (suc (expected + length b)) expected 0 [] (record { buffer = b; pool = p })

-- What `write(fd, ...)` answers: how many bytes it took, or -1.
pub data Put (S : Type 0) : Type 0 where
  wrote : ℕ → S → Put S
  refused : S → Put S

abbrev pub put_count : {S : Type 0} → Put S → ℕ
put_count (wrote k s) = k
put_count (refused s) = size_max

abbrev pub put_rest : {S : Type 0} → Put S → S
put_rest (wrote k s) = s
put_rest (refused s) = s

pub record Sent (S : Type 0) : Type 0 where
  pub ret : ℕ
  pub queue : Queue
  pub rest : S

module _ {S : Type 0} (put : List ℕ → S → Put S) where
  -- `tmp_write_size` is a `size_t`, so the test `tmp_write_size < 0` never holds, and the -1 of a
  -- refused write is counted as (size_t) -1 bytes.
  abbrev pub after_write :
      (ℕ → Queue → S → Outcome (Sent S))
      → ℕ
      → Node
      → List Node
      → Pool
      → S
      → Option (List ℕ)
      → Outcome (Sent S)
  after_write next already n ns p s none = fault
  after_write next already n ns p s (some bs) =
      let answer = put bs s in
      next (size_add already (put_count answer)) (advance n ns (put_count answer) p)
        (put_rest answer)

  abbrev pub write_first :
      (ℕ → Queue → S → Outcome (Sent S)) → ℕ → ℕ → List Node → Pool → S → Outcome (Sent S)
  write_first next size already [] p s =
      done (record { ret = already; queue = record { buffer = []; pool = p }; rest = s })
  write_first next size already (n ∷ ns) p s =
      let count = min_size (node_size n) (size_sub size already) in
      after_write next already n ns p s (load_at n.cache.buff n.r_offset count)

  -- `while (already_write_size < size)`.
  unfoldable pub write_loop : ℕ → ℕ → ℕ → Queue → S → Outcome (Sent S)
  unfolding recycle_cache
  write_loop zero size already q s = out_of_fuel
  write_loop (suc fuel) size already q s =
      let body = write_first (write_loop fuel size) size already q.buffer q.pool s in
      if ltb already size then body else done (record { ret = already; queue = q; rest = s })

  -- An empty buffer is left at once, as the loop would leave it.
  unfoldable pub write_from_buffer : Buffer → ℕ → Pool → S → Outcome (Sent S)
  unfolding write_loop
  write_from_buffer b size p s =
      write_loop (suc (size + length b)) size 0 (record { buffer = b; pool = p }) s
