-- ===== src/Buffer/Fill.antt =====
-- `read_into_buffer` and `write_into_buffer` of buffer.c. The two bodies differ only in where the
-- bytes come from, so the loop takes that as the argument `pull`: `read(fd, ...)`, which is given by
-- the environment, or `memcpy` from the source block.
pub mod Ends
pub mod Loop
pub mod Effects
pub mod Laws
pub mod Calm
use cosc402_assignment.Base.{
  ℕ, zero, suc, ◌+◌, Bool, true, false, Option, none, some, List, [], ◌∷◌, ◌++◌, ◌||◌, ltb, ◌==◌,
  if◌then◌else◌,
}
use cosc402_assignment.Base.Lists.{length, take, drop, split_last}
use cosc402_assignment.Base.Outcome.{Outcome, done, fault, out_of_fuel, ◌>>=◌}
use cosc402_assignment.Base.Words.{
  int_sub, int_pos, int_neg, to_int, to_size, size_add, size_sub, min_size, size_max, minus_one,
}
use cosc402_assignment.Cache.{Pool, recycle_cache}
use cosc402_assignment.Buffer.Node.{Node, Buffer, Mem, cache_size, store_bytes, new_node}

-- What one transfer of at most the asked number of bytes gives: some bytes, or an error with the
-- value returned (an `int`'s pattern).
pub data Pull (S : Type 0) : Type 0 where
  got : List ℕ → S → Pull S
  failed : ℕ → S → Pull S

-- The buffer's nodes and those of `tmp_list`, without the one that is written to, which is the last
-- of `tmp_list` if `in_tmp`, and of the buffer if not.
pub record Cursor : Type 0 where
  pub buff : List Node
  pub tmp : List Node
  pub in_tmp : Bool
  pub node : Node

pub record Lists : Type 0 where
  pub buff : List Node
  pub tmp : List Node

abbrev pub settle : Cursor → Lists
settle c =
    if c.in_tmp
    then record { buff = c.buff; tmp = c.tmp ++ (c.node ∷ []) }
    else record { buff = c.buff ++ (c.node ∷ []); tmp = c.tmp }

-- How the loop ends: `ret`, and whether by `goto error_with_read`.
pub record End (S : Type 0) : Type 0 where
  pub ret : ℕ
  pub broke : Bool
  pub lists : Lists
  pub mem : Mem
  pub rest : S

abbrev pub next_cursor : Lists → Node → Cursor
next_cursor l n = record { buff = l.buff; tmp = l.tmp; in_tmp = true; node = n }

module _ {S : Type 0} (pull : ℕ → S → Pull S) where
  -- A new node behind the full one; without memory the loop ends with what it has.
  abbrev pub next_node :
      (ℕ → Cursor → Mem → S → Outcome (End S)) → ℕ → Lists → S → Option Node × Mem → Outcome (End S)
  next_node next already l s (none, m) =
      done (record { ret = to_int already; broke = false; lists = l; mem = m; rest = s })
  next_node next already l s (some n, m) = next already (next_cursor l n) m s

  abbrev pub after_store :
      (ℕ → Cursor → Mem → S → Outcome (End S))
      → ℕ
      → ℕ
      → ℕ
      → ℕ
      → Cursor
      → Mem
      → S
      → Option Node
      → Outcome (End S)
  after_store next size read_size already count c m s none = fault
  after_store next size read_size already count c m s (some n) =
      let already' = size_add already count in
      let l = settle (record c { node = n }) in
      if already' == size || ltb count read_size
      then done (record { ret = to_int already'; broke = false; lists = l; mem = m; rest = s })
      else next_node next already' l s (new_node m)

  abbrev pub after_pull :
      (ℕ → Cursor → Mem → S → Outcome (End S)) → ℕ → ℕ → ℕ → Cursor → Mem → Pull S → Outcome (End S)
  after_pull next size read_size already c m (failed ret s) =
      done (record { ret = ret; broke = true; lists = settle c; mem = m; rest = s })
  after_pull next size read_size already c m (got bs s) =
      after_store next size read_size already (length bs) c m s (store_bytes c.node bs)

  -- `while (already_read_size < size)`.
  unfoldable pub fill_loop : ℕ → ℕ → ℕ → Cursor → Mem → S → Outcome (End S)
  unfolding store_bytes new_node
  fill_loop zero size already c m s = out_of_fuel
  fill_loop (suc fuel) size already c m s =
      let read_size =
        min_size (size_sub size already) (to_size (int_sub cache_size c.node.w_offset)) in
      let body = after_pull (fill_loop fuel size) size read_size already c m (pull read_size s) in
      if ltb already size
      then body
      else done (record { ret = 0; broke = false; lists = settle c; mem = m; rest = s })

-- The last node first, as the `while (!list_empty(...))` loops of the file do.
unfoldable pub recycle_nodes : List Node → Pool → Pool
unfolding recycle_cache
recycle_nodes [] p = p
recycle_nodes (n ∷ ns) p = (recycle_cache n.cache (recycle_nodes ns p)).1

-- `error_with_read`. `last_w_offset` is a `size_t`, so the test `last_w_offset >= 0` always passes:
-- also where no node was reused, and `last_w_offset` is (size_t) -1, the last node of the buffer is
-- written to, and if there is none, the memory round the list's head.
abbrev pub set_last_w : ℕ → Option (List Node × Node) → Option (List Node)
set_last_w last_w none = none
set_last_w last_w (some (front, n)) = some (front ++ (record n { w_offset = to_int last_w } ∷ []))

pub record Result (S : Type 0) : Type 0 where
  pub ret : ℕ
  pub buffer : Buffer
  pub mem : Mem
  pub rest : S

abbrev pub spliced : Bool → Lists → Buffer
spliced true l = l.buff ++ l.tmp
spliced false l = l.buff

module _ {S : Type 0} where
  abbrev pub roll_back : End S → Option (List Node) → Outcome (Result S)
  roll_back e none = fault
  roll_back e (some b) = done (record {
    ret = to_size e.ret;
    buffer = b;
    mem = record (e.mem) { pool = recycle_nodes e.lists.tmp e.mem.pool };
    rest = e.rest;
  })

  -- What follows the loop: a splice if `ret > 0`, or the error's clean-up.
  abbrev pub finish : ℕ → End S → Outcome (Result S)
  finish last_w e =
      if e.broke
      then roll_back e (set_last_w last_w (split_last e.lists.buff))
      else done (record {
        ret = to_size e.ret;
        buffer = spliced (int_pos e.ret) e.lists;
        mem = e.mem;
        rest = e.rest;
      })

  abbrev pub no_memory : Buffer → S → Mem → Result S
  no_memory b s m = record { ret = size_max; buffer = b; mem = m; rest = s }

-- The node that the loop begins with: the last one, or a new one if that is full or missing.
abbrev pub needs_node : Option (List Node × Node) → Bool
needs_node none = true
needs_node (some (front, n)) = n.w_offset == cache_size

module _ {S : Type 0} (pull : ℕ → S → Pull S) where
  abbrev pub fill_new : ℕ → Buffer → S → Option Node × Mem → Outcome (Result S)
  fill_new size b s (none, m) = done (no_memory b s m)
  fill_new size b s (some n, m) =
      fill_loop pull (suc size) size 0 (record { buff = b; tmp = []; in_tmp = true; node = n }) m s
      >>= finish size_max

  abbrev pub fill_last : ℕ → S → Mem → Option (List Node × Node) → Outcome (Result S)
  fill_last size s m none = fault
  fill_last size s m (some (front, n)) =
      fill_loop pull (suc size) size 0 (record { buff = front; tmp = []; in_tmp = false; node = n })
        m s
      >>= finish (to_size n.w_offset)

  -- The whole body, for `size` bytes out of `s`.
  unfoldable pub fill : ℕ → Buffer → Mem → S → Outcome (Result S)
  unfolding fill_loop new_node recycle_nodes
  fill size b m s =
      if needs_node (split_last b)
      then fill_new size b s (new_node m)
      else fill_last size s m (split_last b)

-- `memcpy` from the source block; the length is taken for an `int`, and refused if that is below 0.
abbrev pub copy : ℕ → List ℕ → Pull (List ℕ)
copy n src = if int_neg (to_int n) then failed (to_int n) src else got (take n src) (drop n src)

unfoldable pub write_into_buffer : Buffer → List ℕ → Mem → Outcome (Result (List ℕ))
unfolding fill
write_into_buffer b src m = fill copy (length src) b m src

-- `read`, with the descriptor's state behind it, comes from the environment.
unfoldable pub read_into_buffer :
    {S : Type 0} (read : ℕ → S → Pull S) → ℕ → Buffer → Mem → S → Outcome (Result S)
unfolding fill
read_into_buffer read size b m s = fill read size b m s
