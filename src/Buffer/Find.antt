-- ===== src/Buffer/Find.antt =====
-- `find_in_buffer` and `simple_index_func` of buffer.c, and `check_command_suffix` of client_info.c:
-- where in a buffer a character stands. An index function gets the bytes from its pointer to the end
-- of the block, and its `int size`; it ends with a `size_t`.
pub mod First
use cosc402_assignment.Base.{
  ℕ, ◌+◌, ◌^◌, List, [], ◌∷◌, ltb, leb, ◌==◌, Bool, true, false, if◌then◌else◌,
}
use cosc402_assignment.Base.Lists.{drop}
use cosc402_assignment.Base.Outcome.{Outcome, done, fault, ◌>>=◌}
use cosc402_assignment.Base.Words.{int_sub, int_neg, to_int, to_size, size_add, size_sub, size_max}
use cosc402_assignment.Buffer.Node.{Node, Buffer, node_size}

-- What `strchr` and `index` find: the character at a position, the 0 that ends the string before it,
-- or neither in the block, and they go on to read behind that.
pub data Scan : Type 0 where
  at : ℕ → Scan
  ended : Scan
  ran_off : Scan

abbrev pub further : Scan → Scan
further (at i) = at (1 + i)
further ended = ended
further ran_off = ran_off

abbrev pub strchr : List ℕ → ℕ → Scan
strchr [] c = ran_off
strchr (x ∷ xs) c = if x == c then at 0 else if x == 0 then ended else further (strchr xs c)

-- `position < size` on a pointer difference and an `int`.
abbrev pub below : ℕ → ℕ → Bool
below position size = if int_neg size then false else ltb position size

abbrev pub check_command_suffix_at : ℕ → Scan → Outcome ℕ
check_command_suffix_at size (at i) = done (if below i size then i else size_max)
check_command_suffix_at size ended = done size_max
check_command_suffix_at size ran_off = fault

unfoldable pub check_command_suffix : ℕ → List ℕ → ℕ → Outcome ℕ
check_command_suffix suffix buff size = check_command_suffix_at size (strchr buff suffix)

-- The test is the other way round: only a position that lies behind the range is returned.
abbrev pub simple_index_at : ℕ → Scan → Outcome ℕ
simple_index_at size (at i) = done (if below i size then size_max else i)
simple_index_at size ended = done size_max
simple_index_at size ran_off = fault

unfoldable pub simple_index_func : ℕ → List ℕ → ℕ → Outcome ℕ
simple_index_func c ptr size = simple_index_at size (strchr ptr c)

-- The loop of `find_in_buffer`. Both tests `node_index_pos >= 0` are on a `size_t` and hold, so the
-- loop ends at the first node in which it looks, whatever `index` answers.
abbrev pub find_from : (List ℕ → ℕ → Outcome ℕ) → ℕ → ℕ → List Node → Outcome ℕ
find_from index start_pos node_first_pos [] = done node_first_pos
find_from index start_pos node_first_pos (n ∷ ns) =
    if leb start_pos node_first_pos
    then (index (drop n.r_offset n.cache.buff) (int_sub n.w_offset n.r_offset)
        >>= (λ i. done (size_add node_first_pos i)))
    else if ltb start_pos (size_add node_first_pos (node_size n))
    then (let inside = to_int (size_sub start_pos node_first_pos) in
        index (drop (n.r_offset + inside) n.cache.buff)
          (int_sub (int_sub n.w_offset n.r_offset) inside)
        >>= (λ i. done (size_add node_first_pos (size_add (to_size inside) i))))
    else find_from index start_pos (size_add node_first_pos (node_size n)) ns

-- The last test, `node_index_pos >= 0`, holds as well.
unfoldable pub find_in_buffer : Buffer → ℕ → (List ℕ → ℕ → Outcome ℕ) → Outcome ℕ
find_in_buffer b start_pos index = find_from index start_pos 0 b
