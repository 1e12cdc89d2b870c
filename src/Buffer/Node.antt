-- ===== src/Buffer/Node.antt =====
-- The structs of buffer.c, and reads and writes of a node's block.
use cosc402_assignment.Base.{
  ℕ, ◌+◌, ◌-◌, ◌≤◌, ◌≡◌, refl, sym, ap, ◌∙◌, Bool, true, Option, none, some, List, [], ◌∷◌, ◌++◌,
  append_assoc, append-nil, arith, leb, if◌then◌else◌,
}
use cosc402_assignment.Base.Lists.{
  length, take, drop, length-append, length-take, length-drop, take-append_right, take-append_left,
  drop-append_left, take_all, drop_all,
}
use cosc402_assignment.Base.Words.{int_add, int_sub, to_size}
use cosc402_assignment.Cache.{Cache, Pool, get_new_cache}

abbrev pub cache_size : ℕ
cache_size = 512

-- `_InnerNode`; the offsets are patterns of `int`s.
pub record Node : Type 0 where
  pub w_offset : ℕ
  pub r_offset : ℕ
  pub cache : Cache

-- `_InnerBuffer`: its `cache_list`, first node first.
abbrev pub Buffer : Type 0
Buffer = List Node

-- The macro `NODE_SIZE`, converted to `size_t`.
abbrev pub node_size : Node → ℕ
node_size n = to_size (int_sub n.w_offset n.r_offset)

-- `memcpy(buff + offset, bytes, ...)` and the like; `none` outside of the block.
abbrev pub store_at : List ℕ → ℕ → List ℕ → Option (List ℕ)
store_at buff offset bytes =
    if leb (offset + length bytes) (length buff)
    then some (take offset buff ++ (bytes ++ drop (offset + length bytes) buff))
    else none

-- The `n` bytes at `buff + offset`; `none` outside of the block.
abbrev pub load_at : List ℕ → ℕ → ℕ → Option (List ℕ)
load_at buff offset n =
    if leb (offset + n) (length buff) then some (take n (drop offset buff)) else none

abbrev pub wrote : Node → List ℕ → Option (List ℕ) → Option Node
wrote n bytes none = none
wrote n bytes (some buff) = some (record n {
  w_offset = int_add n.w_offset (length bytes);
  cache = record (n.cache) { buff = buff };
})

-- The bytes arrive behind `w_offset`, which moves on.
unfoldable pub store_bytes : Node → List ℕ → Option Node
store_bytes n bytes = wrote n bytes (store_at n.cache.buff n.w_offset bytes)

-- What `malloc(sizeof(_InnerNode))` will answer, call by call (then always success), and the pool.
pub record Mem : Type 0 where
  pub answers : List Bool
  pub pool : Pool

abbrev pub next_answer : List Bool → Bool
next_answer [] = true
next_answer (a ∷ as') = a

abbrev pub later_answers : List Bool → List Bool
later_answers [] = []
later_answers (a ∷ as') = as'

abbrev pub empty_node : Cache → Node
empty_node c = record { w_offset = 0; r_offset = 0; cache = c }

abbrev pub new_node_with : List Bool → Option Cache × Pool → Option Node × Mem
new_node_with answers (none, p) = (none, record { answers = answers; pool = p })
new_node_with answers (some c, p) = (some (empty_node c), record { answers = answers; pool = p })

-- A zeroed node with a block of its own; `none` if either cannot be had.
unfoldable pub new_node : Mem → Option Node × Mem
unfolding get_new_cache
new_node m =
    let granted = get_new_cache cache_size m.pool in
    if next_answer m.answers
    then new_node_with (later_answers m.answers) granted
    else (none, record m { answers = later_answers m.answers })

-- The bytes that a node holds, and a buffer.
abbrev pub bytes : Node → List ℕ
bytes n = drop n.r_offset (take n.w_offset n.cache.buff)

unfoldable pub contents : Buffer → List ℕ
contents [] = []
contents (n ∷ ns) = bytes n ++ contents ns

-- The offsets lie in the block, in order.
pub record IsGood (n : Node) : Type 0 where
  pub ordered : n.r_offset ≤ n.w_offset
  pub within : n.w_offset ≤ 512
  pub block : length n.cache.buff ≡ 512
  pub allocated : n.cache.allocated_size ≡ 512

abbrev pub AllGood : Buffer → Type 0
AllGood [] = Unit {0}
AllGood (n ∷ ns) = IsGood n × AllGood ns

pub AllGood-append : (b d : Buffer) → AllGood b → AllGood d → AllGood (b ++ d)
AllGood-append [] d g h = h
AllGood-append (n ∷ b) d g h = (g.0, AllGood-append b d g.1 h)

pub AllGood-left : (b d : Buffer) → AllGood (b ++ d) → AllGood b
AllGood-left [] d g = tt
AllGood-left (n ∷ b) d g = (g.0, AllGood-left b d g.1)

pub AllGood-right : (b d : Buffer) → AllGood (b ++ d) → AllGood d
AllGood-right [] d g = g
AllGood-right (n ∷ b) d g = AllGood-right b d g.1

pub contents-append : (b d : Buffer) → contents (b ++ d) ≡ contents b ++ contents d
unfolding contents
contents-append [] d = refl
contents-append (n ∷ b) d =
    ap (λ xs. bytes n ++ xs) (contents-append b d)
    ∙ sym (append_assoc (bytes n) (contents b) (contents d))

pub contents_snoc : (b : Buffer) (n : Node) → contents (b ++ (n ∷ [])) ≡ contents b ++ bytes n
unfolding contents
contents_snoc b n = contents-append b (n ∷ []) ∙ ap (λ xs. contents b ++ xs) (append-nil (bytes n))

-- A node whose `w_offset` is 0 holds nothing.
pub bytes_of_zero : (n : Node) → n.w_offset ≡ 0 → bytes n ≡ []
bytes_of_zero n e =
    ap (λ k. drop n.r_offset (take k n.cache.buff)) e ∙ drop_all n.r_offset [] (omega arith)

pub length-bytes : {n : Node} → IsGood n → length (bytes n) ≡ n.w_offset - n.r_offset
length-bytes {n} g = omega (
  arith,
  length-drop n.r_offset (take n.w_offset n.cache.buff),
  length-take n.w_offset n.cache.buff,
)

pub node_size-eq : {n : Node} → IsGood n → node_size n ≡ n.w_offset - n.r_offset
node_size-eq g = ground arith

-- Bytes that fit are stored, and what the node holds grows by them.
pub record Stored (n : Node) (bs : List ℕ) (n' : Node) : Type 0 where
  pub good : IsGood n'
  pub holds : bytes n' ≡ bytes n ++ bs
  pub moved : n'.w_offset ≡ n.w_offset + length bs
  pub same_r : n'.r_offset ≡ n.r_offset
  pub same_addr : n'.cache.addr ≡ n.cache.addr
  pub prefix : take n.w_offset n'.cache.buff ≡ take n.w_offset n.cache.buff

-- The range from `r` on of a block that is overwritten by `bs` at `w`.
drop-take_overwritten :
    (r w : ℕ) (xs bs rest : List ℕ)
    → r ≤ w
    → w ≤ length xs
    → drop r (take (w + length bs) (take w xs ++ (bs ++ rest))) ≡ drop r (take w xs) ++ bs
drop-take_overwritten r w xs bs rest ordered within =
    ap (λ k. drop r (take (k + length bs) (take w xs ++ (bs ++ rest)))) (sym front)
    ∙ ap (drop r) (take-append_right (length bs) (take w xs) (bs ++ rest))
    ∙ ap (λ ys. drop r (take w xs ++ ys)) (take-append_left (length bs) bs rest (omega arith))
    ∙ ap (λ ys. drop r (take w xs ++ ys)) (take_all (length bs) bs (omega arith))
    ∙ drop-append_left r (take w xs) bs (omega (arith, front))
  where
    front : length (take w xs) ≡ w
    front = omega (arith, length-take w xs)

take-overwritten :
    (w : ℕ) (xs rest : List ℕ) → w ≤ length xs → take w (take w xs ++ rest) ≡ take w xs
take-overwritten w xs rest within =
    take-append_left w (take w xs) rest (omega (arith, length-take w xs))
    ∙ take_all w (take w xs) (omega (arith, length-take w xs))

overwrite : Node → List ℕ → Node
overwrite n bs = record n {
  w_offset = int_add n.w_offset (length bs);
  cache = record (n.cache) {
    buff = take n.w_offset n.cache.buff ++ (bs ++ drop (n.w_offset + length bs) n.cache.buff);
  };
}

module _ (n : Node) (bs : List ℕ) (g : IsGood n) (fits : n.w_offset + length bs ≤ 512) where
  length-overwrite :
      length (take n.w_offset n.cache.buff ++ (bs ++ drop (n.w_offset + length bs) n.cache.buff))
      ≡ 512
  length-overwrite = omega (
    arith,
    length-append (take n.w_offset n.cache.buff) (bs ++ drop (n.w_offset + length bs) n.cache.buff),
    length-append bs (drop (n.w_offset + length bs) n.cache.buff),
    length-take n.w_offset n.cache.buff,
    length-drop (n.w_offset + length bs) n.cache.buff,
    g.block,
  )

  overwrite-Stored : Stored n bs (overwrite n bs)
  unfolding overwrite
  overwrite-Stored =
      let moved : int_add n.w_offset (length bs) ≡ n.w_offset + length bs = omega arith in
      record {
        good = record {
          ordered = omega (arith, g.ordered);
          within = omega arith;
          block = length-overwrite;
          allocated = g.allocated;
        };
        holds = rw moved (
            drop-take_overwritten n.r_offset n.w_offset n.cache.buff bs
              (drop (n.w_offset + length bs) n.cache.buff) g.ordered (omega arith));
        moved = moved;
        same_r = refl;
        same_addr = refl;
        prefix =
            take-overwritten n.w_offset n.cache.buff
              (bs ++ drop (n.w_offset + length bs) n.cache.buff) (omega (arith, g.within, g.block));
      }

  pub store_bytes-Stored : (n' : Node) × (store_bytes n bs ≡ some n') × Stored n bs n'
  unfolding store_bytes overwrite
  store_bytes-Stored =
      let fit : leb (n.w_offset + length bs) (length n.cache.buff) ≡ true = ground arith in
      (overwrite n bs, rw (fit, wrote), overwrite-Stored)
