-- ===== src/Cache.antt =====
-- src/io/cache.c and include/io/common_io.h: the pool of reusable memory blocks.
-- `Pool` is the module's static state. The functions here follow the C; the laws of a class's free
-- list and of the pool as a whole are in the child modules. The spin lock makes each operation
-- atomic, so it does not show. A block (`Cache`) carries its address, and `malloc` in this module,
-- whose result the C never tests, succeeds and returns an address that was not in use.
pub mod Classes
pub mod Invariant
pub mod Recycle
pub mod Ownership
use cosc402_assignment.Base.{
  ℕ, ◌+◌, Bool, true, false, Option, none, some, List, [], ◌∷◌, ◌++◌, ◌==◌, if◌then◌else◌,
}
use cosc402_assignment.Base.Lists.{replicate, take}
use cosc402_assignment.Base.Words.{int_leb}

-- `struct _cache`. `buff` holds the bytes behind the pointer, `addr` is where they lie.
pub record Cache : Type 0 where
  pub addr : ℕ
  pub allocated_size : ℕ
  pub cache_size : ℕ
  pub buff : List ℕ

-- `SpecifiedSizeCacheList`: a size and the free blocks of that size. The `CacheNode` that links a
-- block is allocated for that alone, so it does not show.
pub record SizeList : Type 0 where
  pub allocated_cache_size : ℕ
  pub caches : List Cache

-- The static data of cache.c. `all_node` lists the addresses of the blocks ever allocated, newest
-- last; `next_addr` is the next address that `malloc` gives. `behind` holds the `int`s that lie in
-- memory behind the array `specified_cache_size`; `reread` is what a `CacheNode` that has been
-- handed to `free` reads back for its field `cache`.
pub record Pool : Type 0 where
  pub available : List SizeList
  pub all_node : List ℕ
  pub next_addr : ℕ
  pub behind : List ℕ
  pub reread : Cache → Cache

abbrev pub specified_cache_size : List ℕ
specified_cache_size = 64 ∷ 128 ∷ 256 ∷ 512 ∷ 1024 ∷ 2048 ∷ []

abbrev pub empty_lists : List ℕ → List SizeList
empty_lists [] = []
empty_lists (n ∷ ns) = record { allocated_cache_size = n; caches = [] } ∷ empty_lists ns

-- The loop of `make_sure_cache_mm` runs `sizeof(specified_cache_size)` times, which is 24 and not
-- 6: after the array it reads the 18 words behind it (fewer if `behind` has not as many).
abbrev pub make_lists : List ℕ → List SizeList → List SizeList
make_lists behind [] = empty_lists (specified_cache_size ++ take 18 behind)
make_lists behind (l ∷ ls) = l ∷ ls

unfoldable pub make_sure_cache_mm : Pool → Pool
make_sure_cache_mm p = record p { available = make_lists p.behind p.available }

-- What `get_new_cache` finds in the first list whose blocks are large enough: no such list, one
-- with no free block, or its first block, which is taken off.
pub data Found : Type 0 where
  no_class : Found
  no_block : ℕ → Found
  block : Cache → List SizeList → Found

abbrev pub push_list : SizeList → Found → Found
push_list l no_class = no_class
push_list l (no_block n) = no_block n
push_list l (block c ls) = block c (l ∷ ls)

abbrev pub take_first : SizeList → List SizeList → List Cache → Found
take_first l ls [] = no_block l.allocated_cache_size
take_first l ls (c ∷ cs) = block c (record l { caches = cs } ∷ ls)

unfoldable pub find_block : ℕ → List SizeList → Found
find_block expected [] = no_class
find_block expected (l ∷ ls) =
    if int_leb expected l.allocated_cache_size
    then take_first l ls l.caches
    else push_list l (find_block expected ls)

abbrev pub fresh_cache : ℕ → ℕ → ℕ → Cache
fresh_cache addr allocated expected = record {
  addr = addr;
  allocated_size = allocated;
  cache_size = expected;
  buff = replicate allocated 0;
}

-- `NULL` is `none`. A reused block goes through its freed `CacheNode`.
unfoldable pub get_found : ℕ → Pool → Found → Option Cache × Pool
get_found expected p no_class = (none, p)
get_found expected p (no_block allocated) = (
  some (fresh_cache p.next_addr allocated expected),
  record p { all_node = p.all_node ++ (p.next_addr ∷ []); next_addr = p.next_addr + 1 },
)
get_found expected p (block c ls) =
    (some (record (p.reread c) { cache_size = expected }), record p { available = ls })

unfoldable pub get_new_cache : ℕ → Pool → Option Cache × Pool
unfolding get_found find_block make_sure_cache_mm
get_new_cache expected p =
    let p' = make_sure_cache_mm p in get_found expected p' (find_block expected p'.available)

-- Where a block of the given size goes back: behind the last of the first list of that size.
abbrev pub add_tail : Cache → SizeList → SizeList
add_tail c l = record l { caches = l.caches ++ (c ∷ []) }

abbrev pub keep_list : SizeList → Option (List SizeList) → Option (List SizeList)
keep_list l none = none
keep_list l (some ls) = some (l ∷ ls)

unfoldable pub put_block : Cache → List SizeList → Option (List SizeList)
put_block c [] = none
put_block c (l ∷ ls) =
    if l.allocated_cache_size == c.allocated_size
    then some (add_tail c l ∷ ls)
    else keep_list l (put_block c ls)

-- `memset(buff, 0, allocated_size)` and `cache_size = 0`.
abbrev pub wiped : Cache → Cache
wiped c = record c { cache_size = 0; buff = replicate c.allocated_size 0 }

abbrev pub recycled : Pool → Option (List SizeList) → Bool × Pool
recycled p none = (false, p)
recycled p (some ls) = (true, record p { available = ls })

-- `true` stands for the result 0, `false` for -1.
unfoldable pub recycle_cache : Cache → Pool → Bool × Pool
unfolding put_block make_sure_cache_mm
recycle_cache c p = let p' = make_sure_cache_mm p in recycled p' (put_block (wiped c) p'.available)

-- The static state before the first call, with what lies in memory behind the array.
abbrev pub initial_pool : List ℕ → Pool
initial_pool behind = record {
  available = [];
  all_node = [];
  next_addr = 1;
  behind = behind;
  reread = λ c. c;
}
