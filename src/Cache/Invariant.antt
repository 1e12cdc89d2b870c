-- ===== src/Cache/Invariant.antt =====
-- The invariant of the pool, that `get_new_cache` keeps it, and which block it hands out: no block is
-- free twice, or both free and in use.
use cosc402_assignment.Base.{
  ℕ, ◌+◌, ◌^◌, ◌≤◌, ◌<◌, ◌≡◌, refl, sym, ap, ◌∙◌, ◌⊎◌, inl, inr, false, Option, none, some, List,
  [], ◌∷◌, ◌++◌, arith, ◌==◌,
}
use cosc402_assignment.Base.Lists.{replicate, take, length, length-replicate}
use cosc402_assignment.Cache.{
  Cache, SizeList, Pool, Found, no_class, no_block, block, find_block, get_found, get_new_cache,
  make_sure_cache_mm, empty_lists, make_lists, specified_cache_size, fresh_cache, initial_pool,
}
use cosc402_assignment.Cache.Classes.{
  sizes, count_free, Stocked, first_fit, Finds, find_block-Finds, HasSize, IsLeastSize, least_size,
  first_fit-least_size, least_size-IsLeastSize,
}

-- `keeps` is the one assumption on the allocator: `free` leaves the field `cache` of a `CacheNode`
-- as it was, which `get_new_cache` reads after it.
pub record IsValid (p : Pool) : Type 0 where
  pub keeps : (c : Cache) → p.reread c ≡ c
  pub stocked : Stocked p.available
  pub classes : (p.available ≡ []) ⊎ (sizes p.available ≡ specified_cache_size ++ take 18 p.behind)
  pub once : (a : ℕ) → count_free a p.available ≤ 1
  pub known : (a : ℕ) → 0 < count_free a p.available → a < p.next_addr

-- A block in use: of one of the six sizes, its memory there, and not free.
pub record IsHeld (p : Pool) (c : Cache) : Type 0 where
  pub size : HasSize c.allocated_size
  pub memory : length c.buff ≡ c.allocated_size
  pub not_free : count_free c.addr p.available ≡ 0
  pub below : c.addr < p.next_addr

Stocked-empty_lists : (ns : List ℕ) → Stocked (empty_lists ns)
Stocked-empty_lists [] = tt
Stocked-empty_lists (n ∷ ns) = (tt, Stocked-empty_lists ns)

sizes-empty_lists : (ns : List ℕ) → sizes (empty_lists ns) ≡ ns
sizes-empty_lists [] = refl
sizes-empty_lists (n ∷ ns) = ap (λ ms. n ∷ ms) (sizes-empty_lists ns)

count_free-empty_lists : (a : ℕ) (ns : List ℕ) → count_free a (empty_lists ns) ≡ 0
count_free-empty_lists a [] = refl
count_free-empty_lists a (n ∷ ns) = omega (arith, count_free-empty_lists a ns)

-- What `make_sure_cache_mm` leaves: the classes are there, and nothing else has changed.
pub record IsReady (p p' : Pool) : Type 0 where
  pub keeps : (c : Cache) → p'.reread c ≡ c
  pub stocked : Stocked p'.available
  pub classes : sizes p'.available ≡ specified_cache_size ++ take 18 p'.behind
  pub counts : (a : ℕ) → count_free a p'.available ≡ count_free a p.available
  pub next : p'.next_addr ≡ p.next_addr
  pub same_behind : p'.behind ≡ p.behind

module _ (behind : List ℕ) where
  Stocked-make_lists : (ls : List SizeList) → Stocked ls → Stocked (make_lists behind ls)
  Stocked-make_lists [] s = Stocked-empty_lists (specified_cache_size ++ take 18 behind)
  Stocked-make_lists (l ∷ ls) s = s

  sizes-make_lists :
      (ls : List SizeList)
      → (ls ≡ []) ⊎ (sizes ls ≡ specified_cache_size ++ take 18 behind)
      → sizes (make_lists behind ls) ≡ specified_cache_size ++ take 18 behind
  sizes-make_lists [] c = sizes-empty_lists (specified_cache_size ++ take 18 behind)
  sizes-make_lists (l ∷ ls) (inl e) = absurd (cc e)
  sizes-make_lists (l ∷ ls) (inr e) = e

  count_free-make_lists :
      (a : ℕ) (ls : List SizeList) → count_free a (make_lists behind ls) ≡ count_free a ls
  count_free-make_lists a [] = count_free-empty_lists a (specified_cache_size ++ take 18 behind)
  count_free-make_lists a (l ∷ ls) = refl

pub make_sure_cache_mm-IsReady : {p : Pool} → IsValid p → IsReady p (make_sure_cache_mm p)
unfolding make_sure_cache_mm
make_sure_cache_mm-IsReady {p} v = record {
  keeps = v.keeps;
  stocked = Stocked-make_lists p.behind p.available v.stocked;
  classes = sizes-make_lists p.behind p.available v.classes;
  counts = λ a. count_free-make_lists p.behind a p.available;
  next = refl;
  same_behind = refl;
}

-- What `get_new_cache` hands out, and what it leaves: a block of the least size that fits, filled
-- with zeros, that was free or whose address was never in use, and that is not free any more. What
-- else was free still is, nothing has become free, and no other block was allocated.
pub record IsGrant (expected : ℕ) (p : Pool) (c : Cache) (p' : Pool) : Type 0 where
  pub size : IsLeastSize expected c.allocated_size
  pub asked : c.cache_size ≡ expected
  pub zeros : c.buff ≡ replicate c.allocated_size 0
  pub held : IsHeld p' c
  pub unused : (count_free c.addr p.available ≡ 1) ⊎ (p.next_addr ≤ c.addr)
  pub others :
      (a : ℕ) → (c.addr == a) ≡ false → count_free a p'.available ≡ count_free a p.available
  pub grows : p.next_addr ≤ p'.next_addr
  pub fresh : (a : ℕ) → (c.addr == a) ≡ false → a < p'.next_addr → a < p.next_addr
  pub valid : IsValid p'

-- `get_new_cache` ended with a block and not with `NULL`.
abbrev pub Grants : ℕ → Pool → Option Cache × Pool → Type 0
Grants expected p (c, p') = elim c [ none ↦ ⊥ | some c ↦ IsGrant expected p c p' ]

IsHeld-of :
    (expected : ℕ) (c : Cache) (p : Pool)
    → IsLeastSize expected c.allocated_size
    → c.buff ≡ replicate c.allocated_size 0
    → count_free c.addr p.available ≡ 0
    → c.addr < p.next_addr
    → IsHeld p c
IsHeld-of expected c p size zeros free below = record {
  size = size.has;
  memory = rw zeros (length-replicate c.allocated_size 0);
  not_free = free;
  below = below;
}

unknown-zero : {p : Pool} → IsValid p → (a : ℕ) → p.next_addr ≤ a → count_free a p.available ≡ 0
unknown-zero v a le = grind (arith, v.known a)

pub ready-IsValid : {p p' : Pool} → IsValid p → IsReady p p' → IsValid p'
ready-IsValid v r = record {
  keeps = r.keeps;
  stocked = r.stocked;
  classes = inr r.classes;
  once = λ a. omega (arith, r.counts a, v.once a);
  known = λ a pos. omega (arith, r.counts a, r.next, v.known a);
}

size_of :
    (expected : ℕ) (p : Pool) (n : ℕ)
    → expected ≤ 2048
    → sizes p.available ≡ specified_cache_size ++ take 18 p.behind
    → first_fit expected (sizes p.available) ≡ some n
    → n ≡ least_size expected
size_of expected p n h classes fit =
    cc (fit, ap (first_fit expected) classes, first_fit-least_size expected (take 18 p.behind) h)

get_found-Grants :
    (expected : ℕ) (p p' : Pool) (found : Found)
    → expected ≤ 2048
    → IsValid p
    → IsReady p p'
    → Finds expected p'.available found
    → Grants expected p (get_found expected p' found)
unfolding get_found
get_found-Grants expected p p' no_class h v r f =
    absurd (
      cc
        (f, ap (first_fit expected) r.classes, first_fit-least_size expected (take 18 p'.behind) h))
get_found-Grants expected p p' (no_block n) h v r f =
    let least : n ≡ least_size expected = size_of expected p' n h r.classes f in
    let w : IsValid p' = ready-IsValid v r in
    record {
      size = rw least (least_size-IsLeastSize expected h);
      asked = refl;
      zeros = refl;
      held =
          IsHeld-of expected (fresh_cache p'.next_addr n expected)
            (record p' {
              all_node = p'.all_node ++ (p'.next_addr ∷ []);
              next_addr = p'.next_addr + 1;
            })
            (rw least (least_size-IsLeastSize expected h)) refl
            (unknown-zero w p'.next_addr (omega arith)) (omega arith);
      unused = inr (omega (arith, r.next));
      others = λ a ne. r.counts a;
      grows = omega (arith, r.next);
      fresh = λ a ne below. ground (arith, r.next);
      valid = record {
        keeps = w.keeps;
        stocked = w.stocked;
        classes = w.classes;
        once = w.once;
        known = λ a pos. omega (arith, w.known a pos);
      };
    }
get_found-Grants expected p p' (block c ls) h v r (fit, zeros, stocked, same, counts) =
    let least : c.allocated_size ≡ least_size expected =
      size_of expected p' c.allocated_size h r.classes fit in
    let w : IsValid p' = ready-IsValid v r in
    rw (r.keeps c) (record {
      size = rw least (least_size-IsLeastSize expected h);
      asked = refl;
      zeros = zeros;
      held =
          IsHeld-of expected (record c { cache_size = expected }) (record p' { available = ls })
            (rw least (least_size-IsLeastSize expected h)) zeros
            (ground (arith, counts c.addr, w.once c.addr))
            (ground (arith, counts c.addr, w.known c.addr));
      unused = inl (ground (arith, counts c.addr, r.counts c.addr, w.once c.addr));
      others = λ a ne. ground (arith, counts a, r.counts a);
      grows = omega (arith, r.next);
      fresh = λ a ne below. omega (arith, r.next);
      valid = record {
        keeps = w.keeps;
        stocked = stocked;
        classes = inr (same ∙ r.classes);
        once = λ a. omega (arith, counts a, w.once a);
        known = λ a pos. omega (arith, counts a, w.known a);
      };
    })

-- In a valid pool, get_new_cache of at most 2048 bytes hands out a zeroed block of the least class
-- that fits, which was free or never used and is free no more; the other blocks are as free as
-- before, no other is allocated, and the pool stays valid.
pub get_new_cache-Grants :
    (expected : ℕ) {p : Pool}
    → expected ≤ 2048
    → IsValid p
    → Grants expected p (get_new_cache expected p)
unfolding get_new_cache
get_new_cache-Grants expected {p} h v =
    let p' = make_sure_cache_mm p in
    let r : IsReady p p' = make_sure_cache_mm-IsReady v in
    get_found-Grants expected p p' (find_block expected p'.available) h v r
      (find_block-Finds expected p'.available r.stocked)

abbrev pub granted_size : Option Cache → Option ℕ
granted_size none = none
granted_size (some c) = some c.allocated_size

granted_size-get_found :
    (expected : ℕ) (p : Pool) (found : Found)
    → ((c : Cache) → p.reread c ≡ c)
    → Finds expected p.available found
    → granted_size (get_found expected p found).0 ≡ first_fit expected (sizes p.available)
unfolding get_found
granted_size-get_found expected p no_class keeps f = sym f
granted_size-get_found expected p (no_block n) keeps f = sym f
granted_size-get_found expected p (block c ls) keeps f = rw (keeps c) (sym f.0)

first_fit-classes :
    (expected : ℕ) (behind : List ℕ)
    → 2048 < expected
    → expected < 2 ^ 31
    → first_fit expected (specified_cache_size ++ behind) ≡ first_fit expected behind
first_fit-classes expected behind large int = ground arith

-- In a valid pool, the size of the block that get_new_cache hands out for more than 2048 and less
-- than 2 ^ 31 bytes is the first of the 18 words read from memory behind the array of sizes that
-- is large enough, and there is no block only if there is none.
pub get_new_cache_large :
    (expected : ℕ) {p : Pool}
    → 2048 < expected
    → expected < 2 ^ 31
    → IsValid p
    → granted_size (get_new_cache expected p).0 ≡ first_fit expected (take 18 p.behind)
unfolding get_new_cache
get_new_cache_large expected {p} large int v =
    let p' = make_sure_cache_mm p in
    let r : IsReady p p' = make_sure_cache_mm-IsReady v in
    granted_size-get_found expected p' (find_block expected p'.available) r.keeps
      (find_block-Finds expected p'.available r.stocked)
    ∙ ap (first_fit expected) r.classes
    ∙ first_fit-classes expected (take 18 p'.behind) large int
    ∙ ap (λ ws. first_fit expected (take 18 ws)) r.same_behind

pub initial_pool-IsValid : (behind : List ℕ) → IsValid (initial_pool behind)
initial_pool-IsValid behind = record {
  keeps = λ c. refl;
  stocked = tt;
  classes = inl refl;
  once = λ a. omega arith;
  known = λ a pos. absurd (omega arith);
}
