-- ===== src/Cache/Classes.antt =====
-- The size classes of cache.c: which list `get_new_cache` settles on, and what it takes from it.
use cosc402_assignment.Base.{
  ℕ, ◌+◌, ◌≤◌, ◌≡◌, refl, ◌⊎◌, inl, inr, Bool, true, false, Option, none, some, List, [], ◌∷◌, ◌++◌,
  arith, ◌==◌, if◌then◌else◌, Bool-cases,
}
use cosc402_assignment.Base.Lists.{replicate}
use cosc402_assignment.Base.Words.{int_leb}
use cosc402_assignment.Cache.{
  Cache, SizeList, Found, no_class, no_block, block, push_list, take_first, find_block, put_block,
  keep_list, specified_cache_size,
}

abbrev pub sizes : List SizeList → List ℕ
sizes [] = []
sizes (l ∷ ls) = l.allocated_cache_size ∷ sizes ls

-- How many free blocks lie at the address `a`.
abbrev pub count_caches : ℕ → List Cache → ℕ
count_caches a [] = 0
count_caches a (c ∷ cs) = (if c.addr == a then 1 else 0) + count_caches a cs

abbrev pub count_free : ℕ → List SizeList → ℕ
count_free a [] = 0
count_free a (l ∷ ls) = count_caches a l.caches + count_free a ls

-- A free block of a class has its size and holds zeros.
abbrev pub IsBlank : ℕ → Cache → Type 0
IsBlank n c = (c.allocated_size ≡ n) × (c.buff ≡ replicate n 0)

abbrev pub AllBlank : ℕ → List Cache → Type 0
AllBlank n [] = Unit {0}
AllBlank n (c ∷ cs) = IsBlank n c × AllBlank n cs

abbrev pub Stocked : List SizeList → Type 0
Stocked [] = Unit {0}
Stocked (l ∷ ls) = AllBlank l.allocated_cache_size l.caches × Stocked ls

-- The first size that fits.
abbrev pub first_fit : ℕ → List ℕ → Option ℕ
first_fit expected [] = none
first_fit expected (n ∷ ns) = if int_leb expected n then some n else first_fit expected ns

-- What `find_block` finds among `ls`, against the sizes and the blocks that are there.
abbrev pub Finds : ℕ → List SizeList → Found → Type 0
Finds expected ls no_class = first_fit expected (sizes ls) ≡ none
Finds expected ls (no_block n) = first_fit expected (sizes ls) ≡ some n
Finds expected ls (block c ls') =
    (first_fit expected (sizes ls) ≡ some c.allocated_size)
    × (c.buff ≡ replicate c.allocated_size 0)
    × Stocked ls'
    × (sizes ls' ≡ sizes ls)
    × ((a : ℕ) → count_free a ls ≡ (if c.addr == a then 1 else 0) + count_free a ls')

take_first-Finds :
    (expected : ℕ) (l : SizeList) (ls : List SizeList) (cs : List Cache)
    → int_leb expected l.allocated_cache_size ≡ true
    → AllBlank l.allocated_cache_size cs
    → Stocked ls
    → Finds expected (record l { caches = cs } ∷ ls) (take_first l ls cs)
take_first-Finds expected l ls [] fits blank rest = rw fits
take_first-Finds expected l ls (c ∷ cs) fits ((size, zeros), blank) rest =
    (rw (fits, size), rw (size, zeros), (blank, rest), refl, λ a. omega arith)

push_list-Finds :
    (expected : ℕ) (l : SizeList) (ls : List SizeList) (found : Found)
    → int_leb expected l.allocated_cache_size ≡ false
    → AllBlank l.allocated_cache_size l.caches
    → Finds expected ls found
    → Finds expected (l ∷ ls) (push_list l found)
push_list-Finds expected l ls no_class miss blank f = rw miss f
push_list-Finds expected l ls (no_block n) miss blank f = rw miss f
push_list-Finds expected l ls (block c ls') miss blank (fit, zeros, stocked, same, counts) =
    (rw miss fit, zeros, (blank, stocked), rw same, λ a. omega (arith, counts a))

pub find_block-Finds :
    (expected : ℕ) (ls : List SizeList) → Stocked ls → Finds expected ls (find_block expected ls)
unfolding find_block
find_block-Finds expected [] s = refl
find_block-Finds expected (l ∷ ls) s = elim (Bool-cases (int_leb expected l.allocated_cache_size)) [
  | inl fits ↦ rw (fits, find_block) (take_first-Finds expected l ls l.caches fits s.0 s.1)
  | inr miss ↦
      rw (miss, find_block)
        (push_list-Finds expected l ls (find_block expected ls) miss s.0
          (find_block-Finds expected ls s.1))
]

-- The least of the six sizes that is not below `expected`.
abbrev pub HasSize : ℕ → Type 0
HasSize n = (n ≡ 64) ⊎ ((n ≡ 128) ⊎ ((n ≡ 256) ⊎ ((n ≡ 512) ⊎ ((n ≡ 1024) ⊎ (n ≡ 2048)))))

pub record IsLeastSize (expected n : ℕ) : Type 0 where
  pub has : HasSize n
  pub fits : expected ≤ n
  pub least : (m : ℕ) → HasSize m → expected ≤ m → n ≤ m

pub least_size : ℕ → ℕ
least_size e =
    if int_leb e 64
    then 64
    else if int_leb e 128
    then 128
    else if int_leb e 256
    then 256
    else if int_leb e 512
    then 512
    else if int_leb e 1024
    then 1024
    else 2048

pub first_fit-least_size :
    (e : ℕ) (behind : List ℕ)
    → e ≤ 2048
    → first_fit e (specified_cache_size ++ behind) ≡ some (least_size e)
unfolding least_size
first_fit-least_size e behind h = ground arith

pub least_size-IsLeastSize : (e : ℕ) → e ≤ 2048 → IsLeastSize e (least_size e)
unfolding least_size
least_size-IsLeastSize e h = record {
  has = ground arith;
  fits = ground arith;
  least = λ m hm le. ground arith;
}

abbrev pub has_size : ℕ → List ℕ → Bool
has_size n [] = false
has_size n (m ∷ ms) = if m == n then true else has_size n ms

-- A block goes back to a list of its size, if there is one, and to that list alone.
abbrev pub PutsBack : Cache → List SizeList → Option (List SizeList) → Type 0
PutsBack c ls none = has_size c.allocated_size (sizes ls) ≡ false
PutsBack c ls (some ls') =
    Stocked ls'
    × (sizes ls' ≡ sizes ls)
    × ((a : ℕ) → count_free a ls' ≡ (if c.addr == a then 1 else 0) + count_free a ls)

count_caches-add_tail :
    (a : ℕ) (c : Cache) (cs : List Cache)
    → count_caches a (cs ++ (c ∷ [])) ≡ (if c.addr == a then 1 else 0) + count_caches a cs
count_caches-add_tail a c [] = refl
count_caches-add_tail a c (d ∷ cs) = omega (arith, count_caches-add_tail a c cs)

AllBlank-add_tail :
    (n : ℕ) (c : Cache) (cs : List Cache)
    → IsBlank n c
    → AllBlank n cs
    → AllBlank n (cs ++ (c ∷ []))
AllBlank-add_tail n c [] b bs = (b, tt)
AllBlank-add_tail n c (d ∷ cs) b bs = (bs.0, AllBlank-add_tail n c cs b bs.1)

keep_list-PutsBack :
    (c : Cache) (l : SizeList) (ls : List SizeList) (put : Option (List SizeList))
    → (l.allocated_cache_size == c.allocated_size) ≡ false
    → AllBlank l.allocated_cache_size l.caches
    → PutsBack c ls put
    → PutsBack c (l ∷ ls) (keep_list l put)
keep_list-PutsBack c l ls none miss blank f = rw miss f
keep_list-PutsBack c l ls (some ls') miss blank (stocked, same, counts) =
    ((blank, stocked), rw same, λ a. omega (arith, counts a))

pub put_block-PutsBack :
    (c : Cache) (ls : List SizeList)
    → c.buff ≡ replicate c.allocated_size 0
    → Stocked ls
    → PutsBack c ls (put_block c ls)
unfolding put_block
put_block-PutsBack c [] zeros s = refl
put_block-PutsBack c (l ∷ ls) zeros s =
    elim (Bool-cases (l.allocated_cache_size == c.allocated_size)) [
      | inl fits ↦
          let size : l.allocated_cache_size ≡ c.allocated_size = ground arith in
          rw (fits, put_block)
            (
              (
                AllBlank-add_tail l.allocated_cache_size c l.caches (rw size (refl, zeros)) s.0,
                s.1,
              ),
              refl,
              λ a. omega (arith, count_caches-add_tail a c l.caches),
            )
      | inr miss ↦
          rw (miss, put_block)
            (keep_list-PutsBack c l ls (put_block c ls) miss s.0
              (put_block-PutsBack c ls zeros s.1))
    ]
