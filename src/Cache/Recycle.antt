-- ===== src/Cache/Recycle.antt =====
-- What `recycle_cache` does with a block in use, and that it keeps the pool's invariant.
use cosc402_assignment.Base.{
  ℕ, ◌≡◌, refl, ap, ◌∙◌, inr, Bool, true, false, Option, none, some, List, ◌++◌, arith, ◌==◌,
}
use cosc402_assignment.Base.Lists.{take}
use cosc402_assignment.Cache.{
  Cache, SizeList, Pool, make_sure_cache_mm, put_block, recycled, recycle_cache,
  specified_cache_size, wiped,
}
use cosc402_assignment.Cache.Classes.{count_free, HasSize, PutsBack, put_block-PutsBack, has_size}
use cosc402_assignment.Cache.Invariant.{
  IsValid, IsHeld, IsReady, ready-IsValid, make_sure_cache_mm-IsReady,
}

-- What `recycle_cache` does with a block in use: it says 0, and the block is free; every other
-- block is as free as it was.
pub record IsReturn (p : Pool) (c : Cache) (r : Bool × Pool) : Type 0 where
  pub accepted : r.0 ≡ true
  pub free : count_free c.addr r.1.available ≡ 1
  pub others :
      (a : ℕ) → (c.addr == a) ≡ false → count_free a r.1.available ≡ count_free a p.available
  pub same_next : r.1.next_addr ≡ p.next_addr
  pub valid : IsValid r.1

has_size-classes :
    (n : ℕ) (behind : List ℕ) → HasSize n → has_size n (specified_cache_size ++ behind) ≡ true
has_size-classes n behind h = ground arith

recycled-IsReturn :
    (p p' : Pool) (c : Cache) (put : Option (List SizeList))
    → IsHeld p c
    → IsValid p
    → IsReady p p'
    → PutsBack (wiped c) p'.available put
    → IsReturn p c (recycled p' put)
recycled-IsReturn p p' c none held v r f = absurd (
    cc (
      f,
      ap (has_size c.allocated_size) r.classes,
      has_size-classes c.allocated_size (take 18 p'.behind) held.size,
    ))
recycled-IsReturn p p' c (some ls) held v r (stocked, same, counts) =
    let w : IsValid p' = ready-IsValid v r in
    record {
      accepted = refl;
      free = ground (arith, counts c.addr, r.counts c.addr, held.not_free);
      others = λ a ne. ground (arith, counts a, r.counts a);
      same_next = r.next;
      valid = record {
        keeps = w.keeps;
        stocked = stocked;
        classes = inr (same ∙ r.classes);
        once = λ a. ground (arith, counts a, w.once a, r.counts c.addr);
        known = λ a pos. ground (arith, counts a, w.known a, r.next);
      };
    }

-- In a valid pool, recycle_cache of a block in use returns 0 and makes it free once; the other
-- blocks are as free as before, no other is allocated, and the pool stays valid.
pub recycle_cache-IsReturn :
    {p : Pool} {c : Cache} → IsValid p → IsHeld p c → IsReturn p c (recycle_cache c p)
unfolding recycle_cache
recycle_cache-IsReturn {p} {c} v held =
    let p' = make_sure_cache_mm p in
    let r : IsReady p p' = make_sure_cache_mm-IsReady v in
    recycled-IsReturn p p' c (put_block (wiped c) p'.available) held v r
      (put_block-PutsBack (wiped c) p'.available refl r.stocked)
