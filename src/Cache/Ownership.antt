-- ===== src/Cache/Ownership.antt =====
-- Who holds the blocks of the pool of cache.c. `f a` says how often the block at the address `a` is
-- held by the pool's users; a user's part of it can be split off and the rest left a variable.
use cosc402_assignment.Base.{
  ℕ, ◌+◌, ◌≤◌, ◌<◌, ◌≡◌, inl, inr, arith, ◌==◌, if◌then◌else◌, Bool-cases,
}
use cosc402_assignment.Base.Lists.{length}
use cosc402_assignment.Cache.{Cache, Pool, recycle_cache}
use cosc402_assignment.Cache.Classes.{count_free, HasSize}
use cosc402_assignment.Cache.Invariant.{IsValid, IsHeld, IsGrant}
use cosc402_assignment.Cache.Recycle.{IsReturn, recycle_cache-IsReturn}

-- Every block that was allocated is either free or held by one user, so none is shared and none is
-- lost. The first address is 1 (`initial_pool`).
pub record Owns (p : Pool) (f : ℕ → ℕ) : Type 0 where
  pub valid : IsValid p
  pub once : (a : ℕ) → count_free a p.available + f a ≤ 1
  pub known : (a : ℕ) → 0 < f a → a < p.next_addr
  pub all : (a : ℕ) → 0 < a → a < p.next_addr → 1 ≤ count_free a p.available + f a

abbrev pub and_at : ℕ → (ℕ → ℕ) → ℕ → ℕ
and_at addr f a = (if addr == a then 1 else 0) + f a

-- The same holders, counted in another way.
pub Owns-eq : {p : Pool} {f : ℕ → ℕ} (g : ℕ → ℕ) → Owns p f → ((a : ℕ) → g a ≡ f a) → Owns p g
Owns-eq g o same = record {
  valid = o.valid;
  once = λ a. omega (arith, o.once a, same a);
  known = λ a pos. omega (arith, o.known a, same a);
  all = λ a pos below. omega (arith, o.all a pos below, same a);
}

-- A block that is handed out was held by nobody.
free_of_grant :
    {e : ℕ} {p p' : Pool} {c : Cache} {f : ℕ → ℕ} → Owns p f → IsGrant e p c p' → f c.addr ≡ 0
free_of_grant {c} o g = elim g.unused [
  | inl was_free ↦ omega (arith, o.once c.addr)
  | inr above ↦ grind (arith, o.known c.addr)
]

pub Owns-grant :
    {e : ℕ} {p p' : Pool} {c : Cache} {f : ℕ → ℕ}
    → Owns p f
    → IsGrant e p c p'
    → Owns p' (and_at c.addr f)
Owns-grant {p} {p'} {c} {f} o g = record {
  valid = g.valid;
  once = λ a. elim (Bool-cases (c.addr == a)) [
    | inl e ↦ ground (arith, g.held.not_free, free_of_grant o g)
    | inr ne ↦ rw ne (omega (arith, g.others a ne, o.once a))
  ];
  known = λ a pos. elim (Bool-cases (c.addr == a)) [
    | inl e ↦ ground (arith, g.held.below)
    | inr ne ↦ ground (arith, o.known a, g.grows)
  ];
  all = λ a pos below. elim (Bool-cases (c.addr == a)) [
    | inl e ↦ rw e (omega arith)
    | inr ne ↦ rw ne (omega (arith, g.others a ne, o.all a pos (g.fresh a ne below)))
  ];
}

IsHeld-owned :
    {p : Pool} (c : Cache) (f : ℕ → ℕ)
    → Owns p (and_at c.addr f)
    → HasSize c.allocated_size
    → length c.buff ≡ c.allocated_size
    → IsHeld p c
IsHeld-owned c f o size memory = record {
  size = size;
  memory = memory;
  not_free = ground (arith, o.once c.addr);
  below = ground (arith, o.known c.addr);
}

-- A block that its holder recycles is not held any more.
pub Owns-return :
    {p : Pool} (c : Cache) (f : ℕ → ℕ)
    → Owns p (and_at c.addr f)
    → HasSize c.allocated_size
    → length c.buff ≡ c.allocated_size
    → Owns (recycle_cache c p).1 f
Owns-return {p} c f o size memory =
    let r : IsReturn p c (recycle_cache c p) =
      recycle_cache-IsReturn o.valid (IsHeld-owned c f o size memory) in
    record {
      valid = r.valid;
      once = λ a. elim (Bool-cases (c.addr == a)) [
        | inl e ↦ ground (arith, r.free, o.once a)
        | inr ne ↦ ground (arith, r.others a ne, o.once a)
      ];
      known = λ a pos. ground (arith, o.known a, r.same_next);
      all = λ a pos below. elim (Bool-cases (c.addr == a)) [
        | inl e ↦ ground (arith, r.free)
        | inr ne ↦ ground (arith, r.others a ne, o.all a pos, r.same_next)
      ];
    }
