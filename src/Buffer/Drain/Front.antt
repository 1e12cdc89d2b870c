-- ===== src/Buffer/Drain/Front.antt =====
-- Taking bytes from the first node of a buffer.
use cosc402_assignment.Base.{
  ℕ, zero, suc, ◌+◌, ◌-◌, ◌≤◌, ◌<◌, ◌≡◌, refl, sym, ap, ◌∙◌, ◌⊎◌, inl, inr, true, some, List, [],
  ◌∷◌, ◌++◌, arith, leb, ◌==◌, Bool-cases,
}
use cosc402_assignment.Base.Lists.{
  length, take, drop, drop-drop, take_all, drop_all, drop-append_left,
}
use cosc402_assignment.Base.Words.{int_add, to_int}
use cosc402_assignment.Cache.{Pool, recycle_cache}
use cosc402_assignment.Cache.Ownership.{Owns, Owns-eq, Owns-return}
use cosc402_assignment.Buffer.Node.{
  Node, Buffer, IsGood, AllGood, bytes, contents, length-bytes, load_at,
}
use cosc402_assignment.Buffer.Ownership.{and_nodes}
use cosc402_assignment.Buffer.Drain.{Queue, advance}

drop-take {ℓ} :
    {A : Type ℓ} (r w : ℕ) (xs : List A) → r ≤ w → drop r (take w xs) ≡ take (w - r) (drop r xs)
drop-take zero w xs h = ap (λ k. take k xs) (omega arith)
drop-take (suc r) zero xs h = absurd (omega arith)
drop-take (suc r) (suc w) [] h = sym (take_all (suc w - suc r) [] (omega arith))
drop-take (suc r) (suc w) (x ∷ xs) h =
    drop-take r w xs (omega arith) ∙ ap (λ k. take k (drop r xs)) (omega arith)

pub take-take {ℓ} : {A : Type ℓ} (k m : ℕ) (xs : List A) → k ≤ m → take k (take m xs) ≡ take k xs
take-take zero m xs h = refl
take-take (suc k) zero xs h = absurd (omega arith)
take-take (suc k) (suc m) [] h = refl
take-take (suc k) (suc m) (x ∷ xs) h = ap (λ ys. x ∷ ys) (take-take k m xs (omega arith))

module _ (n : Node) (g : IsGood n) (k : ℕ) (le : k ≤ n.w_offset - n.r_offset) where
  -- The bytes that are read are the node's first.
  pub load_at-bytes : load_at n.cache.buff n.r_offset k ≡ some (take k (bytes n))
  load_at-bytes =
      let fit : leb (n.r_offset + k) (length n.cache.buff) ≡ true =
        ground (arith, g.ordered, g.within, g.block) in
      rw fit (ap some (sym same))
    where
      same : take k (bytes n) ≡ take k (drop n.r_offset n.cache.buff)
      same =
          ap (take k) (drop-take n.r_offset n.w_offset n.cache.buff g.ordered)
          ∙ take-take k (n.w_offset - n.r_offset) (drop n.r_offset n.cache.buff) le

  pub moved : int_add n.r_offset (to_int k) ≡ n.r_offset + k
  moved = omega (arith, g.ordered, g.within)

  abbrev pub moved_node : Node
  moved_node = record n { r_offset = int_add n.r_offset (to_int k) }

  pub moved_node-IsGood : IsGood moved_node
  moved_node-IsGood = record {
    ordered = omega (arith, moved, g.ordered);
    within = g.within;
    block = g.block;
    allocated = g.allocated;
  }

  pub bytes-moved_node : bytes moved_node ≡ drop k (bytes n)
  bytes-moved_node =
      ap (λ x. drop x (take n.w_offset n.cache.buff)) moved
      ∙ sym (drop-drop n.r_offset k (take n.w_offset n.cache.buff))

-- What is left of a buffer and its pool, after `k` bytes of its first node: every round takes bytes
-- or a node.
pub record Advanced (others : ℕ → ℕ) (k : ℕ) (b : Buffer) (q : Queue) : Type 0 where
  pub holds : contents q.buffer ≡ drop k (contents b)
  pub good : AllGood q.buffer
  pub owns : Owns q.pool (and_nodes q.buffer others)
  pub rounds : length q.buffer ≤ length b
  pub fewer : (0 < k) ⊎ (length q.buffer < length b)

module _ (others : ℕ → ℕ) (n : Node) (ns : List Node) (p : Pool) (k : ℕ) (g : IsGood n)
    (gs : AllGood ns) (o : Owns p (and_nodes (n ∷ ns) others))
    (le : k ≤ n.w_offset - n.r_offset) where
  short : k ≤ length (bytes n)
  short = omega (arith, length-bytes g)

  -- The node has been read to its end.
  finished :
      n.r_offset + k ≡ n.w_offset
      → Advanced others k (n ∷ ns) (record { buffer = ns; pool = (recycle_cache n.cache p).1 })
  unfolding contents
  finished e = record {
    holds = sym (
        drop-append_left k (bytes n) (contents ns) short
        ∙ ap (λ xs. xs ++ contents ns) (drop_all k (bytes n) (omega (arith, length-bytes g))));
    good = gs;
    owns =
        Owns-return n.cache (and_nodes ns others) (Owns-eq _ o (λ a. omega arith))
          (ground (arith, g.allocated)) (omega (arith, g.block, g.allocated));
    rounds = omega arith;
    fewer = inr (omega arith);
  }

  pub advance-Advanced :
      (0 < k) ⊎ (n.r_offset ≡ n.w_offset) → Advanced others k (n ∷ ns) (advance n ns k p)
  unfolding contents
  advance-Advanced some_step = elim (Bool-cases (int_add n.r_offset (to_int k) == n.w_offset)) [
    | inl e ↦ rw e (finished (ground (arith, moved n g k le)))
    | inr ne ↦ rw ne (record {
      holds =
          ap (λ xs. xs ++ contents ns) (bytes-moved_node n g k le)
          ∙ sym (drop-append_left k (bytes n) (contents ns) short);
      good = (moved_node-IsGood n g k le, gs);
      owns = Owns-eq _ o (λ a. omega arith);
      rounds = omega arith;
      fewer = ground (arith, moved n g k le);
    })
  ]
