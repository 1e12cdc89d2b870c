-- ===== src/Buffer/Ownership.antt =====
-- The blocks that the nodes of a buffer hold, and where a new node's block comes from.
use cosc402_assignment.Base.{
  ℕ, ◌+◌, ◌≡◌, refl, Bool, Option, none, some, List, [], ◌∷◌, ◌++◌, inl, inr, arith, ◌==◌,
  if◌then◌else◌, Bool-cases,
}
use cosc402_assignment.Cache.{Cache, Pool, get_new_cache}
use cosc402_assignment.Cache.Classes.{IsLeastSize}
use cosc402_assignment.Cache.Invariant.{IsValid, Grants, get_new_cache-Grants}
use cosc402_assignment.Cache.Ownership.{Owns, Owns-eq, Owns-grant, Owns-return, and_at}
use cosc402_assignment.Buffer.Node.{
  Node, Mem, IsGood, AllGood, new_node, new_node_with, next_answer, later_answers,
}
use cosc402_assignment.Buffer.Fill.{recycle_nodes}

-- How many of the nodes hold the block at the address `a`.
abbrev pub count_nodes : ℕ → List Node → ℕ
count_nodes a [] = 0
count_nodes a (n ∷ ns) = (if n.cache.addr == a then 1 else 0) + count_nodes a ns

pub count_nodes-append :
    (a : ℕ) (b d : List Node) → count_nodes a (b ++ d) ≡ count_nodes a b + count_nodes a d
count_nodes-append a [] d = omega arith
count_nodes-append a (n ∷ b) d = omega (arith, count_nodes-append a b d)

-- The nodes of `b` hold their blocks, beside what `others` counts.
abbrev pub and_nodes : List Node → (ℕ → ℕ) → ℕ → ℕ
and_nodes b others a = count_nodes a b + others a

-- What `new_node` gives: nothing, or an empty node with a block that nobody else holds.
pub data NewNode (f : ℕ → ℕ) : Option Node × Mem → Type 0 where
  refused : {m : Mem} → Owns m.pool f → NewNode f (none, m)
  supplied :
      {n : Node} {m : Mem}
      → IsGood n
      → n.w_offset ≡ 0
      → Owns m.pool (and_at n.cache.addr f)
      → NewNode f (some n, m)

least_512 : (n : ℕ) → IsLeastSize 512 n → n ≡ 512
least_512 n l = omega (arith, l.fits, l.least 512 (ground arith) (omega arith))

new_node_with-NewNode :
    (answers : List Bool) (f : ℕ → ℕ) (p : Pool) (r : Option Cache × Pool)
    → Owns p f
    → Grants 512 p r
    → NewNode f (new_node_with answers r)
new_node_with-NewNode answers f p (none, p') o g = absurd g
new_node_with-NewNode answers f p (some c, p') o g =
    let size : c.allocated_size ≡ 512 = least_512 c.allocated_size g.size in
    supplied
      (record {
        ordered = omega arith;
        within = omega arith;
        block = omega (arith, g.held.memory, size);
        allocated = size;
      })
      refl (Owns-grant o g)

pub new_node-NewNode : (m : Mem) (f : ℕ → ℕ) → Owns m.pool f → NewNode f (new_node m)
unfolding new_node
new_node-NewNode m f o = elim (Bool-cases (next_answer m.answers)) [
  | inl e ↦
      rw (e, new_node)
        (new_node_with-NewNode (later_answers m.answers) f m.pool (get_new_cache 512 m.pool) o
          (get_new_cache-Grants 512 (omega arith) o.valid))
  | inr e ↦ rw (e, new_node) (refused o)
]

-- There is a node, and `malloc` will not refuse from here on.
abbrev pub IsPlenty : Option Node × Mem → Type 0
IsPlenty (none, m) = ⊥
IsPlenty (some n, m) = m.answers ≡ []

new_node_with-IsPlenty :
    (answers : List Bool) (p : Pool) (r : Option Cache × Pool)
    → answers ≡ []
    → Grants 512 p r
    → IsPlenty (new_node_with answers r)
new_node_with-IsPlenty answers p (none, p') e g = absurd g
new_node_with-IsPlenty answers p (some c, p') e g = e

-- Without a refusal of `malloc` there is a node.
pub new_node-IsPlenty : (m : Mem) → IsValid m.pool → m.answers ≡ [] → IsPlenty (new_node m)
unfolding new_node
new_node-IsPlenty m v e =
    rw (e, new_node)
      (new_node_with-IsPlenty [] m.pool (get_new_cache 512 m.pool) refl
        (get_new_cache-Grants 512 (omega arith) v))

-- Nodes whose blocks are recycled are not held any more.
pub recycle_nodes-Owns :
    (ns : List Node) (p : Pool) (f : ℕ → ℕ)
    → AllGood ns
    → Owns p (and_nodes ns f)
    → Owns (recycle_nodes ns p) f
unfolding recycle_nodes
recycle_nodes-Owns [] p f g o = Owns-eq f o (λ a. omega arith)
recycle_nodes-Owns (n ∷ ns) p f g o =
    Owns-return n.cache f
      (recycle_nodes-Owns ns p (and_at n.cache.addr f) g.1
        (Owns-eq (and_nodes ns (and_at n.cache.addr f)) o (λ a. omega arith)))
      (ground (arith, g.0.allocated)) (omega (arith, g.0.block, g.0.allocated))
