-- ===== src/Buffer/Fill/Ends.antt =====
-- What the loop of `read_into_buffer` and `write_into_buffer` is entered with, what one stored piece
-- changes, and how the loop may end.
use cosc402_assignment.Base.{
  ℕ, ◌+◌, ◌≤◌, ◌<◌, ◌≡◌, sym, ap, ◌∙◌, ◌⊎◌, inl, inr, Bool, true, false, List, [], ◌∷◌, ◌++◌,
  append_assoc, append-nil, arith, ◌==◌, if◌then◌else◌,
}
use cosc402_assignment.Base.Lists.{length, take, length-append}
use cosc402_assignment.Cache.Ownership.{Owns, Owns-eq}
use cosc402_assignment.Buffer.Node.{
  Node, Buffer, Mem, IsGood, AllGood, AllGood-append, bytes, contents, contents_snoc, Stored,
}
use cosc402_assignment.Buffer.Ownership.{count_nodes, count_nodes-append, and_nodes}
use cosc402_assignment.Buffer.Fill.{Pull, got, failed, Cursor, Lists, settle, End}

-- What is relied on of a source: it gives no more than was asked for, and the bytes in order. Of a
-- source in the state `s`, `incoming s` lists the bytes that are still to come.
pub record IsSource {S : Type 0} (pull : ℕ → S → Pull S) (incoming : S → List ℕ) : Type 0 where
  pub within : (n : ℕ) (s s' : S) (bs : List ℕ) → pull n s ≡ got bs s' → length bs ≤ n
  pub in_order :
      (n : ℕ) (s s' : S) (bs : List ℕ) → pull n s ≡ got bs s' → incoming s ≡ bs ++ incoming s'

-- The nodes in the order of the buffer after a splice.
abbrev pub all_nodes : Lists → Buffer
all_nodes l = l.buff ++ l.tmp

abbrev pub placed : Cursor → Buffer
placed c = all_nodes (settle c)

-- The cursor's node has room, and stands behind all others.
pub record IsReady (others : ℕ → ℕ) (c : Cursor) (m : Mem) : Type 0 where
  pub buff_good : AllGood c.buff
  pub tmp_good : AllGood c.tmp
  pub node_good : IsGood c.node
  pub room : c.node.w_offset < 512
  pub last : (c.in_tmp ≡ true) ⊎ (c.tmp ≡ [])
  pub owns : Owns m.pool (and_nodes (placed c) others)

-- What the existing last node keeps while bytes are stored behind it.
pub record Kin (n n' : Node) : Type 0 where
  pub good : IsGood n'
  pub same_r : n'.r_offset ≡ n.r_offset
  pub same_addr : n'.cache.addr ≡ n.cache.addr
  pub prefix : take n.w_offset n'.cache.buff ≡ take n.w_offset n.cache.buff

-- What has become of the buffer's nodes `b`, with the node `n` at their end unless that is a new one.
abbrev pub BuffKept : Bool → List Node → Node → List Node → Type 0
BuffKept true b n b' = b' ≡ b
BuffKept false b n b' = (n' : Node) × (b' ≡ b ++ (n' ∷ [])) × Kin n n'

-- The source gives as many bytes as it is asked for while it has them.
abbrev pub IsExact : {S : Type 0} → (ℕ → S → Pull S) → (S → List ℕ) → Type 0
IsExact {S} pull incoming =
    (n : ℕ) (s s' : S) (bs : List ℕ)
    → pull n s ≡ got bs s'
    → n ≤ length (incoming s)
    → length bs ≡ n

-- A request of at most a block failed with the value `ret`.
abbrev pub HasFailed : {S : Type 0} → (ℕ → S → Pull S) → ℕ → Type 0
HasFailed {S} pull ret = (n : ℕ) × (s : S) × (s' : S) × (n ≤ 512) × (pull n s ≡ failed ret s')

module _ {S : Type 0} (pull : ℕ → S → Pull S) (incoming : S → List ℕ) (others : ℕ → ℕ) where
  -- The loop began with the memory `m`, the cursor `c` and `already` bytes, and ended with `e`, not
  -- by an error.
  pub record Kept (m : Mem) (c : Cursor) (s : S) (already size : ℕ) (e : End S) : Type 0 where
    pub least : already ≤ e.ret
    pub most : e.ret ≤ size
    pub good : AllGood (all_nodes e.lists)
    pub order : contents (all_nodes e.lists) ++ incoming e.rest ≡ contents (placed c) ++ incoming s
    pub counted :
        length (contents (all_nodes e.lists)) + already ≡ length (contents (placed c)) + e.ret
    pub base : length (contents (settle c).buff) ≤ length (contents e.lists.buff)
    pub full :
        m.answers ≡ [] → IsExact pull incoming → size ≤ already + length (incoming s) → e.ret ≡ size
    pub owns : Owns e.mem.pool (and_nodes (all_nodes e.lists) others)

  -- It ended by an error: the nodes of the buffer are there, the last one perhaps longer.
  pub record Broke (c : Cursor) (e : End S) : Type 0 where
    pub cause : HasFailed pull e.ret
    pub tmp_good : AllGood e.lists.tmp
    pub buff : BuffKept c.in_tmp c.buff c.node e.lists.buff
    pub owns : Owns e.mem.pool (and_nodes (all_nodes e.lists) others)

  pub data Ended (m : Mem) (c : Cursor) (s : S) (already size : ℕ) (e : End S) : Type 0 where
    kept : e.broke ≡ false → Kept m c s already size e → Ended m c s already size e
    broke : e.broke ≡ true → Broke c e → Ended m c s already size e

placed-eq :
    (b t : List Node) (f : Bool) (n : Node)
    → (f ≡ true) ⊎ (t ≡ [])
    → placed (record { buff = b; tmp = t; in_tmp = f; node = n }) ≡ (b ++ t) ++ (n ∷ [])
placed-eq b t true n h = sym (append_assoc b t (n ∷ []))
placed-eq b t false n (inl e) = absurd (cc e)
placed-eq b t false n (inr e) =
    rw e (append-nil (b ++ (n ∷ [])) ∙ ap (λ xs. xs ++ (n ∷ [])) (sym (append-nil b)))

lead : Cursor → Buffer
lead c = c.buff ++ c.tmp

placed-lead : (c : Cursor) → (c.in_tmp ≡ true) ⊎ (c.tmp ≡ []) → placed c ≡ lead c ++ (c.node ∷ [])
unfolding lead
placed-lead c h = placed-eq c.buff c.tmp c.in_tmp c.node h

contents-placed :
    (c : Cursor)
    → (c.in_tmp ≡ true) ⊎ (c.tmp ≡ [])
    → contents (placed c) ≡ contents (lead c) ++ bytes c.node
contents-placed c h = ap contents (placed-lead c h) ∙ contents_snoc (lead c) c.node

base_of :
    (b t : List Node) (f : Bool) (n n' : Node)
    → length (bytes n) ≤ length (bytes n')
    → length (contents (settle (record { buff = b; tmp = t; in_tmp = f; node = n })).buff)
      ≤ length (contents (settle (record { buff = b; tmp = t; in_tmp = f; node = n' })).buff)
base_of b t true n n' le = omega arith
base_of b t false n n' le = omega (
  arith,
  ap length (contents_snoc b n),
  ap length (contents_snoc b n'),
  length-append (contents b) (bytes n),
  length-append (contents b) (bytes n'),
)

abbrev pub with_node : Cursor → Node → Cursor
with_node c n = record c { node = n }

-- Storing bytes in the cursor's node.
module _ (others : ℕ → ℕ) (c : Cursor) (m : Mem) (r : IsReady others c m) (bs : List ℕ) (n : Node)
    (st : Stored c.node bs n) where
  pub contents-stored : contents (placed (with_node c n)) ≡ contents (placed c) ++ bs
  unfolding lead
  contents-stored =
      contents-placed (with_node c n) r.last
      ∙ ap (λ xs. contents (lead c) ++ xs) st.holds
      ∙ sym (append_assoc (contents (lead c)) (bytes c.node) bs)
      ∙ ap (λ xs. xs ++ bs) (sym (contents-placed c r.last))

  pub good_stored : AllGood (placed (with_node c n))
  unfolding lead
  good_stored = rw (placed-lead (with_node c n) r.last) (
      AllGood-append (lead c) (n ∷ []) (AllGood-append c.buff c.tmp r.buff_good r.tmp_good)
        (st.good, tt))

  pub count_stored : (a : ℕ) → count_nodes a (placed (with_node c n)) ≡ count_nodes a (placed c)
  unfolding lead
  count_stored a =
      ap (count_nodes a) (placed-lead (with_node c n) r.last)
      ∙ count_nodes-append a (lead c) (n ∷ [])
      ∙ ap (λ k. count_nodes a (lead c) + ((if k == a then 1 else 0) + 0)) st.same_addr
      ∙ sym (count_nodes-append a (lead c) (c.node ∷ []))
      ∙ ap (count_nodes a) (sym (placed-lead c r.last))

  pub Owns-stored : Owns m.pool (and_nodes (placed (with_node c n)) others)
  Owns-stored = Owns-eq _ r.owns (λ a. omega (arith, count_stored a))

  pub base_stored :
      length (contents (settle c).buff) ≤ length (contents (settle (with_node c n)).buff)
  base_stored =
      base_of c.buff c.tmp c.in_tmp c.node n
        (omega (arith, ap length st.holds, length-append (bytes c.node) bs))
