-- ===== src/Buffer/Fill/Loop.antt =====
-- The loop of `read_into_buffer` and `write_into_buffer`: it ends within its fuel and in the bounds
-- of the blocks, and the nodes grow by the bytes that were transferred, in order.
use cosc402_assignment.Base.{
  ℕ, zero, suc, ◌+◌, ◌-◌, ◌^◌, ◌≤◌, ◌<◌, ◌≡◌, refl, sym, ap, ◌∙◌, ◌⊎◌, inl, inr, Bool, true, false,
  Option, none, some, List, [], ◌∷◌, ◌++◌, ◌||◌, append_assoc, append-nil, arith, ltb, lt→ltb, ◌==◌,
  Bool-cases,
}
use cosc402_assignment.Base.Lists.{length, length-append}
use cosc402_assignment.Base.Outcome.{Outcome, done, Returns, returns}
use cosc402_assignment.Base.Outcome
use cosc402_assignment.Base.Words.{int_sub, to_int, to_size, size_add, size_sub, min_size}
use cosc402_assignment.Cache.Ownership.{Owns, Owns-eq, and_at}
use cosc402_assignment.Buffer.Node.{
  Node, Mem, cache_size, IsGood, AllGood, AllGood-append, AllGood-left, AllGood-right, contents,
  contents_snoc, bytes_of_zero, store_bytes, Stored, store_bytes-Stored, new_node,
}
use cosc402_assignment.Buffer.Ownership.{
  count_nodes, count_nodes-append, and_nodes, NewNode, refused, supplied, new_node-NewNode,
  IsPlenty, new_node-IsPlenty,
}
use cosc402_assignment.Buffer.Fill.{
  Pull, got, failed, Cursor, settle, End, next_cursor, next_node, after_store, after_pull,
  fill_loop,
}
use cosc402_assignment.Buffer.Fill.Ends.{
  IsSource, IsExact, placed, IsReady, Kin, BuffKept, Kept, Ended, kept, broke, with_node,
  contents-stored, good_stored, Owns-stored, base_stored,
}

-- How many bytes a round asks for: some, no more than are missing or than there is room for, and as
-- many as one of the two.
record IsRound (size already w n : ℕ) : Type 0 where
  some_bytes : 0 < n
  missing : already + n ≤ size
  room : w + n ≤ 512
  full : (already + n ≡ size) ⊎ (w + n ≡ 512)

piece-IsRound :
    (size already w : ℕ)
    → size < 2 ^ 31
    → already < size
    → w < 512
    → IsRound size already w (min_size (size_sub size already) (to_size (int_sub cache_size w)))
piece-IsRound size already w small more room = ground arith

self_kept :
    (f : Bool) (b t : List Node) (n : Node)
    → Kin n n
    → BuffKept f b n (settle (record { buff = b; tmp = t; in_tmp = f; node = n })).buff
self_kept true b t n k = refl
self_kept false b t n k = (n, refl, k)

tmp_settled :
    (f : Bool) (b t : List Node) (n : Node)
    → AllGood t
    → IsGood n
    → AllGood (settle (record { buff = b; tmp = t; in_tmp = f; node = n })).tmp
tmp_settled true b t n gt gn = AllGood-append t (n ∷ []) gt (gn, tt)
tmp_settled false b t n gt gn = gt

stored_kept :
    (f : Bool) (b t : List Node) (n n' : Node) (b' : List Node)
    → Kin n n'
    → b' ≡ (settle (record { buff = b; tmp = t; in_tmp = f; node = n' })).buff
    → BuffKept f b n b'
stored_kept true b t n n' b' k e = e
stored_kept false b t n n' b' k e = (n', e, k)

module _ {S : Type 0} (pull : ℕ → S → Pull S) (incoming : S → List ℕ) (others : ℕ → ℕ) where
  -- What holds of the loop from a later cursor on, holds from the earlier one.
  Kept-earlier :
      (m m' : Mem) (c d : Cursor) (s s' : S) (bs : List ℕ) (already already' size : ℕ) (e : End S)
      → (m.answers ≡ [] → m'.answers ≡ [])
      → already' ≡ already + length bs
      → contents (placed d) ≡ contents (placed c) ++ bs
      → incoming s ≡ bs ++ incoming s'
      → length (contents (settle c).buff) ≤ length (contents (settle d).buff)
      → Kept pull incoming others m' d s' already' size e
      → Kept pull incoming others m c s already size e
  Kept-earlier m m' c d s s' bs already already' size e plenty count grown arrived base k = record {
    least = omega (arith, k.least);
    most = k.most;
    good = k.good;
    order =
        k.order
        ∙ ap (λ xs. xs ++ incoming s') grown
        ∙ append_assoc (contents (placed c)) bs (incoming s')
        ∙ ap (λ xs. contents (placed c) ++ xs) (sym arrived);
    counted = omega (arith, k.counted, ap length grown, length-append (contents (placed c)) bs);
    base = omega (arith, k.base);
    full = λ a x h.
        k.full (plenty a) x (omega (arith, ap length arrived, length-append bs (incoming s')));
    owns = k.owns;
  }

module _ {S : Type 0} (pull : ℕ → S → Pull S) (incoming : S → List ℕ) (src : IsSource pull incoming)
    (others : ℕ → ℕ) (size : ℕ) (small : size < 2 ^ 31) where
  abbrev Next : Type 0
  Next = ℕ → Cursor → Mem → S → Outcome (End S)

  -- The next round, with more than `base` bytes behind it, does what is claimed.
  abbrev Follows : ℕ → Next → Type 0
  Follows base next =
      (already : ℕ) (c : Cursor) (m : Mem) (s : S)
      → IsReady others c m
      → base < already
      → already < size
      → Returns (Ended pull incoming others m c s already size) (next already c m s)

  module _ (c : Cursor) (m : Mem) (s s' : S) (r : IsReady others c m) (bs : List ℕ) (n : Node)
      (st : Stored c.node bs n) (arrived : incoming s ≡ bs ++ incoming s') (already : ℕ)
      (fits : already + length bs ≤ size) where
    abbrev d : Cursor
    d = with_node c n

    kin : Kin c.node n
    kin = record {
      good = st.good;
      same_r = st.same_r;
      same_addr = st.same_addr;
      prefix = st.prefix;
    }

    -- The loop ends here, with what has been stored.
    stop :
        (m' : Mem)
        → (m.answers ≡ []
            → IsExact pull incoming
            → size ≤ already + length (incoming s)
            → already + length bs ≡ size)
        → Owns m'.pool (and_nodes (placed d) others)
        → Kept pull incoming others m c s already size (record {
          ret = to_int (size_add already (length bs));
          broke = false;
          lists = settle d;
          mem = m';
          rest = s';
        })
    stop m' whole o =
        let count : to_int (size_add already (length bs)) ≡ already + length bs = omega arith in
        Kept-earlier pull incoming others m m c d s s' bs already (already + length bs) size _
          (λ a. a) refl (contents-stored others c m r bs n st) arrived
          (base_stored others c m r bs n st)
          (record {
            least = omega (arith, count);
            most = omega (arith, count);
            good = good_stored others c m r bs n st;
            order = refl;
            counted = omega (arith, count);
            base = omega arith;
            full = λ a x h. omega (
              arith,
              count,
              whole a x (omega (arith, ap length arrived, length-append bs (incoming s'))),
            );
            owns = o;
          })

    -- What holds from the next round on, with a new node, holds from this one on.
    earlier :
        (x : Node) (m' : Mem) (e : End S)
        → (m.answers ≡ [] → m'.answers ≡ [])
        → contents (placed (next_cursor (settle d) x)) ≡ contents (placed d)
        → Ended pull incoming others m'
            (next_cursor (settle d) x)
            s'
            (size_add already (length bs))
            size
            e
        → Ended pull incoming others m c s already size e
    earlier x m' e plenty same (kept b k) = kept b (
        Kept-earlier pull incoming others m m' c (next_cursor (settle d) x) s s' bs already
          (size_add already (length bs)) size e plenty (omega arith)
          (same ∙ contents-stored others c m r bs n st) arrived (base_stored others c m r bs n st)
          k)
    earlier x m' e plenty same (broke b k) = broke b (record {
      cause = k.cause;
      tmp_good = k.tmp_good;
      buff = stored_kept c.in_tmp c.buff c.tmp c.node n e.lists.buff kin k.buff;
      owns = k.owns;
    })

    -- The loop goes on with a new node behind the full one.
    go_on :
        (next : Next) (x : Node) (m' : Mem)
        → Follows already next
        → 0 < length bs
        → already + length bs < size
        → (m.answers ≡ [] → m'.answers ≡ [])
        → IsGood x
        → x.w_offset ≡ 0
        → Owns m'.pool (and_at x.cache.addr (and_nodes (placed d) others))
        → Returns
            (Ended pull incoming others m c s already size)
            (next (size_add already (length bs)) (next_cursor (settle d) x) m' s')
    go_on next x m' follows pos more plenty g zero_w o =
        Outcome.mono
          (follows (size_add already (length bs)) (next_cursor (settle d) x) m' s'
            (record {
              buff_good =
                  AllGood-left (settle d).buff (settle d).tmp (good_stored others c m r bs n st);
              tmp_good =
                  AllGood-right (settle d).buff (settle d).tmp (good_stored others c m r bs n st);
              node_good = g;
              room = omega (arith, zero_w);
              last = inl refl;
              owns = Owns-eq _ o (λ a.
                  omega
                    (arith, ap (count_nodes a) behind, count_nodes-append a (placed d) (x ∷ [])));
            })
            (omega arith) (omega arith))
          (λ e. earlier x m' e plenty same)
      where
        behind : placed (next_cursor (settle d) x) ≡ placed d ++ (x ∷ [])
        behind = sym (append_assoc (settle d).buff (settle d).tmp (x ∷ []))

        same : contents (placed (next_cursor (settle d) x)) ≡ contents (placed d)
        same =
            ap contents behind
            ∙ contents_snoc (placed d) x
            ∙ ap (λ ys. contents (placed d) ++ ys) (bytes_of_zero x zero_w)
            ∙ append-nil (contents (placed d))

    after_node :
        (next : Next) (y : Option Node × Mem)
        → Follows already next
        → 0 < length bs
        → already + length bs < size
        → (m.answers ≡ [] → IsPlenty y)
        → NewNode (and_nodes (placed d) others) y
        → Returns
            (Ended pull incoming others m c s already size)
            (next_node pull next (size_add already (length bs)) (settle d) s' y)
    after_node next (none, m') follows pos more plenty (refused o) =
        returns (kept refl (stop m' (λ a x h. absurd (plenty a)) o))
    after_node next (some x, m') follows pos more plenty (supplied g zero_w o) =
        go_on next x m' follows pos more plenty g zero_w o

  after_got :
      (next : Next) (c : Cursor) (m : Mem) (s s' : S) (bs : List ℕ) (already rs : ℕ)
      → Follows already next
      → IsReady others c m
      → IsRound size already c.node.w_offset rs
      → length bs ≤ rs
      → (IsExact pull incoming → rs ≤ length (incoming s) → length bs ≡ rs)
      → incoming s ≡ bs ++ incoming s'
      → Returns
          (Ended pull incoming others m c s already size)
          (after_store pull next size rs already (length bs) c m s' (store_bytes c.node bs))
  after_got next c m s s' bs already rs follows r round le exact arrived =
      let fits : c.node.w_offset + length bs ≤ 512 = omega (arith, round.room) in
      let within : already + length bs ≤ size = omega (arith, round.missing) in
      let count : size_add already (length bs) ≡ already + length bs = omega arith in
      let (n, e, st) = store_bytes-Stored c.node bs r.node_good fits in
      rw (e, after_store)
        (elim (Bool-cases ((size_add already (length bs) == size) || ltb (length bs) rs)) [
          | inl ends ↦ rw ends (
              returns (
                kept refl (
                  stop c m s s' r bs n st arrived already within m
                    (λ a x h. ground (arith, exact x, round.missing))
                    (Owns-stored others c m r bs n st))))
          | inr goes ↦ rw goes (
              after_node c m s s' r bs n st arrived already within next (new_node m) follows
                (ground (arith, round.some_bytes)) (ground arith) (new_node-IsPlenty m r.owns.valid)
                (new_node-NewNode m (and_nodes (placed (with_node c n)) others)
                  (Owns-stored others c m r bs n st)))
        ])

  after_pulled :
      (next : Next) (c : Cursor) (m : Mem) (s : S) (already rs : ℕ) (p : Pull S)
      → Follows already next
      → IsReady others c m
      → IsRound size already c.node.w_offset rs
      → pull rs s ≡ p
      → Returns
          (Ended pull incoming others m c s already size)
          (after_pull pull next size rs already c m p)
  after_pulled next c m s already rs (failed ret s') follows r round e = returns (
      broke refl (record {
        cause = (rs, s, s', omega (arith, round.room), e);
        tmp_good = tmp_settled c.in_tmp c.buff c.tmp c.node r.tmp_good r.node_good;
        buff = self_kept c.in_tmp c.buff c.tmp c.node self;
        owns = r.owns;
      }))
    where
      self : Kin c.node c.node
      self = record { good = r.node_good; same_r = refl; same_addr = refl; prefix = refl }
  after_pulled next c m s already rs (got bs s') follows r round e =
      after_got next c m s s' bs already rs follows r round (src.within rs s s' bs e)
        (λ x h. x rs s s' bs e h) (src.in_order rs s s' bs e)

  -- With more fuel than bytes are missing the loop ends, in one of the two ways.
  pub fill_loop-Ended :
      (fuel already : ℕ) (c : Cursor) (m : Mem) (s : S)
      → IsReady others c m
      → already < size
      → size - already < fuel
      → Returns
          (Ended pull incoming others m c s already size)
          (fill_loop pull fuel size already c m s)
  unfolding fill_loop
  fill_loop-Ended zero already c m s r more enough = absurd (omega arith)
  fill_loop-Ended (suc fuel) already c m s r more enough = rw (lt→ltb already size more) (
      after_pulled (fill_loop pull fuel size) c m s already _ _
        (λ already' c' m' s' r' later more'.
          fill_loop-Ended fuel already' c' m' s' r' more' (omega arith))
        r (piece-IsRound size already c.node.w_offset small more r.room) refl)
