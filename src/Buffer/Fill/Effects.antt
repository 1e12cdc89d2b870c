-- ===== src/Buffer/Fill/Effects.antt =====
-- What `read_into_buffer` and `write_into_buffer` do to the buffer as a queue of bytes.
use cosc402_assignment.Base.{
  ℕ, zero, suc, ◌+◌, ◌^◌, ◌≤◌, ◌<◌, ◌≡◌, ◌≢◌, refl, sym, ap, ◌∙◌, ◌⊎◌, inl, inr, true, false,
  Option, none, some, List, [], ◌∷◌, ◌++◌, append-nil, arith, ◌==◌, Bool-cases, ==_self,
  if◌then◌else◌,
}
use cosc402_assignment.Base.Lists.{
  length, take, drop, split_last, split_last-append, last_cases, length-append,
}
use cosc402_assignment.Base.Outcome.{Outcome, done, fault, Returns, returns}
use cosc402_assignment.Base.Outcome
use cosc402_assignment.Base.Words.{to_int, to_size, int_pos, size_max}
use cosc402_assignment.Cache.Ownership.{Owns, Owns-eq}
use cosc402_assignment.Buffer.Node.{
  Node, Buffer, Mem, IsGood, AllGood, AllGood-append, AllGood-left, AllGood-right, bytes, contents,
  contents-append, contents_snoc, bytes_of_zero, new_node,
}
use cosc402_assignment.Buffer.Ownership.{
  count_nodes, count_nodes-append, and_nodes, NewNode, refused, supplied, new_node-NewNode,
  IsPlenty, new_node-IsPlenty, recycle_nodes-Owns,
}
use cosc402_assignment.Buffer.Fill.{
  Pull, Cursor, settle, End, Result, fill_loop, roll_back, finish, needs_node, spliced, fill_new,
  fill_last, fill,
}
use cosc402_assignment.Buffer.Fill.Ends.{
  IsSource, IsExact, HasFailed, all_nodes, placed, IsReady, Kin, Kept, Broke, Ended, kept, broke,
}
use cosc402_assignment.Buffer.Fill.Loop.{fill_loop-Ended}

-- Requests of at most a block do not fail.
abbrev pub IsReliable : {S : Type 0} → (ℕ → S → Pull S) → Type 0
IsReliable {S} pull = (ret : ℕ) → ¬ HasFailed pull ret

-- The last node has room, so the functions go on in it.
abbrev pub HasRoom : Buffer → Type 0
HasRoom b = needs_node (split_last b) ≡ false

module _ {S : Type 0} (pull : ℕ → S → Pull S) (incoming : S → List ℕ) (others : ℕ → ℕ) (b : Buffer)
    (m : Mem) (s : S) (size : ℕ) where
  -- How the function may end: there was no memory for a first node, and nothing has changed; or
  -- `ret` bytes of the source, at most `size`, stand behind the others; or the source failed with
  -- what is returned, and the bytes in the buffer are those from before.
  pub data How (r : Result S) : Type 0 where
    no_node : r.ret ≡ size_max → r.buffer ≡ b → r.rest ≡ s → (m.answers ≢ []) → How r
    appended :
        r.ret ≤ size
        → contents r.buffer ++ incoming r.rest ≡ contents b ++ incoming s
        → length (contents r.buffer) ≡ length (contents b) + r.ret
        → (m.answers ≡ [] → IsExact pull incoming → size ≤ length (incoming s) → r.ret ≡ size)
        → How r
    restored :
        (ret : ℕ)
        → r.ret ≡ to_size ret
        → HasFailed pull ret
        → contents r.buffer ≡ contents b
        → How r

  -- `lost` are the nodes of `tmp_list` when the functions return 0: these are neither joined on nor
  -- recycled, and hold no bytes.
  pub record Filled (r : Result S) : Type 0 where
    pub how : How r
    pub good : AllGood r.buffer
    pub lost : List Node
    pub owns : Owns r.mem.pool (and_nodes r.buffer (and_nodes lost others))
    pub no_loss : 0 < r.ret → lost ≡ []
    pub lost_empty : contents lost ≡ []

nil_of_length {ℓ} : {A : Type ℓ} (xs : List A) → length xs ≡ 0 → xs ≡ []
nil_of_length [] e = refl
nil_of_length (x ∷ xs) e = absurd (omega arith)

module _ {S : Type 0} (pull : ℕ → S → Pull S) (incoming : S → List ℕ) (src : IsSource pull incoming)
    (others : ℕ → ℕ) (size : ℕ) (small : size < 2 ^ 31) where
  -- The loop from its start, where `size` may be 0.
  started-Ended :
      (n : ℕ) (c : Cursor) (m : Mem) (s : S)
      → n ≡ size
      → IsReady others c m
      → AllGood (placed c)
      → Returns (Ended pull incoming others m c s 0 n) (fill_loop pull (suc n) n 0 c m s)
  unfolding fill_loop
  started-Ended zero c m s e r g = returns (
      kept refl (record {
        least = omega arith;
        most = omega arith;
        good = g;
        order = refl;
        counted = omega arith;
        base = omega arith;
        full = λ a x h. refl;
        owns = r.owns;
      }))
  started-Ended (suc n) c m s e r g =
      fill_loop-Ended pull incoming src others (suc n) (omega arith) (suc (suc n)) 0 c m s r
        (omega arith) (omega arith)

  module _ (b : Buffer) (m m' : Mem) (s : S) (c : Cursor)
      (plenty : m.answers ≡ [] → m'.answers ≡ []) (same : contents (placed c) ≡ contents b)
      (base : length (contents (settle c).buff) ≡ length (contents b)) where
    dropped : End S → List Node
    dropped e = if int_pos e.ret then [] else e.lists.tmp

    -- All the nodes are joined on, or `ret` is 0 and those of `tmp_list` hold nothing.
    joined :
        (e : End S)
        → Kept pull incoming others m' c s 0 size e
        → let nodes = spliced (int_pos e.ret) e.lists in
          (contents nodes ≡ contents (all_nodes e.lists))
          × AllGood nodes
          × Owns e.mem.pool (and_nodes nodes (and_nodes (dropped e) others))
          × (contents (dropped e) ≡ [])
    unfolding dropped contents
    joined e k = elim (Bool-cases (int_pos e.ret)) [
      | inl pos ↦ rw pos (refl, k.good, Owns-eq _ k.owns (λ a. omega arith), refl)
      | inr not_pos ↦
          let empty : contents e.lists.tmp ≡ [] = nil_of_length (contents e.lists.tmp) (
            omega (
              arith,
              k.counted,
              k.base,
              ap length same,
              base,
              zero_of e.ret not_pos,
              ap length (contents-append e.lists.buff e.lists.tmp),
              length-append (contents e.lists.buff) (contents e.lists.tmp),
            )) in
          rw not_pos (
            sym (
                contents-append e.lists.buff e.lists.tmp
                ∙ ap (λ xs. contents e.lists.buff ++ xs) empty
                ∙ append-nil (contents e.lists.buff)),
            AllGood-left e.lists.buff e.lists.tmp k.good,
            Owns-eq _ k.owns (λ a. omega (arith, count_nodes-append a e.lists.buff e.lists.tmp)),
            empty,
          )
    ]
      where
        zero_of : (ret : ℕ) → int_pos ret ≡ false → ret ≤ size → ret ≡ 0
        zero_of ret h le = ground arith

    -- The loop ended well: `ret > 0` decides whether `tmp_list` is joined on.
    finish-Kept :
        (last_w : ℕ) (e : End S)
        → e.broke ≡ false
        → Kept pull incoming others m' c s 0 size e
        → Returns (Filled pull incoming others b m s size) (finish last_w e)
    unfolding dropped
    finish-Kept last_w e ok k =
        let (whole, good, owns, lost_empty) = joined e k in
        let ret : to_size e.ret ≡ e.ret = ground (arith, k.most) in
        let moved : 0 < to_size e.ret → int_pos e.ret ≡ true = λ pos. ground (arith, k.most) in
        let step : Filled pull incoming others b m s size (record {
          ret = to_size e.ret;
          buffer = spliced (int_pos e.ret) e.lists;
          mem = e.mem;
          rest = e.rest;
        }) =
          record {
            how =
                appended (omega (arith, ret, k.most))
                  (ap (λ xs. xs ++ incoming e.rest) whole
                    ∙ k.order
                    ∙ ap (λ xs. xs ++ incoming s) same)
                  (omega (arith, ap length whole, k.counted, ap length same, ret))
                  (λ a x h. omega (arith, k.full (plenty a) x (omega arith), ret));
            good = good;
            lost = dropped e;
            owns = owns;
            no_loss = λ pos. ap (λ x. if x then [] else e.lists.tmp) (moved pos);
            lost_empty = lost_empty;
          } in
        Outcome.Returns-else _ ok (returns step)

  -- The source failed while the existing last node was written to: its `w_offset` is put back, and
  -- the nodes of `tmp_list` are recycled.
  module _ (b front : List Node) (n : Node) (m m' : Mem) (s : S) (g : AllGood b) (gn : IsGood n)
      (eb : b ≡ front ++ (n ∷ [])) where
    reset : Node → Node
    reset n' = record n' { w_offset = to_int (to_size n.w_offset) }

    reset-IsGood : (n' : Node) → Kin n n' → IsGood (reset n')
    unfolding reset
    reset-IsGood n' k = record {
      ordered = ground (arith, gn.ordered, gn.within, k.same_r);
      within = ground (arith, gn.within);
      block = k.good.block;
      allocated = k.good.allocated;
    }

    bytes-reset : (n' : Node) → Kin n n' → bytes (reset n') ≡ bytes n
    unfolding reset
    bytes-reset n' k =
        let w : to_int (to_size n.w_offset) ≡ n.w_offset = ground (arith, gn.within) in
        ap (λ x. drop n'.r_offset (take x n'.cache.buff)) w
        ∙ ap (drop n'.r_offset) k.prefix
        ∙ ap (λ x. drop x (take n.w_offset n.cache.buff)) k.same_r

    contents-reset : (n' : Node) → Kin n n' → contents (front ++ (reset n' ∷ [])) ≡ contents b
    contents-reset n' k =
        contents_snoc front (reset n')
        ∙ ap (λ xs. contents front ++ xs) (bytes-reset n' k)
        ∙ sym (contents_snoc front n)
        ∙ ap contents (sym eb)

    finish-Broke :
        (e : End S)
        → e.broke ≡ true
        → Broke pull incoming others (record { buff = front; tmp = []; in_tmp = false; node = n }) e
        → Returns (Filled pull incoming others b m s size) (finish (to_size n.w_offset) e)
    unfolding reset contents
    finish-Broke e bad k =
        let (n', eq, kin) = k.buff in
        let last : split_last e.lists.buff ≡ some (front, n') =
          ap split_last eq ∙ split_last-append front n' in
        Outcome.Returns-then _ bad (
          rw (last, roll_back)
            (returns (record {
              how = restored e.ret refl k.cause (contents-reset n' kin);
              good =
                  AllGood-append front (reset n' ∷ []) (AllGood-left front (n ∷ []) (rw eb at g))
                    (reset-IsGood n' kin, tt);
              lost = [];
              no_loss = λ pos. refl;
              lost_empty = refl;
              owns =
                  recycle_nodes-Owns e.lists.tmp e.mem.pool
                    (and_nodes (front ++ (reset n' ∷ [])) (and_nodes [] others)) k.tmp_good
                    (Owns-eq _ k.owns (λ a. omega (
                      arith,
                      count_nodes-append a e.lists.buff e.lists.tmp,
                      ap (count_nodes a) eq,
                      count_nodes-append a front (n' ∷ []),
                      count_nodes-append a front (reset n' ∷ []),
                    )));
            })))

  -- Started in the existing last node.
  fill_last-Filled :
      (b front : List Node) (n : Node) (m : Mem) (s : S)
      → b ≡ front ++ (n ∷ [])
      → AllGood b
      → n.w_offset ≢ 512
      → Owns m.pool (and_nodes b others)
      → Returns (Filled pull incoming others b m s size) (fill_last pull size s m (some (front, n)))
  fill_last-Filled b front n m s eb g ne o =
      Outcome.bind (started-Ended size c m s refl ready (rw same g)) after
    where
      gn : IsGood n
      gn = (AllGood-right front (n ∷ []) (rw eb at g)).0

      c : Cursor
      c = record { buff = front; tmp = []; in_tmp = false; node = n }

      same : placed c ≡ b
      same = append-nil (front ++ (n ∷ [])) ∙ sym eb

      ready : IsReady others c m
      ready = record {
        buff_good = AllGood-left front (n ∷ []) (rw eb at g);
        tmp_good = tt;
        node_good = gn;
        room = grind (arith, gn.within);
        last = inr refl;
        owns = Owns-eq _ o (λ a. omega (arith, ap (count_nodes a) same));
      }

      after :
          (e : End S)
          → Ended pull incoming others m c s 0 size e
          → Returns (Filled pull incoming others b m s size) (finish (to_size n.w_offset) e)
      after e (kept ok k) =
          finish-Kept b m m s c (λ a. a) (ap contents same) (ap (λ x. length (contents x)) (sym eb))
            (to_size n.w_offset) e ok k
      after e (broke bad k) = finish-Broke b front n m m s g gn eb e bad k

  -- Started in a new node.
  fill_new-Filled :
      (b : Buffer) (m : Mem) (s : S) (y : Option Node × Mem)
      → AllGood b
      → IsReliable pull
      → (m.answers ≡ [] → IsPlenty y)
      → NewNode (and_nodes b others) y
      → Returns (Filled pull incoming others b m s size) (fill_new pull size b s y)
  unfolding contents
  fill_new-Filled b m s (none, m') g reliable plenty (refused o) = returns (record {
    how = no_node refl refl refl plenty;
    good = g;
    lost = [];
    owns = Owns-eq _ o (λ a. omega arith);
    no_loss = λ pos. refl;
    lost_empty = refl;
  })
  fill_new-Filled b m s (some n, m') g reliable plenty (supplied gn zero_w o) =
      Outcome.bind (started-Ended size c m' s refl ready (AllGood-append b (n ∷ []) g (gn, tt)))
        after
    where
      c : Cursor
      c = record { buff = b; tmp = []; in_tmp = true; node = n }

      ready : IsReady others c m'
      ready = record {
        buff_good = g;
        tmp_good = tt;
        node_good = gn;
        room = omega (arith, zero_w);
        last = inl refl;
        owns = Owns-eq _ o (λ a. omega (arith, count_nodes-append a b (n ∷ [])));
      }

      same : contents (placed c) ≡ contents b
      same =
          contents_snoc b n
          ∙ ap (λ ys. contents b ++ ys) (bytes_of_zero n zero_w)
          ∙ append-nil (contents b)

      after :
          (e : End S)
          → Ended pull incoming others m' c s 0 size e
          → Returns (Filled pull incoming others b m s size) (finish size_max e)
      after e (kept ok k) = finish-Kept b m m' s c plenty same refl size_max e ok k
      after e (broke bad k) = absurd (reliable e.ret k.cause)

  -- In a buffer whose nodes are good, and with a source that does not fail or a last node that has
  -- room, the function returns, and what it has done is one of three things (see `How`).
  pub fill-Filled :
      (b : Buffer) (m : Mem) (s : S)
      → AllGood b
      → Owns m.pool (and_nodes b others)
      → HasRoom b ⊎ IsReliable pull
      → Returns (Filled pull incoming others b m s size) (fill pull size b m s)
  unfolding fill
  fill-Filled b m s g o safe = elim (Bool-cases (needs_node (split_last b))) [
    | inl fresh ↦ Outcome.Returns-then _ fresh (
        fill_new-Filled b m s (new_node m) g (reliable_of fresh safe) (new_node-IsPlenty m o.valid)
          (new_node-NewNode m (and_nodes b others) o))
    | inr room ↦ Outcome.Returns-else _ room (in_last (last_cases b) room)
  ]
    where
      reliable_of : needs_node (split_last b) ≡ true → HasRoom b ⊎ IsReliable pull → IsReliable pull
      reliable_of fresh (inl room) = absurd (cc (fresh, room))
      reliable_of fresh (inr r) = r

      in_last :
          (b ≡ []) ⊎ ((front : Buffer) × (n : Node) × (b ≡ front ++ (n ∷ [])))
          → HasRoom b
          → Returns
              (Filled pull incoming others b m s size)
              (fill_last pull size s m (split_last b))
      in_last (inl e) room = absurd (cc (ap (λ x. needs_node (split_last x)) e, room))
      in_last (inr (front, n, e)) room =
          let last : split_last b ≡ some (front, n) = ap split_last e ∙ split_last-append front n in
          rw last (
            fill_last-Filled b front n m s e g
              (λ w. cc (room, ap needs_node last, ap (λ x. x == 512) w, ==_self 512)) o)
