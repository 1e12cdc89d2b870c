-- ===== src/Buffer/Fill/Laws.antt =====
-- What a caller of `read_into_buffer` and `write_into_buffer` may rely on, and the read that fails
-- where the buffer has no node yet.
use cosc402_assignment.Base.{
  ℕ, ◌+◌, ◌^◌, ◌≤◌, ◌<◌, ◌≡◌, ◌≢◌, refl, sym, ap, ◌∙◌, ◌⊎◌, inl, inr, false, some, List, [], ◌++◌,
  arith, lt→ltb, Bool-cases,
}
use cosc402_assignment.Base.Lists.{
  length, take, drop, take-append_right, take-append_left, take_all, length-take, take-append-drop,
}
use cosc402_assignment.Base.Outcome.{Outcome, done, fault, Returns}
use cosc402_assignment.Base.Outcome
use cosc402_assignment.Base.Words.{to_int, int_neg, int_sub, to_size, size_sub, min_size, size_max}
use cosc402_assignment.Cache.Ownership.{Owns}
use cosc402_assignment.Buffer.Node.{Node, Buffer, Mem, AllGood, contents, new_node, cache_size}
use cosc402_assignment.Buffer.Ownership.{and_nodes}
use cosc402_assignment.Buffer.Fill.{
  Pull, got, failed, Result, copy, write_into_buffer, read_into_buffer, fill, fill_loop, fill_new,
  after_pull,
}
use cosc402_assignment.Buffer.Fill.Ends.{IsSource, IsExact}
use cosc402_assignment.Buffer.Fill.Effects.{
  IsReliable, HasRoom, How, no_node, appended, restored, Filled, fill-Filled,
}

copy-cases :
    (n : ℕ) (src s' bs : List ℕ) → copy n src ≡ got bs s' → (bs ≡ take n src) × (s' ≡ drop n src)
copy-cases n src s' bs e = elim (Bool-cases (int_neg (to_int n))) [
  | inl neg ↦ absurd (cc (rw neg at e))
  | inr ok ↦ let e' = rw ok at e in (cc e', cc e')
]

copy-IsSource : IsSource copy (λ src. src)
copy-IsSource = record {
  within = λ n s s' bs e. omega (arith, ap length (copy-cases n s s' bs e).0, length-take n s);
  in_order = λ n s s' bs e.
      sym (take-append-drop n s)
      ∙ ap (λ xs. xs ++ drop n s) (sym (copy-cases n s s' bs e).0)
      ∙ ap (λ xs. bs ++ xs) (sym (copy-cases n s s' bs e).1);
}

copy-IsExact : IsExact copy (λ src. src)
copy-IsExact n s s' bs e le = omega (arith, ap length (copy-cases n s s' bs e).0, length-take n s)

copy-IsReliable : IsReliable copy
copy-IsReliable ret (n, s, s', le, e) =
    let fine : int_neg (to_int n) ≡ false = ground arith in absurd (cc (rw fine at e))

-- How `write_into_buffer` ends: without memory for a first node it returns (size_t) -1 and changes
-- nothing; else the first `ret` bytes of the block stand behind those of the buffer, and these are
-- all if `malloc` refuses no node.
pub data Stores (b : Buffer) (src : List ℕ) (m : Mem) (r : Result (List ℕ)) : Type 0 where
  nothing : r.ret ≡ size_max → r.buffer ≡ b → (m.answers ≢ []) → Stores b src m r
  stored :
      r.ret ≤ length src
      → contents r.buffer ≡ contents b ++ take r.ret src
      → (m.answers ≡ [] → r.ret ≡ length src)
      → Stores b src m r

pub record Written (others : ℕ → ℕ) (b : Buffer) (src : List ℕ) (m : Mem) (r : Result (List ℕ))
    : Type 0 where
  -- `lost` are the nodes that the function takes and drops when it stores nothing.
  pub stores : Stores b src m r
  pub good : AllGood r.buffer
  pub lost : List Node
  pub owns : Owns r.mem.pool (and_nodes r.buffer (and_nodes lost others))
  pub no_loss : 0 < r.ret → lost ≡ []
  pub lost_empty : contents lost ≡ []

-- Two splits of the same bytes, the longer front one by `k`.
front_of :
    (xs ys zs ws : List ℕ) (k : ℕ)
    → xs ++ ys ≡ zs ++ ws
    → length xs ≡ length zs + k
    → xs ≡ zs ++ take k ws
front_of xs ys zs ws k e len =
    sym (take_all (length xs) xs (omega arith))
    ∙ sym (take-append_left (length xs) xs ys (omega arith))
    ∙ ap (take (length xs)) e
    ∙ ap (λ n. take n (zs ++ ws)) len
    ∙ take-append_right k zs ws

module _ (others : ℕ → ℕ) (b : Buffer) (src : List ℕ) (m : Mem) where
  Stores-of :
      (r : Result (List ℕ)) → How copy (λ xs. xs) others b m src (length src) r → Stores b src m r
  Stores-of r (no_node ret same rest refused) = nothing ret same refused
  Stores-of r (appended le order count full) =
      stored le (front_of (contents r.buffer) r.rest (contents b) src r.ret order count)
        (λ none_refused. full none_refused copy-IsExact (omega arith))
  Stores-of r (restored ret e failure same) = absurd (copy-IsReliable ret failure)

  -- For less than 2 ^ 31 bytes and a buffer whose nodes are good and hold their blocks,
  -- write_into_buffer returns; it has appended a prefix of the block and returned its length, the
  -- whole block if malloc refuses no node, or it had no memory for a first node, returned (size_t)
  -- -1 and changed nothing; nodes stay good, no block is shared, and none is lost but those of
  -- nodes without bytes that it drops when it returns 0.
  pub write_into_buffer-Written :
      AllGood b
      → Owns m.pool (and_nodes b others)
      → length src < 2 ^ 31
      → Returns (Written others b src m) (write_into_buffer b src m)
  unfolding write_into_buffer
  write_into_buffer-Written g o small =
      Outcome.mono
        (fill-Filled copy (λ xs. xs) copy-IsSource others (length src) small b m src g o
          (inr copy-IsReliable))
        (λ r f. record {
          stores = Stores-of r f.how;
          good = f.good;
          lost = f.lost;
          owns = f.owns;
          no_loss = f.no_loss;
          lost_empty = f.lost_empty;
        })

module _ {S : Type 0} (read : ℕ → S → Pull S) (incoming : S → List ℕ) (src : IsSource read incoming)
    (others : ℕ → ℕ) (size : ℕ) (small : size < 2 ^ 31) (b : Buffer) (m : Mem) (s : S) where
  -- For less than 2 ^ 31 bytes, a good buffer that holds its blocks and a descriptor that gives
  -- its bytes in order, read_into_buffer returns if the last node has room or reading does not
  -- fail: the returned number of bytes has moved to the end of the buffer, or reading failed and
  -- the bytes in the buffer are those from before, or there was no memory for a first node and
  -- nothing changed; no block is shared, and none is lost but those of nodes without bytes that it
  -- drops when it returns 0.
  pub read_into_buffer-Filled :
      AllGood b
      → Owns m.pool (and_nodes b others)
      → HasRoom b ⊎ IsReliable read
      → Returns (Filled read incoming others b m s size) (read_into_buffer read size b m s)
  unfolding read_into_buffer
  read_into_buffer-Filled g o safe = fill-Filled read incoming src others size small b m s g o safe

-- If reading fails at once on an empty buffer that could get a node, and at least one byte was
-- asked for, read_into_buffer writes to memory that is no node.
pub read_into_buffer_fault :
    {S : Type 0} (read : ℕ → S → Pull S) (size : ℕ) (m m' : Mem) (n : Node) (s s' : S) (ret : ℕ)
    → 0 < size
    → new_node m ≡ (some n, m')
    → read (min_size (size_sub size 0) (to_size (int_sub cache_size n.w_offset))) s ≡ failed ret s'
    → read_into_buffer read size [] m s ≡ fault
unfolding read_into_buffer fill fill_loop
read_into_buffer_fault read size m m' n s s' ret pos e fails =
    rw (e, fill_new, lt→ltb 0 size pos, fails, after_pull) refl
