-- ===== src/Buffer/Drain/Writing.antt =====
-- `write_from_buffer` sends the first bytes of the buffer to a descriptor that takes them, and what
-- it does when a write is refused.
use mathlib.Core.Path.{subst}
use cosc402_assignment.Base.{
  ℕ, zero, suc, ◌+◌, ◌-◌, ◌^◌, ◌≤◌, ◌<◌, ◌≡◌, refl, sym, ap, ◌∙◌, ◌⊎◌, inl, inr, false, List, [],
  ◌∷◌, ◌++◌, append_assoc, append-nil, arith, ltb, lt→ltb, le→ltb_false, ltb→lt, ltb_false→le, ◌==◌,
  Bool-cases,
}
use cosc402_assignment.Base.Lists.{
  length, take, drop, length-take, length-drop, drop-drop, take_split, take-append_left,
}
use cosc402_assignment.Base.Outcome.{Outcome, done, Returns, returns}
use cosc402_assignment.Base.Outcome
use cosc402_assignment.Base.Words.{int_add, int_sub, to_int, size_add, size_sub, min_size, size_max}
use cosc402_assignment.Cache.{Pool}
use cosc402_assignment.Cache.Ownership.{Owns}
use cosc402_assignment.Buffer.Node.{
  Node, Buffer, IsGood, AllGood, bytes, contents, length-bytes, node_size, node_size-eq, load_at,
}
use cosc402_assignment.Buffer.Ownership.{and_nodes}
use cosc402_assignment.Buffer.Drain.{
  Queue, advance, Put, refused, put_count, put_rest, Sent, after_write, write_first, write_loop,
  write_from_buffer,
}
use cosc402_assignment.Buffer.Drain.Front.{take-take, load_at-bytes, Advanced, advance-Advanced}

-- What is relied on of a descriptor that takes bytes: it takes a prefix, of at least one byte, of
-- those that it is given, and never refuses, which would count as (size_t) -1. `sent s` lists what
-- has been taken.
pub record IsSink {S : Type 0} (put : List ℕ → S → Put S) (sent : S → List ℕ) : Type 0 where
  pub within : (bs : List ℕ) (s : S) → put_count (put bs s) ≤ length bs
  pub progress : (bs : List ℕ) (s : S) → 0 < length bs → 0 < put_count (put bs s)
  pub in_order :
      (bs : List ℕ) (s : S) → sent (put_rest (put bs s)) ≡ sent s ++ take (put_count (put bs s)) bs

module _ {S : Type 0} (sent : S → List ℕ) (others : ℕ → ℕ) where
  -- `k` bytes of `b` have been sent after those of `s`, and the others are still there.
  pub record Sends (b : Buffer) (s : S) (k total : ℕ) (t : Sent S) : Type 0 where
    pub ret : t.ret ≡ total
    pub output : sent t.rest ≡ sent s ++ take k (contents b)
    pub holds : contents t.queue.buffer ≡ drop k (contents b)
    pub good : AllGood t.queue.buffer
    pub owns : Owns t.queue.pool (and_nodes t.queue.buffer others)

  Sends-step :
      (b b' : Buffer) (s s' : S) (j k total : ℕ) (t : Sent S)
      → j ≤ k
      → contents b' ≡ drop j (contents b)
      → sent s' ≡ sent s ++ take j (contents b)
      → Sends b' s' (k - j) total t
      → Sends b s k total t
  Sends-step b b' s s' j k total t le rest first r = record {
    ret = r.ret;
    output =
        r.output
        ∙ ap (λ xs. xs ++ take (k - j) (contents b')) first
        ∙ append_assoc (sent s) (take j (contents b)) (take (k - j) (contents b'))
        ∙ ap (λ xs. sent s ++ (take j (contents b) ++ take (k - j) xs)) rest
        ∙ ap (λ xs. sent s ++ xs) (take_split j k (contents b) le);
    holds =
        r.holds
        ∙ ap (drop (k - j)) rest
        ∙ drop-drop j (k - j) (contents b)
        ∙ ap (λ m. drop m (contents b)) (omega arith);
    good = r.good;
    owns = r.owns;
  }

module _ {S : Type 0} (put : List ℕ → S → Put S) (sent : S → List ℕ) (sink : IsSink put sent)
    (others : ℕ → ℕ) (size : ℕ) (small : size < 2 ^ 64) where
  abbrev Follows : ℕ → (ℕ → Queue → S → Outcome (Sent S)) → Type 0
  Follows fuel next =
      (already : ℕ) (b : Buffer) (p : Pool) (s : S)
      → AllGood b
      → Owns p (and_nodes b others)
      → already ≤ size
      → size - already ≤ length (contents b)
      → size - already + length b < fuel
      → Returns (Sends sent others b s (size - already) size)
          (next already (record { buffer = b; pool = p }) s)

  module _ (next : ℕ → Queue → S → Outcome (Sent S)) (fuel already : ℕ) (p : Pool) (s : S)
      (follows : Follows fuel next) (more : already < size) where
    -- A round that offers `k` bytes of the node `n`, of which `j` are taken.
    module _ (n : Node) (ns : Buffer) (g : AllGood (n ∷ ns))
        (o : Owns p (and_nodes (n ∷ ns) others))
        (there : size - already ≤ length (contents (n ∷ ns)))
        (enough : size - already + length (n ∷ ns) < suc fuel) where
      go_on :
          (j : ℕ) (s' : S)
          → j ≤ n.w_offset - n.r_offset
          → already + j ≤ size
          → (0 < j) ⊎ (n.r_offset ≡ n.w_offset)
          → sent s' ≡ sent s ++ take j (bytes n)
          → Returns
              (Sends sent others (n ∷ ns) s (size - already) size)
              (next (size_add already j) (advance n ns j p) s')
      unfolding contents
      go_on j s' in_node asked step first =
          Outcome.mono
            (follows (size_add already j) q.buffer q.pool s' adv.good adv.owns
              (omega (arith, count, asked)) (omega (arith, count, asked, left))
              (omega (arith, count, asked, adv.rounds, adv.fewer)))
            (λ t r.
              Sends-step sent others (n ∷ ns) q.buffer s s' j (size - already) size t
                (omega (arith, asked)) adv.holds (first ∙ ap (λ xs. sent s ++ xs) front)
                (subst (λ m. Sends sent others q.buffer s' m size t) (omega (arith, count)) r))
        where
          q : Queue
          q = advance n ns j p

          count : size_add already j ≡ already + j
          count = omega (arith, asked)

          adv : Advanced others j (n ∷ ns) q
          adv = advance-Advanced others n ns p j g.0 g.1 o in_node step

          left : length (contents q.buffer) ≡ length (contents (n ∷ ns)) - j
          left = ap length adv.holds ∙ length-drop j (contents (n ∷ ns))

          front : take j (bytes n) ≡ take j (contents (n ∷ ns))
          front = sym (
              take-append_left j (bytes n) (contents ns) (omega (arith, length-bytes g.0, in_node)))

      write_node :
          (k : ℕ)
          → k ≤ n.w_offset - n.r_offset
          → already + k ≤ size
          → (0 < k) ⊎ (n.r_offset ≡ n.w_offset)
          → Returns
              (Sends sent others (n ∷ ns) s (size - already) size)
              (after_write put next already n ns p s (load_at n.cache.buff n.r_offset k))
      write_node k in_node asked step =
          rw (load_at-bytes n g.0 k in_node, after_write)
            (go_on j (put_rest (put bs s)) (omega (arith, fewer, in_node))
              (omega (arith, fewer, asked)) (stepped step)
              (sink.in_order bs s ∙ ap (λ xs. sent s ++ xs) (take-take j k (bytes n) fewer)))
        where
          bs : List ℕ
          bs = take k (bytes n)

          offered : length bs ≡ k
          offered = omega (arith, length-take k (bytes n), length-bytes g.0, in_node)

          j : ℕ
          j = put_count (put bs s)

          fewer : j ≤ k
          fewer = omega (arith, offered, sink.within bs s)

          stepped : (0 < k) ⊎ (n.r_offset ≡ n.w_offset) → (0 < j) ⊎ (n.r_offset ≡ n.w_offset)
          stepped (inl pos) = inl (sink.progress bs s (omega (arith, offered)))
          stepped (inr e) = inr e

    write_first-Sends :
        (b : Buffer)
        → AllGood b
        → Owns p (and_nodes b others)
        → size - already ≤ length (contents b)
        → size - already + length b < suc fuel
        → Returns
            (Sends sent others b s (size - already) size)
            (write_first put next size already b p s)
    unfolding contents
    write_first-Sends [] g o there enough = absurd (omega arith)
    write_first-Sends (n ∷ ns) g o there enough =
        write_node n ns g o there enough (min_size (node_size n) (size_sub size already))
          (ground (arith, node_size-eq g.0)) (ground (arith, node_size-eq g.0))
          (ground (arith, node_size-eq g.0, g.0.ordered))

  write_loop-Sends : (fuel : ℕ) → Follows fuel (write_loop put fuel size)
  unfolding write_loop
  write_loop-Sends zero already b p s g o le there enough = absurd (omega arith)
  write_loop-Sends (suc fuel) already b p s g o le there enough =
      elim (Bool-cases (ltb already size)) [
        | inl more ↦ rw more (
            write_first-Sends (write_loop put fuel size) fuel already p s (write_loop-Sends fuel)
              (ltb→lt already size more) b g o there enough)
        | inr all_sent ↦
            let same : already ≡ size = omega (arith, ltb_false→le already size all_sent) in
            let none_left : size - already ≡ 0 = omega arith in
            rw all_sent (
              returns (record {
                ret = same;
                output =
                    sym (ap (λ m. sent s ++ take m (contents b)) none_left ∙ append-nil (sent s));
                holds = sym (ap (λ m. drop m (contents b)) none_left);
                good = g;
                owns = o;
              }))
      ]

  -- For a good buffer that holds its blocks, write_from_buffer of no more bytes than there are,
  -- fewer than 2 ^ 64, to a descriptor that takes a non-empty prefix each time, returns that
  -- number; the bytes have been sent in order and the rest is left.
  pub write_from_buffer-Sends :
      (b : Buffer) (p : Pool) (s : S)
      → AllGood b
      → Owns p (and_nodes b others)
      → size ≤ length (contents b)
      → Returns (Sends sent others b s size size) (write_from_buffer put b size p s)
  unfolding write_from_buffer
  write_from_buffer-Sends b p s g o le =
      subst (λ m. Returns (Sends sent others b s m size) (write_from_buffer put b size p s))
        (omega arith)
        (write_loop-Sends (suc (size + length b)) 0 b p s g o (omega arith) (omega arith)
          (omega arith))

module _ {S : Type 0} (put : List ℕ → S → Put S) where
  write_loop_end :
      (fuel size already : ℕ) (q : Queue) (s : S)
      → size ≤ already
      → write_loop put (suc fuel) size already q s
        ≡ done (record { ret = already; queue = q; rest = s })
  unfolding write_loop
  write_loop_end fuel size already q s h = rw (le→ltb_false already size h) refl

  module _ (n : Node) (ns : Buffer) (size : ℕ) (p : Pool) (s s' : S) (g : IsGood n)
      (some_bytes : n.r_offset < n.w_offset) (pos : 0 < size) (small : size < 2 ^ 64)
      (e : put (take (min_size (node_size n) size) (bytes n)) s ≡ refused s') where
    advance_back :
        advance n ns size_max p
        ≡ record { buffer = record n { r_offset = int_sub n.r_offset 1 } ∷ ns; pool = p }
    advance_back =
        let back : int_add n.r_offset (to_int size_max) ≡ int_sub n.r_offset 1 = omega arith in
        let not_end : (int_sub n.r_offset 1 == n.w_offset) ≡ false =
          ground (arith, g.ordered, g.within) in
        rw (back, not_end) refl

    refused_round :
        (fuel : ℕ)
        → write_loop put (suc (suc fuel)) size 0 (record { buffer = n ∷ ns; pool = p }) s
          ≡ done (record {
            ret = size_max;
            queue = record { buffer = record n { r_offset = int_sub n.r_offset 1 } ∷ ns; pool = p };
            rest = s';
          })
    unfolding write_loop
    refused_round fuel =
        let all : size_sub size 0 ≡ size = omega arith in
        let fits : min_size (node_size n) size ≤ n.w_offset - n.r_offset =
          ground (arith, node_size-eq g) in
        rw
          (
            lt→ltb 0 size pos,
            all,
            load_at-bytes n g (min_size (node_size n) size) fits,
            after_write,
            e,
            put_count,
            put_rest,
            advance_back,
          )
          (write_loop_end fuel size (size_add 0 size_max)
            (record { buffer = record n { r_offset = int_sub n.r_offset 1 } ∷ ns; pool = p }) s'
            (omega arith))

    -- If the first node is good and not empty and the descriptor refuses the first write of a call
    -- for at least one byte, and fewer than 2 ^ 64, write_from_buffer returns (size_t) -1 and the
    -- node has its r_offset moved back by one.
    pub write_from_buffer_refused :
        write_from_buffer put (n ∷ ns) size p s
        ≡ done (record {
          ret = size_max;
          queue = record { buffer = record n { r_offset = int_sub n.r_offset 1 } ∷ ns; pool = p };
          rest = s';
        })
    unfolding write_from_buffer
    write_from_buffer_refused =
        let fuel : size + length (n ∷ ns) ≡ suc (size + length ns) = omega arith in
        rw fuel (refused_round (size + length ns))
