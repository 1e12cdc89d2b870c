-- ===== src/Buffer/Drain/Reading.antt =====
-- `read_from_buffer` takes the first bytes of the buffer, and `buffer_size` counts them.
use cosc402_assignment.Base.{
  ℕ, zero, suc, ◌+◌, ◌-◌, ◌^◌, ◌≤◌, ◌<◌, min, ◌≡◌, refl, sym, ap, ◌∙◌, ◌⊎◌, inl, inr, List, [], ◌∷◌,
  ◌++◌, append_assoc, arith, ltb, ltb→lt, ltb_false→le, leb, Bool-cases,
}
use mathlib.Core.Path.{subst}
use cosc402_assignment.Base.Lists.{
  length, take, drop, replicate, length-drop, length-append, drop-drop, take_split,
  take-append_left, take_all, drop_all,
}
use cosc402_assignment.Base.Outcome.{Outcome, done, Returns, returns}
use cosc402_assignment.Base.Outcome
use cosc402_assignment.Base.Words.{size_add, size_sub, min_size}
use cosc402_assignment.Cache.{Pool}
use cosc402_assignment.Cache.Ownership.{Owns}
use cosc402_assignment.Buffer.Node.{
  Node, Buffer, IsGood, AllGood, bytes, contents, length-bytes, node_size, node_size-eq, load_at,
}
use cosc402_assignment.Buffer.Ownership.{and_nodes}
use cosc402_assignment.Buffer.Drain.{
  Queue, advance, size_from, buffer_size, expected_from, Taken, taken, after_load, read_first,
  read_loop, read_from_buffer,
}
use cosc402_assignment.Buffer.Drain.Front.{load_at-bytes, Advanced, advance-Advanced}

size_from-add :
    (b : Buffer) (size : ℕ)
    → AllGood b
    → size + length (contents b) < 2 ^ 64
    → size_from size b ≡ size + length (contents b)
unfolding contents
size_from-add [] size g small = omega arith
size_from-add (n ∷ ns) size g small =
    ap (λ k. size_from k ns)
      (omega (arith, node_size-eq g.0, length-bytes g.0, length-append (bytes n) (contents ns)))
    ∙ size_from-add ns (size + length (bytes n)) g.1
        (omega (arith, length-append (bytes n) (contents ns)))
    ∙ omega (arith, length-append (bytes n) (contents ns))

-- For a buffer of good nodes with less than 2 ^ 64 bytes, buffer_size is the number of bytes in
-- it.
pub buffer_size-length :
    (b : Buffer) → AllGood b → length (contents b) < 2 ^ 64 → buffer_size b ≡ length (contents b)
unfolding buffer_size
buffer_size-length b g small = size_from-add b 0 g (omega arith) ∙ omega arith

-- The first loop finds as many bytes as there are, and at most `size`.
expected_from-min :
    (b : Buffer) (e size : ℕ)
    → AllGood b
    → e + length (contents b) < 2 ^ 64
    → e ≤ size
    → expected_from e size b ≡ min size (e + length (contents b))
unfolding contents
expected_from-min [] e size g small le = omega arith
expected_from-min (n ∷ ns) e size g small le =
    let grown : size_add e (node_size n) ≡ e + length (bytes n) =
      omega (arith, node_size-eq g.0, length-bytes g.0, length-append (bytes n) (contents ns)) in
    elim (Bool-cases (leb size (size_add e (node_size n)))) [
      | inl enough ↦
          let le' : size ≤ size_add e (node_size n) = ground arith in
          rw enough (omega (arith, length-append (bytes n) (contents ns), grown))
      | inr goes ↦
          let lt' : size_add e (node_size n) < size = ground arith in
          rw goes (
            expected_from-min ns (size_add e (node_size n)) size g.1
              (omega (arith, length-append (bytes n) (contents ns), grown)) (omega arith)
            ∙ omega (arith, length-append (bytes n) (contents ns), grown))
    ]

module _ (others : ℕ → ℕ) where
  -- `k` bytes of `b` have gone to the target, behind `out`, and the others are still there.
  pub record Reads (b : Buffer) (out : List ℕ) (k total : ℕ) (t : Taken) : Type 0 where
    pub ret : t.ret ≡ total
    pub target : t.target ≡ out ++ take k (contents b)
    pub holds : contents t.queue.buffer ≡ drop k (contents b)
    pub good : AllGood t.queue.buffer
    pub owns : Owns t.queue.pool (and_nodes t.queue.buffer others)

  Reads-step :
      (b b' : Buffer) (out : List ℕ) (j k ret : ℕ) (t : Taken)
      → j ≤ k
      → contents b' ≡ drop j (contents b)
      → Reads b' (out ++ take j (contents b)) (k - j) ret t
      → Reads b out k ret t
  Reads-step b b' out j k ret t le rest r = record {
    ret = r.ret;
    target =
        r.target
        ∙ append_assoc out (take j (contents b)) (take (k - j) (contents b'))
        ∙ ap (λ xs. out ++ (take j (contents b) ++ take (k - j) xs)) rest
        ∙ ap (λ xs. out ++ xs) (take_split j k (contents b) le);
    holds =
        r.holds
        ∙ ap (drop (k - j)) rest
        ∙ drop-drop j (k - j) (contents b)
        ∙ ap (λ m. drop m (contents b)) (omega arith);
    good = r.good;
    owns = r.owns;
  }

  Reads-nothing :
      (b : Buffer) (out : List ℕ) (k ret expected : ℕ) (p : Pool)
      → AllGood b
      → Owns p (and_nodes b others)
      → k ≡ 0
      → expected ≤ ret
      → Reads b out k ret (taken expected ret out (record { buffer = b; pool = p }))
  Reads-nothing b out k ret expected p g o e le = record {
    ret = refl;
    target = ap (λ m. out ++ replicate m 0) rest ∙ ap (λ m. out ++ take m (contents b)) (sym e);
    holds = ap (λ m. drop m (contents b)) (sym e);
    good = g;
    owns = o;
  }
    where
      rest : expected - ret ≡ 0
      rest = omega arith

  -- How much of a node a round takes: all that is asked for, or the whole node.
  record IsShare (already expected : ℕ) (n : Node) (k : ℕ) : Type 0 where
    in_node : k ≤ n.w_offset - n.r_offset
    asked : already + k ≤ expected
    whole : (k ≡ n.w_offset - n.r_offset) ⊎ (already + k ≡ expected)

  share :
      (already expected : ℕ) (n : Node)
      → IsGood n
      → already ≤ expected
      → expected < 2 ^ 64
      → IsShare already expected n (min_size (node_size n) (size_sub expected already))
  share already expected n g le small = record {
    in_node = ground (arith, node_size-eq g);
    asked = ground (arith, node_size-eq g);
    whole = ground (arith, node_size-eq g);
  }

  module _ (expected : ℕ) (small : expected < 2 ^ 64) where
    abbrev Follows : ℕ → (ℕ → List ℕ → Queue → Outcome Taken) → Type 0
    Follows fuel next =
        (already : ℕ) (out : List ℕ) (b : Buffer) (p : Pool)
        → AllGood b
        → Owns p (and_nodes b others)
        → already ≤ expected
        → expected - already ≤ length (contents b)
        → expected - already + length b < fuel
        → Returns (Reads b out (expected - already) expected)
            (next already out (record { buffer = b; pool = p }))

    module _ (next : ℕ → List ℕ → Queue → Outcome Taken) (fuel already : ℕ) (out : List ℕ)
        (p : Pool) (follows : Follows fuel next) (more : already < expected) where
      read_node :
          (n : Node) (ns : Buffer) (k : ℕ)
          → IsShare already expected n k
          → AllGood (n ∷ ns)
          → Owns p (and_nodes (n ∷ ns) others)
          → expected - already ≤ length (contents (n ∷ ns))
          → expected - already + length (n ∷ ns) < suc fuel
          → Returns
              (Reads (n ∷ ns) out (expected - already) expected)
              (after_load next already out k n ns p (load_at n.cache.buff n.r_offset k))
      unfolding contents
      read_node n ns k sh g o there enough =
          rw (load_at-bytes n g.0 k sh.in_node, after_load)
            (Outcome.mono
              (follows (size_add already k) (out ++ take k (bytes n)) q.buffer q.pool adv.good
                adv.owns (omega (arith, count, sh.asked)) (omega (arith, count, sh.asked, left))
                (omega (arith, count, sh.asked, adv.rounds, adv.fewer)))
              (λ t r.
                Reads-step (n ∷ ns) q.buffer out k (expected - already) expected t
                  (omega (arith, sh.asked)) adv.holds (again t r)))
        where
          q : Queue
          q = advance n ns k p

          count : size_add already k ≡ already + k
          count = omega (arith, sh.asked)

          adv : Advanced others k (n ∷ ns) q
          adv =
              advance-Advanced others n ns p k g.0 g.1 o sh.in_node
                (ground (arith, sh.whole, g.0.ordered))

          left : length (contents q.buffer) ≡ length (contents (n ∷ ns)) - k
          left = ap length adv.holds ∙ length-drop k (contents (n ∷ ns))

          again :
              (t : Taken)
              → Reads q.buffer (out ++ take k (bytes n)) (expected - size_add already k) expected t
              → Reads q.buffer
                  (out ++ take k (contents (n ∷ ns)))
                  (expected - already - k)
                  expected
                  t
          again t r =
              subst (λ m. Reads q.buffer (out ++ take k (contents (n ∷ ns))) m expected t)
                (omega (arith, count))
                (subst (λ xs. Reads q.buffer (out ++ xs) (expected - size_add already k) expected t)
                  (sym (
                    take-append_left k (bytes n) (contents ns)
                      (omega (arith, length-bytes g.0, sh.in_node))))
                  r)

      read_first-Reads :
          (b : Buffer)
          → AllGood b
          → Owns p (and_nodes b others)
          → expected - already ≤ length (contents b)
          → expected - already + length b < suc fuel
          → Returns
              (Reads b out (expected - already) expected)
              (read_first next expected already out b p)
      unfolding contents
      read_first-Reads [] g o there enough = absurd (omega arith)
      read_first-Reads (n ∷ ns) g o there enough =
          read_node n ns (min_size (node_size n) (size_sub expected already))
            (share already expected n g.0 (omega arith) small) g o there enough

    read_loop-Reads : (fuel : ℕ) → Follows fuel (read_loop fuel expected)
    unfolding read_loop
    read_loop-Reads zero already out b p g o le there enough = absurd (omega arith)
    read_loop-Reads (suc fuel) already out b p g o le there enough =
        elim (Bool-cases (ltb already expected)) [
          | inl more ↦ rw more (
              read_first-Reads (read_loop fuel expected) fuel already out p (read_loop-Reads fuel)
                (ltb→lt already expected more) b g o there enough)
          | inr all_read ↦
              let same : already ≡ expected =
                omega (arith, ltb_false→le already expected all_read) in
              rw all_read (
                returns (
                  rw same (
                    Reads-nothing b out (expected - expected) expected expected p g o (omega arith)
                      (omega arith))))
        ]

cap :
    (n : ℕ) (xs : List ℕ) (m : ℕ)
    → m ≡ min n (length xs)
    → (take m xs ≡ take n xs) × (drop m xs ≡ drop n xs)
cap n xs m e = elim (Bool-cases (leb n (length xs))) [
  | inl le ↦ let same : m ≡ n = ground arith in (ap (λ k. take k xs) same, ap (λ k. drop k xs) same)
  | inr gt ↦
      let long : length xs ≤ n = ground arith in
      let whole : length xs ≤ m = ground arith in
      (
        take_all m xs whole ∙ sym (take_all n xs long),
        drop_all m xs whole ∙ sym (drop_all n xs long),
      )
]

Reads-cap :
    (others : ℕ → ℕ) (b : Buffer) (size m e : ℕ) (t : Taken)
    → m ≡ min size (length (contents b))
    → e ≡ min size (length (contents b))
    → Reads others b [] m e t
    → Reads others b [] size (min size (length (contents b))) t
Reads-cap others b size m e t eq eq' r = record {
  ret = r.ret ∙ eq';
  target = r.target ∙ (cap size (contents b) m eq).0;
  holds = r.holds ∙ (cap size (contents b) m eq).1;
  good = r.good;
  owns = r.owns;
}

-- For a good buffer that holds its blocks and less than 2 ^ 64 bytes, read_from_buffer of size
-- bytes returns the first size bytes, or all if they are fewer, with their number, and leaves the
-- rest in order; every allocated block is then free again or still held as counted, so the blocks
-- of the nodes that were taken off are free.
pub read_from_buffer-Reads :
    (others : ℕ → ℕ) (b : Buffer) (size : ℕ) (p : Pool)
    → AllGood b
    → Owns p (and_nodes b others)
    → length (contents b) < 2 ^ 64
    → Returns (Reads others b [] size (min size (length (contents b)))) (read_from_buffer b size p)
unfolding read_from_buffer
read_from_buffer-Reads others b size p g o small =
    Outcome.mono
      (read_loop-Reads others e (omega (arith, eq)) (suc (e + length b)) 0 [] b p g o (omega arith)
        (omega (arith, eq)) (omega arith))
      (λ t. Reads-cap others b size (e - 0) e t (omega (arith, eq)) (omega (arith, eq)))
  where
    e : ℕ
    e = expected_from 0 size b

    eq : e ≡ min size (length (contents b))
    eq = expected_from-min b 0 size g (omega arith) (omega arith) ∙ omega arith
