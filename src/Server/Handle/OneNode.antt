-- ===== src/Server/Handle/OneNode.antt =====
-- A client whose input lies in one node of its reading buffer: how the lines are fetched, and what
-- the buffer is then.
use cosc402_assignment.Base.{
  ℕ, suc, ◌+◌, ◌-◌, ◌≤◌, ◌<◌, ◌≡◌, refl, ap, ◌∙◌, inl, inr, true, false, none, some, List, [], ◌∷◌,
  ◌++◌, arith, ltb, leb, ◌==◌, Bool-cases,
}
use cosc402_assignment.Base.Lists.{
  length, take, drop, drop_all, length-append, length-drop, drop-append_right,
}
use mathlib.Core.Path.{subst}
use cosc402_assignment.Base.Strings.{IsText, first_of, first_of-append}
use cosc402_assignment.Base.Outcome.{done}
use cosc402_assignment.Base.Words.{int_add, to_int, size_add, size_sub, min_size}
use cosc402_assignment.Cache.{Pool}
use cosc402_assignment.Buffer.Node.{
  Node, Buffer, IsGood, bytes, node_size, node_size-eq, length-bytes,
}
use cosc402_assignment.Buffer.Find.{find_in_buffer, check_command_suffix}
use cosc402_assignment.Buffer.Find.First.{find_in_buffer-first_of, position}
use cosc402_assignment.Buffer.Drain.{Taken, advance, taken, read_loop, read_from_buffer}
use cosc402_assignment.Buffer.Drain.Front.{load_at-bytes, moved, bytes-moved_node}
use cosc402_assignment.ClientInfo.{ClientData, fetched_msg, fetch_msg_from_client}

-- The buffer holds the bytes in at most one node.
pub data OneNode : Buffer → List ℕ → Type 0 where
  empty : {xs : List ℕ} → xs ≡ [] → OneNode [] xs
  one : {n : Node} {xs : List ℕ} → bytes n ≡ xs → 0 < length xs → OneNode (n ∷ []) xs

module _ (n : Node) (g : IsGood n) (k : ℕ) (pos : 0 < k) (le : k ≤ length (bytes n))
    (p : Pool) where
  in_node : k ≤ n.w_offset - n.r_offset
  in_node = omega (arith, length-bytes g)

  read_one : read_from_buffer (n ∷ []) k p ≡ done (taken k k (take k (bytes n)) (advance n [] k p))
  unfolding read_from_buffer read_loop
  read_one =
      let enough : leb k (size_add 0 (node_size n)) ≡ true =
        ground (arith, in_node, node_size-eq g, g.within) in
      let fuel : k + 1 ≡ suc k = omega arith in
      let more : ltb 0 k ≡ true = ground arith in
      let count : min_size (node_size n) (size_sub k 0) ≡ k =
        ground (arith, in_node, node_size-eq g, g.within) in
      let all : size_add 0 k ≡ k = omega (arith, in_node, g.within) in
      let end : ltb k k ≡ false = ground arith in
      rw (enough, fuel, more, count, load_at-bytes n g k in_node, all, end) refl

  advance-OneNode : OneNode (advance n [] k p).buffer (drop k (bytes n))
  advance-OneNode = elim (Bool-cases (int_add n.r_offset (to_int k) == n.w_offset)) [
    | inl e ↦ rw e (empty (nothing (ground (arith, moved n g k in_node))))
    | inr ne ↦ rw ne (
        one (bytes-moved_node n g k in_node)
          (ground (arith, length-drop k (bytes n), length-bytes g, moved n g k in_node, g.ordered)))
  ]
    where
      nothing : n.r_offset + k ≡ n.w_offset → drop k (bytes n) ≡ []
      nothing e = drop_all k (bytes n) (omega (arith, e, length-bytes g))

-- The first line of the node is fetched, and the rest is still in one node.
pub fetch_one :
    (d : ClientData) (p : Pool) (n : Node) (line rest : List ℕ)
    → d.reading_buffer ≡ n ∷ []
    → d.last_check_cmd_index ≡ 0
    → IsGood n
    → IsText (bytes n)
    → bytes n ≡ line ++ (10 ∷ rest)
    → first_of 10 line ≡ none
    → (t : Taken) × (fetch_msg_from_client d p ≡ done (fetched_msg d t))
      × OneNode t.queue.buffer rest
unfolding fetch_msg_from_client
fetch_one d p n line rest buffer start g text form none_left =
    let k = suc (length line) in
    let place : first_of 10 (bytes n) ≡ some (length line) =
      ap (first_of 10) form ∙ first_of-append 10 line rest none_left in
    let found : find_in_buffer (n ∷ []) 0 (check_command_suffix 10) ≡ done (length line) =
      find_in_buffer-first_of n g [] 10 text (λ missing. absurd (cc (place, missing)))
      ∙ ap (λ o. done (position o)) place in
    let le : k ≤ length (bytes n) = omega (arith, ap length form, length-append line (10 ∷ rest)) in
    let small : size_add (length line) 1 ≡ k = omega (arith, length-bytes g, g.within) in
    (
      taken k k (take k (bytes n)) (advance n [] k p),
      rw (buffer, start, found, small, read_one n g k (omega arith) le p) refl,
      subst (OneNode (advance n [] k p).buffer) (ap (drop k) form ∙ dropped)
          (advance-OneNode n g k (omega arith) le p),
    )
  where
    dropped : drop (suc (length line)) (line ++ (10 ∷ rest)) ≡ rest
    dropped =
        let after : suc (length line) ≡ length line + 1 = omega arith in
        ap (λ i. drop i (line ++ (10 ∷ rest))) after ∙ drop-append_right 1 line (10 ∷ rest)

-- An empty buffer has no line.
pub fetch_empty :
    (d : ClientData) (p : Pool)
    → d.reading_buffer ≡ []
    → fetch_msg_from_client d p
      ≡ done (fetched_msg d (taken 0 0 [] (record { buffer = []; pool = p })))
unfolding fetch_msg_from_client find_in_buffer read_from_buffer read_loop
fetch_empty d p buffer = rw buffer refl
