-- ===== src/ClientInfo/Laws.antt =====
-- What the operations of client_info.c do to a client's name and to its two queues of bytes.
use cosc402_assignment.Base.{
  ℕ, suc, ◌+◌, ◌-◌, ◌^◌, ◌≤◌, ◌<◌, ◌≡◌, ◌≢◌, refl, sym, ap, ◌∙◌, inl, inr, none, some, List, [],
  ◌∷◌, ◌++◌, arith, ltb, ltb_false→le, Bool-cases, append-nil,
}
use cosc402_assignment.Base.Lists.{
  length, take, drop, replicate, length-append, length-take, length-replicate, take_all, drop_all,
}
use cosc402_assignment.Base.Outcome.{Outcome, done, fault, Returns, returns}
use cosc402_assignment.Base.Outcome
use cosc402_assignment.Base.Strings.{
  IsText, first_of, first_of-append, c_string, c_string-padded, IsText-take,
}
use cosc402_assignment.Base.Words.{to_int, to_size, size_add, size_max}
use cosc402_assignment.Cache.{Pool}
use cosc402_assignment.Cache.Ownership.{Owns}
use cosc402_assignment.Buffer.Node.{Node, Buffer, IsGood, AllGood, bytes, contents}
use cosc402_assignment.Buffer.Ownership.{and_nodes, recycle_nodes-Owns}
use cosc402_assignment.Buffer.Drain.{Put, destroy_buffer, buffer_size}
use cosc402_assignment.Buffer.Drain.Reading.{buffer_size-length, read_from_buffer-Reads}
use cosc402_assignment.Buffer.Drain.Writing.{IsSink, write_from_buffer-Sends}
use cosc402_assignment.Buffer.Find.{strchr, ran_off, find_in_buffer, check_command_suffix}
use cosc402_assignment.Buffer.Find.First.{position, find_in_buffer-first_of, find_in_buffer_overrun}
use cosc402_assignment.ClientInfo.{
  ClientData, Fetched, Flushed, update_client_name, name_field, min_name, fetch_msg_from_client,
  flush_messages, release_client_info,
}

nil_of_length : (xs : List ℕ) → length xs ≡ 0 → xs ≡ []
nil_of_length [] e = refl
nil_of_length (x ∷ xs) e = absurd (omega arith)

c_string-name_field : (bs : List ℕ) → IsText bs → length bs < 30 → c_string (name_field bs) ≡ bs
c_string-name_field bs t lt =
    let one_zero : 30 - length bs ≡ suc (29 - length bs) = omega arith in
    rw one_zero (c_string-padded bs (replicate (29 - length bs) 0) t)

-- After update_client_name with a string without 0, the array still has 30 bytes, and the string
-- in it is the first 29 characters of that one.
pub update_client_name-c_string :
    (s : List ℕ) (d : ClientData)
    → IsText s
    → let d' = update_client_name (some s) d in
      (c_string d'.name ≡ take 29 s) × (length d'.name ≡ 30)
unfolding update_client_name
update_client_name-c_string s d t =
    let cut : take (min_name (length s)) s ≡ take 29 s = elim (Bool-cases (ltb (length s) 29)) [
      | inl lt ↦ rw lt (take_all (length s) s (omega arith) ∙ sym (take_all 29 s (ground arith)))
      | inr ge ↦ rw ge refl
    ] in
    let short : length (take 29 s) ≤ 29 = omega (arith, length-take 29 s) in
    (
      ap (λ bs. c_string (name_field bs)) cut
          ∙ c_string-name_field (take 29 s) (IsText-take 29 s t) (omega arith),
      ap (λ bs. length (name_field bs)) cut
          ∙ omega (
            arith,
            length-append (take 29 s) (replicate (30 - length (take 29 s)) 0),
            length-replicate {A = ℕ} (30 - length (take 29 s)) 0,
          ),
    )

-- A line that `fetch_msg_from_client` has handed out, of the bytes that were there.
pub record HandsOut (others : ℕ → ℕ) (d : ClientData) (k : ℕ) (r : Fetched) : Type 0 where
  pub ret : r.ret ≡ k
  pub msg : r.msg ≡ take k (contents d.reading_buffer)
  pub holds : contents r.client.reading_buffer ≡ drop k (contents d.reading_buffer)
  pub restart : r.client.last_check_cmd_index ≡ 0
  pub good : AllGood r.client.reading_buffer
  pub owns : Owns r.pool (and_nodes r.client.reading_buffer others)

module _ (others : ℕ → ℕ) (d : ClientData) (p : Pool) (n : Node) (ns : Buffer)
    (buffer : d.reading_buffer ≡ n ∷ ns) (start : d.last_check_cmd_index ≡ 0)
    (g : AllGood d.reading_buffer) (o : Owns p (and_nodes d.reading_buffer others))
    (small : length (contents d.reading_buffer) < 2 ^ 31) (text : IsText (bytes n)) where
  -- What is found decides how much is read.
  fetched_upto :
      (i size : ℕ)
      → (first_of 10 (bytes n) ≡ none → strchr (drop n.w_offset n.cache.buff) 10 ≢ ran_off)
      → position (first_of 10 (bytes n)) ≡ i
      → size_add i 1 ≡ size
      → size ≤ length (contents d.reading_buffer)
      → Returns (HandsOut others d size) (fetch_msg_from_client d p)
  unfolding fetch_msg_from_client
  fetched_upto i size stops place e le =
      let found : find_in_buffer d.reading_buffer d.last_check_cmd_index (check_command_suffix 10)
          ≡ done i =
        ap (λ b. find_in_buffer b d.last_check_cmd_index (check_command_suffix 10)) buffer
        ∙ ap (λ k. find_in_buffer (n ∷ ns) k (check_command_suffix 10)) start
        ∙ find_in_buffer-first_of n (rw buffer at g).0 ns 10 text stops
        ∙ ap done place in
      rw (found, e)
        (Outcome.bind (read_from_buffer-Reads others d.reading_buffer size p g o (omega arith))
          (λ t r.
            let word : to_size (to_int t.ret) ≡ size = ground (arith, r.ret) in
            returns (record {
              ret = word;
              msg = r.target;
              holds = r.holds;
              restart = refl;
              good = r.good;
              owns = r.owns;
            })))

  -- If the reading buffer is good, holds its blocks and less than 2 ^ 31 bytes, the search starts
  -- at 0, and the bytes of its first node are a line without newline, a newline and some rest,
  -- with no 0, then fetch_msg_from_client returns the line with its newline and their number, and
  -- leaves exactly what follows in the buffer.
  pub fetch_msg_from_client-line :
      (line rest : List ℕ)
      → bytes n ≡ line ++ (10 ∷ rest)
      → first_of 10 line ≡ none
      → Returns (HandsOut others d (suc (length line))) (fetch_msg_from_client d p)
  unfolding contents
  fetch_msg_from_client-line line rest e no_newline =
      let place : first_of 10 (bytes n) ≡ some (length line) =
        ap (first_of 10) e ∙ first_of-append 10 line rest no_newline in
      let count : length (contents d.reading_buffer)
          ≡ length line + suc (length rest) + length (contents ns) =
        ap (λ b. length (contents b)) buffer
        ∙ omega (
          arith,
          length-append (bytes n) (contents ns),
          ap length e,
          length-append line (10 ∷ rest),
        ) in
      fetched_upto (length line) (suc (length line)) (λ missing. absurd (cc (place, missing)))
        (ap position place) (omega arith) (omega arith)

  -- If the reading buffer is good, holds its blocks and less than 2 ^ 31 bytes, the search starts
  -- at 0, and the bytes of its first node hold no newline and no 0 but one of them stands behind
  -- them in the block, fetch_msg_from_client hands out nothing, returns 0 and leaves the bytes of
  -- the buffer as they are.
  pub fetch_msg_from_client-incomplete :
      first_of 10 (bytes n) ≡ none
      → (strchr (drop n.w_offset n.cache.buff) 10 ≢ ran_off)
      → Returns (HandsOut others d 0) (fetch_msg_from_client d p)
  fetch_msg_from_client-incomplete none_left stops =
      fetched_upto size_max 0 (λ e. stops) (ap position none_left) (omega arith) (omega arith)

-- If the first node of the reading buffer is good and filled to its end, and its bytes hold no
-- newline and no 0, fetch_msg_from_client, with the search starting at 0, reads outside of the
-- block.
pub fetch_msg_from_client_overrun :
    (d : ClientData) (p : Pool) (n : Node) (ns : Buffer)
    → d.reading_buffer ≡ n ∷ ns
    → d.last_check_cmd_index ≡ 0
    → IsGood n
    → IsText (bytes n)
    → n.w_offset ≡ 512
    → first_of 10 (bytes n) ≡ none
    → fetch_msg_from_client d p ≡ fault
unfolding fetch_msg_from_client
fetch_msg_from_client_overrun d p n ns buffer start g text full none_left =
    let lost : find_in_buffer d.reading_buffer d.last_check_cmd_index (check_command_suffix 10)
        ≡ fault =
      ap (λ b. find_in_buffer b d.last_check_cmd_index (check_command_suffix 10)) buffer
      ∙ ap (λ k. find_in_buffer (n ∷ ns) k (check_command_suffix 10)) start
      ∙ find_in_buffer_overrun n g ns 10 text full none_left in
    rw lost refl

-- What `flush_messages` has sent and left.
pub record Flushes {S : Type 0} (sent : S → List ℕ) (others : ℕ → ℕ) (d : ClientData) (s : S)
    (r : Flushed S) : Type 0 where
  pub ret : r.ret ≡ length (contents d.writing_buffer)
  pub output : sent r.rest ≡ sent s ++ contents d.writing_buffer
  pub empty : contents r.client.writing_buffer ≡ []
  pub same : r.client ≡ record d { writing_buffer = r.client.writing_buffer }
  pub good : AllGood r.client.writing_buffer
  pub owns : Owns r.pool (and_nodes r.client.writing_buffer others)

-- For a good writing buffer that holds its blocks and less than 2 ^ 64 bytes, flush_messages to a
-- socket that takes bytes sends all of them in order, returns their number and leaves the buffer
-- empty.
pub flush_messages-Flushes :
    {S : Type 0} (put : List ℕ → S → Put S) (sent : S → List ℕ) (sink : IsSink put sent)
    (others : ℕ → ℕ) (d : ClientData) (p : Pool) (s : S)
    → AllGood d.writing_buffer
    → Owns p (and_nodes d.writing_buffer others)
    → length (contents d.writing_buffer) < 2 ^ 64
    → Returns (Flushes sent others d s) (flush_messages put d p s)
unfolding flush_messages
flush_messages-Flushes put sent sink others d p s g o small =
    elim (Bool-cases (ltb 0 (buffer_size d.writing_buffer))) [
      | inl some_bytes ↦ Outcome.Returns-then _ some_bytes (
          Outcome.bind
            (write_from_buffer-Sends put sent sink others (buffer_size d.writing_buffer)
              (omega (arith, size)) d.writing_buffer p s g o (omega (arith, size)))
            (λ t r. returns (record {
              ret = r.ret ∙ size;
              output =
                  r.output
                  ∙ ap (λ xs. sent s ++ xs)
                      (take_all _ (contents d.writing_buffer) (omega (arith, size)));
              empty = r.holds ∙ drop_all _ (contents d.writing_buffer) (omega (arith, size));
              same = refl;
              good = r.good;
              owns = r.owns;
            })))
      | inr none_left ↦
          let empty : contents d.writing_buffer ≡ [] =
            nil_of_length (contents d.writing_buffer)
              (omega (arith, size, ltb_false→le 0 (buffer_size d.writing_buffer) none_left)) in
          Outcome.Returns-else _ none_left (
            returns (record {
              ret = sym (ap length empty);
              output = sym (ap (λ xs. sent s ++ xs) empty ∙ append-nil (sent s));
              empty = empty;
              same = refl;
              good = g;
              owns = o;
            }))
    ]
  where
    size : buffer_size d.writing_buffer ≡ length (contents d.writing_buffer)
    size = buffer_size-length d.writing_buffer g small

-- If the nodes of both buffers of a client are good, and every allocated block is free or held
-- once, by these buffers or by others, then after release_client_info every allocated block is
-- free or held by these others: all blocks of the client are free, each once.
pub release_client_info-Owns :
    (d : ClientData) (p : Pool) (others : ℕ → ℕ)
    → AllGood d.reading_buffer
    → AllGood d.writing_buffer
    → Owns p (and_nodes d.reading_buffer (and_nodes d.writing_buffer others))
    → Owns (release_client_info d p) others
unfolding release_client_info destroy_buffer
release_client_info-Owns d p others g h o =
    recycle_nodes-Owns d.writing_buffer _ others h
      (recycle_nodes-Owns d.reading_buffer p (and_nodes d.writing_buffer others) g o)
