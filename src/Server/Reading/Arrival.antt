-- ===== src/Server/Reading/Arrival.antt =====
-- `fetch_from_client` when a socket has as many bytes as `ioctl` says and the client's reading
-- buffer is empty.
use cosc402_assignment.Base.{
  ℕ, suc, ◌≤◌, ◌<◌, ◌≡◌, refl, sym, ap, ◌∙◌, true, some, Option, none, List, [], ◌∷◌, ◌++◌, arith,
  ltb, false, ◌==◌, if◌then◌else◌,
}
use mathlib.Core.Path.{subst}
use cosc402_assignment.Base.Lists.{length}
use cosc402_assignment.Base.Outcome.{Outcome, done, Returns, returns, ◌>>=◌}
use cosc402_assignment.Base.Outcome
use cosc402_assignment.Base.Words.{to_int, to_size, size_add, size_sub, int_sub, int_pos, min_size}
use cosc402_assignment.Cache.Ownership.{Owns, Owns-eq}
use cosc402_assignment.Buffer.Node.{
  Node, Mem, IsGood, AllGood, bytes, bytes_of_zero, new_node, Stored, store_bytes-Stored,
}
use cosc402_assignment.Buffer.Ownership.{
  and_nodes, NewNode, supplied, new_node-NewNode, IsPlenty, new_node-IsPlenty,
}
use cosc402_assignment.Buffer.Fill.{Pull, got, fill_loop, fill_new, fill, read_into_buffer}
use cosc402_assignment.Buffer.Fill.Calm.{IsCalm}
use cosc402_assignment.ClientInfo.{ClientData, Answer, fetched, fetch_from_client}
use cosc402_assignment.Server.Handle.OneNode.{OneNode, one}

-- The bytes lie in one node of an else empty buffer.
pub record Brings (others : ℕ → ℕ) (d : ClientData) (text : List ℕ) {S : Type 0} (rest : S)
    (a : Answer S) : Type 0 where
  pub ret : a.ret ≡ length text
  pub client : a.client ≡ record d { reading_buffer = a.client.reading_buffer }
  pub node : OneNode a.client.reading_buffer text
  pub good : AllGood a.client.reading_buffer
  pub owns : Owns a.mem.pool (and_nodes a.client.reading_buffer others)
  pub calm : IsCalm a.mem
  pub rest_is : a.rest ≡ rest

module _ {S : Type 0} (read : ℕ → S → Pull S) (others : ℕ → ℕ) (text : List ℕ) (s rest : S)
    (some_text : 0 < length text) (fits : length text ≤ 512)
    (gives : read (length text) s ≡ got text rest) where
  fill_once :
      (n : Node) (m : Mem)
      → IsGood n
      → n.w_offset ≡ 0
      → (n' : Node) × Stored n text n'
        × (fill_loop read
              (suc (length text))
              (length text)
              0
              (record { buff = []; tmp = []; in_tmp = true; node = n })
              m
              s
            ≡ done (record {
              ret = to_int (size_add 0 (length text));
              broke = false;
              lists = record { buff = []; tmp = n' ∷ [] };
              mem = m;
              rest = rest;
            }))
  unfolding fill_loop
  fill_once n m g zero_w =
      let (n', stores, stored) = store_bytes-Stored n text g (omega (arith, zero_w, fits)) in
      let asked : min_size (size_sub (length text) 0) (to_size (int_sub 512 n.w_offset))
          ≡ length text =
        ground (arith, zero_w, fits) in
      let more : ltb 0 (length text) ≡ true = ground (arith, some_text) in
      let all : (size_add 0 (length text) == length text) ≡ true = ground (arith, fits) in
      (n', stored, rw (more, asked, gives, stores, all) refl)

  fill_new-Brings :
      (d : ClientData) (y : Option Node × Mem)
      → IsPlenty y
      → NewNode others y
      → Returns
          (λ r. Brings others d text rest (record {
            ret = r.ret;
            client = record d { reading_buffer = r.buffer };
            mem = r.mem;
            rest = r.rest;
          }))
          (fill_new read (length text) [] s y)
  fill_new-Brings d (none, m) plenty new = absurd plenty
  fill_new-Brings d (some n, m) plenty (supplied g zero_w o) =
      let (n', stored, runs) = fill_once n m g zero_w in
      let holds : bytes n' ≡ text = stored.holds ∙ ap (λ xs. xs ++ text) (bytes_of_zero n zero_w) in
      let pos : int_pos (to_int (size_add 0 (length text))) ≡ true =
        ground (arith, some_text, fits) in
      rw (runs, pos)
        (returns (record {
          ret = ground (arith, fits);
          client = refl;
          node = one holds some_text;
          good = (stored.good, tt);
          owns =
              Owns-eq _ o
                (λ a. omega (arith, ap {B = ℕ} (λ x. if x == a then 1 else 0) stored.same_addr));
          calm = plenty;
          rest_is = refl;
        }))

  -- fetch_from_client appends what the socket has.
  pub fetch_from_client-Brings :
      (d : ClientData) (m : Mem)
      → d.reading_buffer ≡ []
      → IsCalm m
      → Owns m.pool others
      → Returns (Brings others d text rest) (fetch_from_client read (some (length text)) d m s)
  unfolding fetch_from_client read_into_buffer fill
  fetch_from_client-Brings d m empty calm o =
      let small : to_size (length text) ≡ length text = ground (arith, fits) in
      rw small (
        subst
          (λ b.
            Returns (Brings others d text rest)
              (fill read (length text) b m s >>= (λ r. done (fetched d r))))
          (sym empty)
          (Outcome.bind
            (fill_new-Brings d (new_node m) (new_node-IsPlenty m o.valid calm)
              (new_node-NewNode m others o))
            (λ r b. returns b)))
