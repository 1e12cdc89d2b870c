-- ===== src/Buffer/Find/First.antt =====
-- What `find_in_buffer` finds from the start of a buffer: it looks at the first node only.
use cosc402_assignment.Base.{
  ℕ, ◌^◌, ◌≤◌, ◌<◌, ◌≡◌, ◌≢◌, refl, sym, ap, ◌∙◌, inl, inr, true, false, Option, none, some, List,
  [], ◌∷◌, ◌++◌, append-nil, arith, Bool-cases, ◌==◌,
}
use cosc402_assignment.Base.Lists.{
  length, take, drop, take-append-drop, drop-append_left, drop_all, length-take,
}
use cosc402_assignment.Base.Outcome.{done, fault}
use cosc402_assignment.Base.Strings.{IsText, first_of, first_of_tail}
use cosc402_assignment.Base.Words.{int_sub, size_add, size_max}
use cosc402_assignment.Buffer.Node.{Node, Buffer, IsGood, bytes, length-bytes}
use cosc402_assignment.Buffer.Find.{
  Scan, at, ended, ran_off, further, strchr, below, check_command_suffix, check_command_suffix_at,
  find_in_buffer,
}

-- The position as a `size_t`, -1 for none.
abbrev pub position : Option ℕ → ℕ
position none = size_max
position (some i) = i

-- What `strchr` finds in `xs ++ rest`, when there is no 0 in `xs` and it stops in `rest` at last.
pub data Found (c : ℕ) (xs : List ℕ) : Scan → Type 0 where
  inside : {i : ℕ} → first_of c xs ≡ some i → i < length xs → Found c xs (at i)
  outside : {i : ℕ} → first_of c xs ≡ none → length xs ≤ i → Found c xs (at i)
  missing : first_of c xs ≡ none → Found c xs ended

Found-further :
    (c x : ℕ) (xs : List ℕ) (s : Scan)
    → (x == c) ≡ false
    → Found c xs s
    → Found c (x ∷ xs) (further s)
unfolding first_of
Found-further c x xs (at i) ne (inside e lt) = inside (rw (ne, e) refl) (omega arith)
Found-further c x xs (at i) ne (outside e le) = outside (rw (ne, e) refl) (omega arith)
Found-further c x xs ended ne (missing e) = missing (rw (ne, e) refl)
Found-further c x xs ran_off ne f = elim f [ ]

Found_rest : (c : ℕ) (s : Scan) → (s ≢ ran_off) → Found c [] s
unfolding first_of
Found_rest c (at i) stops = outside refl (omega arith)
Found_rest c ended stops = missing refl
Found_rest c ran_off stops = absurd (stops refl)

strchr-Found :
    (c : ℕ) (xs rest : List ℕ)
    → IsText xs
    → (first_of c xs ≡ none → strchr rest c ≢ ran_off)
    → Found c xs (strchr (xs ++ rest) c)
unfolding first_of
strchr-Found c [] rest t stops = Found_rest c (strchr rest c) (stops refl)
strchr-Found c (x ∷ xs) rest t stops = elim (Bool-cases (x == c)) [
  | inl e ↦ rw e (inside (rw e refl) (omega arith))
  | inr ne ↦
      let not_zero : (x == 0) ≡ false = ground (arith, t.0) in
      rw (ne, not_zero)
        (Found-further c x xs (strchr (xs ++ rest) c) ne
          (strchr-Found c xs rest t.1 (λ none_left. stops (rw (ne, none_left) refl))))
]

-- A search that finds neither `c` nor a 0 in the block goes on behind it.
strchr_off : (c : ℕ) (xs : List ℕ) → IsText xs → first_of c xs ≡ none → strchr xs c ≡ ran_off
unfolding first_of
strchr_off c [] t none_left = refl
strchr_off c (x ∷ xs) t none_left = elim (Bool-cases (x == c)) [
  | inl e ↦ absurd (cc (rw e at none_left))
  | inr ne ↦
      let not_zero : (x == 0) ≡ false = ground (arith, t.0) in
      rw (ne, not_zero, strchr_off c xs t.1 (first_of_tail (first_of c xs) (rw ne at none_left)))
        refl
]

module _ (n : Node) (g : IsGood n) where
  -- What lies behind the node's read pointer: its bytes, then the rest of the block.
  block_from : drop n.r_offset n.cache.buff ≡ bytes n ++ drop n.w_offset n.cache.buff
  block_from =
      ap (drop n.r_offset) (sym (take-append-drop n.w_offset n.cache.buff))
      ∙ drop-append_left n.r_offset (take n.w_offset n.cache.buff) (drop n.w_offset n.cache.buff)
          (omega (arith, length-take n.w_offset n.cache.buff, g.ordered, g.within, g.block))

  size_of : int_sub n.w_offset n.r_offset ≡ length (bytes n)
  size_of = omega (arith, length-bytes g, g.ordered, g.within)

  short : length (bytes n) ≤ 512
  short = omega (arith, length-bytes g, g.within)

  check-Found :
      (c : ℕ) (s : Scan)
      → Found c (bytes n) s
      → check_command_suffix_at (length (bytes n)) s ≡ done (position (first_of c (bytes n)))
  check-Found c (at i) (inside e lt) =
      let inner : below i (length (bytes n)) ≡ true = ground (arith, short) in rw (inner, e) refl
  check-Found c (at i) (outside e le) =
      let outer : below i (length (bytes n)) ≡ false = ground (arith, short) in rw (outer, e) refl
  check-Found c ended (missing e) = rw e refl
  check-Found c ran_off f = elim f [ ]

  position_small :
      (c : ℕ) (s : Scan) → Found c (bytes n) s → position (first_of c (bytes n)) < 2 ^ 64
  position_small c (at i) (inside e lt) = rw e (omega (arith, short))
  position_small c (at i) (outside e le) = rw e (omega arith)
  position_small c ended (missing e) = rw e (omega arith)
  position_small c ran_off f = elim f [ ]

  module _ (ns : Buffer) (c : ℕ) (text : IsText (bytes n))
      (stops : first_of c (bytes n) ≡ none
        → strchr (drop n.w_offset n.cache.buff) c ≢ ran_off) where
    scan : Found c (bytes n) (strchr (bytes n ++ drop n.w_offset n.cache.buff) c)
    scan = strchr-Found c (bytes n) (drop n.w_offset n.cache.buff) text stops

    -- From the start of a buffer whose first node is good, holds no 0, and has the character among
    -- its bytes or a 0 or the character behind them in its block, find_in_buffer finds the first
    -- place of the character in that node, and (size_t) -1 if it is not among its bytes.
    pub find_in_buffer-first_of :
        find_in_buffer (n ∷ ns) 0 (check_command_suffix c) ≡ done (position (first_of c (bytes n)))
    unfolding find_in_buffer check_command_suffix
    find_in_buffer-first_of =
        let found = strchr (bytes n ++ drop n.w_offset n.cache.buff) c in
        let whole : size_add 0 (position (first_of c (bytes n))) ≡ position (first_of c (bytes n)) =
          omega (arith, position_small c found scan) in
        rw (block_from, size_of, check-Found c found scan, whole) refl

  -- In a first node that is filled to its end, with no 0 and no `c` in its bytes, the search leaves
  -- the block.
  pub find_in_buffer_overrun :
      (ns : Buffer) (c : ℕ)
      → IsText (bytes n)
      → n.w_offset ≡ 512
      → first_of c (bytes n) ≡ none
      → find_in_buffer (n ∷ ns) 0 (check_command_suffix c) ≡ fault
  unfolding find_in_buffer check_command_suffix
  find_in_buffer_overrun ns c text full none_left =
      let nothing : drop n.w_offset n.cache.buff ≡ [] =
        drop_all n.w_offset n.cache.buff (omega (arith, g.block)) in
      rw (block_from, nothing, append-nil (bytes n), strchr_off c (bytes n) text none_left) refl
