-- ===== src/Server/Threads/Clients.antt =====
-- Lists of clients: who is in them, and what taking one off leaves.
use cosc402_assignment.Base.{
  ℕ, ◌⊎◌, ◌≡◌, ◌≢◌, refl, sym, ap, ◌∙◌, Bool, true, false, List, [], ◌∷◌, ◌++◌, ◌==◌, ◌||◌, arith,
  inl, inr, Bool-cases, ==_self,
}
use cosc402_assignment.Server.Threads.{unlink}

abbrev pub has : ℕ → List ℕ → Bool
has a [] = false
has a (c ∷ cs) = (c == a) || has a cs

abbrev pub NoneTwice : List ℕ → Type 0
NoneTwice [] = Unit {0}
NoneTwice (c ∷ cs) = (has c cs ≡ false) × NoneTwice cs

-- A member of a list is its first entry, or in the rest.
pub has_cases : (b c : ℕ) (cs : List ℕ) → has b (c ∷ cs) ≡ true → (c ≡ b) ⊎ (has b cs ≡ true)
has_cases b c cs h = elim (Bool-cases (c == b)) [
  | inl e ↦ inl (ground (arith, e))
  | inr ne ↦ inr (ground (arith, h, ne))
]

pub has_first : (c : ℕ) (cs : List ℕ) → has c (c ∷ cs) ≡ true
has_first c cs = rw (==_self c) refl

pub has_later : (b c : ℕ) (cs : List ℕ) → has b cs ≡ true → has b (c ∷ cs) ≡ true
has_later b c cs h = ground (arith, h)

pub absent : (b : ℕ) (cs : List ℕ) → (has b cs ≡ true → ⊥) → has b cs ≡ false
absent b cs never = elim (Bool-cases (has b cs)) [ inl e ↦ absurd (never e) | inr ne ↦ ne ]

pub has_snoc : (b a : ℕ) (cs : List ℕ) → has b (cs ++ (a ∷ [])) ≡ (has b cs || (a == b))
has_snoc b a [] = ground arith
has_snoc b a (c ∷ cs) = rw (has_snoc b a cs) (ground arith)

pub NoneTwice-snoc :
    (a : ℕ) (cs : List ℕ) → has a cs ≡ false → NoneTwice cs → NoneTwice (cs ++ (a ∷ []))
NoneTwice-snoc a [] h n = (refl, tt)
NoneTwice-snoc a (c ∷ cs) h n =
    (rw (has_snoc c a cs) (ground (arith, h, n.0)), NoneTwice-snoc a cs (ground (arith, h)) n.1)

module _ (socket_of : ℕ → ℕ) (k : ℕ) where
  pub has-unlink : (b : ℕ) (cs : List ℕ) → has b (unlink socket_of k cs) ≡ true → has b cs ≡ true
  unfolding unlink
  has-unlink b [] h = h
  has-unlink b (c ∷ cs) h = elim (Bool-cases (socket_of c == k)) [
    | inl e ↦ ground (arith, rw e at h)
    | inr ne ↦ ground (arith, rw ne at h, has-unlink b cs)
  ]

  pub has-unlink_other :
      (b : ℕ) (cs : List ℕ)
      → has b cs ≡ true
      → socket_of b ≢ k
      → has b (unlink socket_of k cs) ≡ true
  unfolding unlink
  has-unlink_other b [] h ne = h
  has-unlink_other b (c ∷ cs) h ne = elim (Bool-cases (socket_of c == k)) [
    | inl e ↦ elim (has_cases b c cs h) [
      | inl same ↦ absurd (ne (sym (ap socket_of same) ∙ ground (arith, e)))
      | inr there ↦ rw e there
    ]
    | inr other ↦ elim (has_cases b c cs h) [
      | inl same ↦ rw other (ground (arith, same))
      | inr there ↦
          rw other (has_later b c (unlink socket_of k cs) (has-unlink_other b cs there ne))
    ]
  ]

  pub NoneTwice-unlink : (cs : List ℕ) → NoneTwice cs → NoneTwice (unlink socket_of k cs)
  unfolding unlink
  NoneTwice-unlink [] n = tt
  NoneTwice-unlink (c ∷ cs) n = elim (Bool-cases (socket_of c == k)) [
    | inl e ↦ rw e n.1
    | inr other ↦ rw other (
      absent c (unlink socket_of k cs) (λ h. absurd (cc (n.0, has-unlink c cs h))),
      NoneTwice-unlink cs n.1,
    )
  ]

-- The client itself is taken off, if nobody else in the list has its socket.
pub has-unlink_own :
    (socket_of : ℕ → ℕ) (a : ℕ) (cs : List ℕ)
    → NoneTwice cs
    → ((b : ℕ) → has b cs ≡ true → socket_of b ≡ socket_of a → b ≡ a)
    → has a (unlink socket_of (socket_of a) cs) ≡ false
unfolding unlink
has-unlink_own socket_of a [] n alone = refl
has-unlink_own socket_of a (c ∷ cs) n alone = elim (Bool-cases (socket_of c == socket_of a)) [
  | inl e ↦ elim (Bool-cases (c == a)) [
    | inl own ↦ let same : c ≡ a = ground (arith, own) in rw e (ap (λ x. has x cs) (sym same) ∙ n.0)
    | inr differs ↦
        let same : socket_of c ≡ socket_of a = ground (arith, e) in
        absurd (ground (arith, differs, alone c (has_first c cs) same))
  ]
  | inr other ↦
      let differs : (c == a) ≡ false = elim (Bool-cases (c == a)) [
        | inl own ↦
            let same : c ≡ a = ground (arith, own) in
            absurd (cc (other, ap (λ x. socket_of x == socket_of a) same, ==_self (socket_of a)))
        | inr ne ↦ ne
      ] in
      rw (other, differs) (has-unlink_own socket_of a cs n.1 (λ b h. alone b (has_later b c cs h)))
]
