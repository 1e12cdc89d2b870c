-- ===== src/Base/Strings.antt =====
-- Strings of C: the bytes before the first 0 of an array.
use Prim.Native.Nat.{ℕ, zero, suc, ◌+◌, ◌<◌}
use mathlib.Core.Path.{◌≡◌, refl, ap, ◌∙◌}
use mathlib.Core.Bool.{Bool, true, false}
use mathlib.Core.Option.{Option, none, some}
use mathlib.Core.Logic.{inl, inr, ◌≢◌}
use mathlib.Core.List.{List, [], ◌∷◌, ◌++◌, append-nil}
use native.Mathlib.Omega.{arith}
use cosc402_assignment.Base.Tests.{◌==◌, ==_self, Bool-cases, if◌then◌else◌}
use cosc402_assignment.Base.Lists.{length, take}

-- The first position of `c` in a list of bytes.
unfoldable pub first_of : ℕ → List ℕ → Option ℕ
first_of c [] = none
first_of c (x ∷ xs) =
    if x == c then some 0 else elim (first_of c xs) [ none ↦ none | some i ↦ some (1 + i) ]

-- None of the bytes is 0.
abbrev pub IsText : List ℕ → Type 0
IsText [] = Unit {0}
IsText (x ∷ xs) = (0 < x) × IsText xs

pub first_of_tail :
    (o : Option ℕ) → elim o [ none ↦ none | some i ↦ some (1 + i) ] ≡ none → o ≡ none
first_of_tail none e = refl
first_of_tail (some i) e = absurd (cc e)

-- The first place of `c` behind bytes without `c`.
pub first_of-append :
    (c : ℕ) (line rest : List ℕ)
    → first_of c line ≡ none
    → first_of c (line ++ (c ∷ rest)) ≡ some (length line)
unfolding first_of
first_of-append c [] rest h = rw (==_self c) refl
first_of-append c (x ∷ line) rest h = elim (Bool-cases (x == c)) [
  | inl e ↦ absurd (cc (rw e at h))
  | inr ne ↦
      rw (ne, first_of-append c line rest (first_of_tail (first_of c line) (rw ne at h)))
        (ap some (omega arith))
]

-- The string in an array: the bytes before the first 0.
unfoldable pub c_string : List ℕ → List ℕ
c_string [] = []
c_string (x ∷ xs) = let rest = c_string xs in if x == 0 then [] else x ∷ rest

pub c_string-padded : (xs rest : List ℕ) → IsText xs → c_string (xs ++ (0 ∷ rest)) ≡ xs
unfolding c_string
c_string-padded [] rest t = refl
c_string-padded (x ∷ xs) rest t =
    let not_zero : (x == 0) ≡ false = ground (arith, t.0) in
    rw not_zero (ap (λ ys. x ∷ ys) (c_string-padded xs rest t.1))

pub IsText-take : (n : ℕ) (xs : List ℕ) → IsText xs → IsText (take n xs)
IsText-take zero xs t = tt
IsText-take (suc n) [] t = tt
IsText-take (suc n) (x ∷ xs) t = (t.0, IsText-take n xs t.1)

-- Bytes of one line: no 0 and no newline.
abbrev pub IsLine : List ℕ → Type 0
IsLine [] = Unit {0}
IsLine (x ∷ xs) = (0 < x) × ((x ≢ 10) × IsLine xs)

pub IsLine-IsText : (xs : List ℕ) → IsLine xs → IsText xs
IsLine-IsText [] h = tt
IsLine-IsText (x ∷ xs) h = (h.0, IsLine-IsText xs h.1.1)

pub IsLine-append : (xs ys : List ℕ) → IsLine xs → IsLine ys → IsLine (xs ++ ys)
IsLine-append [] ys h k = k
IsLine-append (x ∷ xs) ys h k = (h.0, (h.1.0, IsLine-append xs ys h.1.1 k))

pub c_string-append : (xs ys : List ℕ) → IsText xs → c_string (xs ++ ys) ≡ xs ++ c_string ys
unfolding c_string
c_string-append [] ys t = refl
c_string-append (x ∷ xs) ys t =
    let not_zero : (x == 0) ≡ false = ground (arith, t.0) in
    rw not_zero (ap (λ zs. x ∷ zs) (c_string-append xs ys t.1))

-- The string before the first newline.
abbrev pub cut_at_newline : List ℕ → List ℕ
cut_at_newline [] = []
cut_at_newline (x ∷ xs) = let rest = cut_at_newline xs in if x == 10 then [] else x ∷ rest

pub cut_at_newline-append :
    (xs ys : List ℕ) → IsLine xs → cut_at_newline (xs ++ ys) ≡ xs ++ cut_at_newline ys
cut_at_newline-append [] ys h = refl
cut_at_newline-append (x ∷ xs) ys h =
    let other : (x == 10) ≡ false = ground (arith, h.1.0) in
    rw other (ap (λ zs. x ∷ zs) (cut_at_newline-append xs ys h.1.1))

-- The line, from memory that holds it with its newline and more.
pub cut_line : (xs rest : List ℕ) → IsLine xs → cut_at_newline (c_string (xs ++ (10 ∷ rest))) ≡ xs
unfolding c_string
cut_line xs rest h =
    ap cut_at_newline (c_string-append xs (10 ∷ rest) (IsLine-IsText xs h))
    ∙ cut_at_newline-append xs (10 ∷ c_string rest) h
    ∙ append-nil xs

abbrev pub starts_with : List ℕ → List ℕ → Bool
starts_with [] s = true
starts_with (p ∷ ps) [] = false
starts_with (p ∷ ps) (x ∷ xs) = if p == x then starts_with ps xs else false

pub IsLine-take : (n : ℕ) (xs : List ℕ) → IsLine xs → IsLine (take n xs)
IsLine-take zero xs h = tt
IsLine-take (suc n) [] h = tt
IsLine-take (suc n) (x ∷ xs) h = (h.0, (h.1.0, IsLine-take n xs h.1.1))

pub first_of_line : (xs : List ℕ) → IsLine xs → first_of 10 xs ≡ none
unfolding first_of
first_of_line [] h = refl
first_of_line (x ∷ xs) h =
    let other : (x == 10) ≡ false = ground (arith, h.1.0) in rw (other, first_of_line xs h.1.1) refl

pub IsText-append : (xs ys : List ℕ) → IsText xs → IsText ys → IsText (xs ++ ys)
IsText-append [] ys h k = k
IsText-append (x ∷ xs) ys h k = (h.0, IsText-append xs ys h.1 k)
