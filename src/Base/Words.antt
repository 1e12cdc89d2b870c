-- ===== src/Base/Words.antt =====
-- Machine words as native numbers. An `int` is its 32-bit pattern and a `size_t` its 64-bit value,
-- so -1 is `2 ^ 32 - 1` as an `int` and `2 ^ 64 - 1` as a `size_t`.
use Prim.Native.Nat.{ℕ, ◌+◌, ◌-◌, ◌%◌, ◌^◌, ◌≤◌, ◌<◌}
use mathlib.Core.Path.{◌≡◌}
use mathlib.Core.Bool.{Bool}
use native.Mathlib.Omega.{arith}
use cosc402_assignment.Base.Tests.{ltb, leb, if◌then◌else◌}

-- `int` addition and subtraction, on patterns.
abbrev pub int_add : ℕ → ℕ → ℕ
int_add a b = (a + b) % 2 ^ 32

abbrev pub int_sub : ℕ → ℕ → ℕ
int_sub a b = (a + 2 ^ 32 - b) % 2 ^ 32

-- `a <= b` on signed patterns.
abbrev pub int_leb : ℕ → ℕ → Bool
int_leb a b = leb ((a + 2 ^ 31) % 2 ^ 32) ((b + 2 ^ 31) % 2 ^ 32)

-- `0 < a` and `a < 0` on signed patterns.
abbrev pub int_pos : ℕ → Bool
int_pos a = ltb 2147483648 ((a + 2 ^ 31) % 2 ^ 32)

abbrev pub int_neg : ℕ → Bool
int_neg a = leb 2147483648 a

-- `(int) n` of a `size_t`, and `(size_t) i` of an `int`, which extends the sign.
abbrev pub to_int : ℕ → ℕ
to_int n = n % 2 ^ 32

abbrev pub to_size : ℕ → ℕ
to_size i = if ltb i (2 ^ 31) then i else i + 2 ^ 64 - 2 ^ 32

abbrev pub size_add : ℕ → ℕ → ℕ
size_add a b = (a + b) % 2 ^ 64

abbrev pub size_sub : ℕ → ℕ → ℕ
size_sub a b = (a + 2 ^ 64 - b) % 2 ^ 64

-- The macro `min` of common.h on two `size_t` values.
abbrev pub min_size : ℕ → ℕ → ℕ
min_size x y = if ltb x y then x else y

-- `(size_t) -1`, `(int) -1`.
abbrev pub size_max : ℕ
size_max = 2 ^ 64 - 1

abbrev pub minus_one : ℕ
minus_one = 2 ^ 32 - 1

-- Where the parts are small, the words are the numbers.
pub to_size-int_sub : (a b : ℕ) → b ≤ a → a < 2 ^ 31 → to_size (int_sub a b) ≡ a - b
to_size-int_sub a b h small = ground arith
