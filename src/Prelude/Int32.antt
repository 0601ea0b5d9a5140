-- ===== src/Prelude/Int32.antt =====
-- Go's int32: an integer, and the wrap-around that `+`, `-` and `*` apply to their results.
use Prim.Native.Nat.{ℕ, ◌+◌, ◌-◌, ◌%◌, ◌^◌, ◌≤◌, ◌<◌}
use mathlib.Core.Path.{◌≡◌, refl, ap, ◌∙◌}
use native.Mathlib.Omega.{arith}
use vertica_kubernetes.Prelude.Tests.{ltb, if◌then◌else◌}
use vertica_kubernetes.Prelude.Int.{ℤ, pos, negsuc, +ℤ_comm, ◌+ℤ◌, ◌-ℤ◌, pos_part, neg_part}

-- The two's complement pattern of an integer, and the integer that a pattern stands for.
abbrev to_bits : ℤ → ℕ
to_bits (pos n) = n % 2 ^ 32
to_bits (negsuc n) = 2 ^ 32 - 1 - n % 2 ^ 32

abbrev of_bits : ℕ → ℤ
of_bits w = if ltb w (2 ^ 31) then pos w else negsuc (2 ^ 32 - 1 - w)

unfoldable pub int32 : ℤ → ℤ
int32 z = of_bits (to_bits z)

unfoldable pub add32 : ℤ → ℤ → ℤ
unfolding int32 ◌+ℤ◌
add32 a b = int32 (a +ℤ b)

unfoldable pub sub32 : ℤ → ℤ → ℤ
unfolding int32 ◌-ℤ◌
sub32 a b = int32 (a -ℤ b)

-- The range of an int32.
abbrev pub IsInt32 : ℤ → Type 0
IsInt32 z = (pos_part z < 2 ^ 31) × (neg_part z ≤ 2 ^ 31)

pub int32-IsInt32 : (z : ℤ) → IsInt32 (int32 z)
unfolding int32
int32-IsInt32 (pos n) = ground arith
int32-IsInt32 (negsuc n) = ground arith

pub int32_of_IsInt32 : (z : ℤ) → IsInt32 z → int32 z ≡ z
unfolding int32
int32_of_IsInt32 (pos n) h = ground arith
int32_of_IsInt32 (negsuc n) h = ground arith

pub add32_exact : (a b : ℤ) → IsInt32 (a +ℤ b) → add32 a b ≡ a +ℤ b
unfolding add32
add32_exact a b h = int32_of_IsInt32 (a +ℤ b) h

pub sub32_exact : (a b : ℤ) → IsInt32 (a -ℤ b) → sub32 a b ≡ a -ℤ b
unfolding sub32
sub32_exact a b h = int32_of_IsInt32 (a -ℤ b) h

wraps : add32 (pos 2147483647) (pos 1) ≡ negsuc 2147483647
unfolding add32
wraps = refl

-- Differences and sums of numbers that are not negative.
pub sub32_pos :
    (a : ℕ) (z : ℤ)
    → neg_part z ≡ 0
    → pos_part z ≤ a
    → a < 2 ^ 31
    → sub32 (pos a) z ≡ pos (a - pos_part z)
unfolding ◌-ℤ◌
sub32_pos a (pos n) h le lt = sub32_exact (pos a) (pos n) (ground arith) ∙ (ground arith)
sub32_pos a (negsuc n) h le lt = absurd (omega arith)

pub add32_pos :
    (a : ℕ) (z : ℤ)
    → neg_part z ≡ 0
    → a + pos_part z < 2 ^ 31
    → add32 (pos a) z ≡ pos (a + pos_part z)
unfolding ◌+ℤ◌
add32_pos a (pos n) h lt = add32_exact (pos a) (pos n) (ground arith) ∙ (ground arith)
add32_pos a (negsuc n) h lt = absurd (omega arith)

-- Adding a size to a number that is not positive, and the negation of such a number.
pub add32_parts :
    (z s : ℤ)
    → pos_part z ≡ 0
    → neg_part s ≡ 0
    → neg_part z < 2 ^ 31
    → pos_part s < 2 ^ 31
    → (pos_part (add32 z s) ≡ pos_part s - neg_part z)
      × (neg_part (add32 z s) ≡ neg_part z - pos_part s)
unfolding ◌+ℤ◌
add32_parts z s p n lz ls = rw (add32_exact z s (ground arith)) (ground arith)

pub sub32_negate :
    (z : ℤ) → pos_part z ≡ 0 → neg_part z < 2 ^ 31 → sub32 (pos 0) z ≡ pos (neg_part z)
unfolding ◌-ℤ◌
sub32_negate z p h = rw (sub32_exact (pos 0) z (ground arith)) (ground arith)

-- The difference of two numbers that are not negative does not wrap.
pub sub32_parts :
    (a b : ℕ)
    → a < 2 ^ 31
    → b < 2 ^ 31
    → (pos_part (sub32 (pos a) (pos b)) ≡ a - b) × (neg_part (sub32 (pos a) (pos b)) ≡ b - a)
unfolding ◌-ℤ◌
sub32_parts a b ha hb = rw (sub32_exact (pos a) (pos b) (ground arith)) (ground arith)

pub add32_comm : (a b : ℤ) → add32 a b ≡ add32 b a
unfolding add32
add32_comm a b = ap int32 (+ℤ_comm a b)
