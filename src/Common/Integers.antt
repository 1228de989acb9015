-- ===== src/Common/Integers.antt =====
-- Tests and operations on the integers.
use Prim.Native.Nat.{ℕ, suc, ◌+◌, ◌-◌}
use mathlib.Core.Path.{◌≡◌}
use mathlib.Core.Bool.{Bool, true, false, not, ◌&&◌}
use native.Mathlib.Omega.{arith}
use zero_datafabric.Common.Tests.{leb, if◌then◌else◌}
use zero_datafabric.Common.Values.{ℤ, pos, negsuc}

abbrev pub z_leb : ℤ → ℤ → Bool
z_leb (pos a) (pos b) = leb a b
z_leb (pos a) (negsuc b) = false
z_leb (negsuc a) (pos b) = true
z_leb (negsuc a) (negsuc b) = leb b a

-- `Math.min`
abbrev pub z_min : ℤ → ℤ → ℤ
z_min a b = if z_leb a b then a else b

pub z_leb-z_min : (a b c : ℤ) → not (z_leb (z_min a b) c) ≡ not (z_leb a c) && not (z_leb b c)
z_leb-z_min (pos a) (pos b) (pos c) = ground arith
z_leb-z_min (pos a) (pos b) (negsuc c) = ground arith
z_leb-z_min (pos a) (negsuc b) (pos c) = ground arith
z_leb-z_min (pos a) (negsuc b) (negsuc c) = ground arith
z_leb-z_min (negsuc a) (pos b) (pos c) = ground arith
z_leb-z_min (negsuc a) (pos b) (negsuc c) = ground arith
z_leb-z_min (negsuc a) (negsuc b) (pos c) = ground arith
z_leb-z_min (negsuc a) (negsuc b) (negsuc c) = ground arith

-- a - b, as an integer.
abbrev pub sub_ℕ : ℕ → ℕ → ℤ
sub_ℕ a b = if leb b a then pos (a - b) else negsuc (b - a - 1)

abbrev pub pos_part : ℤ → ℕ
pos_part (pos n) = n
pos_part (negsuc n) = 0

abbrev pub neg_part : ℤ → ℕ
neg_part (pos n) = 0
neg_part (negsuc n) = suc n

unfoldable pub z_add : ℤ → ℤ → ℤ
z_add a b = sub_ℕ (pos_part a + pos_part b) (neg_part a + neg_part b)

-- The sum by its parts, for proofs in which `z_add` stays shut.
pub z_add_parts :
    (a b : ℤ)
    → pos_part (z_add a b) + neg_part a + neg_part b
      ≡ neg_part (z_add a b) + pos_part a + pos_part b
unfolding z_add
z_add_parts a b = ground arith

pub eq_of_parts : (a b : ℤ) → pos_part a + neg_part b ≡ pos_part b + neg_part a → a ≡ b
eq_of_parts a b h = ground arith

pub ruleset int_laws = (arith, z_add_parts, eq_of_parts)

pub z_add_assoc : (a b c : ℤ) → z_add (z_add a b) c ≡ z_add a (z_add b c)
z_add_assoc a b c = eq_of_parts _ _ (omega int_laws)

pub z_add_zero : (a : ℤ) → z_add a (pos 0) ≡ a
z_add_zero a = eq_of_parts _ _ (omega int_laws)

pub zero-z_add : (a : ℤ) → z_add (pos 0) a ≡ a
zero-z_add a = eq_of_parts _ _ (omega int_laws)
