-- ===== src/Common/Values.antt =====
-- Dynamic values and rows: the `any` of the program, restricted to JSON scalars.
-- Numbers are integers; a missing property reads as `undefined`.
use Prim.Native.Nat.{ℕ}
use Prim.Native.String.{String}
use mathlib.Core.Path.{◌≡◌, refl, sym, ap}
use mathlib.Core.Logic.{◌↔◌, ◌⊎◌, inl, inr}
use mathlib.Core.Bool.{Bool, true, false}
use mathlib.Core.List.{List, [], ◌∷◌}
use native.Mathlib.Omega.{arith}
use text.Mathlib.Text.{◌==◌ as str_eq}
use text.Mathlib.TextEquality.{eq_iff}
use zero_datafabric.Common.Tests.{◌==◌, if◌then◌else◌, Bool-cases}

-- `negsuc n` is -(n + 1).
pub data ℤ : Type 0 where
  pos : ℕ → ℤ
  negsuc : ℕ → ℤ

pub data Value : Type 0 where
  undefined null : Value
  bool : Bool → Value
  num : ℤ → Value
  str : String → Value

abbrev pub text_eq : String → String → Bool
text_eq = str_eq

pub text_eq_iff : (s t : String) → (text_eq s t ≡ true) ↔ (s ≡ t)
text_eq_iff = eq_iff

-- The `SameValueZero` test of `Map` and `Set`.
abbrev pub value_eq : Value → Value → Bool
value_eq undefined undefined = true
value_eq null null = true
value_eq (bool true) (bool true) = true
value_eq (bool false) (bool false) = true
value_eq (num (pos a)) (num (pos b)) = a == b
value_eq (num (negsuc a)) (num (negsuc b)) = a == b
value_eq (str s) (str t) = text_eq s t
value_eq _ _ = false

pub value_eq_sound : (a b : Value) → value_eq a b ≡ true → a ≡ b
value_eq_sound (str s) (str t) h = ground (arith, eq_iff s t)
value_eq_sound (num (pos a)) (num (pos b)) h = ground arith
value_eq_sound (num (negsuc a)) (num (negsuc b)) h = ground arith
value_eq_sound a b h = ground arith

pub value_eq_refl : (a : Value) → value_eq a a ≡ true
value_eq_refl (str s) = (eq_iff s s).1 refl
value_eq_refl (num (pos n)) = ground arith
value_eq_refl (num (negsuc n)) = ground arith
value_eq_refl (bool true) = refl
value_eq_refl (bool false) = refl
value_eq_refl _ = refl

-- `v !== null && v !== undefined`
abbrev pub is_present : Value → Bool
is_present undefined = false
is_present null = false
is_present _ = true

-- The operand of a condition: absent, one value, or a list.
pub data Operand : Type 0 where
  nothing : Operand
  one : Value → Operand
  many : List Value → Operand

abbrev pub Row : Type 0
Row = List (String × Value)

-- `row[name]`
unfoldable pub get : String → Row → Value
get name [] = undefined
get name ((k, v) ∷ row) = if text_eq k name then v else get name row

-- `set.has(v)`
unfoldable pub has : Value → List Value → Bool
has v [] = false
has v (x ∷ xs) = if value_eq x v then true else has v xs

pub has-nil : (k : Value) → ¬ (has k [] ≡ true)
unfolding has
has-nil k h = cc

pub has-here : (k : Value) (xs : List Value) → has k (k ∷ xs) ≡ true
unfolding has
has-here k xs = rw (value_eq_refl k)

pub has-there : (k x : Value) (xs : List Value) → has k xs ≡ true → has k (x ∷ xs) ≡ true
unfolding has
has-there k x xs h = ground arith

pub has-cons : (k x : Value) (xs : List Value) → has k (x ∷ xs) ≡ true → (k ≡ x) ⊎ (has k xs ≡ true)
unfolding has
has-cons k x xs h = elim (Bool-cases (value_eq x k)) [
  | inl e ↦ inl (sym (value_eq_sound x k e))
  | inr e ↦ inr (rw e at h)
]

pub has-absent :
    (k x : Value) (xs : List Value) → has k xs ≡ false → has x xs ≡ true → value_eq k x ≡ false
has-absent k x xs n h = elim (Bool-cases (value_eq k x)) [
  | inl e ↦ let same : has k xs ≡ has x xs = ap (λ v. has v xs) (value_eq_sound k x e) in cc
  | inr e ↦ e
]
