-- ===== src/Common/Maps.antt =====
-- Objects of the program as association lists: a write replaces the first entry or adds one at the
-- end.
use Prim.Native.String.{String}
use mathlib.Core.Path.{◌≡◌, refl, ap, ◌∙◌}
use mathlib.Core.Option.{Option, none, some}
use mathlib.Core.Logic.{inl, inr}
use mathlib.Core.List.{List, [], ◌∷◌}
use native.Mathlib.Omega.{arith}
use zero_datafabric.Common.Tests.{if◌then◌else◌, Bool-cases}
use zero_datafabric.Common.Values.{text_eq, text_eq_iff, Value, Row, get}

abbrev pub or_option {ℓ} : {A : Type ℓ} → Option A → Option A → Option A
or_option (some a) o = some a
or_option none o = o

abbrev pub Assoc : Type 0 → Type 0
Assoc V = List (String × V)

module _ {V : Type 0} where
  -- `m[k]`
  unfoldable pub lookup : String → Assoc V → Option V
  lookup k [] = none
  lookup k ((j, v) ∷ m) = if text_eq j k then some v else lookup k m

  -- `m[k] = v`
  unfoldable pub insert : String → V → Assoc V → Assoc V
  insert k v [] = (k, v) ∷ []
  insert k v ((j, w) ∷ m) = if text_eq j k then (j, v) ∷ m else (j, w) ∷ insert k v m

  pub lookup-insert :
      (j k : String) (v : V) (m : Assoc V)
      → lookup j (insert k v m) ≡ (if text_eq k j then some v else lookup j m)
  unfolding lookup insert
  lookup-insert j k v [] = refl
  lookup-insert j k v ((i, w) ∷ m) =
      ground (arith, text_eq_iff k j, text_eq_iff i k, text_eq_iff i j, lookup-insert j k v m)

  -- `{ ...m, ...n }`
  unfoldable pub assign : Assoc V → Assoc V → Assoc V
  assign m [] = m
  assign m ((k, v) ∷ n) = assign (insert k v m) n

  -- No key stands twice.
  abbrev pub Unique : Assoc V → Type 0
  Unique [] = Unit
  Unique ((k, v) ∷ m) = (lookup k m ≡ none) × Unique m

  pub lookup-assign :
      (k : String) (m n : Assoc V)
      → Unique n
      → lookup k (assign m n) ≡ or_option (lookup k n) (lookup k m)
  unfolding lookup assign
  lookup-assign k m [] u = refl
  lookup-assign k m ((j, v) ∷ n) (absent, u) =
      ground (arith, lookup-assign k (insert j v m) n u, lookup-insert k j v m, text_eq_iff j k)

  pub insert-Unique : (k : String) (v : V) (m : Assoc V) → Unique m → Unique (insert k v m)
  unfolding lookup insert
  insert-Unique k v [] u = (refl, tt)
  insert-Unique k v ((j, w) ∷ m) (absent, u) =
      ground (arith, insert-Unique k v m u, lookup-insert j k v m, text_eq_iff j k, text_eq_iff k j)

  pub assign-Unique : (m n : Assoc V) → Unique m → Unique (assign m n)
  unfolding assign
  assign-Unique m [] u = u
  assign-Unique m ((k, v) ∷ n) u = assign-Unique (insert k v m) n (insert-Unique k v m u)

abbrev pub if_some : {A B : Type 0} → (A → B) → Option A → Option B
if_some f none = none
if_some f (some a) = some (f a)

-- A map with its values replaced; the operations on maps commute with this.
module _ {A B : Type 0} (f : A → B) where
  abbrev pub map_values : Assoc A → Assoc B
  map_values [] = []
  map_values ((k, v) ∷ m) = (k, f v) ∷ map_values m

  pub map_values-insert :
      (k : String) (v : A) (m : Assoc A) → map_values (insert k v m) ≡ insert k (f v) (map_values m)
  unfolding insert
  map_values-insert k v [] = refl
  map_values-insert k v ((j, w) ∷ m) = elim (Bool-cases (text_eq j k)) [
    | inl e ↦ rw e refl
    | inr e ↦ rw e (ap (λ r. (j, f w) ∷ r) (map_values-insert k v m))
  ]

  pub map_values-assign :
      (m n : Assoc A) → map_values (assign m n) ≡ assign (map_values m) (map_values n)
  unfolding assign
  map_values-assign m [] = refl
  map_values-assign m ((k, v) ∷ n) =
      map_values-assign (insert k v m) n
      ∙ ap (λ r. assign r (map_values n)) (map_values-insert k v m)

  pub lookup-map_values :
      (k : String) (m : Assoc A) → lookup k (map_values m) ≡ if_some f (lookup k m)
  unfolding lookup
  lookup-map_values k [] = refl
  lookup-map_values k ((j, w) ∷ m) = elim (Bool-cases (text_eq j k)) [
    | inl e ↦ rw e refl
    | inr e ↦ rw e (lookup-map_values k m)
  ]

pub get-insert :
    (j k : String) (v : Value) (m : Row)
    → get j (insert k v m) ≡ (if text_eq k j then v else get j m)
unfolding get insert
get-insert j k v [] = refl
get-insert j k v ((i, w) ∷ m) =
    ground (arith, text_eq_iff k j, text_eq_iff i k, text_eq_iff i j, get-insert j k v m)
