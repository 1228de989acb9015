-- ===== src/Common/Lists.antt =====
-- Lists over the native numbers.
use Prim.Native.Nat.{ℕ, zero, suc, ◌+◌, ◌<◌}
use mathlib.Core.Path.{◌≡◌, refl, sym, ap, subst, ◌∙◌}
use mathlib.Core.Logic.{◌⊎◌, ◌↔◌, inl, inr}
use mathlib.Core.Bool.{Bool, true, false, ◌&&◌, ◌||◌}
use mathlib.Core.List.{List, [], ◌∷◌, ◌++◌, map}
use native.Mathlib.Omega.{arith}
use zero_datafabric.Common.Tests.{if◌then◌else◌, Bool-cases}

module _ {ℓ} {A : Type ℓ} where
  abbrev pub length : List A → ℕ
  length [] = 0
  length (x ∷ xs) = suc (length xs)

  pub length-append : (xs ys : List A) → length (xs ++ ys) ≡ length xs + length ys
  length-append [] ys = omega arith
  length-append (x ∷ xs) ys = omega (arith, length-append xs ys)

  abbrev pub take : ℕ → List A → List A
  take zero xs = []
  take (suc n) [] = []
  take (suc n) (x ∷ xs) = x ∷ take n xs

  abbrev pub drop : ℕ → List A → List A
  drop zero xs = xs
  drop (suc n) [] = []
  drop (suc n) (x ∷ xs) = drop n xs

  pub take-drop : (n : ℕ) (xs : List A) → take n xs ++ drop n xs ≡ xs
  take-drop zero xs = refl
  take-drop (suc n) [] = refl
  take-drop (suc n) (x ∷ xs) = ap (λ t. x ∷ t) (take-drop n xs)

  -- A page that is not full leaves nothing out.
  pub drop-short : (n : ℕ) (xs : List A) → length (take n xs) < n → drop n xs ≡ []
  drop-short zero xs h = absurd (omega arith)
  drop-short (suc n) [] h = refl
  drop-short (suc n) (x ∷ xs) h = drop-short n xs (omega arith)

  abbrev pub any : (A → Bool) → List A → Bool
  any p [] = false
  any p (x ∷ xs) = p x || any p xs

  abbrev pub all : (A → Bool) → List A → Bool
  all p [] = true
  all p (x ∷ xs) = p x && all p xs

  -- `xs.filter(p)`, which keeps what passes the test.
  abbrev pub keep : (A → Bool) → List A → List A
  keep p [] = []
  keep p (x ∷ xs) = if p x then x ∷ keep p xs else keep p xs

module _ {A : Type 0} where
  -- Membership, as a sum that the tactics take apart.
  abbrev pub In : A → List A → Type 0
  In a [] = ⊥
  In a (x ∷ xs) = (a ≡ x) ⊎ In a xs

  pub In-append_left : (a : A) (xs ys : List A) → In a xs → In a (xs ++ ys)
  In-append_left a [] ys h = absurd h
  In-append_left a (x ∷ xs) ys (inl e) = inl e
  In-append_left a (x ∷ xs) ys (inr h) = inr (In-append_left a xs ys h)

  pub In-append_right : (a : A) (xs ys : List A) → In a ys → In a (xs ++ ys)
  In-append_right a [] ys h = h
  In-append_right a (x ∷ xs) ys h = inr (In-append_right a xs ys h)

  pub In-append_cases : (a : A) (xs ys : List A) → In a (xs ++ ys) → In a xs ⊎ In a ys
  In-append_cases a [] ys h = inr h
  In-append_cases a (x ∷ xs) ys (inl e) = inl (inl e)
  In-append_cases a (x ∷ xs) ys (inr h) = elim (In-append_cases a xs ys h) [
    | inl l ↦ inl (inr l)
    | inr r ↦ inr r
  ]

  abbrev pub All {κ} : (A → Type κ) → List A → Type κ
  All P [] = Unit
  All P (x ∷ xs) = P x × All P xs

  pub All-append {κ} : (P : A → Type κ) (xs ys : List A) → All P xs → All P ys → All P (xs ++ ys)
  All-append P [] ys _ k = k
  All-append P (x ∷ xs) ys (p, h) k = (p, All-append P xs ys h k)

  pub All-In {κ} : (P : A → Type κ) (xs : List A) → ((a : A) → In a xs → P a) → All P xs
  All-In P [] h = tt
  All-In P (x ∷ xs) h = (h x (inl refl), All-In P xs (λ a m. h a (inr m)))

  pub In-All : (P : A → Type 0) (a : A) (xs : List A) → All P xs → In a xs → P a
  In-All P a [] h m = absurd m
  In-All P a (x ∷ xs) (p, h) (inl e) = subst P (sym e) p
  In-All P a (x ∷ xs) (p, h) (inr m) = In-All P a xs h m

  pub In-keep : (p : A → Bool) (a : A) (xs : List A) → In a (keep p xs) ↔ (In a xs × (p a ≡ true))
  In-keep p a xs = (to xs, λ (m, e). from xs m e)
    where
      to : (xs : List A) → In a (keep p xs) → In a xs × (p a ≡ true)
      to [] m = absurd m
      to (x ∷ xs) m = elim (Bool-cases (p x)) [
        | inl e ↦ elim (let m' : In a (x ∷ keep p xs) = rw e at m in m') [
          | inl same ↦ (inl same, rw same e)
          | inr later ↦ let (n, q) = to xs later in (inr n, q)
        ]
        | inr e ↦ let (n, q) = to xs (rw e at m) in (inr n, q)
      ]

      from : (xs : List A) → In a xs → p a ≡ true → In a (keep p xs)
      from [] m e = absurd m
      from (x ∷ xs) (inl same) e = rw (sym (ap p same) ∙ e) (inl same)
      from (x ∷ xs) (inr m) e = elim (Bool-cases (p x)) [
        | inl h ↦ rw h (inr (from xs m e))
        | inr h ↦ rw h (from xs m e)
      ]

pub In-map : {A B : Type 0} (f : A → B) (a : A) (xs : List A) → In a xs → In (f a) (map f xs)
In-map f a [] m = absurd m
In-map f a (x ∷ xs) (inl e) = inl (ap f e)
In-map f a (x ∷ xs) (inr m) = inr (In-map f a xs m)
