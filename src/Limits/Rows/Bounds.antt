-- ===== src/Limits/Rows/Bounds.antt =====
-- What the row ceiling guarantees of a query. (enforce.ts)
use zero_datafabric.Common.{
  ℕ, zero, suc, ◌≤◌, ◌≡◌, ◌≢◌, refl, inl, inr, Option-cases, String, true, false, Option, none,
  some, List, [], ◌∷◌, arith, All, pos, negsuc, Value, undefined, null, bool, num, str,
}
use zero_datafabric.Limits.Rows.{
  QueryConfig, Ceilings, config, is_valid_limit, inner_limit, positive_caps, min, least,
  clamp_limit, is_defined, clamp_inner, capped, is_exempt, under_ceilings, apply_row_ceiling,
}

-- A limit that is a number of rows: at least one, at most each cap in force, and at most what the
-- caller asked for where that was positive.
abbrev pub AtMostAsked : Value → ℕ → Type 0
AtMostAsked (num (pos (suc n))) m = m ≤ suc n
AtMostAsked _ m = Unit

pub record Bounded (caps : List ℕ) (asked : Value) (m : ℕ) : Type 0 where
  pub some_rows : 1 ≤ m
  pub under_caps : All (λ c. m ≤ c) caps
  pub not_raised : AtMostAsked asked m

abbrev Positive : List ℕ → Type 0
Positive = All (λ c. 1 ≤ c)

All-mono : (a b : ℕ) (cs : List ℕ) → a ≤ b → All (λ c. b ≤ c) cs → All (λ c. a ≤ c) cs
All-mono a b [] le h = tt
All-mono a b (c ∷ cs) le (p, h) = (omega arith, All-mono a b cs le h)

least-none : (P : ℕ → Type 0) (cs : List ℕ) → least cs ≡ none → All P cs
unfolding least
least-none P [] e = tt
least-none P (c ∷ cs) e = elim (Option-cases (least cs)) [
  | inl empty ↦ absurd (some≢none (rw empty at e))
  | inr (d, given) ↦ absurd (some≢none (rw given at e))
]
  where
    some≢none : {a : ℕ} → some a ≡ none → ⊥
    some≢none e = cc

least_bound :
    (cs : List ℕ) (m : ℕ) → Positive cs → least cs ≡ some m → (1 ≤ m) × All (λ c. m ≤ c) cs
unfolding least
least_bound [] m h e = cc
least_bound (c ∷ cs) m (p, h) e = elim (Option-cases (least cs)) [
  | inl none_left ↦
      let same : some c ≡ some m = rw none_left at e in
      (ground arith, (ground arith, least-none (λ d. m ≤ d) cs none_left))
  | inr (d, given) ↦
      let same : some (min c d) ≡ some m = rw given at e in
      let (q, k) = least_bound cs d h given in
      (ground arith, (ground arith, All-mono m d cs (ground arith) k))
]

positive_caps-Positive : (vs : List Value) → Positive (positive_caps vs)
positive_caps-Positive [] = tt
positive_caps-Positive (num (pos (suc n)) ∷ vs) = (omega arith, positive_caps-Positive vs)
positive_caps-Positive (num (pos zero) ∷ vs) = positive_caps-Positive vs
positive_caps-Positive (num (negsuc n) ∷ vs) = positive_caps-Positive vs
positive_caps-Positive (undefined ∷ vs) = positive_caps-Positive vs
positive_caps-Positive (null ∷ vs) = positive_caps-Positive vs
positive_caps-Positive (bool b ∷ vs) = positive_caps-Positive vs
positive_caps-Positive (str s ∷ vs) = positive_caps-Positive vs

clamp_limit-Bounded :
    (caps : List ℕ) (cap : ℕ) (v : Value)
    → 1 ≤ cap
    → All (λ c. cap ≤ c) caps
    → Bounded caps v (clamp_limit cap v)
unfolding clamp_limit
clamp_limit-Bounded caps cap (num (pos (suc n))) p h = record {
  some_rows = ground arith;
  under_caps = All-mono (min (suc n) cap) cap caps (ground arith) h;
  not_raised = ground arith;
}
clamp_limit-Bounded caps cap (num (pos zero)) p h = record {
  some_rows = p;
  under_caps = h;
  not_raised = tt;
}
clamp_limit-Bounded caps cap (num (negsuc n)) p h = record {
  some_rows = p;
  under_caps = h;
  not_raised = tt;
}
clamp_limit-Bounded caps cap undefined p h = record {
  some_rows = p;
  under_caps = h;
  not_raised = tt;
}
clamp_limit-Bounded caps cap null p h = record { some_rows = p; under_caps = h; not_raised = tt }
clamp_limit-Bounded caps cap (bool b) p h = record {
  some_rows = p;
  under_caps = h;
  not_raised = tt;
}
clamp_limit-Bounded caps cap (str s) p h = record { some_rows = p; under_caps = h; not_raised = tt }

-- The caps in force: the positive ones of the two.
abbrev pub caps_of : Ceilings → List ℕ
caps_of r = positive_caps (r.max_rows ∷ r.max_query_rows ∷ [])

-- A given inner limit is bounded like the outer one; an absent one stays absent.
abbrev pub InnerBounded : List ℕ → Option Value → Option Value → Type 0
InnerBounded caps (some v) (some (num (pos m))) = (is_defined v ≡ true) × Bounded caps v m
InnerBounded caps asked got = (inner_limit asked ≡ undefined) × (got ≡ asked)

clamp_inner-InnerBounded :
    (caps : List ℕ) (cap : ℕ) (o : Option Value)
    → 1 ≤ cap
    → All (λ c. cap ≤ c) caps
    → InnerBounded caps o (clamp_inner cap o)
unfolding clamp_inner
clamp_inner-InnerBounded caps cap none p h = (refl, refl)
clamp_inner-InnerBounded caps cap (some undefined) p h = (refl, refl)
clamp_inner-InnerBounded caps cap (some null) p h = (refl, clamp_limit-Bounded caps cap null p h)
clamp_inner-InnerBounded caps cap (some (bool b)) p h =
    (refl, clamp_limit-Bounded caps cap (bool b) p h)
clamp_inner-InnerBounded caps cap (some (num n)) p h =
    (refl, clamp_limit-Bounded caps cap (num n) p h)
clamp_inner-InnerBounded caps cap (some (str s)) p h =
    (refl, clamp_limit-Bounded caps cap (str s) p h)

-- The query that a SELECT with valid limits is replaced by, under one cap.
apply_row_ceiling-capped :
    (r : Ceilings) (role : Option String) (c : QueryConfig) (cap : ℕ)
    → is_exempt role c ≡ false
    → is_valid_limit c.limit ≡ true
    → is_valid_limit (inner_limit c.query) ≡ true
    → least (caps_of r) ≡ some cap
    → apply_row_ceiling (some r) role c ≡ config (capped c (some cap))
unfolding apply_row_ceiling under_ceilings
apply_row_ceiling-capped r role c cap bound valid inner given = rw (bound, valid, inner, given) refl

-- A SELECT of a session that is no administrator's, with valid limits and a cap in force, is given a
-- limit of at least one row, within each cap, and within a positive limit that the caller asked for;
-- the same holds of the limit of a nested query that has one.
pub apply_row_ceiling-Bounded :
    (r : Ceilings) (role : Option String) (c : QueryConfig)
    → is_exempt role c ≡ false
    → is_valid_limit c.limit ≡ true
    → is_valid_limit (inner_limit c.query) ≡ true
    → caps_of r ≢ []
    → (m : ℕ) × (out : QueryConfig) × (apply_row_ceiling (some r) role c ≡ config out)
      × (out.limit ≡ num (pos m))
      × Bounded (caps_of r) c.limit m
      × InnerBounded (caps_of r) c.query out.query
unfolding capped
apply_row_ceiling-Bounded r role c bound valid inner in_force =
    elim (Option-cases (least (caps_of r))) [
      | inl empty ↦ absurd (in_force (least-nil (caps_of r) empty))
      | inr (cap, given) ↦
          let (p, h) =
            least_bound (caps_of r) cap
              (positive_caps-Positive (r.max_rows ∷ r.max_query_rows ∷ [])) given in
          (
            clamp_limit cap c.limit,
            capped c (some cap),
            apply_row_ceiling-capped r role c cap bound valid inner given,
            refl,
            clamp_limit-Bounded (caps_of r) cap c.limit p h,
            clamp_inner-InnerBounded (caps_of r) cap c.query p h,
          )
    ]
  where
    least-nil : (cs : List ℕ) → least cs ≡ none → cs ≡ []
    least-nil [] e = refl
    least-nil (c ∷ cs) e = absurd ((least-none (λ _. ⊥) (c ∷ cs) e).0)
