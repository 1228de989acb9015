-- ===== src/Aggregates/Totals.antt =====
-- The totals that the two aggregations leave in a group. (aggregate.ts)
use zero_datafabric.Common.{
  ◌≡◌, refl, sym, ap, subst, ◌∙◌, inl, inr, Bool-cases, String, Bool, true, false, ◌||◌, Option,
  none, some, List, [], ◌∷◌, ◌++◌, arith, any, if◌then◌else◌, ℤ, pos, z_add, z_add_assoc,
  z_add_zero, zero-z_add, Row, text_eq, All,
}
use zero_datafabric.Aggregates.{
  count_func, sum_func, avg_func, count_distinct, other_func, AggregateSpec, sum_alias, count_alias,
}
use zero_datafabric.Aggregates.Groups.{Key, same_key, gather, acc_at, steps, acc_at-gather}

-- The sum of what the rows of one key have.
abbrev pub total : (Row → Key) → (Row → ℤ) → Key → List Row → ℤ
total key value k [] = pos 0
total key value k (r ∷ rs) =
    if same_key (key r) k then z_add (value r) (total key value k rs) else total key value k rs

abbrev pub has_key : (Row → Key) → Key → List Row → Bool
has_key key k rs = any (λ r. same_key (key r) k) rs

pub total-append :
    (key : Row → Key) (value : Row → ℤ) (k : Key) (rs ss : List Row)
    → total key value k (rs ++ ss) ≡ z_add (total key value k rs) (total key value k ss)
total-append key value k [] ss = sym (zero-z_add (total key value k ss))
total-append key value k (r ∷ rs) ss = elim (Bool-cases (same_key (key r) k)) [
  | inl e ↦ rw e (
      ap (z_add (value r)) (total-append key value k rs ss)
      ∙ sym (z_add_assoc (value r) (total key value k rs) (total key value k ss)))
  | inr e ↦ rw e (total-append key value k rs ss)
]

pub any-append : (p : Row → Bool) (rs ss : List Row) → any p (rs ++ ss) ≡ any p rs || any p ss
any-append p [] ss = refl
any-append p (r ∷ rs) ss = ground (arith, any-append p rs ss)

-- What a group holds under a reading: nothing is 0.
abbrev pub HoldsAs : {A : Type 0} → (A → ℤ → Type 0) → Option A → ℤ → Type 0
HoldsAs Is none n = n ≡ pos 0
HoldsAs Is (some a) n = Is a n

module _ {A : Type 0} (key : Row → Key) (start : Row → A) (step : Row → A → A) (value : Row → ℤ)
    (Is : A → ℤ → Type 0) (first : (r : Row) → Is (step r (start r)) (value r))
    (next : (r : Row) (a : A) (n : ℤ) → Is a n → Is (step r a) (z_add n (value r))) where
  -- Rows that add to a reading leave the total of the key's rows.
  steps-total :
      (k : Key) (rs : List Row) (o : Option A) (n : ℤ)
      → HoldsAs Is o n
      → HoldsAs Is (steps key start step k rs o) (z_add n (total key value k rs))
  unfolding steps
  steps-total k [] o n h = subst (HoldsAs Is o) (sym (z_add_zero n)) h
  steps-total k (r ∷ rs) none n h = elim (Bool-cases (same_key (key r) k)) [
    | inl e ↦
        let rest = steps-total k rs (some (step r (start r))) (value r) (first r) in
        let same : z_add (value r) (total key value k rs)
            ≡ z_add n (z_add (value r) (total key value k rs)) =
          sym (zero-z_add (z_add (value r) (total key value k rs)))
          ∙ ap (λ x. z_add x (z_add (value r) (total key value k rs))) (sym h) in
        rw e (subst (HoldsAs Is (steps key start step k rs (some (step r (start r))))) same rest)
    | inr e ↦ rw e (steps-total k rs none n h)
  ]
  steps-total k (r ∷ rs) (some a) n h = elim (Bool-cases (same_key (key r) k)) [
    | inl e ↦
        let rest = steps-total k rs (some (step r a)) (z_add n (value r)) (next r a n h) in
        rw e (
          subst (HoldsAs Is (steps key start step k rs (some (step r a))))
            (z_add_assoc n (value r) (total key value k rs)) rest)
    | inr e ↦ rw e (steps-total k rs (some a) n h)
  ]

  pub gather-total :
      (k : Key) (rs : List Row)
      → HoldsAs Is (acc_at k (gather key start step rs [])) (total key value k rs)
  unfolding acc_at
  gather-total k rs =
      subst (λ o. HoldsAs Is o (total key value k rs)) (sym (acc_at-gather key start step k rs []))
        (subst (HoldsAs Is (steps key start step k rs none)) (zero-z_add (total key value k rs))
          (steps-total k rs none (pos 0) refl))

abbrev pub is_there : {A : Type 0} → Option A → Bool
is_there none = false
is_there (some a) = true

module _ {A : Type 0} (key : Row → Key) (start : Row → A) (step : Row → A → A) where
  steps-there :
      (k : Key) (rs : List Row) (o : Option A)
      → is_there (steps key start step k rs o) ≡ is_there o || has_key key k rs
  unfolding steps
  steps-there k [] none = refl
  steps-there k [] (some a) = refl
  steps-there k (r ∷ rs) none = elim (Bool-cases (same_key (key r) k)) [
    | inl e ↦ rw e (steps-there k rs (some (step r (start r))))
    | inr e ↦ rw e (steps-there k rs none)
  ]
  steps-there k (r ∷ rs) (some a) = elim (Bool-cases (same_key (key r) k)) [
    | inl e ↦ rw e (steps-there k rs (some (step r a)))
    | inr e ↦ rw e (steps-there k rs (some a))
  ]

  -- A group is there exactly where a row has its key.
  pub gather-there :
      (k : Key) (rs : List Row)
      → is_there (acc_at k (gather key start step rs [])) ≡ has_key key k rs
  unfolding acc_at
  gather-there k rs = ap is_there (acc_at-gather key start step k rs []) ∙ steps-there k rs none

-- Whether an aggregate writes to a name of the accumulator, and whether it adds to it.
abbrev pub writes : AggregateSpec → String → Bool
writes a name = elim (a.func) [
  | avg_func ↦ text_eq (sum_alias a.alias) name || text_eq (count_alias a.alias) name
  | other_func ↦ false
  | _ ↦ text_eq a.alias name
]

abbrev pub adds : AggregateSpec → String → Bool
adds a name = elim (a.func) [
  | avg_func ↦ text_eq (sum_alias a.alias) name || text_eq (count_alias a.alias) name
  | count_func ↦ text_eq a.alias name
  | sum_func ↦ text_eq a.alias name
  | count_distinct ↦ text_eq a.alias name
  | _ ↦ false
]

abbrev pub Free : String → List AggregateSpec → Type 0
Free name specs = All (λ a. writes a name ≡ false) specs
