-- ===== src/Aggregates/Counted.antt =====
-- What `aggregateRaw` leaves in a group's running numbers. (aggregate.ts)
use zero_datafabric.Common.{
  ◌≡◌, refl, sym, ap, ◌∙◌, ◌⊎◌, inl, inr, Bool-cases, String, Bool, true, false, ◌||◌, Option, List,
  [], ◌∷◌, arith, if◌then◌else◌, ℤ, pos, z_min, z_add, zero-z_add, Value, undefined, null, bool,
  num, str, Row, get, get-insert, text_eq, text_eq_iff, concat, All, size, drop_text,
}
use zero_datafabric.Aggregates.{
  AggregateFunc, count_func, sum_func, min_func, max_func, avg_func, count_distinct, other_func,
  AggregateSpec, AggregatePlan, numeric, z_max, is_undefined,
}
use zero_datafabric.Aggregates.Groups.{Key, acc_at}
use zero_datafabric.Aggregates.Raw.{
  sum_key, count_key, number_in, add_in, bound_in, raw_value, is_counted, raw_fold, raw_fold_all,
  raw_key, new_group, raw_step, raw_groups,
}
use zero_datafabric.Aggregates.Totals.{total, HoldsAs, gather-total}

-- Whether an aggregate keeps a number under a name, and what a row adds to it there.
abbrev pub keeps : AggregateSpec → String → Bool
keeps a name = elim (a.func) [
  | avg_func ↦ text_eq (sum_key a.alias) name || text_eq (count_key a.alias) name
  | count_distinct ↦ false
  | other_func ↦ false
  | _ ↦ text_eq a.alias name
]

-- One aggregate keeps the name, and it is one that fits.
abbrev pub Only : (AggregateSpec → Type 0) → String → List AggregateSpec → Type 0
Only P name [] = ⊥
Only P name (a ∷ rest) =
    (P a × All (λ b. keeps b name ≡ false) rest) ⊎ ((keeps a name ≡ false) × Only P name rest)

get-add_in :
    (name key : String) (n : ℤ) (st : Row)
    → get name (add_in key n st)
      ≡ (if text_eq key name then num (z_add (number_in key st) n) else get name st)
get-add_in name key n st = get-insert name key (num (z_add (number_in key st) n)) st

number_of : Value → ℤ
number_of (num n) = n
number_of _ = pos 0

number_in_lem : (name : String) (st : Row) → number_in name st ≡ number_of (get name st)
unfolding number_of
number_in_lem name st = cases (get name st)
  where
    cases : (v : Value) → (elim v [ num n ↦ n | _ ↦ pos 0 ]) ≡ number_of v
    cases (num n) = refl
    cases undefined = refl
    cases null = refl
    cases (bool b) = refl
    cases (str s) = refl

pub number_same :
    (name : String) (st st' : Row)
    → get name st ≡ get name st'
    → number_in name st ≡ number_in name st'
number_same name st st' e = number_in_lem name st ∙ ap number_of e ∙ sym (number_in_lem name st')

pub number_is : (name : String) (st : Row) (n : ℤ) → get name st ≡ num n → number_in name st ≡ n
unfolding number_of
number_is name st n e = number_in_lem name st ∙ ap number_of e

drop_text-concat : (s t : String) → drop_text (size s) (concat s t) ≡ t
unfolding drop_text
drop_text-concat String.[] t = refl
drop_text-concat (String.◌∷◌ c s) t = drop_text-concat s t

pub sum_key-count_key : (s : String) → text_eq (sum_key s) (count_key s) ≡ false
sum_key-count_key s = elim (Bool-cases (text_eq (sum_key s) (count_key s))) [
  | inr e ↦ e
  | inl e ↦
      let same = ap (drop_text (size s)) ((text_eq_iff (sum_key s) (count_key s)).0 e) in
      let tails : ◌≡◌ {A = String} "__s" "__c" =
        sym (drop_text-concat s "__s") ∙ same ∙ drop_text-concat s "__c" in
      let wrong : text_eq "__s" "__c" ≡ true = (text_eq_iff "__s" "__c").1 tails in cc
]

module _ (parse_float : String → Option ℤ) (name : String) where
  pub get-add_self :
      (n : ℤ) (st : Row) → get name (add_in name n st) ≡ num (z_add (number_in name st) n)
  get-add_self n st = get-add_in name name n st ∙ rw ((text_eq_iff name name).1 refl) refl

  pub get-add_other :
      (key : String) (n : ℤ) (st : Row)
      → text_eq key name ≡ false
      → get name (add_in key n st) ≡ get name st
  get-add_other key n st e = get-add_in name key n st ∙ rw e refl

  get-bound_other :
      (pick : ℤ → ℤ → ℤ) (key : String) (n : ℤ) (st : Row)
      → text_eq key name ≡ false
      → get name (bound_in pick key n st) ≡ get name st
  get-bound_other pick key n st e =
      get-insert name key (num (if is_undefined (get key st) then n else pick (number_in key st) n))
        st
      ∙ rw e refl

  fold-other :
      (f : AggregateFunc) (c : Option String) (s : String) (row st : Row)
      → keeps (record { func = f; column = c; alias = s }) name ≡ false
      → get name (raw_fold parse_float (record { func = f; column = c; alias = s }) row st)
        ≡ get name st
  unfolding raw_fold
  fold-other avg_func c s row st h =
      let e : text_eq (sum_key s) name ≡ false = ground arith in
      let f : text_eq (count_key s) name ≡ false = ground arith in
      let v = numeric parse_float (raw_value parse_float c row) in
      get-add_other (count_key s) (pos 1) (add_in (sum_key s) v st) f
      ∙ get-add_other (sum_key s) v st e
  fold-other count_func c s row st h = elim (Bool-cases (is_counted parse_float c row)) [
    | inl e ↦ rw e (get-add_other s (pos 1) st h)
    | inr e ↦ rw e refl
  ]
  fold-other sum_func c s row st h =
      get-add_other s (numeric parse_float (raw_value parse_float c row)) st h
  fold-other min_func c s row st h =
      get-bound_other z_min s (numeric parse_float (raw_value parse_float c row)) st h
  fold-other max_func c s row st h =
      get-bound_other z_max s (numeric parse_float (raw_value parse_float c row)) st h
  fold-other count_distinct c s row st h = refl
  fold-other other_func c s row st h = refl

  folded_other :
      (specs : List AggregateSpec) (row st : Row)
      → All (λ b. keeps b name ≡ false) specs
      → get name (raw_fold_all parse_float specs row st) ≡ get name st
  folded_other [] row st h = refl
  folded_other (a ∷ rest) row st (h, hs) =
      folded_other rest row (raw_fold parse_float a row st) hs
      ∙ fold-other a.func a.column a.alias row st h

  -- An aggregate that alone keeps the name decides what is there.
  folded_alone :
      (a : AggregateSpec) (specs : List AggregateSpec) (row st : Row)
      → Only (λ b. b ≡ a) name specs
      → (st' : Row) × (get name st' ≡ get name st)
        × (get name (raw_fold_all parse_float specs row st)
            ≡ get name (raw_fold parse_float a row st'))
  folded_alone a [] row st h = absurd h
  folded_alone a (b ∷ rest) row st (inl (e, hs)) = (
    st,
    refl,
    folded_other rest row (raw_fold parse_float b row st) hs
        ∙ ap (λ x. get name (raw_fold parse_float x row st)) e,
  )
  folded_alone a (b ∷ rest) row st (inr (h, hs)) =
      let (st', same, eq) = folded_alone a rest row (raw_fold parse_float b row st) hs in
      (st', same ∙ fold-other b.func b.column b.alias row st h, eq)

  module _ (a : AggregateSpec) (value : Row → ℤ) where
    -- Where each row adds to what the aggregate keeps, the group of a key has the total.
    pub kept_total :
        ((row st : Row)
          → get name (raw_fold parse_float a row st) ≡ num (z_add (number_in name st) (value row)))
        → (plan : AggregatePlan) (k : Key) (rows : List Row)
        → Only (λ b. b ≡ a) name plan.aggregates
        → HoldsAs
            (λ g n. get name g.state ≡ num n)
            (acc_at k (raw_groups parse_float plan rows))
            (total (raw_key parse_float plan) value k rows)
    unfolding get
    kept_total adds plan k rows only =
        gather-total (raw_key parse_float plan) (new_group parse_float plan)
          (raw_step parse_float plan) value (λ g n. get name g.state ≡ num n)
          (λ r.
            let (st, same, eq) = folded_alone a plan.aggregates r [] only in
            eq
            ∙ adds r st
            ∙ ap (λ n. num (z_add n (value r))) (number_same name st [] same)
            ∙ ap num (zero-z_add (value r)))
          (λ r g n h.
            let (st, same, eq) = folded_alone a plan.aggregates r g.state only in
            eq ∙ adds r st ∙ ap (λ x. num (z_add x (value r))) (number_is name st n (same ∙ h)))
          k rows

    -- The same for a number that a row may leave as it is.
    pub counted_total :
        ((row st : Row)
          → number_in name (raw_fold parse_float a row st) ≡ z_add (number_in name st) (value row))
        → (plan : AggregatePlan) (k : Key) (rows : List Row)
        → Only (λ b. b ≡ a) name plan.aggregates
        → HoldsAs
            (λ g n. number_in name g.state ≡ n)
            (acc_at k (raw_groups parse_float plan rows))
            (total (raw_key parse_float plan) value k rows)
    unfolding get
    counted_total adds plan k rows only =
        gather-total (raw_key parse_float plan) (new_group parse_float plan)
          (raw_step parse_float plan) value (λ g n. number_in name g.state ≡ n)
          (λ r.
            let (st, same, eq) = folded_alone a plan.aggregates r [] only in
            number_same name (raw_fold_all parse_float plan.aggregates r [])
              (raw_fold parse_float a r st) eq
            ∙ adds r st
            ∙ ap (λ n. z_add n (value r)) (number_same name st [] same)
            ∙ zero-z_add (value r))
          (λ r g n h.
            let (st, same, eq) = folded_alone a plan.aggregates r g.state only in
            number_same name (raw_fold_all parse_float plan.aggregates r g.state)
              (raw_fold parse_float a r st) eq
            ∙ adds r st
            ∙ ap (λ x. z_add x (value r)) (number_same name st g.state same ∙ h))
          k rows
