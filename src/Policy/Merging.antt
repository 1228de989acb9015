-- ===== src/Policy/Merging.antt =====
-- The meaning of filters, by column and operator, through the merges of policy.service.ts.
use zero_datafabric.Common.{
  String, ◌≡◌, refl, Option, none, some, [], ◌∷◌, arith, if◌then◌else◌, Operand, text_eq,
  text_eq_iff, lookup, insert, assign, or_option, Unique, lookup-insert, lookup-assign,
  insert-Unique, assign-Unique,
}
use zero_datafabric.Policy.{
  Conditions, Filter, UserCondition, bare, operators, UserFilter, conditions_of, add_condition,
  merge_fragment, combine, merge_into_filter, is_void,
}

-- The operand that a filter gives a column under an operator.
abbrev pub in_conditions : String → Option Conditions → Option Operand
in_conditions op none = none
in_conditions op (some c) = lookup op c

abbrev pub asks : String → String → Filter → Option Operand
asks column op f = in_conditions op (lookup column f)

-- A bare value of the caller's filter asks for equality.
abbrev pub in_user : String → Option UserCondition → Option Operand
in_user op none = none
in_user op (some (operators c)) = lookup op c
in_user op (some (bare v)) = if text_eq "$eq" op then some v else none

abbrev pub user_asks : String → String → UserFilter → Option Operand
user_asks column op f = in_user op (lookup column f)

-- Each column stands once, and each operator once in its column.
abbrev pub AllUnique : Filter → Type 0
AllUnique [] = Unit
AllUnique ((column, c) ∷ f) = Unique c × AllUnique f

pub record IsFilter (f : Filter) : Type 0 where
  pub columns : Unique f
  pub operators : AllUnique f

-- What stays of the caller's condition under a policy on the same column.
abbrev pub kept : String → Option UserCondition → Option Operand
kept op none = none
kept op (some (operators c)) = lookup op c
kept op (some (bare v)) = if is_void v then none else if text_eq "$eq" op then some v else none

lookup-combine :
    (op : String) (previous : Option UserCondition) (c : Conditions)
    → Unique c
    → lookup op (combine previous c) ≡ or_option (lookup op c) (kept op previous)
unfolding combine lookup
lookup-combine op none c u = ground arith
lookup-combine op (some (operators p)) c u = lookup-assign op p c u
lookup-combine op (some (bare v)) c u = ground (arith, lookup-assign op (("$eq", v) ∷ []) c u)

-- The condition of a column and operator after the merge into the caller's filter.
abbrev pub merged : Option Conditions → String → Option UserCondition → Option Operand
merged none op previous = in_user op previous
merged (some c) op previous = or_option (lookup op c) (kept op previous)

pub user_asks-merge_into_filter :
    (column op : String) (out : UserFilter) (policy : Filter)
    → IsFilter policy
    → user_asks column op (merge_into_filter out policy)
      ≡ merged (lookup column policy) op (lookup column out)
unfolding merge_into_filter lookup
user_asks-merge_into_filter column op out [] f = refl
user_asks-merge_into_filter column op out ((k, c) ∷ policy) f =
    let new : UserCondition = operators (combine (lookup k out) c) in
    ground (
      arith,
      user_asks-merge_into_filter column op (insert k new out) policy
          (record { columns = f.columns.1; operators = f.operators.1 }),
      lookup-insert column k new out,
      lookup-combine op (lookup k out) c f.operators.0,
      text_eq_iff k column,
    )

module _ (column op : String) where
  in_conditions-or :
      (c d : Conditions)
      → Unique d
      → in_conditions op (some (assign c d)) ≡ or_option (lookup op d) (lookup op c)
  in_conditions-or c d u = lookup-assign op c d u

  pub asks-merge_fragment :
      (f g : Filter)
      → IsFilter g
      → asks column op (merge_fragment f g) ≡ or_option (asks column op g) (asks column op f)
  unfolding merge_fragment lookup
  asks-merge_fragment f [] g = refl
  asks-merge_fragment f ((k, c) ∷ rest) g = ground (
    arith,
    asks-merge_fragment (insert k (assign (conditions_of (lookup k f)) c) f) rest
        (record { columns = g.columns.1; operators = g.operators.1 }),
    lookup-insert column k (assign (conditions_of (lookup k f)) c) f,
    lookup-assign op (conditions_of (lookup k f)) c g.operators.0,
    text_eq_iff k column,
  )

  -- The one condition that a clause adds.
  abbrev pub pair_asks : String → Option (String × Operand) → Option Operand
  pair_asks k none = none
  pair_asks k (some (name, v)) =
      if text_eq k column then (if text_eq name op then some v else none) else none

  pub asks-add_condition :
      (k : String) (condition : Option (String × Operand)) (f : Filter)
      → asks column op (add_condition k condition f)
        ≡ or_option (pair_asks k condition) (asks column op f)
  unfolding add_condition lookup
  asks-add_condition k none f = refl
  asks-add_condition k (some (name, v)) f = ground (
    arith,
    lookup-insert column k (insert name v (conditions_of (lookup k f))) f,
    lookup-insert op name v (conditions_of (lookup k f)),
    text_eq_iff k column,
  )

AllUnique-lookup : (k : String) (f : Filter) → AllUnique f → Unique (conditions_of (lookup k f))
unfolding lookup
AllUnique-lookup k [] h = tt
AllUnique-lookup k ((j, c) ∷ f) (u, h) = ground (arith, AllUnique-lookup k f h)

AllUnique-insert :
    (k : String) (c : Conditions) (f : Filter) → Unique c → AllUnique f → AllUnique (insert k c f)
unfolding insert
AllUnique-insert k c [] u h = (u, tt)
AllUnique-insert k c ((j, d) ∷ f) u (v, h) = ground (arith, AllUnique-insert k c f u h)

insert-IsFilter :
    (k : String) (c : Conditions) (f : Filter) → Unique c → IsFilter f → IsFilter (insert k c f)
insert-IsFilter k c f u g = record {
  columns = insert-Unique k c f g.columns;
  operators = AllUnique-insert k c f u g.operators;
}

pub add_condition-IsFilter :
    (k : String) (condition : Option (String × Operand)) (f : Filter)
    → IsFilter f
    → IsFilter (add_condition k condition f)
unfolding add_condition
add_condition-IsFilter k none f g = g
add_condition-IsFilter k (some (name, v)) f g =
    insert-IsFilter k (insert name v (conditions_of (lookup k f))) f
      (insert-Unique name v (conditions_of (lookup k f)) (AllUnique-lookup k f g.operators)) g

pub merge_fragment-IsFilter : (f g : Filter) → IsFilter f → IsFilter (merge_fragment f g)
unfolding merge_fragment
merge_fragment-IsFilter f [] h = h
merge_fragment-IsFilter f ((k, c) ∷ g) h =
    merge_fragment-IsFilter (insert k (assign (conditions_of (lookup k f)) c) f) g (
      insert-IsFilter k (assign (conditions_of (lookup k f)) c) f
        (assign-Unique (conditions_of (lookup k f)) c (AllUnique-lookup k f h.operators)) h)
