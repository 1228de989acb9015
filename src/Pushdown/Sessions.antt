-- ===== src/Pushdown/Sessions.antt =====
-- What a row policy takes from the session reaches a statement as a bound value only.
-- (policy.service.ts, pushdown.ts)
use zero_datafabric.Common.{
  map_values, ◌≡◌, refl, sym, ap, ◌∙◌, inl, inr, Bool-cases, String, ◌&&◌, List, [], ◌∷◌, undefined,
  null, bool, num, str, Operand, nothing, one, many, length, has_prefix,
}
use zero_datafabric.Policy.{
  Session, StoredPolicy, Conditions, UserCondition, bare, operators, UserFilter,
}
use zero_datafabric.Pushdown.Names.{Dialect}
use zero_datafabric.Pushdown.Conditions.{split_ops, operands, all_operators}
use zero_datafabric.Pushdown.Statement.{CanonicalQuery, to_sql}
use zero_datafabric.Pushdown.Shaped.{shape_of, column_shape, filter_shape}
use zero_datafabric.Pushdown.Shapes.{with_filter, to_sql-same_shape}
use zero_datafabric.Policy.Blanking.{blank, blank_condition, blank_user, blank_session}
use zero_datafabric.Policy.Blanking.Merges.{governed, blank-governed}

shape_of-blank : (op : String) (o : Operand) → shape_of op (bare (blank o)) ≡ shape_of op (bare o)
unfolding shape_of
shape_of-blank op nothing = refl
shape_of-blank op (many vs) = refl
shape_of-blank op (one undefined) = refl
shape_of-blank op (one null) = refl
shape_of-blank op (one (bool b)) = refl
shape_of-blank op (one (num n)) = refl
shape_of-blank op (one (str t)) = refl

column_shape-operands :
    (cs : Conditions) → column_shape (operands (map_values blank cs)) ≡ column_shape (operands cs)
column_shape-operands [] = refl
column_shape-operands ((op, o) ∷ cs) =
    ap (λ h. (op, h) ∷ column_shape (operands (map_values blank cs))) (shape_of-blank op o)
    ∙ ap (λ t. (op, shape_of op (bare o)) ∷ t) (column_shape-operands cs)

all_operators-blank : (cs : Conditions) → all_operators (map_values blank cs) ≡ all_operators cs
all_operators-blank [] = refl
all_operators-blank ((op, o) ∷ cs) = ap (λ b. has_prefix "$" op && b) (all_operators-blank cs)

column_shape-blank :
    (v : UserCondition) → column_shape (split_ops (blank_condition v)) ≡ column_shape (split_ops v)
unfolding split_ops shape_of
column_shape-blank (bare o) = ap (λ h. ("$eq", h) ∷ []) (shape_of-blank "$eq" o)
column_shape-blank (operators []) = refl
column_shape-blank (operators (c ∷ cs)) = elim (Bool-cases (all_operators (c ∷ cs))) [
  | inl e ↦ rw (e, all_operators-blank (c ∷ cs) ∙ e) (column_shape-operands (c ∷ cs))
  | inr e ↦ rw (e, all_operators-blank (c ∷ cs) ∙ e) refl
]

filter_shape-blank : (f : UserFilter) → filter_shape (blank_user f) ≡ filter_shape f
filter_shape-blank [] = refl
filter_shape-blank ((key, v) ∷ f) =
    ap (λ h. (key, h) ∷ filter_shape (blank_user f)) (column_shape-blank v)
    ∙ ap (λ t. (key, column_shape (split_ops v)) ∷ t) (filter_shape-blank f)

filter_shape-governed :
    (u : UserFilter) (ps : List StoredPolicy) (s : Session)
    → filter_shape (governed u ps s) ≡ filter_shape (governed u ps (blank_session s))
filter_shape-governed u ps s =
    sym (filter_shape-blank (governed u ps s))
    ∙ ap filter_shape (blank-governed u ps s)
    ∙ filter_shape-blank (governed u ps (blank_session s))

-- The policies of a table write the session into a statement as bound values only: for two sessions
-- of one role, in which the same of region and user name are set, the caller's query compiles to
-- one text with the same number of bound values, whatever the tenant, the region and the user are
-- called.
pub to_sql-governed :
    (d : Dialect) (q : CanonicalQuery) (u : UserFilter) (ps : List StoredPolicy) (s s' : Session)
    → blank_session s ≡ blank_session s'
    → ((to_sql d (with_filter q (governed u ps s))).text
        ≡ (to_sql d (with_filter q (governed u ps s'))).text)
      × (length (to_sql d (with_filter q (governed u ps s))).params
          ≡ length (to_sql d (with_filter q (governed u ps s'))).params)
to_sql-governed d q u ps s s' e = to_sql-same_shape d q (governed u ps s) (governed u ps s') (
    filter_shape-governed u ps s
    ∙ ap (λ b. filter_shape (governed u ps b)) e
    ∙ sym (filter_shape-governed u ps s'))
