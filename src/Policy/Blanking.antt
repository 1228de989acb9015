-- ===== src/Policy/Blanking.antt =====
-- Filters without the texts in them: the merges of policies do not look at these.
-- (policy.service.ts)
pub mod Merges
use zero_datafabric.Common.{
  ◌≡◌, refl, sym, ap, ◌∙◌, inl, inr, Bool-cases, String, Bool, true, false, Option, none, some,
  List, [], ◌∷◌, if◌then◌else◌, undefined, null, bool, num, str, Operand, nothing, one, many,
  text_eq, Assoc, lookup, if_some, map_values, map_values-insert, map_values-assign,
  lookup-map_values, insert, assign, upper, or_else,
}
use zero_datafabric.Policy.{
  or_text, Session, ClauseValue, literal, session, PolicyClause, StoredPolicy, Conditions, Filter,
  UserCondition, bare, operators, UserFilter, canon_op, text_or_null, resolve_value, role_matches,
  clause_condition, conditions_of, add_condition, compile_from, compile_filter, merge_fragment,
  Resolved, apply_policy, resolve_from, resolve, is_void, combine, merge_into_filter,
}

-- Each text is replaced by the empty one.
abbrev pub blank : Operand → Operand
blank (one (str s)) = one (str "")
blank o = o

abbrev pub blank_filter : Filter → Filter
blank_filter = map_values (map_values blank)

abbrev pub blank_condition : UserCondition → UserCondition
blank_condition (bare o) = bare (blank o)
blank_condition (operators cs) = operators (map_values blank cs)

abbrev pub blank_user : UserFilter → UserFilter
blank_user = map_values blank_condition

abbrev pub no_text : String → String
no_text s = ""

-- The session with its tenant, its region and its user's name blank; its role stays.
abbrev pub blank_session : Session → Session
blank_session s = record {
  tenant_id = "";
  role = s.role;
  region = if_some no_text s.region;
  username = if_some no_text s.username;
}

blank-text_or_null :
    (o : Option String) → blank (text_or_null o) ≡ blank (text_or_null (if_some no_text o))
blank-text_or_null none = refl
blank-text_or_null (some s) = refl

blank-resolve_value :
    (v : ClauseValue) (s : Session)
    → blank (resolve_value v s) ≡ blank (resolve_value v (blank_session s))
unfolding resolve_value
blank-resolve_value (literal o) s = refl
blank-resolve_value (session name) s = elim (Bool-cases (text_eq name "tenant_id")) [
  | inl e ↦ rw e refl
  | inr e ↦ elim (Bool-cases (text_eq name "region")) [
    | inl e' ↦ rw (e, e') (blank-text_or_null s.region)
    | inr e' ↦ elim (Bool-cases (text_eq name "role")) [
      | inl k ↦ rw (e, e', k) refl
      | inr k ↦ elim (Bool-cases (text_eq name "username")) [
        | inl k' ↦ rw (e, e', k, k') (blank-text_or_null s.username)
        | inr k' ↦ rw (e, e', k, k') refl
      ]
    ]
  ]
]

abbrev blank_pair : Option (String × Operand) → Option (String × Operand)
blank_pair none = none
blank_pair (some (name, o)) = some (name, blank o)

-- The four branches of a clause, on their tests.
blank_branches :
    (a b c : Bool) (op : Option String) (x y : Operand)
    → blank x ≡ blank y
    → blank_pair (
        if a
        then none
        else if b
        then some ("$eq", one null)
        else if c
        then some ("$ne", one null)
        else elim op [ none ↦ none | some name ↦ some (name, x) ])
      ≡ blank_pair (
          if a
          then none
          else if b
          then some ("$eq", one null)
          else if c
          then some ("$ne", one null)
          else elim op [ none ↦ none | some name ↦ some (name, y) ])
blank_branches true b c op x y e = refl
blank_branches false true c op x y e = refl
blank_branches false false true op x y e = refl
blank_branches false false false none x y e = refl
blank_branches false false false (some name) x y e = ap (λ o. some (name, o)) e

blank-clause_condition :
    (c : PolicyClause) (s : Session)
    → blank_pair (clause_condition c s) ≡ blank_pair (clause_condition c (blank_session s))
unfolding clause_condition
blank-clause_condition c s =
    let op : String = upper (or_text c.operator "EQ") in
    blank_branches (text_eq c.column "") (text_eq op "IS_NULL") (text_eq op "IS_NOT_NULL")
      (canon_op op) (resolve_value c.value s) (resolve_value c.value (blank_session s))
      (blank-resolve_value c.value s)

blank-conditions_of :
    (o : Option Conditions)
    → map_values blank (conditions_of o) ≡ conditions_of (if_some (map_values blank) o)
blank-conditions_of none = refl
blank-conditions_of (some c) = refl

-- The conditions of a column in a blank filter.
pub blank-lookup :
    (column : String) (f : Filter)
    → map_values blank (conditions_of (lookup column f))
      ≡ conditions_of (lookup column (blank_filter f))
blank-lookup column f =
    blank-conditions_of (lookup column f)
    ∙ ap conditions_of (sym (lookup-map_values (map_values blank) column f))

blank-add_condition :
    (column : String) (p : Option (String × Operand)) (f : Filter)
    → blank_filter (add_condition column p f) ≡ add_condition column (blank_pair p) (blank_filter f)
unfolding add_condition
blank-add_condition column none f = refl
blank-add_condition column (some (name, o)) f =
    map_values-insert (map_values blank) column (insert name o (conditions_of (lookup column f))) f
    ∙ ap (λ c. insert column c (blank_filter f))
        (map_values-insert blank name o (conditions_of (lookup column f))
          ∙ ap (insert name (blank o)) (blank-lookup column f))

pub blank-compile_from :
    (cs : List PolicyClause) (s : Session) (f g : Filter)
    → blank_filter f ≡ blank_filter g
    → blank_filter (compile_from cs s f) ≡ blank_filter (compile_from cs (blank_session s) g)
unfolding compile_from
blank-compile_from [] s f g e = e
blank-compile_from (c ∷ cs) s f g e =
    blank-compile_from cs s (add_condition c.column (clause_condition c s) f)
      (add_condition c.column (clause_condition c (blank_session s)) g)
      (blank-add_condition c.column (clause_condition c s) f
        ∙ ap (λ p. add_condition c.column p (blank_filter f)) (blank-clause_condition c s)
        ∙ ap (add_condition c.column (blank_pair (clause_condition c (blank_session s)))) e
        ∙ sym (blank-add_condition c.column (clause_condition c (blank_session s)) g))
