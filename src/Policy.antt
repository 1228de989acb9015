-- ===== src/Policy.antt =====
-- backend/src/modules/security/policy.service.ts: row policies and column masking for engines with
-- none of their own. The stored policies of a table are an argument: the rows of the catalog query.
mod Merging
pub mod Enforcement
pub mod Masks
pub mod Blanking
mod Tests
use zero_datafabric.Common.{
  ℕ, zero, suc, ◌+◌, ◌*◌, ◌-◌, ◌%◌, ◌^◌, String, Bool, true, false, not, Option, none, some, List,
  [], ◌∷◌, ◌++◌, map, if◌then◌else◌, leb, or_else, ℤ, pos, negsuc, Value, undefined, null, bool,
  num, str, Operand, nothing, one, many, text_eq, size, concat, drop_text, repeat, upper,
  print_base, Assoc, lookup, insert, assign,
}
use Prim.Native.Char.{Char, code}

pub record Session : Type 0 where
  pub tenant_id : String
  pub role : Option String
  pub region : Option String
  pub username : Option String

-- A literal, or `{ session: name }`.
pub data ClauseValue : Type 0 where
  literal : Operand → ClauseValue
  session : String → ClauseValue

pub record PolicyClause : Type 0 where
  pub column : String
  pub operator : Option String
  pub value : ClauseValue

pub data MaskStrategy : Type 0 where
  redact nullify hash partial other : MaskStrategy

pub record MaskRule : Type 0 where
  pub column : String
  pub roles : List String
  pub strategy : MaskStrategy

-- One row of the policy catalog.
pub record StoredPolicy : Type 0 where
  pub policy_name : String
  pub roles : List String
  pub row_filter : List PolicyClause
  pub masking : List MaskRule

-- The conditions of a column, by canonical operator, and a compiled filter by column.
abbrev pub Conditions : Type 0
Conditions = Assoc Operand

abbrev pub Filter : Type 0
Filter = Assoc Conditions

-- A filter of the caller may also give a column a bare value.
pub data UserCondition : Type 0 where
  bare : Operand → UserCondition
  operators : Conditions → UserCondition

abbrev pub UserFilter : Type 0
UserFilter = Assoc UserCondition

-- `CANON_OP`
unfoldable pub canon_op : String → Option String
canon_op op =
    if text_eq op "EQ"
    then some "$eq"
    else if text_eq op "NEQ"
    then some "$ne"
    else if text_eq op "GT"
    then some "$gt"
    else if text_eq op "GTE"
    then some "$gte"
    else if text_eq op "LT"
    then some "$lt"
    else if text_eq op "LTE"
    then some "$lte"
    else if text_eq op "IN"
    then some "$in"
    else if text_eq op "LIKE"
    then some "$like"
    else none

abbrev pub text_or_null : Option String → Operand
text_or_null none = one null
text_or_null (some s) = one (str s)

unfoldable pub resolve_value : ClauseValue → Session → Operand
resolve_value (literal o) s = o
resolve_value (session name) s =
    if text_eq name "tenant_id"
    then one (str s.tenant_id)
    else if text_eq name "region"
    then text_or_null s.region
    else if text_eq name "role"
    then text_or_null s.role
    else if text_eq name "username"
    then text_or_null s.username
    else one null

abbrev pub is_member : String → List String → Bool
is_member r [] = false
is_member r (x ∷ xs) = if text_eq x r then true else is_member r xs

-- An empty list of roles applies to all.
unfoldable pub role_matches : List String → Session → Bool
unfolding upper
role_matches [] s = true
role_matches (x ∷ xs) s = is_member (upper (or_else s.role "")) (map upper (x ∷ xs))

-- `o || fallback`, which an empty text also falls to
abbrev pub or_text : Option String → String → String
or_text none fallback = fallback
or_text (some s) fallback = if text_eq s "" then fallback else s

-- The condition that a clause stands for; `none` where the loop skips it.
unfoldable pub clause_condition : PolicyClause → Session → Option (String × Operand)
unfolding canon_op resolve_value upper
clause_condition c s =
    let op = upper (or_text c.operator "EQ") in
    if text_eq c.column ""
    then none
    else if text_eq op "IS_NULL"
    then some ("$eq", one null)
    else if text_eq op "IS_NOT_NULL"
    then some ("$ne", one null)
    else elim (canon_op op) [ none ↦ none | some name ↦ some (name, resolve_value c.value s) ]

abbrev pub conditions_of : Option Conditions → Conditions
conditions_of none = []
conditions_of (some c) = c

-- `merge({ [name]: operand })` on the column's conditions
unfoldable pub add_condition : String → Option (String × Operand) → Filter → Filter
unfolding insert lookup
add_condition column none filter = filter
add_condition column (some (name, operand)) filter =
    insert column (insert name operand (conditions_of (lookup column filter))) filter

-- The loop of `compileFilter`.
unfoldable pub compile_from : List PolicyClause → Session → Filter → Filter
unfolding clause_condition add_condition
compile_from [] s filter = filter
compile_from (c ∷ cs) s filter =
    compile_from cs s (add_condition c.column (clause_condition c s) filter)

unfoldable pub compile_filter : List PolicyClause → Session → Filter
unfolding compile_from
compile_filter clauses s = compile_from clauses s []

-- `for (const [col, cond] of Object.entries(frag)) filter[col] = { ...filter[col], ...cond }`
unfoldable pub merge_fragment : Filter → Filter → Filter
unfolding insert lookup assign
merge_fragment filter [] = filter
merge_fragment filter ((column, conditions) ∷ fragment) =
    merge_fragment (insert column (assign (conditions_of (lookup column filter)) conditions) filter)
      fragment

abbrev pub matching_masks : List MaskRule → Session → List MaskRule
matching_masks [] s = []
matching_masks (m ∷ ms) s =
    if role_matches m.roles s then m ∷ matching_masks ms s else matching_masks ms s

pub record Resolved : Type 0 where
  pub filter : Filter
  pub masks : List MaskRule
  pub applied : List String

-- One round of the loop of `resolve`.
unfoldable pub apply_policy : Session → Resolved → StoredPolicy → Resolved
unfolding merge_fragment compile_filter
apply_policy s r p =
    if role_matches p.roles s
    then record {
      filter = merge_fragment r.filter (compile_filter p.row_filter s);
      masks = r.masks ++ matching_masks p.masking s;
      applied = r.applied ++ p.policy_name ∷ [];
    }
    else r

unfoldable pub resolve_from : Session → Resolved → List StoredPolicy → Resolved
unfolding apply_policy
resolve_from s r [] = r
resolve_from s r (p ∷ ps) = resolve_from s (apply_policy s r p) ps

unfoldable pub resolve : Session → List StoredPolicy → Resolved
unfolding resolve_from
resolve s = resolve_from s (record { filter = []; masks = []; applied = [] })

-- Whether `typeof v === 'object'`, for a value that is no array: it is for null.
abbrev pub is_void : Operand → Bool
is_void nothing = true
is_void (one undefined) = true
is_void (one null) = true
is_void _ = false

-- The new condition of a column: the three branches of `mergeIntoFilter`.
unfoldable pub combine : Option UserCondition → Conditions → Conditions
unfolding assign
combine none conditions = conditions
combine (some (operators previous)) conditions = assign previous conditions
combine (some (bare v)) conditions =
    if is_void v then conditions else assign (("$eq", v) ∷ []) conditions

unfoldable pub merge_into_filter : UserFilter → Filter → UserFilter
unfolding insert lookup combine
merge_into_filter out [] = out
merge_into_filter out ((column, conditions) ∷ policy) =
    merge_into_filter (insert column (operators (combine (lookup column out) conditions)) out)
      policy
