-- ===== src/Constraints.antt =====
-- backend/src/modules/query-engine/constraint.service.ts: the constraints that the fabric checks
-- itself before it writes to an engine without them. `Number`, regular expressions, and the split
-- and parse of CHECK texts are arguments; the text of a violation's detail is left out.
pub mod Columns
pub mod Conforming
mod Tests
use zero_datafabric.Common.{
  ℕ, String, Bool, true, false, not, ◌&&◌, ◌||◌, Option, none, some, List, [], ◌∷◌, ◌++◌, map,
  if◌then◌else◌, ltb, ℤ, pos, z_leb, Value, undefined, null, str, Row, get, has, is_present,
  Operand, nothing, one, many, value_eq, text_eq, or_else, concat, size, upper, Assoc, lookup,
}
use zero_datafabric.Policy.Masks.{show_value}

pub record Fk : Type 0 where
  pub source : Option String
  pub schema : Option String
  pub table : String
  pub column : String

pub record ConstraintColumn : Type 0 where
  pub name : String
  pub not_null : Bool
  pub unique : Bool
  pub enum : Option (List String)
  pub fk : Option Fk

pub data CheckOp : Type 0 where
  regex gt gte lt lte eq neq in_list len_lte value_not_null other_op : CheckOp

pub record CheckRule : Type 0 where
  pub name : String
  pub column : String
  pub op : CheckOp
  pub value : Operand

pub record ConstraintSpec : Type 0 where
  pub columns : List ConstraintColumn
  pub checks : List CheckRule

pub data RuleKind : Type 0 where
  not_null_rule enum_rule unique_rule foreign_key_rule : RuleKind
  check_rule : CheckOp → RuleKind

pub record Violation : Type 0 where
  pub constraint : String
  pub column : String
  pub rule : RuleKind

pub record ConstraintLookups : Type 0 where
  pub count_where : Option (String → Value → ℕ)
  pub fk_exists : Option (Fk → Value → Bool)

pub data WriteOp : Type 0 where
  create update : WriteOp

-- `hasOwnProperty`
abbrev pub owns : String → Row → Bool
owns name [] = false
owns name ((k, v) ∷ row) = text_eq k name || owns name row

-- The spec, if any is stored and not empty.
unfoldable pub resolve_spec : Option ConstraintSpec → Option ConstraintSpec
resolve_spec none = none
resolve_spec (some spec) = elim (spec.columns) [
  | c ∷ cs ↦ some spec
  | [] ↦ elim (spec.checks) [ c ∷ cs ↦ some spec | [] ↦ none ]
]

abbrev pub numbers : (ℤ → ℤ → Bool) → Option ℤ → Option ℤ → Bool
numbers test (some a) (some b) = test a b
numbers test _ _ = false

abbrev pub same_value : Value → Operand → Bool
same_value v (one w) = value_eq v w
same_value v _ = false

abbrev pub among : Value → Operand → Bool
among v (many vs) = has v vs
among v _ = false

abbrev pub is_value_not_null : CheckOp → Bool
is_value_not_null value_not_null = true
is_value_not_null _ = false

abbrev pub reported_if : Bool → String → String → RuleKind → List Violation
reported_if b constraint column rule =
    if b then record { constraint = constraint; column = column; rule = rule } ∷ [] else []

-- Whether the column counts: always on a create, and on an update where the row has it.
abbrev pub is_due : WriteOp → String → Row → Bool
is_due create name row = true
is_due update name row = owns name row

abbrev pub outside_enum : Option (List String) → Value → Bool
outside_enum none v = false
outside_enum (some e) v = not (has v (map str e))

abbrev pub is_taken : Option (String → Value → ℕ) → String → Value → Bool
is_taken none name v = false
is_taken (some count) name v = ltb 0 (count name v)

abbrev pub dangles : Option (Fk → Value → Bool) → Option Fk → Value → Bool
dangles (some find) (some fk) v = not (find fk v)
dangles _ _ v = false

abbrev pub each : {A : Type 0} → (A → List Violation) → List A → List Violation
each f [] = []
each f (x ∷ xs) = f x ++ each f xs

-- The body of the loop over the columns.
unfoldable pub column_violations :
    WriteOp → ConstraintLookups → Row → ConstraintColumn → List Violation
unfolding get has
column_violations w lookups row c =
    let v = get c.name row in
    let given = owns c.name row && is_present v in
    reported_if (c.not_null && (is_due w c.name row && not (is_present v)))
      (concat c.name "_not_null") c.name not_null_rule
    ++ (reported_if (given && outside_enum c.enum v) (concat c.name "_enum") c.name enum_rule
        ++ (reported_if (c.unique && (given && is_taken lookups.count_where c.name v))
              (concat c.name "_unique") c.name unique_rule
            ++ reported_if (given && dangles lookups.fk_exists c.fk v) (concat c.name "_fk") c.name
                foreign_key_rule))

-- `number` is `Number`, with `none` for NaN; `matches` tests a text by a rule's regular expression,
-- with `none` where that does not compile.
module _ (number : Operand → Option ℤ) (matches : Operand → String → Option Bool) where
  -- The `switch` of `evalCheck`, for a value that is not null.
  unfoldable pub test_value : CheckOp → Operand → Value → Bool
  unfolding show_value has
  test_value regex o v = or_else (matches o (show_value v)) true
  test_value gt o v = numbers (λ a b. not (z_leb a b)) (number (one v)) (number o)
  test_value gte o v = numbers (λ a b. z_leb b a) (number (one v)) (number o)
  test_value lt o v = numbers (λ a b. not (z_leb b a)) (number (one v)) (number o)
  test_value lte o v = numbers (λ a b. z_leb a b) (number (one v)) (number o)
  test_value eq o v = same_value v o
  test_value neq o v = not (same_value v o)
  test_value in_list o v = among v o
  test_value len_lte o v = numbers (λ a b. z_leb a b) (some (pos (size (show_value v)))) (number o)
  test_value value_not_null o v = true
  test_value other_op o v = true

  unfoldable pub eval_check : CheckRule → Value → Bool
  unfolding test_value
  eval_check r v = if is_present v then test_value r.op r.value v else not (is_value_not_null r.op)

  -- The body of the loop over the checks.
  unfoldable pub check_violations : WriteOp → Row → CheckRule → List Violation
  unfolding get eval_check
  check_violations w row k =
      reported_if (is_due w k.column row && not (eval_check k (get k.column row))) k.name k.column
        (check_rule k.op)

  unfoldable pub row_violations :
      WriteOp → ConstraintLookups → ConstraintSpec → Row → List Violation
  unfolding column_violations check_violations
  row_violations w lookups spec row =
      each (column_violations w lookups row) spec.columns
      ++ each (check_violations w row) spec.checks

  unfoldable pub validate : List Row → ConstraintSpec → WriteOp → ConstraintLookups → List Violation
  unfolding row_violations
  validate rows spec w lookups = each (row_violations w lookups spec) rows

-- A column and a constraint of a manifest's table.
pub record TableColumn : Type 0 where
  pub name : String
  pub nullable : Option Bool
  pub primary_key : Bool
  pub unique : Bool
  pub type_name : Option String
  pub ref : Option String

pub record TableConstraint : Type 0 where
  pub name : String
  pub type_name : String
  pub expression : Option String

pub record TableResource : Type 0 where
  pub columns : List TableColumn
  pub constraints : List TableConstraint
  pub checks : List CheckRule

abbrev pub is_false : Option Bool → Bool
is_false (some false) = true
is_false _ = false

abbrev pub enum_of : Assoc (List String) → TableColumn → Option (List String)
enum_of enums c = elim (c.ref) [
  | none ↦ none
  | some r ↦
      if text_eq (upper (or_else c.type_name "undefined")) "ENUM" && ltb 0 (size r)
      then lookup r enums
      else none
]

-- `fks.find((f) => f.column === c.name)`
abbrev pub find_fk : String → List Fk → Option Fk
find_fk name [] = none
find_fk name (f ∷ fs) = if text_eq f.column name then some f else find_fk name fs

abbrev pub column_of : Assoc (List String) → List Fk → TableColumn → ConstraintColumn
column_of enums fks c = record {
  name = c.name;
  not_null = is_false c.nullable || c.primary_key;
  unique = c.unique || c.primary_key;
  enum = enum_of enums c;
  fk = find_fk c.name fks;
}

abbrev pub is_some : {A : Type 0} → Option A → Bool
is_some none = false
is_some (some a) = true

abbrev pub constrains : ConstraintColumn → Bool
constrains c = c.not_null || c.unique || is_some c.enum || is_some c.fk

unfoldable pub columns_of : Assoc (List String) → List Fk → List TableColumn → List ConstraintColumn
columns_of enums fks [] = []
columns_of enums fks (c ∷ cs) =
    let col = column_of enums fks c in
    let rest = columns_of enums fks cs in if constrains col then col ∷ rest else rest

-- `split` cuts a CHECK text at its ANDs, and `parse` is `parseCheckExpression`.
module _ (split : String → List String) (parse : String → String → Option CheckRule) where
  abbrev pub parsed_parts : String → List String → List CheckRule
  parsed_parts name [] = []
  parsed_parts name (p ∷ ps) = elim (parse name p) [
    | none ↦ parsed_parts name ps
    | some k ↦ k ∷ parsed_parts name ps
  ]

  abbrev pub checks_of : List TableConstraint → List CheckRule
  checks_of [] = []
  checks_of (c ∷ cs) =
      (if text_eq c.type_name "CHECK" && ltb 0 (size (or_else c.expression ""))
        then parsed_parts c.name (split (or_else c.expression ""))
        else [])
      ++ checks_of cs

  unfoldable pub spec_from_manifest_table :
      TableResource → Assoc (List String) → List Fk → ConstraintSpec
  unfolding columns_of
  spec_from_manifest_table r enums fks = record {
    columns = columns_of enums fks r.columns;
    checks = checks_of r.constraints ++ r.checks;
  }
