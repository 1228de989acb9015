-- ===== src/Constraints/Tests.antt =====
-- Runs of the checks. (constraint.service.ts)
use zero_datafabric.Common.{
  ◌≡◌, ◌↔◌, refl, inl, String, Bool, true, false, Option, none, some, List, [], ◌∷◌, ℤ, pos, num,
  str, Row, get, has, is_present, Operand, one, All, upper, lookup, value_eq, if◌then◌else◌,
}
use zero_datafabric.Policy.Masks.{show_value}
use zero_datafabric.Constraints.{
  CheckRule, gte, ConstraintSpec, ConstraintLookups, create, update, validate, eval_check,
  test_value, row_violations, column_violations, check_violations, columns_of,
  spec_from_manifest_table, TableColumn, TableResource, not_null_rule, check_rule,
}
use zero_datafabric.Constraints.Conforming.{RowConforms, validate-RowConforms, validate-primary_key}

-- Numbers are read of numbers only, and no expression compiles.
abbrev number_of : Operand → Option ℤ
number_of (one (num n)) = some n
number_of _ = none

abbrev no_match : Operand → String → Option Bool
no_match o s = none

-- One stored row has the sku "A".
abbrev stored : ConstraintLookups
stored = record {
  count_where = some (λ c v. if value_eq v (str "A") then 1 else 0);
  fk_exists = none;
}

abbrev sku : TableColumn
sku = record {
  name = "sku";
  nullable = none;
  primary_key = true;
  unique = false;
  type_name = some "TEXT";
  ref = none;
}

abbrev status : TableColumn
status = record {
  name = "status";
  nullable = some true;
  primary_key = false;
  unique = false;
  type_name = some "enum";
  ref = some "Status";
}

abbrev at_least_one : CheckRule
at_least_one = record { name = "qty_min"; column = "qty"; op = gte; value = one (num (pos 1)) }

abbrev items : TableResource
items = record { columns = sku ∷ status ∷ []; constraints = []; checks = at_least_one ∷ [] }

abbrev no_split : String → List String
no_split s = s ∷ []

abbrev no_parse : String → String → Option CheckRule
no_parse name s = none

unfoldable item_spec : ConstraintSpec
unfolding spec_from_manifest_table
item_spec =
    spec_from_manifest_table no_split no_parse items (("Status", "OPEN" ∷ "DONE" ∷ []) ∷ []) []

-- All of the checks, for tests.
checking : Unit {0}
unfolding validate row_violations column_violations check_violations eval_check test_value
    columns_of spec_from_manifest_table item_spec show_value upper lookup get has
checking = tt

abbrev good : Row
good = ("sku", str "B") ∷ ("status", str "OPEN") ∷ ("qty", num (pos 3)) ∷ []

abbrev bad : Row
bad = ("status", str "OPEN") ∷ ("qty", num (pos 0)) ∷ []

bad_rows :
    validate number_of no_match (bad ∷ []) item_spec create stored
    ≡ record { constraint = "sku_not_null"; column = "sku"; rule = not_null_rule }
      ∷ record { constraint = "qty_min"; column = "qty"; rule = check_rule gte }
      ∷ []
unfolding checking
bad_rows = refl

partial_update :
    validate number_of no_match ((("status", str "DONE") ∷ []) ∷ []) item_spec update stored ≡ []
unfolding checking
partial_update = refl

validate-RowConforms_example :
    (validate number_of no_match (good ∷ []) item_spec create stored ≡ [])
    ↔ All (RowConforms number_of no_match create stored item_spec) (good ∷ [])
validate-RowConforms_example =
    validate-RowConforms number_of no_match (good ∷ []) item_spec create stored

-- Two rows of one write with one value in a unique column: only stored rows are counted.
twice : validate number_of no_match (good ∷ good ∷ []) item_spec create stored ≡ []
unfolding checking
twice = refl

validate-primary_key_example : is_present (get "sku" good) ≡ true
unfolding checking
validate-primary_key_example =
    validate-primary_key number_of no_match no_split no_parse items
      (("Status", "OPEN" ∷ "DONE" ∷ []) ∷ []) [] stored (good ∷ []) good sku refl (inl refl)
      (inl refl) refl
