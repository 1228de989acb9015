-- ===== src/Constraints/Conforming.antt =====
-- What the rows of an accepted write have. (constraint.service.ts)
use zero_datafabric.Common.{
  ◌≡◌, ◌↔◌, ◌⊎◌, refl, inl, inr, Bool-cases, String, Bool, true, not, ◌&&◌, Option, List, [], ◌∷◌,
  arith, ℤ, Row, get, is_present, Operand, In, All, In-All, Assoc, subst,
}
use zero_datafabric.Constraints.{
  Fk, CheckRule, ConstraintSpec, Violation, ConstraintLookups, WriteOp, create, update, check_rule,
  owns, eval_check, column_violations, check_violations, each, row_violations, validate,
  TableColumn, TableResource, is_false, column_of, constrains, columns_of, spec_from_manifest_table,
}
use zero_datafabric.Constraints.Columns.{
  Excused, ColumnConforms, append_nil, reported_if_iff, column_iff,
}

each_iff :
    {A : Type 0} (f : A → List Violation) (P : A → Type 0) (xs : List A)
    → ((a : A) → (f a ≡ []) ↔ P a)
    → (each f xs ≡ []) ↔ All P xs
each_iff f P [] h = (λ _. tt, λ _. refl)
each_iff f P (x ∷ xs) h = (
  λ e. let (a, b) = (append_nil (f x) (each f xs)).0 e in ((h x).0 a, (each_iff f P xs h).0 b),
  λ (a, b). (append_nil (f x) (each f xs)).1 ((h x).1 a, (each_iff f P xs h).1 b),
)

module _ (number : Operand → Option ℤ) (matches : Operand → String → Option Bool) where
  abbrev pub CheckConforms : WriteOp → Row → CheckRule → Type 0
  CheckConforms w row k =
      Excused w k.column row ⊎ (eval_check number matches k (get k.column row) ≡ true)

  abbrev pub RowConforms : WriteOp → ConstraintLookups → ConstraintSpec → Row → Type 0
  RowConforms w l spec row =
      All (ColumnConforms w l row) spec.columns × All (CheckConforms w row) spec.checks

  check_iff :
      (w : WriteOp) (row : Row) (k : CheckRule)
      → (check_violations number matches w row k ≡ []) ↔ CheckConforms w row k
  unfolding check_violations
  check_iff create row k =
      let r =
        reported_if_iff (not (eval_check number matches k (get k.column row))) k.name k.column
          (check_rule k.op) in
      (λ h. let b = r.0 h in ground arith, λ h. r.1 (ground arith))
  check_iff update row k =
      let r =
        reported_if_iff (owns k.column row && not (eval_check number matches k (get k.column row)))
          k.name k.column (check_rule k.op) in
      (λ h. let b = r.0 h in ground arith, λ h. r.1 (ground arith))

  row_iff :
      (w : WriteOp) (l : ConstraintLookups) (spec : ConstraintSpec) (row : Row)
      → (row_violations number matches w l spec row ≡ []) ↔ RowConforms w l spec row
  unfolding row_violations
  row_iff w l spec row =
      let cols = each (column_violations w l row) spec.columns in
      let chks = each (check_violations number matches w row) spec.checks in
      let c =
        each_iff (column_violations w l row) (ColumnConforms w l row) spec.columns
          (column_iff w l row) in
      let k =
        each_iff (check_violations number matches w row) (CheckConforms w row) spec.checks
          (check_iff w row) in
      (
        λ h. let (a, b) = (append_nil cols chks).0 h in (c.0 a, k.0 b),
        λ (a, b). (append_nil cols chks).1 (c.1 a, k.1 b),
      )

  -- A write is accepted exactly where each of its rows, on its own, conforms to each column and
  -- check: it has the values that must not be null, and a value that it sets is in the column's
  -- enum, is that of no stored row where the column is unique, is in the foreign key's target, and
  -- passes the check. An update is excused from what it does not set.
  pub validate-RowConforms :
      (rows : List Row) (spec : ConstraintSpec) (w : WriteOp) (l : ConstraintLookups)
      → (validate number matches rows spec w l ≡ []) ↔ All (RowConforms w l spec) rows
  unfolding validate
  validate-RowConforms rows spec w l =
      each_iff (row_violations number matches w l spec) (RowConforms w l spec) rows
        (row_iff w l spec)

In-columns_of :
    (enums : Assoc (List String)) (fks : List Fk) (c : TableColumn) (cs : List TableColumn)
    → In c cs
    → c.primary_key ≡ true
    → In (column_of enums fks c) (columns_of enums fks cs)
unfolding columns_of
In-columns_of enums fks c [] m p = absurd m
In-columns_of enums fks c (x ∷ cs) (inl e) p =
    let kept : constrains (column_of enums fks c) ≡ true = elim (Bool-cases (is_false c.nullable)) [
      | inl f ↦ rw f refl
      | inr f ↦ rw (f, p) refl
    ] in
    subst (λ y. In (column_of enums fks c) (columns_of enums fks (y ∷ cs))) e (rw kept (inl refl))
In-columns_of enums fks c (x ∷ cs) (inr m) p =
    elim (Bool-cases (constrains (column_of enums fks x))) [
      | inl e ↦ rw e (inr (In-columns_of enums fks c cs m p))
      | inr e ↦ rw e (In-columns_of enums fks c cs m p)
    ]

-- Under the spec that a manifest's table gives, an accepted create has a value in each primary key
-- column.
pub validate-primary_key :
    (number : Operand → Option ℤ) (matches : Operand → String → Option Bool)
    (split : String → List String) (parse : String → String → Option CheckRule)
    (table : TableResource) (enums : Assoc (List String)) (fks : List Fk) (l : ConstraintLookups)
    (rows : List Row) (row : Row) (c : TableColumn)
    → validate number matches rows (spec_from_manifest_table split parse table enums fks) create l
      ≡ []
    → In row rows
    → In c table.columns
    → c.primary_key ≡ true
    → is_present (get c.name row) ≡ true
unfolding spec_from_manifest_table
validate-primary_key number matches split parse table enums fks l rows row c ok m n p =
    let spec = spec_from_manifest_table split parse table enums fks in
    let conform =
      In-All (RowConforms number matches create l spec) row rows
        ((validate-RowConforms number matches rows spec create l).0 ok) m in
    let at_column =
      In-All (ColumnConforms create l row) (column_of enums fks c)
        (columns_of enums fks table.columns) conform.0
        (In-columns_of enums fks c table.columns n p) in
    elim (at_column.0) [
      | inl off ↦ ground arith
      | inr (inl present) ↦ present
      | inr (inr never) ↦ absurd never
    ]
