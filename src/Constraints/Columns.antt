-- ===== src/Constraints/Columns.antt =====
-- When a column gives no violation. (constraint.service.ts)
use zero_datafabric.Common.{
  ℕ, ◌≡◌, ◌↔◌, ◌⊎◌, refl, inl, inr, Bool-cases, String, Bool, true, false, not, ◌&&◌, Option, none,
  some, List, [], ◌∷◌, ◌++◌, map, arith, Value, str, Row, get, has, has-nil, has-cons, has-there,
  has-here, is_present, In, subst, concat,
}
use zero_datafabric.Constraints.{
  Fk, ConstraintColumn, ConstraintLookups, WriteOp, create, update, RuleKind, not_null_rule,
  enum_rule, unique_rule, foreign_key_rule, owns, reported_if, is_due, outside_enum, is_taken,
  dangles, column_violations,
}

-- A partial row of an update need not have the column.
abbrev pub Excused : WriteOp → String → Row → Type 0
Excused create name row = ⊥
Excused update name row = owns name row ≡ false

abbrev pub Unset : String → Row → Type 0
Unset name row = (owns name row ≡ false) ⊎ (is_present (get name row) ≡ false)

abbrev pub EnumOk : Option (List String) → Value → Type 0
EnumOk none v = Unit
EnumOk (some e) v = In v (map str e)

abbrev pub UniqueOk : Option (String → Value → ℕ) → ConstraintColumn → Value → Type 0
UniqueOk none c v = Unit
UniqueOk (some count) c v = (c.unique ≡ false) ⊎ (count c.name v ≡ 0)

abbrev pub FkOk : Option (Fk → Value → Bool) → Option Fk → Value → Type 0
FkOk (some find) (some fk) v = find fk v ≡ true
FkOk _ _ v = Unit

-- A value for a column that needs one; and where the row sets the column, a value of the enum, that
-- no stored row has where it is unique, and that the foreign key's target has.
abbrev pub ColumnConforms : WriteOp → ConstraintLookups → Row → ConstraintColumn → Type 0
ColumnConforms w l row c =
    ((c.not_null ≡ false) ⊎ (is_present (get c.name row) ≡ true) ⊎ Excused w c.name row)
    × (Unset c.name row
        ⊎ (EnumOk c.enum (get c.name row)
            × UniqueOk l.count_where c (get c.name row)
            × FkOk l.fk_exists c.fk (get c.name row)))

has-In : (v : Value) (xs : List Value) → (has v xs ≡ true) ↔ In v xs
has-In v [] = (λ h. absurd (has-nil v h), λ m. absurd m)
has-In v (x ∷ xs) = (
  λ h. elim (has-cons v x xs h) [ inl e ↦ inl e | inr k ↦ inr ((has-In v xs).0 k) ],
  λ m. elim m [
    | inl e ↦ subst (λ y. has v (y ∷ xs) ≡ true) e (has-here v xs)
    | inr k ↦ has-there v x xs ((has-In v xs).1 k)
  ],
)

pub append_nil : {A : Type 0} (xs ys : List A) → (xs ++ ys ≡ []) ↔ ((xs ≡ []) × (ys ≡ []))
append_nil [] ys = (λ h. (refl, h), λ (a, b). b)
append_nil (x ∷ xs) ys = (λ h. cc, λ (a, b). cc)

outside_enum_iff : (e : Option (List String)) (v : Value) → (outside_enum e v ≡ false) ↔ EnumOk e v
outside_enum_iff none v = (λ h. tt, λ u. refl)
outside_enum_iff (some e) v =
    (λ h. (has-In v (map str e)).0 (ground arith), λ m. rw ((has-In v (map str e)).1 m) refl)

is_taken_iff :
    (count : Option (String → Value → ℕ)) (c : ConstraintColumn) (v : Value)
    → (c.unique && is_taken count c.name v ≡ false) ↔ UniqueOk count c v
is_taken_iff none c v = (λ h. tt, λ u. ground arith)
is_taken_iff (some count) c v = (λ h. ground arith, λ u. ground arith)

dangles_iff :
    (find : Option (Fk → Value → Bool)) (fk : Option Fk) (v : Value)
    → (dangles find fk v ≡ false) ↔ FkOk find fk v
dangles_iff (some find) (some fk) v = (λ h. ground arith, λ u. ground arith)
dangles_iff (some find) none v = (λ h. tt, λ u. refl)
dangles_iff none fk v = (λ h. tt, λ u. refl)

pub reported_if_iff :
    (b : Bool) (name column : String) (rule : RuleKind)
    → (reported_if b name column rule ≡ []) ↔ (b ≡ false)
reported_if_iff true name column rule = (λ h. cc, λ h. cc)
reported_if_iff false name column rule = (λ h. refl, λ h. refl)

-- The four tests of a column, as Booleans: no violation where each is false.
tests_iff :
    (w : WriteOp) (l : ConstraintLookups) (row : Row) (c : ConstraintColumn)
    → (column_violations w l row c ≡ []) ↔ (
        (c.not_null && (is_due w c.name row && not (is_present (get c.name row))) ≡ false)
        × (((owns c.name row && is_present (get c.name row))
              && outside_enum c.enum (get c.name row))
            ≡ false)
        × ((c.unique
              && ((owns c.name row && is_present (get c.name row))
                  && is_taken l.count_where c.name (get c.name row)))
            ≡ false)
        × (((owns c.name row && is_present (get c.name row))
              && dangles l.fk_exists c.fk (get c.name row))
            ≡ false))
unfolding column_violations
tests_iff w l row c =
    let v = get c.name row in
    let given = owns c.name row && is_present v in
    let a = c.not_null && (is_due w c.name row && not (is_present v)) in
    let b = given && outside_enum c.enum v in
    let d = c.unique && (given && is_taken l.count_where c.name v) in
    let e = given && dangles l.fk_exists c.fk v in
    let ra = reported_if_iff a (concat c.name "_not_null") c.name not_null_rule in
    let rb = reported_if_iff b (concat c.name "_enum") c.name enum_rule in
    let rd = reported_if_iff d (concat c.name "_unique") c.name unique_rule in
    let re = reported_if_iff e (concat c.name "_fk") c.name foreign_key_rule in
    let va = reported_if a (concat c.name "_not_null") c.name not_null_rule in
    let vb = reported_if b (concat c.name "_enum") c.name enum_rule in
    let vd = reported_if d (concat c.name "_unique") c.name unique_rule in
    let ve = reported_if e (concat c.name "_fk") c.name foreign_key_rule in
    (
      λ h.
          let (ha, h1) = (append_nil va (vb ++ (vd ++ ve))).0 h in
          let (hb, h2) = (append_nil vb (vd ++ ve)).0 h1 in
          let (hd, he) = (append_nil vd ve).0 h2 in (ra.0 ha, rb.0 hb, rd.0 hd, re.0 he),
      λ (ha, hb, hd, he). (append_nil va (vb ++ (vd ++ ve))).1 (
        ra.1 ha,
        (append_nil vb (vd ++ ve)).1 (rb.1 hb, (append_nil vd ve).1 (rd.1 hd, re.1 he)),
      ),
    )

null_rule_iff :
    (w : WriteOp) (c : ConstraintColumn) (row : Row)
    → (c.not_null && (is_due w c.name row && not (is_present (get c.name row))) ≡ false)
      ↔ ((c.not_null ≡ false) ⊎ (is_present (get c.name row) ≡ true) ⊎ Excused w c.name row)
null_rule_iff create c row = (λ h. ground arith, λ h. ground arith)
null_rule_iff update c row = (λ h. ground arith, λ h. ground arith)

-- A column gives no violation exactly where the row conforms to it.
pub column_iff :
    (w : WriteOp) (l : ConstraintLookups) (row : Row) (c : ConstraintColumn)
    → (column_violations w l row c ≡ []) ↔ ColumnConforms w l row c
column_iff w l row c =
    let v = get c.name row in
    let tests = tests_iff w l row c in
    let nulls = null_rule_iff w c row in
    let enums = outside_enum_iff c.enum v in
    let uniques = is_taken_iff l.count_where c v in
    let fks = dangles_iff l.fk_exists c.fk v in
    (
      λ h.
          let (a, b, d, e) = tests.0 h in
          (
            nulls.0 a,
            elim (Bool-cases (owns c.name row)) [
              | inr absent ↦ inl (inl absent)
              | inl own ↦ elim (Bool-cases (is_present v)) [
                | inr void ↦ inl (inr void)
                | inl given ↦
                    inr (enums.0 (ground arith), uniques.0 (ground arith), fks.0 (ground arith))
              ]
            ],
          ),
      λ (n, s). tests.1 (elim s [
        | inl (inl absent) ↦ (nulls.1 n, ground arith, ground arith, ground arith)
        | inl (inr void) ↦ (nulls.1 n, ground arith, ground arith, ground arith)
        | inr (i, u, k) ↦
            let e0 = enums.1 i in
            let u0 = uniques.1 u in
            let k0 = fks.1 k in (nulls.1 n, ground arith, ground arith, ground arith)
      ]),
    )
