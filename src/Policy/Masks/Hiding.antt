-- ===== src/Policy/Masks/Hiding.antt =====
-- What a masked row still tells. (policy.service.ts)
use Prim.Native.String.{String}
use mathlib.Core.Option
use zero_datafabric.Common.{
  ◌≡◌, ◌⊎◌, refl, ap, ◌∙◌, sym, true, Option, some, List, [], ◌∷◌, arith, if◌then◌else◌, inl, inr,
  Bool-cases, Option-cases, subst, Value, Row, text_eq, text_eq_iff, is_present, lookup,
  lookup-insert, In,
}
use zero_datafabric.Policy.{MaskStrategy, redact, nullify, hash, partial, other, MaskRule}
use zero_datafabric.Policy.Masks.{mask_value, mask_present, mask_column, mask_row}

-- A column's value under the masks that name it, in order; a missing column stays missing.
abbrev pub masked_by : String → List MaskRule → Option Value → Option Value
masked_by k [] o = o
masked_by k (m ∷ ms) o =
    masked_by k ms (if text_eq m.column k then Option.map (λ v. mask_value v m.strategy) o else o)

lookup-mask_column :
    (k : String) (m : MaskRule) (row : Row)
    → lookup k (mask_column m row) ≡ (
        if text_eq m.column k
        then Option.map (λ v. mask_value v m.strategy) (lookup k row)
        else lookup k row)
unfolding mask_column
lookup-mask_column k m row = elim (Option-cases (lookup m.column row)) [
  | inl missing ↦ ground (arith, text_eq_iff m.column k)
  | inr (v, found) ↦
      ground (arith, lookup-insert k m.column (mask_value v m.strategy) row, text_eq_iff m.column k)
]

-- Each column of a masked row is the row's column under the masks that name it: no column appears or
-- disappears, and a column that no mask names is unchanged.
lookup-mask_row :
    (k : String) (ms : List MaskRule) (row : Row)
    → lookup k (mask_row ms row) ≡ masked_by k ms (lookup k row)
unfolding mask_row
lookup-mask_row k [] row = refl
lookup-mask_row k (m ∷ ms) row =
    lookup-mask_row k ms (mask_column m row) ∙ ap (masked_by k ms) (lookup-mask_column k m row)

-- The strategies that hide a value whole.
abbrev pub Hides : MaskStrategy → Type 0
Hides s = (s ≡ redact) ⊎ (s ≡ nullify)

present_or_same :
    (v w : Value) (s : MaskStrategy)
    → is_present v ≡ true
    → is_present w ≡ true
    → (mask_value v s ≡ mask_value w s)
      ⊎ ((is_present (mask_value v s) ≡ true) × (is_present (mask_value w s) ≡ true))
unfolding mask_value mask_present
present_or_same v w redact p q = inl (rw (p, q))
present_or_same v w nullify p q = inl (rw (p, q))
present_or_same v w hash p q = inr (rw p, rw q)
present_or_same v w partial p q = inr (rw p, rw q)
present_or_same v w other p q = inr (rw p p, rw q q)

hidden :
    (v w : Value) (s : MaskStrategy)
    → Hides s
    → is_present v ≡ true
    → is_present w ≡ true
    → mask_value v s ≡ mask_value w s
unfolding mask_value mask_present
hidden v w redact h p q = rw (p, q)
hidden v w nullify h p q = rw (p, q)
hidden v w hash h p q = ground arith
hidden v w partial h p q = ground arith
hidden v w other h p q = ground arith

masked_by-Hides :
    (k : String) (ms : List MaskRule) (v w : Value)
    → (m : MaskRule) → In m ms
    → m.column ≡ k
    → Hides m.strategy
    → is_present v ≡ true
    → is_present w ≡ true
    → masked_by k ms (some v) ≡ masked_by k ms (some w)
masked_by-Hides k [] v w m at named h p q = absurd at
masked_by-Hides k (x ∷ ms) v w m at named h p q = elim (Bool-cases (text_eq x.column k)) [
  | inl same ↦ rw same (elim (present_or_same v w x.strategy p q) [
    | inl e ↦ ap (λ u. masked_by k ms (some u)) e
    | inr (p', q') ↦ elim at [
      | inl here ↦
          ap (λ u. masked_by k ms (some u))
            (hidden v w x.strategy (subst (λ y. Hides y.strategy) here h) p q)
      | inr later ↦ masked_by-Hides k ms _ _ m later named h p' q'
    ]
  ])
  | inr differ ↦ elim at [
    | inl here ↦
        let e : text_eq x.column k ≡ true =
          (text_eq_iff x.column k).1 (ap (λ y. y.column) (sym here) ∙ named) in
        cc
    | inr later ↦ rw differ (masked_by-Hides k ms v w m later named h p q)
  ]
]

-- Once a REDACT or NULL mask names a column, the masked value does not depend on the value: two rows
-- with any values there that are not null come out with the same.
pub mask_row-Hides :
    (k : String) (ms : List MaskRule) (row row' : Row) (v w : Value) (m : MaskRule)
    → In m ms
    → m.column ≡ k
    → Hides m.strategy
    → lookup k row ≡ some v
    → lookup k row' ≡ some w
    → is_present v ≡ true
    → is_present w ≡ true
    → lookup k (mask_row ms row) ≡ lookup k (mask_row ms row')
mask_row-Hides k ms row row' v w m at named h e e' p q =
    lookup-mask_row k ms row
    ∙ ap (masked_by k ms) e
    ∙ masked_by-Hides k ms v w m at named h p q
    ∙ ap (masked_by k ms) (sym e')
    ∙ sym (lookup-mask_row k ms row')
