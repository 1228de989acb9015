-- ===== src/Diff/Converge.antt =====
-- What a second comparison finds once the entries of the first are carried out. (diff_engine.ts)
use zero_datafabric.Common.{
  ℕ, ◌≡◌, refl, subst, String, false, Option, none, some, List, [], ◌∷◌, ◌++◌, append_assoc, arith,
  text_eq_iff,
}
use zero_datafabric.Diff.Model.{Catalog, Target, Column, Resource}
use zero_datafabric.Diff.Columns.{
  normalize_declared_type, stored_length_changed, stored_type_changed, find_column, stored_columns,
  diff_table,
}

-- No two columns have one name.
abbrev pub DistinctColumns : List Column → Type 0
DistinctColumns [] = Unit
DistinctColumns (c ∷ cs) = (find_column c.name cs ≡ none) × DistinctColumns cs

stored_length-same : (o : Option ℕ) → stored_length_changed o o ≡ false
stored_length-same none = refl
stored_length-same (some n) = ground arith

stored_type-same : (c : Column) → stored_type_changed c c ≡ false
unfolding stored_type_changed
stored_type-same c =
    let f = normalize_declared_type c.type_name c.length in
    ground (arith, text_eq_iff f.family f.family, stored_length-same f.length)

find_column-own :
    (front : List Column) (c : Column) (cs : List Column)
    → find_column c.name cs ≡ none
    → find_column c.name (front ++ c ∷ cs) ≡ some c
unfolding find_column
find_column-own [] c cs h = ground (arith, text_eq_iff c.name c.name)
find_column-own (d ∷ front) c cs h = rw (find_column-own front c cs h) refl

stored_columns-own :
    (table : String) (front cs : List Column)
    → DistinctColumns cs
    → stored_columns (front ++ cs) table cs ≡ []
unfolding stored_columns
stored_columns-own table front [] h = refl
stored_columns-own table front (c ∷ cs) (p, h) =
    rw (find_column-own front c cs p, stored_type-same c)
      (subst (λ xs. stored_columns xs table cs ≡ []) (append_assoc front (c ∷ []) cs)
        (stored_columns-own table (front ++ c ∷ []) cs h))

-- On an engine whose catalog cannot be read, a declared table whose stored definition has the
-- declared columns, no two of one name, gives no entry: it is not created again.
pub diff_table-stored :
    (cat : Catalog) (t : Target) (res : Resource)
    → t.caps.catalog_introspection ≡ false
    → cat.fabric_table res.name ≡ some res.columns
    → DistinctColumns res.columns
    → diff_table cat t res ≡ []
unfolding diff_table
diff_table-stored cat t res no_catalog stored apart =
    rw (no_catalog, stored) (stored_columns-own res.name [] res.columns apart)
