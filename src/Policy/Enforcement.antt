-- ===== src/Policy/Enforcement.antt =====
-- Which row conditions a session is held to. (policy.service.ts)
use zero_datafabric.Common.{
  String, ◌≡◌, ◌≢◌, refl, inl, inr, Bool-cases, ◌∙◌, Bool, true, Option, none, some, List, [], ◌∷◌,
  ◌++◌, arith, if◌then◌else◌, Value, Row, get, Operand, text_eq_iff, upper, lookup, or_option,
}
use zero_datafabric.Policy.{
  or_text, Session, PolicyClause, StoredPolicy, Filter, Conditions, UserCondition, bare, operators,
  UserFilter, Resolved, canon_op, clause_condition, compile_from, compile_filter, role_matches,
  apply_policy, resolve_from, resolve, merge_into_filter, add_condition,
}
use zero_datafabric.Policy.Merging.{
  asks, in_conditions, user_asks, IsFilter, pair_asks, user_asks-merge_into_filter,
  asks-merge_fragment, asks-add_condition, add_condition-IsFilter, merge_fragment-IsFilter, merged,
  kept,
}

-- The clauses of the policies that the session's role falls under, in order.
abbrev pub active : Session → List StoredPolicy → List PolicyClause
active s [] = []
active s (p ∷ ps) = if role_matches p.roles s then p.row_filter ++ active s ps else active s ps

module _ (column op : String) (s : Session) where
  -- What the last of the clauses with this column and operator asks.
  abbrev pub last_asked : List PolicyClause → Option Operand
  last_asked [] = none
  last_asked (c ∷ cs) =
      or_option (last_asked cs) (pair_asks column op c.column (clause_condition c s))

  last_asked-append :
      (cs ds : List PolicyClause)
      → last_asked (cs ++ ds) ≡ or_option (last_asked ds) (last_asked cs)
  last_asked-append [] ds = ground arith
  last_asked-append (c ∷ cs) ds = ground (arith, last_asked-append cs ds)

  asks-compile_from :
      (cs : List PolicyClause) (f : Filter)
      → asks column op (compile_from cs s f) ≡ or_option (last_asked cs) (asks column op f)
  unfolding compile_from
  asks-compile_from [] f = refl
  asks-compile_from (c ∷ cs) f = ground (
    arith,
    asks-compile_from cs (add_condition c.column (clause_condition c s) f),
    asks-add_condition column op c.column (clause_condition c s) f,
  )

compile_from-IsFilter :
    (cs : List PolicyClause) (s : Session) (f : Filter)
    → IsFilter f
    → IsFilter (compile_from cs s f)
unfolding compile_from
compile_from-IsFilter [] s f h = h
compile_from-IsFilter (c ∷ cs) s f h =
    compile_from-IsFilter cs s (add_condition c.column (clause_condition c s) f)
      (add_condition-IsFilter c.column (clause_condition c s) f h)

compile_filter-IsFilter : (cs : List PolicyClause) (s : Session) → IsFilter (compile_filter cs s)
unfolding compile_filter
compile_filter-IsFilter cs s =
    compile_from-IsFilter cs s [] (record { columns = tt; operators = tt })

asks-compile_filter :
    (column op : String) (s : Session) (cs : List PolicyClause)
    → asks column op (compile_filter cs s) ≡ last_asked column op s cs
unfolding compile_filter lookup
asks-compile_filter column op s cs = ground (arith, asks-compile_from column op s cs [])

apply_policy-IsFilter :
    (s : Session) (r : Resolved) (p : StoredPolicy)
    → IsFilter r.filter
    → IsFilter (apply_policy s r p).filter
unfolding apply_policy
apply_policy-IsFilter s r p h = elim (Bool-cases (role_matches p.roles s)) [
  | inl mine ↦ rw mine (merge_fragment-IsFilter r.filter (compile_filter p.row_filter s) h)
  | inr other ↦ rw other h
]

resolve_from-IsFilter :
    (s : Session) (r : Resolved) (ps : List StoredPolicy)
    → IsFilter r.filter
    → IsFilter (resolve_from s r ps).filter
unfolding resolve_from
resolve_from-IsFilter s r [] h = h
resolve_from-IsFilter s r (p ∷ ps) h =
    resolve_from-IsFilter s (apply_policy s r p) ps (apply_policy-IsFilter s r p h)

asks-apply_policy :
    (column op : String) (s : Session) (r : Resolved) (p : StoredPolicy) (ps : List StoredPolicy)
    → or_option (last_asked column op s (active s ps)) (asks column op (apply_policy s r p).filter)
      ≡ or_option (last_asked column op s (active s (p ∷ ps))) (asks column op r.filter)
unfolding apply_policy
asks-apply_policy column op s r p ps = ground (
  arith,
  asks-merge_fragment column op r.filter (compile_filter p.row_filter s)
      (compile_filter-IsFilter p.row_filter s),
  asks-compile_filter column op s p.row_filter,
  last_asked-append column op s p.row_filter (active s ps),
)

asks-resolve_from :
    (column op : String) (s : Session) (r : Resolved) (ps : List StoredPolicy)
    → asks column op (resolve_from s r ps).filter
      ≡ or_option (last_asked column op s (active s ps)) (asks column op r.filter)
unfolding resolve_from
asks-resolve_from column op s r [] = refl
asks-resolve_from column op s r (p ∷ ps) =
    asks-resolve_from column op s (apply_policy s r p) ps ∙ asks-apply_policy column op s r p ps

-- The filter that a session is held to asks of each column, under each operator, what the last
-- clause with that column and operator asks, among the clauses of the policies for the session's
-- role; and it asks nothing else.
pub resolve_lem :
    (column op : String) (s : Session) (ps : List StoredPolicy)
    → asks column op (resolve s ps).filter ≡ last_asked column op s (active s ps)
unfolding resolve lookup
resolve_lem column op s ps =
    ground
      (arith, asks-resolve_from column op s (record { filter = []; masks = []; applied = [] }) ps)

-- The meaning of an operator at a source: whether a row's value satisfies it.
abbrev pub Holds : Type 0
Holds = String → Operand → Value → Bool

-- A row that satisfies every condition of the caller's merged filter.
abbrev pub PassesUser : Holds → UserFilter → Row → Type 0
PassesUser holds f row =
    (column op : String) (v : Operand)
    → user_asks column op f ≡ some v
    → holds op v (get column row) ≡ true

resolve-IsFilter : (s : Session) (ps : List StoredPolicy) → IsFilter (resolve s ps).filter
unfolding resolve
resolve-IsFilter s ps = resolve_from-IsFilter s _ ps (record { columns = tt; operators = tt })

merged-asked :
    (o : Option Conditions) (op : String) (previous : Option UserCondition) (v : Operand)
    → in_conditions op o ≡ some v
    → merged o op previous ≡ some v
merged-asked none op previous v h = cc
merged-asked (some c) op previous v h = ground arith

merged-free :
    (o : Option Conditions) (op : String) (previous : Option UserCondition) (v : Operand)
    → in_conditions op o ≡ none
    → kept op previous ≡ some v
    → merged o op previous ≡ some v
merged-free none op none v free h = cc
merged-free none op (some (operators c)) v free h = h
merged-free none op (some (bare u)) v free h = ground arith
merged-free (some c) op previous v free h = ground arith

-- Every row that passes the merged filter satisfies each condition of the policies' filter, whatever
-- the caller's own filter asks and whatever the operators mean at the source.
pub merge_into_filter-enforces :
    (holds : Holds) (own : UserFilter) (s : Session) (ps : List StoredPolicy) (row : Row)
    → PassesUser holds (merge_into_filter own (resolve s ps).filter) row
    → (column op : String) (v : Operand) → asks column op (resolve s ps).filter ≡ some v
    → holds op v (get column row) ≡ true
merge_into_filter-enforces holds own s ps row passes column op v asked = passes column op v (
    user_asks-merge_into_filter column op own (resolve s ps).filter (resolve-IsFilter s ps)
    ∙ merged-asked (lookup column (resolve s ps).filter) op (lookup column own) v asked)

-- A condition of the caller is kept, unless the policies ask something of that column under the same
-- operator or the caller's value is null.
pub merge_into_filter-keeps :
    (own : UserFilter) (s : Session) (ps : List StoredPolicy) (column op : String) (v : Operand)
    → kept op (lookup column own) ≡ some v
    → asks column op (resolve s ps).filter ≡ none
    → user_asks column op (merge_into_filter own (resolve s ps).filter) ≡ some v
merge_into_filter-keeps own s ps column op v asked free =
    user_asks-merge_into_filter column op own (resolve s ps).filter (resolve-IsFilter s ps)
    ∙ merged-free (lookup column (resolve s ps).filter) op (lookup column own) v free asked

skipped :
    (c : PolicyClause) (s : Session)
    → canon_op (upper (or_text c.operator "EQ")) ≡ none
    → upper (or_text c.operator "EQ") ≢ "IS_NULL"
    → upper (or_text c.operator "EQ") ≢ "IS_NOT_NULL"
    → clause_condition c s ≡ none
unfolding clause_condition
skipped c s unknown not_null not_set =
    let op = upper (or_text c.operator "EQ") in
    ground (arith, text_eq_iff op "IS_NULL", text_eq_iff op "IS_NOT_NULL")
