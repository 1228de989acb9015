-- ===== src/Limits/Rows.antt =====
-- backend/src/modules/tenancy/enforce.ts: the row ceiling of a query and the size gate of a
-- manifest.
pub mod Bounds
use zero_datafabric.Common.{
  ℕ, zero, suc, ◌*◌, String, Bool, true, false, ◌&&◌, ◌||◌, Option, none, some, List, [], ◌∷◌,
  if◌then◌else◌, leb, ltb, or_else, ℤ, pos, negsuc, z_leb, Value, undefined, null, bool, num, str,
  text_eq, upper, lookup,
}
use zero_datafabric.Limits.{LimitError, Sources, assert_feature, effective_limits, is_unlimited}

-- The fields of a query that the ceiling reads; `query` is the `limit` of a nested query object.
pub record QueryConfig : Type 0 where
  pub kind : Option String
  pub limit : Value
  pub query : Option Value

-- `maxRows` of the workspace's settings and `max_query_rows` of its effective limits.
pub record Ceilings : Type 0 where
  pub max_rows : Value
  pub max_query_rows : Value

pub data CeilingResult : Type 0 where
  invalid_limit : CeilingResult
  config : QueryConfig → CeilingResult

-- Absent, or an integer that is not negative.
unfoldable pub is_valid_limit : Value → Bool
is_valid_limit undefined = true
is_valid_limit null = true
is_valid_limit (num (pos n)) = true
is_valid_limit _ = false

abbrev pub inner_limit : Option Value → Value
inner_limit none = undefined
inner_limit (some v) = v

-- `typeof n === 'number' && n > 0`
abbrev pub positive_caps : List Value → List ℕ
positive_caps [] = []
positive_caps (num (pos (suc n)) ∷ vs) = suc n ∷ positive_caps vs
positive_caps (_ ∷ vs) = positive_caps vs

abbrev pub min : ℕ → ℕ → ℕ
min a b = if leb a b then a else b

-- `Math.min(...caps)`; `none` for no cap.
unfoldable pub least : List ℕ → Option ℕ
least [] = none
least (c ∷ cs) = elim (least cs) [ none ↦ some c | some d ↦ some (min c d) ]

unfoldable pub clamp_limit : ℕ → Value → ℕ
clamp_limit cap (num (pos (suc n))) = min (suc n) cap
clamp_limit cap _ = cap

abbrev pub is_defined : Value → Bool
is_defined undefined = false
is_defined _ = true

unfoldable pub clamp_inner : ℕ → Option Value → Option Value
unfolding clamp_limit
clamp_inner cap none = none
clamp_inner cap (some v) = if is_defined v then some (num (pos (clamp_limit cap v))) else some v

unfoldable pub capped : QueryConfig → Option ℕ → QueryConfig
unfolding clamp_limit clamp_inner
capped c none = c
capped c (some cap) = record {
  kind = c.kind;
  limit = num (pos (clamp_limit cap c.limit));
  query = clamp_inner cap c.query;
}

abbrev pub text_or : Option String → String → String
text_or none d = d
text_or (some s) d = if text_eq s "" then d else s

-- The early return: an administrator, or a query that is no SELECT.
unfoldable pub is_exempt : Option String → QueryConfig → Bool
unfolding upper
is_exempt role c =
    if text_eq (or_else role "") "ADMIN"
    then true
    else if text_eq (upper (text_or c.kind "SELECT")) "SELECT"
    then false
    else true

unfoldable pub under_ceilings : Option Ceilings → QueryConfig → QueryConfig
unfolding capped least
under_ceilings none c = c
under_ceilings (some r) c = capped c (least (positive_caps (r.max_rows ∷ r.max_query_rows ∷ [])))

-- `ceilings` is `none` where the settings cannot be read.
unfoldable pub apply_row_ceiling : Option Ceilings → Option String → QueryConfig → CeilingResult
unfolding is_exempt is_valid_limit under_ceilings
apply_row_ceiling ceilings role c =
    if is_exempt role c
    then config c
    else if is_valid_limit c.limit && is_valid_limit (inner_limit c.query)
    then config (under_ceilings ceilings c)
    else invalid_limit

-- `manifestFileGate`, for a request that names a workspace; the size of the file, if there is one.
abbrev pub too_large : Option ℤ → ℕ → Bool
too_large none size = false
too_large (some mb) size =
    if is_unlimited mb then false else elim mb [ pos n ↦ ltb (n * 1048576) size | negsuc n ↦ true ]

unfoldable pub manifest_file_gate : Sources → Bool → Option ℕ → Option LimitError
unfolding assert_feature effective_limits lookup
manifest_file_gate s is_admin none = none
manifest_file_gate s true (some size) = none
manifest_file_gate s false (some size) = elim (assert_feature s "manifest_import_export_enabled") [
  | some e ↦ some e
  | none ↦
      if too_large (lookup "max_manifest_size_mb" (effective_limits s)) size
      then some (record { status = 413; code = "MANIFEST_TOO_LARGE" })
      else none
]
