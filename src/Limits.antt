-- ===== src/Limits.antt =====
-- backend/src/modules/tenancy/limits.resolver.ts: the limits and features of a workspace. The rows
-- of the plan, the workspace and the licence are arguments; a limit is an integer, and -1 stands
-- for "unlimited".
pub mod Ceiling
pub mod Rows
mod Tests
use zero_datafabric.Common.{
  ℕ, zero, suc, String, Bool, true, false, not, ◌&&◌, ◌||◌, Option, none, some, List, [], ◌∷◌, map,
  if◌then◌else◌, or_else, ℤ, pos, negsuc, z_leb, z_min, Value, undefined, null, bool, num, str,
  text_eq, Assoc, lookup, insert,
}

-- `LIMIT_KEYS`
abbrev pub limit_keys : List String
limit_keys =
    "max_connections" ∷ "max_records_per_table" ∷ "max_tables" ∷ "max_triggers"
    ∷ "max_replication_tables" ∷ "max_replication_rows" ∷ "max_replication_rows_per_table"
    ∷ "max_replications" ∷ "max_tenants" ∷ "rate_limit_per_min" ∷ "rate_limit_per_hour"
    ∷ "rate_limit_per_day" ∷ "rate_limit_per_month" ∷ "max_workers" ∷ "max_api_tokens_per_user"
    ∷ "max_users_per_workspace" ∷ "max_saved_analytics" ∷ "max_query_rows" ∷ "max_manifest_size_mb"
    ∷ []

-- `BUILTIN_TRIAL_LIMITS`
abbrev pub builtin_trial_limits : Assoc ℤ
builtin_trial_limits =
    ("max_connections", pos 2)
    ∷ ("max_records_per_table", pos 1000)
    ∷ ("max_tables", pos 5)
    ∷ ("max_triggers", pos 3)
    ∷ ("max_replication_tables", pos 2)
    ∷ ("max_replication_rows", pos 500)
    ∷ ("max_replication_rows_per_table", pos 250)
    ∷ ("max_replications", pos 2)
    ∷ ("max_tenants", pos 3)
    ∷ ("rate_limit_per_min", pos 10)
    ∷ ("rate_limit_per_hour", pos 100)
    ∷ ("rate_limit_per_day", pos 1000)
    ∷ ("rate_limit_per_month", pos 10000)
    ∷ ("max_workers", pos 2)
    ∷ ("max_api_tokens_per_user", pos 5)
    ∷ ("max_users_per_workspace", pos 5)
    ∷ ("max_saved_analytics", pos 20)
    ∷ ("max_query_rows", pos 10000)
    ∷ ("max_manifest_size_mb", pos 5)
    ∷ []

-- `num`
abbrev pub num_of : Value → Option ℤ
num_of (num n) = some n
num_of _ = none

-- `object?.[k]`, read by `num`
unfoldable pub num_at : String → Assoc Value → Option ℤ
unfolding lookup
num_at k object = elim (lookup k object) [ none ↦ none | some v ↦ num_of v ]

abbrev pub minus_one : ℤ
minus_one = negsuc 0

abbrev pub is_unlimited : ℤ → Bool
is_unlimited (negsuc zero) = true
is_unlimited _ = false

unfoldable pub cap_limit : ℤ → Option ℤ → ℤ
cap_limit v none = v
cap_limit v (some c) = if is_unlimited c then v else if is_unlimited v then c else z_min v c

-- The rows that `compute` reads.
pub record Licence : Type 0 where
  pub self_hosted : Bool
  pub limits : Assoc Value
  pub features : Assoc Value

pub record Plan : Type 0 where
  pub limits : Assoc Value
  pub features : Assoc Value

-- `licence` is that of a key with status `valid`.
pub record Sources : Type 0 where
  pub plan_limits_enabled : Bool
  pub licence : Option Licence
  pub plan : Plan
  pub overrides : Assoc Value

-- `const n = num(v); if (n !== undefined) base[k] = n`, for every entry
unfoldable pub overlay : Assoc ℤ → Assoc Value → Assoc ℤ
unfolding insert
overlay base [] = base
overlay base ((k, num n) ∷ entries) = overlay (insert k n base) entries
overlay base ((k, _) ∷ entries) = overlay base entries

abbrev pub unlimited : Assoc ℤ
unlimited = map (λ k. (k, minus_one)) limit_keys

abbrev pub is_self_hosted : Option Licence → Bool
is_self_hosted none = false
is_self_hosted (some l) = l.self_hosted

abbrev pub licence_limits : Option Licence → Assoc Value
licence_limits none = []
licence_limits (some l) = l.limits

-- The limits before the licence's ceiling.
unfoldable pub base_limits : Sources → Assoc ℤ
unfolding overlay
base_limits s =
    let self_hosted = is_self_hosted s.licence in
    let base =
      if self_hosted
      then overlay unlimited (licence_limits s.licence)
      else if not s.plan_limits_enabled
      then unlimited
      else overlay builtin_trial_limits s.plan.limits in
    if s.plan_limits_enabled || self_hosted then overlay base s.overrides else base

-- `if (c !== undefined) base[k] = capLimit(base[k] ?? -1, c)`, for one key
unfoldable pub cap_at : Option ℤ → String → Assoc ℤ → Assoc ℤ
unfolding cap_limit insert lookup
cap_at none k base = base
cap_at (some c) k base = insert k (cap_limit (or_else (lookup k base) minus_one) (some c)) base

unfoldable pub cap_keys : Assoc Value → List String → Assoc ℤ → Assoc ℤ
unfolding cap_at num_at
cap_keys ceilings [] base = base
cap_keys ceilings (k ∷ keys) base = cap_keys ceilings keys (cap_at (num_at k ceilings) k base)

unfoldable pub under_ceiling : Option Licence → Assoc ℤ → Assoc ℤ
unfolding cap_keys
under_ceiling none base = base
under_ceiling (some l) base = cap_keys l.limits limit_keys base

unfoldable pub effective_limits : Sources → Assoc ℤ
unfolding base_limits under_ceiling
effective_limits s = under_ceiling s.licence (base_limits s)

abbrev pub is_false : Option Value → Bool
is_false (some (bool false)) = true
is_false _ = false

-- The licence's features over the plan's: a feature that the plan sets to false stays false.
unfoldable pub overlay_features : Assoc Value → Assoc Value → Assoc Value
unfolding insert lookup
overlay_features features [] = features
overlay_features features ((k, bool b) ∷ entries) =
    overlay_features
      (insert k (if is_false (lookup k features) then bool false else bool b) features) entries
overlay_features features ((k, num n) ∷ entries) =
    overlay_features (insert k (num n) features) entries
overlay_features features ((k, _) ∷ entries) = overlay_features features entries

unfoldable pub under_licence : Option Licence → Assoc Value → Assoc Value
unfolding overlay_features
under_licence none features = features
under_licence (some l) features = overlay_features features l.features

unfoldable pub effective_features : Sources → Assoc Value
unfolding under_licence
effective_features s = under_licence s.licence s.plan.features

-- What the checks throw: `LimitError`, without its message.
pub record LimitError : Type 0 where
  pub status : ℕ
  pub code : String

-- `none` where nothing is thrown.
abbrev pub limit_reached : String → Option ℤ → ℤ → Option LimitError
limit_reached code none current = none
limit_reached code (some limit) current =
    if is_unlimited limit
    then none
    else if z_leb limit current
    then some (record { status = 403; code = code })
    else none

unfoldable pub assert_within : Sources → String → ℤ → Option LimitError
unfolding effective_limits lookup
assert_within s key current =
    limit_reached "PLAN_LIMIT_REACHED" (lookup key (effective_limits s)) current

unfoldable pub assert_licence_within : Option Licence → String → ℤ → Option LimitError
unfolding num_at
assert_licence_within licence key current =
    limit_reached "LICENSE_LIMIT_REACHED" (num_at key (licence_limits licence)) current

abbrev pub disabled : Option Value → Option LimitError
disabled v = if is_false v then some (record { status = 403; code = "FEATURE_DISABLED" }) else none

unfoldable pub assert_feature : Sources → String → Option LimitError
unfolding effective_features lookup
assert_feature s feature = disabled (lookup feature (effective_features s))

unfoldable pub assert_licence_feature : Option Licence → String → Option LimitError
unfolding lookup
assert_licence_feature none feature = none
assert_licence_feature (some l) feature = disabled (lookup feature l.features)
