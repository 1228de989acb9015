-- ===== src/Limits/Tests.antt =====
-- Runs of the limits on small inputs. (limits.resolver.ts, enforce.ts)
use zero_datafabric.Common.{
  ◌≡◌, refl, inl, inr, ℕ, true, false, ◌&&◌, none, some, [], ◌∷◌, pos, bool, num, lookup, insert,
  upper,
}
use zero_datafabric.Limits.{
  Licence, Sources, minus_one, base_limits, effective_limits, assert_within, assert_licence_within,
  assert_feature, assert_licence_feature, overlay, cap_keys, num_at, cap_limit, under_ceiling,
  cap_at, effective_features, under_licence, overlay_features,
}
use zero_datafabric.Limits.Ceiling.{
  passes, accepts, assert_within-licence, first_given, base_limits_lem,
}
use zero_datafabric.Limits.Rows.{
  QueryConfig, Ceilings, config, is_exempt, is_valid_limit, least, clamp_limit, clamp_inner, capped,
  under_ceilings, apply_row_ceiling, manifest_file_gate,
}
use zero_datafabric.Limits.Rows.Bounds.{Bounded, InnerBounded, caps_of, apply_row_ceiling-Bounded}

abbrev key : Licence
key = record {
  self_hosted = false;
  limits = ("max_tables", num (pos 8)) ∷ ("max_workers", num minus_one) ∷ [];
  features = ("cdc_kafka_enabled", bool false) ∷ ("remove_branding", bool true) ∷ [];
}

abbrev shop : Sources
shop = record {
  plan_limits_enabled = true;
  licence = some key;
  plan = record {
    limits = ("max_tables", num (pos 20)) ∷ ("max_workers", num (pos 4)) ∷ [];
    features = ("remove_branding", bool false) ∷ [];
  };
  overrides = ("max_tables", num (pos 50)) ∷ [];
}

-- All of the limits, for tests.
limits : Unit {0}
unfolding effective_limits base_limits overlay cap_keys num_at cap_limit under_ceiling cap_at
    effective_features under_licence overlay_features assert_within assert_licence_within
    assert_feature assert_licence_feature lookup insert is_exempt is_valid_limit least clamp_limit
    clamp_inner capped under_ceilings apply_row_ceiling manifest_file_gate upper
limits = tt

tables_capped : lookup "max_tables" (effective_limits shop) ≡ some (pos 8)
unfolding limits
tables_capped = refl

branding_off :
    assert_feature shop "remove_branding"
    ≡ some (record { status = 403; code = "FEATURE_DISABLED" })
unfolding limits
branding_off = refl

manifest_too_large :
    manifest_file_gate shop false (some 5242881)
    ≡ some (record { status = 413; code = "MANIFEST_TOO_LARGE" })
unfolding limits
manifest_too_large = refl

assert_within-licence_example :
    passes (assert_within shop "max_tables" (pos 7))
    ≡ accepts (lookup "max_tables" (base_limits shop)) (pos 7)
      && passes (assert_licence_within (some key) "max_tables" (pos 7))
assert_within-licence_example =
    assert_within-licence shop "max_tables" (pos 7) (inr (inr (inl refl)))

base_limits_lem_example : lookup "max_tables" (base_limits shop) ≡ first_given shop "max_tables"
unfolding lookup
base_limits_lem_example =
    base_limits_lem shop "max_tables" (refl, tt) (refl, (refl, tt)) (refl, (refl, tt))
      (inr (inr (inl refl)))

abbrev set_caps : Ceilings
set_caps = record { max_rows = num (pos 500); max_query_rows = num (pos 100) }

abbrev asked : QueryConfig
asked = record { kind = none; limit = num (pos 300); query = some (num (pos 40)) }

-- The same query with a limit of 0.
abbrev asked_none : QueryConfig
asked_none = record { kind = none; limit = num (pos 0); query = none }

row_cap :
    apply_row_ceiling (some set_caps) none asked
    ≡ config (record { kind = none; limit = num (pos 100); query = some (num (pos 40)) })
unfolding limits
row_cap = refl

apply_row_ceiling-Bounded_example :
    (m : ℕ) × (out : QueryConfig) × (apply_row_ceiling (some set_caps) none asked ≡ config out)
    × (out.limit ≡ num (pos m))
    × Bounded (caps_of set_caps) asked.limit m
    × InnerBounded (caps_of set_caps) asked.query out.query
unfolding limits
apply_row_ceiling-Bounded_example =
    apply_row_ceiling-Bounded set_caps none asked refl refl refl (λ e. cc)
