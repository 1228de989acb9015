-- ===== src/Tenants/Tests.antt =====
-- Runs of the workspace rules. (identifiers.ts, tenantScope.ts)
use zero_datafabric.Common.{◌≡◌, refl, inl, String, some, [], ◌∷◌, lower, has_prefix}
use zero_datafabric.Tenants.{
  assert_tenant_id, belongs_to_tenant, overlaps, find_tenant_id_overlap, id_overlap,
  assert_creatable_tenant_id, error_of_code, pg_client_error, request_tenant, escape_like,
}
use zero_datafabric.Tenants.Separation.{assert_creatable_tenant_id-separates}

-- All of the rules, for tests.
scoping : Unit {0}
unfolding assert_tenant_id belongs_to_tenant overlaps find_tenant_id_overlap
    assert_creatable_tenant_id error_of_code pg_client_error request_tenant escape_like lower
    has_prefix
scoping = tt

overlap_refused : assert_creatable_tenant_id ("acme" ∷ []) "Acme_eu" ≡ id_overlap "acme"
unfolding scoping
overlap_refused = refl

syntax_class :
    pg_client_error (some "42999") ≡ some (record { status = 400; code = "INVALID_QUERY" })
unfolding scoping
syntax_class = refl

token_tenant :
    request_tenant
      (some (record {
        internal_role = some "ADMIN";
        auth_type = some "api_token";
        tenant_id = some "acme";
      }))
      (some "beta")
    ≡ some "acme"
unfolding scoping
token_tenant = refl

escaped : escape_like "a_b" ≡ "a\\_b"
unfolding scoping
escaped = refl

assert_creatable_tenant_id-separates_example : ◌≡◌ {A = String} "acme" "acme"
unfolding scoping
assert_creatable_tenant_id-separates_example =
    assert_creatable_tenant_id-separates ("acme" ∷ "beta" ∷ []) "acme" "acme" "acme"
      "tenant_acme_sales" refl (inl refl) refl refl
