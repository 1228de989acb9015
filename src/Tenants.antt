-- ===== src/Tenants.antt =====
-- backend/src/utils/identifiers.ts and backend/src/utils/tenantScope.ts: identifiers, and which
-- schemas and requests belong to a workspace. Case mapping in the database is taken to be that of
-- ASCII.
pub mod Separation
mod Tests
use zero_datafabric.Common.{
  ℕ, zero, suc, String, Bool, true, false, not, ◌&&◌, ◌||◌, Option, none, some, List, [], ◌∷◌,
  if◌then◌else◌, ◌==◌, leb, ltb, size, concat, has_prefix, includes, lower, text_eq, or_else,
}
use Prim.Native.Char.{Char, code}

abbrev pub is_letter : Char → Bool
is_letter c = (leb 65 (code c) && leb (code c) 90) || (leb 97 (code c) && leb (code c) 122)

abbrev pub is_digit : Char → Bool
is_digit c = leb 48 (code c) && leb (code c) 57

abbrev pub is_word : Char → Bool
is_word c = is_letter c || is_digit c || code c == 95

abbrev pub all_word : String → Bool
all_word String.[] = true
all_word (String.◌∷◌ c s) = is_word c && all_word s

-- `IDENT_RE`
abbrev pub is_ident : String → Bool
is_ident String.[] = false
is_ident (String.◌∷◌ c s) = (is_letter c || code c == 95) && all_word s && leb (size s) 62

-- `TENANT_ID_RE`
abbrev pub is_tenant_id : String → Bool
is_tenant_id String.[] = false
is_tenant_id (String.◌∷◌ c s) = is_letter c && all_word s && leb 1 (size s) && leb (size s) 40

-- The assertions return their argument; `none` where they throw.
unfoldable pub assert_ident : String → Option String
assert_ident s = if is_ident s then some s else none

unfoldable pub assert_tenant_id : String → Option String
assert_tenant_id s = if is_tenant_id s then some s else none

unfoldable pub assert_tenant_id_safe : String → Option String
assert_tenant_id_safe s = if all_word s && leb 1 (size s) && leb (size s) 56 then some s else none

abbrev pub quoted : Option String → Option String
quoted none = none
quoted (some s) = some (concat "\"" (concat s "\""))

unfoldable pub quote_ident : String → Option String
unfolding assert_ident
quote_ident s = quoted (assert_ident s)

unfoldable pub double_quotes : String → String
double_quotes String.[] = String.[]
double_quotes (String.◌∷◌ c s) =
    if code c == 34
    then String.◌∷◌ c (String.◌∷◌ c (double_quotes s))
    else String.◌∷◌ c (double_quotes s)

abbrev pub has_nul : String → Bool
has_nul String.[] = false
has_nul (String.◌∷◌ c s) = code c == 0 || has_nul s

unfoldable pub quote_any_ident : String → Option String
unfolding double_quotes
quote_any_ident s =
    if size s == 0 || has_nul s || ltb 128 (size s)
    then none
    else some (concat "\"" (concat (double_quotes s) "\""))

unfoldable pub escape_like : String → String
escape_like String.[] = String.[]
escape_like (String.◌∷◌ c s) =
    if code c == 92 || code c == 37 || code c == 95
    then String.◌∷◌ "\\" (String.◌∷◌ c (escape_like s))
    else String.◌∷◌ c (escape_like s)

abbrev pub with_bar : String → String
with_bar s = concat s "_"

abbrev pub base_name : String → String
base_name tenant = concat "tenant_" tenant

unfoldable pub belongs_to_tenant : String → String → Bool
unfolding has_prefix
belongs_to_tenant schema tenant =
    text_eq schema (base_name tenant) || has_prefix (with_bar (base_name tenant)) schema

-- `left(s, length(p)) = p` of two ids in lower case, for ids that are not equal.
unfoldable pub overlaps : String → String → Bool
unfolding lower has_prefix
overlaps id existing =
    not (text_eq (lower existing) (lower id))
    && (has_prefix (with_bar (lower existing)) (lower id)
        || has_prefix (with_bar (lower id)) (lower existing))

-- `findTenantIdOverlap`, on the ids of the tenants.
unfoldable pub find_tenant_id_overlap : List String → String → Option String
unfolding overlaps
find_tenant_id_overlap [] id = none
find_tenant_id_overlap (e ∷ es) id =
    let rest = find_tenant_id_overlap es id in if overlaps id e then some e else rest

pub data Creation : Type 0 where
  created : String → Creation
  invalid_id : Creation
  id_overlap : String → Creation

abbrev pub no_clash : String → Option String → Creation
no_clash id none = created id
no_clash id (some e) = id_overlap e

abbrev pub created_unless : Option String → List String → Creation
created_unless none tenants = invalid_id
created_unless (some id) tenants = no_clash id (find_tenant_id_overlap tenants id)

unfoldable pub assert_creatable_tenant_id : List String → String → Creation
unfolding assert_tenant_id find_tenant_id_overlap
assert_creatable_tenant_id tenants id = created_unless (assert_tenant_id id) tenants

pub record ClientError : Type 0 where
  pub status : ℕ
  pub code : String

abbrev pub as_error : ℕ → String → Option ClientError
as_error s c = some (record { status = s; code = c })

abbrev pub is_state_char : Char → Bool
is_state_char c = is_digit c || (leb 65 (code c) && leb (code c) 90)

abbrev pub all_state : String → Bool
all_state String.[] = true
all_state (String.◌∷◌ c s) = is_state_char c && all_state s

unfoldable pub error_of_code : String → Option ClientError
unfolding has_prefix
error_of_code c =
    if text_eq c "42P01"
    then as_error 404 "UNDEFINED_TABLE"
    else if text_eq c "3F000"
    then as_error 404 "UNDEFINED_SCHEMA"
    else if text_eq c "42703"
    then as_error 400 "UNDEFINED_COLUMN"
    else if text_eq c "42883"
    then as_error 400 "UNDEFINED_FUNCTION"
    else if text_eq c "42804" || text_eq c "42846"
    then as_error 400 "DATATYPE_MISMATCH"
    else if text_eq c "42702" || text_eq c "42725"
    then as_error 400 "AMBIGUOUS_REFERENCE"
    else if text_eq c "42601"
    then as_error 400 "INVALID_QUERY"
    else if text_eq c "42501"
    then as_error 403 "ACCESS_DENIED"
    else if text_eq c "23505"
    then as_error 409 "UNIQUE_VIOLATION"
    else if text_eq c "23503"
    then as_error 409 "FOREIGN_KEY_VIOLATION"
    else if text_eq c "23P01"
    then as_error 409 "EXCLUSION_VIOLATION"
    else if text_eq c "23502"
    then as_error 400 "NOT_NULL_VIOLATION"
    else if text_eq c "23514"
    then as_error 400 "CHECK_VIOLATION"
    else if text_eq c "57014"
    then as_error 408 "QUERY_TIMEOUT"
    else if text_eq c "42803"
    then as_error 400 "GROUPING_ERROR"
    else if has_prefix "22" c
    then as_error 400 "INVALID_VALUE"
    else if has_prefix "42" c
    then as_error 400 "INVALID_QUERY"
    else if has_prefix "23" c
    then as_error 400 "CONSTRAINT_VIOLATION"
    else if has_prefix "0A" c || has_prefix "54" c
    then as_error 400 "UNSUPPORTED_QUERY"
    else none

-- `pgClientError`; `none` is an error without a text as its code.
unfoldable pub pg_client_error : Option String → Option ClientError
unfolding error_of_code
pg_client_error none = none
pg_client_error (some c) = if all_state c && size c == 5 then error_of_code c else none

unfoldable pub http_status_of : Option ℕ → Option ℕ
http_status_of none = none
http_status_of (some s) = if leb 400 s && ltb s 600 then some s else none

pub record User : Type 0 where
  pub internal_role : Option String
  pub auth_type : Option String
  pub tenant_id : Option String

abbrev pub is_platform_admin : User → Bool
is_platform_admin u =
    text_eq (or_else u.internal_role "") "ADMIN"
    && not (text_eq (or_else u.auth_type "") "api_token")

-- `requestTenant`, of the user and the body's `tenantId`.
abbrev pub asked_or_own : User → Option String → Option String
asked_or_own u none = u.tenant_id
asked_or_own u (some t) = if size t == 0 then u.tenant_id else some t

unfoldable pub request_tenant : Option User → Option String → Option String
request_tenant none requested = none
request_tenant (some u) requested =
    if is_platform_admin u then asked_or_own u requested else u.tenant_id
