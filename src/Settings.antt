-- ===== src/Settings.antt =====
-- backend/src/modules/tenancy/validate.ts and the specs of
-- backend/src/modules/tenancy/workspace-settings.service.ts: strict validation of settings. Regular
-- expressions and the test of one list entry are functions.
pub mod Accepting
mod Tests
use zero_datafabric.Common.{
  trim, ℕ, String, Bool, true, false, not, ◌&&◌, ◌||◌, Option, none, some, List, [], ◌∷◌,
  if◌then◌else◌, leb, ltb, length, all, any, ℤ, pos, z_leb, Value, undefined, null, bool, num, str,
  text_eq, size, units, Assoc, lookup, insert,
}
use zero_datafabric.Recursive.{distinct_from}
use zero_datafabric.Tenants.{has_nul}

pub data FieldSpec : Type 0 where
  boolean_field : FieldSpec
  int_field : ℤ → ℤ → FieldSpec
  string_field : ℕ → Option (String → Bool) → Bool → Option (List String) → FieldSpec
  string_list : ℕ → ℕ → Option (String → Bool) → Option (List String) → FieldSpec

abbrev pub SectionSpec : Type 0
SectionSpec = Assoc FieldSpec

-- A value of a body: a scalar, an array of scalars, or anything else.
pub data Setting : Type 0 where
  scalar : Value → Setting
  array : List Value → Setting
  other_setting : Setting

abbrev pub passes_test : Option (String → Bool) → String → Bool
passes_test none s = true
passes_test (some test) s = test s

abbrev pub is_listed : Option (List String) → String → Bool
is_listed none s = true
is_listed (some texts) s = any (λ t. text_eq t s) texts

abbrev pub fits : ℕ → String → Bool
fits max_len s = leb (units s) max_len && not (has_nul s)

-- The three tests of an entry of a list.
abbrev pub entry_ok : ℕ → Option (String → Bool) → Option (List String) → Value → Bool
entry_ok max_len item allowed (str s) =
    ltb 0 (size s) && fits max_len s && passes_test item s && is_listed allowed s
entry_ok max_len item allowed _ = false

abbrev pub when_true : Bool → Setting → Option Setting
when_true b v = if b then some v else none

-- The `switch` on the field's type: what is written to `out`, or `none` where it throws.
unfoldable pub check_field : FieldSpec → Setting → Option Setting
unfolding trim distinct_from
check_field boolean_field (scalar (bool b)) = some (scalar (bool b))
check_field (int_field least most) (scalar (num n)) =
    when_true (z_leb least n && z_leb n most) (scalar (num n))
check_field (string_field max_len pattern nullable listed) (scalar null) =
    when_true nullable (scalar null)
check_field (string_field max_len pattern nullable listed) (scalar (str s)) =
    when_true (fits max_len s && passes_test pattern s && is_listed listed s)
      (scalar (str (trim s)))
check_field (string_list max_items max_len item allowed) (array vs) =
    when_true (leb (length vs) max_items && all (entry_ok max_len item allowed) vs)
      (array (distinct_from [] vs))
check_field _ _ = none

pub data Validated : Type 0 where
  valid : Assoc Setting → Validated
  not_an_object : Validated
  unknown_settings : List String → Validated
  bad_field : String → Validated

abbrev pub unknown_keys : SectionSpec → Assoc Setting → List String
unknown_keys spec [] = []
unknown_keys spec ((k, v) ∷ body) = elim (lookup k spec) [
  | none ↦ k ∷ unknown_keys spec body
  | some f ↦ unknown_keys spec body
]

-- `out[key]` after the checks of one field.
abbrev pub checked_by : Option FieldSpec → Setting → Option Setting
checked_by none v = none
checked_by (some f) v = check_field f v

-- The loop over the entries; a key that the spec lacks does not come this far.
unfoldable pub check_entries : SectionSpec → Assoc Setting → Assoc Setting → Validated
unfolding check_field lookup insert
check_entries spec [] out = valid out
check_entries spec ((k, v) ∷ body) out = elim (checked_by (lookup k spec) v) [
  | none ↦ bad_field k
  | some w ↦ check_entries spec body (insert k w out)
]

abbrev pub unless_unknown : List String → Validated → Validated
unless_unknown [] checked = checked
unless_unknown (k ∷ ks) checked = unknown_settings (k ∷ ks)

-- `none` is a body that is no object.
unfoldable pub validate_section : SectionSpec → Option (Assoc Setting) → Validated
unfolding check_entries
validate_section spec none = not_an_object
validate_section spec (some body) =
    unless_unknown (unknown_keys spec body) (check_entries spec body [])

abbrev pub token_scopes : List String
token_scopes =
    "query:read" ∷ "data:read" ∷ "data:write" ∷ "metadata:read" ∷ "metadata:write" ∷ "triggers:read"
    ∷ "triggers:write" ∷ []

-- `WORKSPACE_SPECS`, by the patterns of a time zone, a region and an e-mail address and the test of
-- an address or a block of addresses.
module _ (timezone region email address : String → Bool) where
  abbrev pub general_spec : SectionSpec
  general_spec =
      ("displayName", string_field 100 none false none)
      ∷ ("timezone", string_field 64 (some timezone) false none)
      ∷ ("defaultRegion", string_field 8 (some region) false none)
      ∷ ("contactEmail", string_field 200 (some email) false none)
      ∷ []

  abbrev pub query_spec : SectionSpec
  query_spec =
      ("maxRows", int_field (pos 1) (pos 1000000))
      ∷ ("timeoutMs", int_field (pos 100) (pos 300000))
      ∷ ("allowStreaming", boolean_field)
      ∷ []

  abbrev pub security_spec : SectionSpec
  security_spec = ("allowedIps", string_list 50 49 (some address) none) ∷ []

  abbrev pub api_spec : SectionSpec
  api_spec =
      ("allowDeveloperTokens", boolean_field)
      ∷ ("maxTokenDays", int_field (pos 1) (pos 365))
      ∷ ("allowedScopes", string_list (length token_scopes) 32 none (some token_scopes))
      ∷ []

  abbrev pub notifications_spec : SectionSpec
  notifications_spec =
      ("emailOnLimit", boolean_field) ∷ ("limitWarningPercent", int_field (pos 50) (pos 100)) ∷ []

  unfoldable pub workspace_specs : Assoc SectionSpec
  workspace_specs =
      ("general", general_spec)
      ∷ ("query", query_spec)
      ∷ ("security", security_spec)
      ∷ ("api", api_spec)
      ∷ ("notifications", notifications_spec)
      ∷ []
