-- ===== src/Settings/Tests.antt =====
-- Runs of the validation. (validate.ts, workspace-settings.service.ts)
use zero_datafabric.Common.{
  trim, ◌≡◌, refl, String, Bool, true, some, [], ◌∷◌, pos, num, str, Assoc, lookup, insert, has,
}
use zero_datafabric.Recursive.{distinct_from}
use zero_datafabric.Settings.{
  Setting, scalar, array, valid, unknown_settings, bad_field, check_field, check_entries,
  validate_section, api_spec,
}
use zero_datafabric.Settings.Accepting.{EntriesOk, validate_section-EntriesOk}

-- All of the validation, for tests.
validation : Unit {0}
unfolding validate_section check_entries check_field lookup insert trim distinct_from has
validation = tt

abbrev any_text : String → Bool
any_text s = true

abbrev scopes_body : Assoc Setting
scopes_body =
    ("maxTokenDays", scalar (num (pos 30)))
    ∷ ("allowedScopes", array (str "data:read" ∷ str "data:write" ∷ []))
    ∷ []

too_long :
    validate_section
      (api_spec any_text any_text any_text any_text)
      (some (("maxTokenDays", scalar (num (pos 366))) ∷ []))
    ≡ bad_field "maxTokenDays"
unfolding validation
too_long = refl

unknown_key :
    validate_section
      (api_spec any_text any_text any_text any_text)
      (some (("maxRows", scalar (num (pos 1))) ∷ []))
    ≡ unknown_settings ("maxRows" ∷ [])
unfolding validation
unknown_key = refl

scopes_once :
    validate_section
      (api_spec any_text any_text any_text any_text)
      (some (("allowedScopes", array (str "data:read" ∷ str "data:read" ∷ [])) ∷ []))
    ≡ valid (("allowedScopes", array (str "data:read" ∷ [])) ∷ [])
unfolding validation
scopes_once = refl

validate_section-EntriesOk_example :
    EntriesOk (api_spec any_text any_text any_text any_text) scopes_body
unfolding validation
validate_section-EntriesOk_example =
    validate_section-EntriesOk (api_spec any_text any_text any_text any_text) (some scopes_body)
      scopes_body refl
