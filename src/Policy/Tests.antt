-- ===== src/Policy/Tests.antt =====
-- Policies and masks on small inputs. (policy.service.ts)
use Prim.Native.String.{String}
use zero_datafabric.Common.{
  ap, Bool-cases, subst, if◌then◌else◌, ◌≡◌, refl, inl, inr, true, none, some, List, [], ◌∷◌, pos,
  Value, num, str, Row, get, value_eq, one, lookup, upper, or_else, text_eq,
}
use zero_datafabric.Policy.{
  Session, literal, session, PolicyClause, redact, hash, partial, StoredPolicy, role_matches, bare,
  operators, UserFilter, resolve, merge_into_filter,
}
use zero_datafabric.Policy.Merging.{asks, user_asks}
use zero_datafabric.Policy.Enforcement.{
  active, last_asked, resolve_lem, Holds, PassesUser, merge_into_filter-enforces,
  merge_into_filter-keeps,
}
use zero_datafabric.Policy.Masks.{mask_row, mask_value}
use zero_datafabric.Policy.Masks.Hiding.{mask_row-Hides}

policies : Unit {0}
unfolding resolve role_matches merge_into_filter mask_row lookup get upper
policies = tt

abbrev ann : Session
ann = record { tenant_id = "t1"; role = some "analyst"; region = some "EU"; username = none }

abbrev clause : String → String → Value → PolicyClause
clause column op v = record { column = column; operator = some op; value = literal (one v) }

abbrev by_region : StoredPolicy
by_region = record {
  policy_name = "region";
  roles = "ANALYST" ∷ [];
  row_filter = record { column = "region"; operator = none; value = session "region" } ∷ [];
  masking =
      record { column = "card"; roles = []; strategy = partial }
      ∷ record { column = "card"; roles = []; strategy = redact }
      ∷ [];
}

abbrev for_admins : StoredPolicy
for_admins = record {
  policy_name = "admins";
  roles = "ADMIN" ∷ [];
  row_filter = clause "region" "EQ" (str "US") ∷ [];
  masking = [];
}

abbrev stored : List StoredPolicy
stored = by_region ∷ for_admins ∷ []

abbrev own : UserFilter
own =
    ("region", bare (one (str "US"))) ∷ ("total", operators (("$gt", one (num (pos 10))) ∷ [])) ∷ []

resolved :
    ((resolve ann stored).filter ≡ ("region", ("$eq", one (str "EU")) ∷ []) ∷ [])
    × ((resolve ann stored).applied ≡ "region" ∷ [])
unfolding policies
resolved = (refl, refl)

merged_own :
    merge_into_filter own (resolve ann stored).filter
    ≡ ("region", operators (("$eq", one (str "EU")) ∷ []))
      ∷ ("total", operators (("$gt", one (num (pos 10))) ∷ []))
      ∷ []
unfolding policies
merged_own = refl

-- Equality on single values; every other operator is taken to hold.
abbrev holds : Holds
holds op (one v) w = if text_eq op "$eq" then value_eq v w else true
holds op _ w = true

abbrev order : Row
order = ("region", str "EU") ∷ ("card", str "4111") ∷ []

resolve_lem_example :
    asks "region" "$eq" (resolve ann stored).filter
    ≡ last_asked "region" "$eq" ann (active ann stored)
resolve_lem_example = resolve_lem "region" "$eq" ann stored

abbrev elsewhere : UserFilter
elsewhere = ("region", bare (one (str "US"))) ∷ []

order_passes : PassesUser holds (merge_into_filter elsewhere (resolve ann stored).filter) order
unfolding policies
order_passes column op v asked = elim (Bool-cases (text_eq "region" column)) [
  | inl here ↦ elim (Bool-cases (text_eq "$eq" op)) [
    | inl equal ↦
        let h : some (one (str "EU")) ≡ some v = rw (here, equal) at asked in
        let same : one (str "EU") ≡ v = ap (λ o. or_else o v) h in
        subst (λ u. holds op u (get column order) ≡ true) same
          (rw here (elim (Bool-cases (text_eq op "$eq")) [ inl e ↦ rw e | inr e ↦ rw e ]))
    | inr differ ↦ absurd (none≢some (rw (here, differ) at asked))
  ]
  | inr elsewhere_asked ↦ absurd (none≢some (rw elsewhere_asked at asked))
]
  where
    none≢some : {A : Type 0} {a : A} → none ≡ some a → ⊥
    none≢some e = cc

merge_into_filter-enforces_example : holds "$eq" (one (str "EU")) (get "region" order) ≡ true
unfolding policies
merge_into_filter-enforces_example =
    merge_into_filter-enforces holds elsewhere ann stored order order_passes "region" "$eq"
      (one (str "EU")) refl

merge_into_filter-keeps_example :
    user_asks "total" "$gt" (merge_into_filter own (resolve ann stored).filter)
    ≡ some (one (num (pos 10)))
unfolding policies
merge_into_filter-keeps_example =
    merge_into_filter-keeps own ann stored "total" "$gt" (one (num (pos 10))) refl refl

abbrev low : PolicyClause
low = clause "region" "eq" (str "EU")

abbrev high : PolicyClause
high = clause "region" "EQ" (str "US")

abbrev misspelt : PolicyClause
misspelt = clause "region" "NE" (str "US")

mask_row-Hides_example :
    lookup "card" (mask_row by_region.masking order)
    ≡ lookup "card" (mask_row by_region.masking (("card", num (pos 7)) ∷ []))
unfolding policies
mask_row-Hides_example =
    mask_row-Hides "card" by_region.masking order (("card", num (pos 7)) ∷ []) (str "4111")
      (num (pos 7)) (record { column = "card"; roles = []; strategy = redact }) (inr (inl refl))
      refl (inl refl) refl refl refl refl

masked :
    (mask_value (str "4111111111111111") partial ≡ str "************1111")
    × (mask_value (num (pos 1234567)) partial ≡ str "***4567")
    × (mask_value (str "abc") hash ≡ str "sha256:0b885c8b")
unfolding policies
masked = (refl, refl, refl)
