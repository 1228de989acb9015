-- ===== src/Grants.antt =====
-- backend/src/modules/security/grant.service.ts: table privileges on engines with none of their own.
-- The stored rules of a table are an argument: the row of the grant catalog.
pub mod Deciding
mod Tests
use zero_datafabric.Common.{
  ◌≡◌, refl, sym, ap, ◌∙◌, ◌↔◌, ◌⊎◌, inl, inr, Bool-cases, String, Bool, true, false, not, ◌&&◌,
  ◌||◌, Option, none, some, List, [], ◌∷◌, map, arith, if◌then◌else◌, any, In, or_else, text_eq,
  text_eq_iff, upper,
}

pub data Privilege : Type 0 where
  select insert update delete : Privilege

abbrev pub privilege_name : Privilege → String
privilege_name select = "SELECT"
privilege_name insert = "INSERT"
privilege_name update = "UPDATE"
privilege_name delete = "DELETE"

pub record GrantRule : Type 0 where
  pub role : String
  pub privileges : List String

pub record Decision : Type 0 where
  pub allowed : Bool
  pub governed : Bool

-- `xs.includes(p)`
abbrev pub contains : String → List String → Bool
contains p xs = any (λ x. text_eq x p) xs

-- Whether a rule gives a role, in upper case, the privilege.
unfoldable pub gives : String → Privilege → GrantRule → Bool
unfolding upper
gives r privilege g =
    text_eq (upper g.role) r && contains (privilege_name privilege) (map upper g.privileges)

abbrev pub is_bypass : String → Bool
is_bypass r = text_eq r "ADMIN" || text_eq r "SYSTEM"

abbrev pub session_role : Option String → String
session_role role = upper (or_else role "")

unfoldable pub decide : List GrantRule → Option String → Privilege → Decision
unfolding gives
decide [] role privilege = record { allowed = true; governed = false }
decide (g ∷ gs) role privilege =
    if is_bypass (session_role role)
    then record { allowed = true; governed = true }
    else record { allowed = any (gives (session_role role) privilege) (g ∷ gs); governed = true }

-- The rules of one table of the catalog, by tenant, schema and table.
abbrev pub Catalog : Type 0
Catalog = String → String → String → Option (List GrantRule)

unfoldable pub check : Catalog → String → String → String → Option String → Privilege → Decision
unfolding decide
check catalog tenant schema table role privilege =
    decide (or_else (catalog tenant schema table) []) role privilege

pub data AccessDenied : Type 0 where
  access_denied : Option String → Privilege → String → String → AccessDenied

abbrev pub is_denied : Decision → Bool
is_denied d = d.governed && not d.allowed

-- `none` where nothing is thrown.
unfoldable pub enforce :
    Catalog → String → String → String → Option String → Privilege → Option AccessDenied
unfolding check
enforce catalog tenant schema table role privilege =
    if is_denied (check catalog tenant schema table role privilege)
    then some (access_denied role privilege schema table)
    else none
