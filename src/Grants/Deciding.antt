-- ===== src/Grants/Deciding.antt =====
-- Whom the grants of a table let through. (grant.service.ts)
use zero_datafabric.Common.{
  ◌≡◌, refl, sym, ◌∙◌, ◌↔◌, ◌⊎◌, inl, inr, Bool-cases, String, Bool, true, false, not, Option, none,
  some, List, [], ◌∷◌, map, arith, any, In, or_else, text_eq, text_eq_iff, upper,
}
use zero_datafabric.Grants.{
  Privilege, privilege_name, GrantRule, contains, gives, is_bypass, session_role, decide, Catalog,
  check, access_denied, is_denied, enforce,
}

-- A rule of the list that names the role and the privilege, both without regard to case.
pub record GivenBy (role : Option String) (privilege : Privilege) (g : GrantRule) : Type 0 where
  pub same_role : upper g.role ≡ session_role role
  pub listed : In (privilege_name privilege) (map upper g.privileges)

In-contains : (p : String) (xs : List String) → contains p xs ≡ true → In p xs
In-contains p [] h = cc
In-contains p (x ∷ xs) h = elim (Bool-cases (text_eq x p)) [
  | inl e ↦ inl (sym ((text_eq_iff x p).0 e))
  | inr e ↦ inr (In-contains p xs (rw e at h))
]

contains-In : (p : String) (xs : List String) → In p xs → contains p xs ≡ true
contains-In p [] m = absurd m
contains-In p (x ∷ xs) (inl e) = ground (arith, text_eq_iff x p)
contains-In p (x ∷ xs) (inr m) = ground (arith, contains-In p xs m)

module _ (role : Option String) (privilege : Privilege) where
  gives-GivenBy :
      (g : GrantRule) → gives (session_role role) privilege g ≡ true → GivenBy role privilege g
  unfolding gives
  gives-GivenBy g h = elim (Bool-cases (text_eq (upper g.role) (session_role role))) [
    | inl e ↦ record {
      same_role = (text_eq_iff (upper g.role) (session_role role)).0 e;
      listed = In-contains (privilege_name privilege) (map upper g.privileges) (rw e at h);
    }
    | inr e ↦ absurd (true≢false (rw e at h))
  ]
    where
      true≢false : false ≡ true → ⊥
      true≢false e = cc

  GivenBy-gives :
      (g : GrantRule) → GivenBy role privilege g → gives (session_role role) privilege g ≡ true
  unfolding gives
  GivenBy-gives g b =
      rw ((text_eq_iff (upper g.role) (session_role role)).1 b.same_role)
        (contains-In (privilege_name privilege) (map upper g.privileges) b.listed)

  any-In :
      (gs : List GrantRule)
      → any (gives (session_role role) privilege) gs ≡ true
      → (g : GrantRule) × In g gs × GivenBy role privilege g
  any-In [] h = cc
  any-In (g ∷ gs) h = elim (Bool-cases (gives (session_role role) privilege g)) [
    | inl e ↦ (g, inl refl, gives-GivenBy g e)
    | inr e ↦ let (k, m, b) = any-In gs (rw e at h) in (k, inr m, b)
  ]

  In-any :
      (g : GrantRule) (gs : List GrantRule)
      → In g gs
      → GivenBy role privilege g
      → any (gives (session_role role) privilege) gs ≡ true
  In-any g [] m b = absurd m
  In-any g (k ∷ gs) (inl same) b = ground (arith, GivenBy-gives g b)
  In-any g (k ∷ gs) (inr m) b = ground (arith, In-any g gs m b)

-- Why a request is let through.
pub data Permitted (rules : List GrantRule) (role : Option String) (privilege : Privilege)
    : Type 0 where
  ungoverned : rules ≡ [] → Permitted rules role privilege
  bypass : is_bypass (session_role role) ≡ true → Permitted rules role privilege
  given : (g : GrantRule) → In g rules → GivenBy role privilege g → Permitted rules role privilege

module _ (role : Option String) (privilege : Privilege) where
  not_denied : (b : Bool) → not b ≡ false → b ≡ true
  not_denied b e = ground arith

  decide-Permitted :
      (rules : List GrantRule)
      → is_denied (decide rules role privilege) ≡ false
      → Permitted rules role privilege
  unfolding decide
  decide-Permitted [] e = ungoverned refl
  decide-Permitted (g ∷ gs) e = elim (Bool-cases (is_bypass (session_role role))) [
    | inl free ↦ bypass free
    | inr bound ↦
        let found : any (gives (session_role role) privilege) (g ∷ gs) ≡ true =
          not_denied (any (gives (session_role role) privilege) (g ∷ gs)) (rw bound at e) in
        let (k, m, b) = any-In role privilege (g ∷ gs) found in given k m b
  ]

  Permitted-decide :
      (rules : List GrantRule)
      → Permitted rules role privilege
      → is_denied (decide rules role privilege) ≡ false
  unfolding decide
  Permitted-decide [] p = refl
  Permitted-decide (g ∷ gs) (ungoverned e) = absurd (cons≢nil e)
    where
      cons≢nil : g ∷ gs ≡ [] → ⊥
      cons≢nil e = cc
  Permitted-decide (g ∷ gs) (bypass e) = rw e refl
  Permitted-decide (g ∷ gs) (given k m b) = ground (arith, In-any role privilege k (g ∷ gs) m b)

-- A request for a table is let through exactly where the catalog has no rules for the table, the
-- role is ADMIN or SYSTEM, or a rule gives the role the privilege, each without regard to case;
-- else it is refused, naming role, privilege and table.
pub enforce_iff :
    (catalog : Catalog) (tenant schema table : String) (role : Option String)
    (privilege : Privilege)
    → ((enforce catalog tenant schema table role privilege ≡ none)
        ↔ Permitted (or_else (catalog tenant schema table) []) role privilege)
      × ((enforce catalog tenant schema table role privilege ≡ none)
          ⊎ (enforce catalog tenant schema table role privilege
              ≡ some (access_denied role privilege schema table)))
unfolding enforce check
enforce_iff catalog tenant schema table role privilege =
    let rules = or_else (catalog tenant schema table) [] in
    elim (Bool-cases (is_denied (decide rules role privilege))) [
      | inl denied ↦ (
        (
          λ e. absurd (some≢none (rw denied at e)),
          λ p.
              let free = Permitted-decide role privilege rules p in
              absurd (true≢false (sym denied ∙ free)),
        ),
        inr (rw denied refl),
      )
      | inr allowed ↦ (
        (λ e. decide-Permitted role privilege rules allowed, λ p. rw allowed refl),
        inl (rw allowed refl),
      )
    ]
  where
    some≢none : {A : Type 0} {a : A} → some a ≡ none → ⊥
    some≢none e = cc

    true≢false : true ≡ false → ⊥
    true≢false e = cc
