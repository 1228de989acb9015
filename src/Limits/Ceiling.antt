-- ===== src/Limits/Ceiling.antt =====
-- The licence's ceiling over plan limits and overrides. (limits.resolver.ts)
use zero_datafabric.Common.{
  ◌≡◌, refl, sym, ap, ◌∙◌, inl, inr, Bool-cases, String, Bool, true, false, not, ◌&&◌, ◌||◌, Option,
  none, some, List, [], ◌∷◌, map, arith, if◌then◌else◌, or_else, ℤ, z_leb, z_min, z_leb-z_min,
  Value, undefined, null, bool, num, str, text_eq, text_eq_iff, Assoc, lookup, insert,
  lookup-insert, In, Unique, or_option,
}
use zero_datafabric.Limits.{
  limit_keys, builtin_trial_limits, num_at, minus_one, is_unlimited, cap_limit, Licence, Sources,
  overlay, unlimited, is_self_hosted, licence_limits, base_limits, cap_at, cap_keys, under_ceiling,
  effective_limits, LimitError, limit_reached, assert_within, assert_licence_within,
}

abbrev pub passes : Option LimitError → Bool
passes none = true
passes (some e) = false

-- Whether a count stays below a limit.
abbrev pub accepts : Option ℤ → ℤ → Bool
accepts limit current = passes (limit_reached "" limit current)

passes-limit_reached :
    (code : String) (limit : Option ℤ) (n : ℤ)
    → passes (limit_reached code limit n) ≡ accepts limit n
passes-limit_reached code none n = refl
passes-limit_reached code (some l) n = ground arith

accepts_bounded : (a n : ℤ) → is_unlimited a ≡ false → accepts (some a) n ≡ not (z_leb a n)
accepts_bounded a n bounded = ground arith

is_unlimited-z_min :
    (a b : ℤ) → is_unlimited a ≡ false → is_unlimited b ≡ false → is_unlimited (z_min a b) ≡ false
is_unlimited-z_min a b p q = elim (Bool-cases (z_leb a b)) [ inl e ↦ rw e p | inr e ↦ rw e q ]

both : {a b c d : Bool} → a ≡ b → c ≡ d → a && c ≡ b && d
both p q = cc

cap_limit-z_min :
    (v c : ℤ) → is_unlimited c ≡ false → is_unlimited v ≡ false → cap_limit v (some c) ≡ z_min v c
unfolding cap_limit
cap_limit-z_min v c e f = rw (e, f) refl

-- A capped limit accepts the counts that both the limit and the ceiling accept.
accepts-cap_limit :
    (v : ℤ) (c : Option ℤ) (n : ℤ)
    → accepts (some (cap_limit v c)) n ≡ accepts (some v) n && accepts c n
unfolding cap_limit
accepts-cap_limit v none n = ground arith
accepts-cap_limit v (some c) n = elim (Bool-cases (is_unlimited c)) [
  | inl e ↦ rw e (ground arith)
  | inr e ↦ elim (Bool-cases (is_unlimited v)) [
    | inl f ↦ rw (e, f) (ground arith)
    | inr f ↦
        ap (λ l. accepts (some l) n) (cap_limit-z_min v c e f)
        ∙ accepts_bounded (z_min v c) n (is_unlimited-z_min v c f e)
        ∙ z_leb-z_min v c n
        ∙ sym (both (accepts_bounded v n f) (accepts_bounded c n e))
  ]
]

abbrev is_listed : String → List String → Bool
is_listed k [] = false
is_listed k (x ∷ xs) = text_eq x k || is_listed k xs

accepts-or_else : (o : Option ℤ) (n : ℤ) → accepts (some (or_else o minus_one)) n ≡ accepts o n
accepts-or_else none n = refl
accepts-or_else (some v) n = refl

accepts-cap_at :
    (c : Option ℤ) (j k : String) (n : ℤ) (base : Assoc ℤ)
    → accepts (lookup k (cap_at c j base)) n ≡ (
        if text_eq j k then accepts (lookup k base) n && accepts c n else accepts (lookup k base) n)
unfolding cap_at
accepts-cap_at none j k n base = ground arith
accepts-cap_at (some c) j k n base =
    ap (λ o. accepts o n)
      (lookup-insert k j (cap_limit (or_else (lookup j base) minus_one) (some c)) base)
    ∙ elim (Bool-cases (text_eq j k)) [
      | inl e ↦
          let same : j ≡ k = (text_eq_iff j k).0 e in
          rw (e, same)
            (accepts-cap_limit (or_else (lookup k base) minus_one) (some c) n
              ∙ both (accepts-or_else (lookup k base) n) refl)
      | inr e ↦ rw e refl
    ]

module _ (ceilings : Assoc Value) (k : String) (n : ℤ) where
  accepts-cap_keys :
      (keys : List String) (base : Assoc ℤ)
      → accepts (lookup k (cap_keys ceilings keys base)) n ≡ (
          if is_listed k keys
          then accepts (lookup k base) n && accepts (num_at k ceilings) n
          else accepts (lookup k base) n)
  unfolding cap_keys
  accepts-cap_keys [] base = refl
  accepts-cap_keys (j ∷ keys) base =
      accepts-cap_keys keys (cap_at (num_at j ceilings) j base) ∙ elim (Bool-cases (text_eq j k)) [
        | inl e ↦
            let same : j ≡ k = (text_eq_iff j k).0 e in
            ground (arith, accepts-cap_at (num_at j ceilings) j k n base)
        | inr e ↦ ground (arith, accepts-cap_at (num_at j ceilings) j k n base)
      ]

In-is_listed : (k : String) (keys : List String) → In k keys → is_listed k keys ≡ true
In-is_listed k [] m = absurd m
In-is_listed k (x ∷ xs) (inl e) = ground (arith, text_eq_iff x k)
In-is_listed k (x ∷ xs) (inr m) = ground (arith, In-is_listed k xs m)

module _ (k : String) (n : ℤ) where
  accepts-under_ceiling :
      (l : Option Licence) (base : Assoc ℤ)
      → In k limit_keys
      → accepts (lookup k (under_ceiling l base)) n
        ≡ accepts (lookup k base) n && passes (assert_licence_within l k n)
  unfolding under_ceiling assert_licence_within num_at lookup
  accepts-under_ceiling none base listed = ground arith
  accepts-under_ceiling (some l) base listed =
      accepts-cap_keys l.limits k n limit_keys base
      ∙ (rw (In-is_listed k limit_keys listed)
          (both refl (sym (passes-limit_reached "LICENSE_LIMIT_REACHED" (num_at k l.limits) n))))

-- For each of the limit keys, a workspace may have a count exactly where both the limits before the
-- ceiling and the installed licence accept it; no plan and no override lifts the licence's ceiling.
pub assert_within-licence :
    (s : Sources) (k : String) (n : ℤ)
    → In k limit_keys
    → passes (assert_within s k n)
      ≡ accepts (lookup k (base_limits s)) n && passes (assert_licence_within s.licence k n)
unfolding assert_within effective_limits
assert_within-licence s k n listed =
    passes-limit_reached "PLAN_LIMIT_REACHED" (lookup k (under_ceiling s.licence (base_limits s))) n
    ∙ accepts-under_ceiling k n s.licence (base_limits s) listed

lookup-overlay :
    (k : String) (base : Assoc ℤ) (entries : Assoc Value)
    → Unique entries
    → lookup k (overlay base entries) ≡ or_option (num_at k entries) (lookup k base)
unfolding overlay num_at lookup
lookup-overlay k base [] u = refl
lookup-overlay k base ((j, num m) ∷ entries) (absent, u) =
    ground (
      arith,
      lookup-overlay k (insert j m base) entries u,
      lookup-insert k j m base,
      text_eq_iff j k,
    )
lookup-overlay k base ((j, undefined) ∷ entries) (absent, u) =
    ground (arith, lookup-overlay k base entries u, text_eq_iff j k)
lookup-overlay k base ((j, null) ∷ entries) (absent, u) =
    ground (arith, lookup-overlay k base entries u, text_eq_iff j k)
lookup-overlay k base ((j, bool b) ∷ entries) (absent, u) =
    ground (arith, lookup-overlay k base entries u, text_eq_iff j k)
lookup-overlay k base ((j, str t) ∷ entries) (absent, u) =
    ground (arith, lookup-overlay k base entries u, text_eq_iff j k)

lookup-constant :
    (k : String) (keys : List String)
    → In k keys
    → lookup k (map (λ j. (j, minus_one)) keys) ≡ some minus_one
unfolding lookup
lookup-constant k [] m = absurd m
lookup-constant k (j ∷ keys) (inl e) = ground (arith, text_eq_iff j k)
lookup-constant k (j ∷ keys) (inr m) = ground (arith, lookup-constant k keys m)

lookup-overlay_given :
    (k : String) (base : Assoc ℤ) (entries : Assoc Value) (given : Option ℤ)
    → Unique entries
    → lookup k base ≡ given
    → lookup k (overlay base entries) ≡ or_option (num_at k entries) given
lookup-overlay_given k base entries given u e =
    lookup-overlay k base entries u ∙ ap (or_option (num_at k entries)) e

-- The value of a key, first one given: the workspace's override (where plan limits are on or the
-- licence is a self-hosted one), then the licence's limit or "unlimited" (self-hosted), "unlimited"
-- (plan limits off), or the plan's limit and the built-in trial's.
abbrev pub first_given : Sources → String → Option ℤ
first_given s k =
    let self_hosted = is_self_hosted s.licence in
    let unset =
      if self_hosted
      then or_option (num_at k (licence_limits s.licence)) (some minus_one)
      else if not s.plan_limits_enabled
      then some minus_one
      else or_option (num_at k s.plan.limits) (lookup k builtin_trial_limits) in
    if s.plan_limits_enabled || self_hosted then or_option (num_at k s.overrides) unset else unset

-- Before the ceiling, the limit under one of the limit keys is the first one given: by the override
-- of the workspace where these count, by a self-hosted licence, by the plan, by the built-in trial;
-- with the switch for plan limits off it is "unlimited". No object gives a key twice.
pub base_limits_lem :
    (s : Sources) (k : String)
    → Unique s.overrides
    → Unique s.plan.limits
    → Unique (licence_limits s.licence)
    → In k limit_keys
    → lookup k (base_limits s) ≡ first_given s k
unfolding base_limits
base_limits_lem s k u v w listed =
    let licence = licence_limits s.licence in
    let licensed =
      lookup-overlay_given k unlimited licence (some minus_one) w
        (lookup-constant k limit_keys listed) in
    let licensed_own =
      lookup-overlay_given k (overlay unlimited licence) s.overrides
        (or_option (num_at k licence) (some minus_one)) u licensed in
    let planned =
      lookup-overlay_given k (overlay builtin_trial_limits s.plan.limits) s.overrides
        (or_option (num_at k s.plan.limits) (lookup k builtin_trial_limits)) u
        (lookup-overlay k builtin_trial_limits s.plan.limits v) in
    elim (Bool-cases s.plan_limits_enabled) [
      | inl on ↦ elim (Bool-cases (is_self_hosted s.licence)) [
        | inl own ↦ rw (on, own) licensed_own
        | inr hub ↦ rw (on, hub) planned
      ]
      | inr off ↦ elim (Bool-cases (is_self_hosted s.licence)) [
        | inl own ↦ rw (off, own) licensed_own
        | inr hub ↦ rw (off, hub) (lookup-constant k limit_keys listed)
      ]
    ]
