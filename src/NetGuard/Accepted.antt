-- ===== src/NetGuard/Accepted.antt =====
-- What the guard lets through. (net_guard.ts)
use zero_datafabric.Common.{
  ◌≡◌, refl, inl, inr, Bool-cases, String, Bool, true, false, not, ◌&&◌, ◌||◌, Option, none, some,
  List, [], ◌∷◌, arith, if◌then◌else◌, All,
}
use zero_datafabric.NetGuard.Hosts.{ParseIpv6, classify_host, Target, Env, is_hub_target}
use zero_datafabric.NetGuard.Sources.{
  NetGuardError, apply_docker_alias, is_metadata, is_inside, allow_hub, check_target, first_error,
  assert_targets, Resolver, check_addresses, is_literal, check_resolved, assert_resolved,
  assert_source_allowed,
}

module _ (parse_ipv6 : ParseIpv6) (env : Env) (is_platform_admin : Bool) where
  -- A target that a source may name.
  pub record Allowed (t : Target) : Type 0 where
    pub not_metadata : is_metadata (classify_host parse_ipv6 t.host) ≡ false
    pub hub_by_admin :
        not (is_hub_target parse_ipv6 env t) || (is_platform_admin && env.allow_hub_source) ≡ true
    pub inside_if_set :
        not (is_inside (classify_host parse_ipv6 t.host)) || env.allow_private_sources ≡ true

  check_target-Allowed :
      (t : Target) → check_target parse_ipv6 env is_platform_admin t ≡ none → Allowed t
  unfolding check_target
  check_target-Allowed t h = elim (Bool-cases (is_metadata (classify_host parse_ipv6 t.host))) [
    | inl m ↦ absurd (some≢none (rw m at h))
    | inr m ↦
        elim (Bool-cases
          (is_hub_target parse_ipv6 env t && not (allow_hub parse_ipv6 env is_platform_admin))) [
            | inl hub ↦ absurd (some≢none (rw (m, hub) at h))
            | inr hub ↦
                elim (Bool-cases
                  (not env.allow_private_sources && is_inside (classify_host parse_ipv6 t.host))) [
                    | inl p ↦ absurd (some≢none (rw (m, hub, p) at h))
                    | inr p ↦ record {
                      not_metadata = m;
                      hub_by_admin =
                          flip (is_hub_target parse_ipv6 env t)
                            (is_platform_admin && env.allow_hub_source) hub;
                      inside_if_set =
                          swap env.allow_private_sources
                            (is_inside (classify_host parse_ipv6 t.host)) p;
                    }
                  ]
          ]
  ]
    where
      some≢none : {A : Type 0} {a : A} → some a ≡ none → ⊥
      some≢none e = cc

      flip : (a b : Bool) → a && not b ≡ false → not a || b ≡ true
      flip a b e = ground arith

      swap : (a b : Bool) → not a && b ≡ false → not b || a ≡ true
      swap a b e = ground arith

  first_none :
      (e later : Option NetGuardError)
      → first_error parse_ipv6 env is_platform_admin e later ≡ none
      → (e ≡ none) × (later ≡ none)
  first_none none later h = (refl, h)
  first_none (some e) later h = cc

  -- The addresses that a looked-up name of a source may have.
  abbrev pub AllowedAddress : String → Type 0
  AllowedAddress a =
      (is_metadata (classify_host parse_ipv6 a) ≡ false)
      × (not (is_inside (classify_host parse_ipv6 a)) || env.allow_private_sources ≡ true)

  check_addresses-All :
      (addrs : List String)
      → check_addresses parse_ipv6 env is_platform_admin addrs ≡ none
      → All AllowedAddress addrs
  unfolding check_addresses
  check_addresses-All [] h = tt
  check_addresses-All (a ∷ addrs) h = elim (Bool-cases (is_metadata (classify_host parse_ipv6 a))) [
    | inl m ↦ absurd (some≢none (rw m at h))
    | inr m ↦
        elim (Bool-cases
          (not env.allow_private_sources && is_inside (classify_host parse_ipv6 a))) [
            | inl p ↦ absurd (some≢none (rw (m, p) at h))
            | inr p ↦ (
              (m, swap env.allow_private_sources (is_inside (classify_host parse_ipv6 a)) p),
              check_addresses-All addrs (rw (m, p) at h),
            )
          ]
  ]
    where
      some≢none : {A : Type 0} {a : A} → some a ≡ none → ⊥
      some≢none e = cc

      swap : (a b : Bool) → not a && b ≡ false → not b || a ≡ true
      swap a b e = ground arith

  -- The addresses that the guard looks at: those of a name that is no literal and can be looked up.
  abbrev pub looked_up :
      (String → Bool) → Resolver parse_ipv6 env is_platform_admin → String → List String
  looked_up is_ip resolver h =
      if is_literal parse_ipv6 env is_platform_admin is_ip h
      then []
      else elim (resolver h) [ none ↦ [] | some addrs ↦ addrs ]

  pub record Checked (is_ip : String → Bool) (resolver : Resolver parse_ipv6 env is_platform_admin)
      (t : Target) : Type 0 where
    pub named : Allowed t
    pub aliased : Allowed (apply_docker_alias t)
    pub addressed : All AllowedAddress (looked_up is_ip resolver t.host)

  resolved-All :
      (is_ip : String → Bool) (resolver : Resolver parse_ipv6 env is_platform_admin)
      (hub_host : String) (t : Target) (o : Option (List String))
      → check_resolved parse_ipv6 env is_platform_admin resolver hub_host t o ≡ none
      → All AllowedAddress (elim o [ none ↦ [] | some addrs ↦ addrs ])
  resolved-All is_ip resolver hub_host t none h = tt
  resolved-All is_ip resolver hub_host t (some addrs) h =
      check_addresses-All addrs
        (first_none (check_addresses parse_ipv6 env is_platform_admin addrs) _ h).0

  -- The targets of a source that the guard accepts: none of them, none of their docker aliases and
  -- none of the addresses that it looked up for them is a link-local or cloud-metadata address; a
  -- target or alias is the hub database only for a platform administrator with ALLOW_HUB_SOURCE;
  -- and a target, alias or address is a loopback or private one only where these are not switched
  -- off.
  pub assert_source_allowed-Checked :
      (is_ip : String → Bool) (resolver : Resolver parse_ipv6 env is_platform_admin)
      (hub_host : String) (ts : List Target)
      → assert_source_allowed parse_ipv6 env is_platform_admin is_ip resolver hub_host ts ≡ none
      → All (Checked is_ip resolver) ts
  unfolding assert_source_allowed assert_targets assert_resolved
  assert_source_allowed-Checked is_ip resolver hub_host ts h =
      let (a, b) = first_none (assert_targets parse_ipv6 env is_platform_admin ts) _ h in go ts a b
    where
      go :
          (ts : List Target)
          → assert_targets parse_ipv6 env is_platform_admin ts ≡ none
          → assert_resolved parse_ipv6 env is_platform_admin is_ip resolver hub_host ts ≡ none
          → All (Checked is_ip resolver) ts
      go [] a b = tt
      go (t ∷ ts) a b =
          let (p, q) = first_none (check_target parse_ipv6 env is_platform_admin t) _ a in
          let (r, s) =
            first_none (check_target parse_ipv6 env is_platform_admin (apply_docker_alias t)) _ q in
          let (u, v) =
            first_none _
              (assert_resolved parse_ipv6 env is_platform_admin is_ip resolver hub_host ts) b in
          (
            record {
              named = check_target-Allowed t p;
              aliased = check_target-Allowed (apply_docker_alias t) r;
              addressed =
                  elim (Bool-cases (is_literal parse_ipv6 env is_platform_admin is_ip t.host)) [
                    | inl lit ↦ rw lit tt
                    | inr name ↦
                        rw name
                          (resolved-All is_ip resolver hub_host t (resolver t.host) (rw name at u))
                  ];
            },
            go ts s v,
          )
