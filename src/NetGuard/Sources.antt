-- ===== src/NetGuard/Sources.antt =====
-- backend/src/modules/integration/net_guard.ts: the check of a source's targets, before and after
-- DNS.
use zero_datafabric.Common.{
  String, Bool, true, false, not, ◌&&◌, ◌||◌, Option, none, some, List, [], ◌∷◌, any, if◌then◌else◌,
  ◌==◌, lower,
}
use zero_datafabric.NetGuard.Addresses.{parse_ipv4_loose, is_empty}
use zero_datafabric.NetGuard.Hosts.{
  HostClass, metadata, loopback, private_host, is_one_of, strip_brackets, ParseIpv6, classify_host,
  Target, Env, is_hub_target,
}

pub data NetGuardError : Type 0 where
  ssrf_blocked hub_source_not_allowed private_target_blocked invalid_webhook_url : NetGuardError
  webhook_unresolvable : NetGuardError

unfoldable pub apply_docker_alias : Target → Target
unfolding lower
apply_docker_alias t =
    let is_local = is_one_of ("localhost" ∷ "127.0.0.1" ∷ []) (lower t.host) in
    elim (t.port) [
      | none ↦ t
      | some p ↦
          if is_local && p == 5436
          then record { host = "datafabric-remote"; port = some 5432 }
          else if is_local && p == 5434
          then record { host = "datafabric-hub"; port = some 5432 }
          else t
    ]

abbrev pub is_metadata : HostClass → Bool
is_metadata metadata = true
is_metadata _ = false

abbrev pub is_inside : HostClass → Bool
is_inside loopback = true
is_inside private_host = true
is_inside _ = false

module _ (parse_ipv6 : ParseIpv6) (env : Env) (is_platform_admin : Bool) where
  abbrev pub allow_hub : Bool
  allow_hub = is_platform_admin && env.allow_hub_source

  -- The three tests of one target; `none` where it passes.
  unfoldable pub check_target : Target → Option NetGuardError
  unfolding classify_host is_hub_target
  check_target t =
      let cls = classify_host parse_ipv6 t.host in
      if is_metadata cls
      then some ssrf_blocked
      else if is_hub_target parse_ipv6 env t && not allow_hub
      then some hub_source_not_allowed
      else if not env.allow_private_sources && is_inside cls
      then some private_target_blocked
      else none

  abbrev pub first_error : Option NetGuardError → Option NetGuardError → Option NetGuardError
  first_error (some e) later = some e
  first_error none later = later

  -- Each target and its docker-aliased form, in order, up to the first error.
  unfoldable pub assert_targets : List Target → Option NetGuardError
  unfolding check_target apply_docker_alias
  assert_targets [] = none
  assert_targets (t ∷ ts) =
      first_error (check_target t)
        (first_error (check_target (apply_docker_alias t)) (assert_targets ts))

  -- The addresses of a name, or `none` where the lookup fails.
  abbrev pub Resolver : Type 0
  Resolver = String → Option (List String)

  unfoldable pub check_addresses : List String → Option NetGuardError
  unfolding classify_host
  check_addresses [] = none
  check_addresses (a ∷ addrs) =
      let cls = classify_host parse_ipv6 a in
      let rest = check_addresses addrs in
      if is_metadata cls
      then some ssrf_blocked
      else if not env.allow_private_sources && is_inside cls
      then some private_target_blocked
      else rest

  abbrev pub is_some : {A : Type 0} → Option A → Bool
  is_some none = false
  is_some (some a) = true

  -- `net.isIP(...) || parseIPv4Loose(...)`: a literal is not looked up.
  abbrev pub is_literal : (String → Bool) → String → Bool
  is_literal is_ip h = is_ip (strip_brackets h) || is_some (parse_ipv4_loose h)

  abbrev pub addresses_or : Option (List String) → List String
  addresses_or none = []
  addresses_or (some addrs) = addrs

  abbrev pub shares : List String → List String → Bool
  shares addrs bs = any (λ a. is_one_of bs a) addrs

  -- The addresses of the hub, where a target with a port shares one.
  abbrev pub check_hub : Resolver → String → Target → List String → Option NetGuardError
  check_hub resolver hub_host t addrs = elim (t.port) [
    | none ↦ none
    | some p ↦
        if not allow_hub
          && not (is_empty hub_host)
          && shares addrs (addresses_or (resolver hub_host))
          && is_hub_target parse_ipv6 env (record { host = hub_host; port = some p })
        then some hub_source_not_allowed
        else none
  ]

  abbrev pub check_resolved :
      Resolver → String → Target → Option (List String) → Option NetGuardError
  check_resolved resolver hub_host t none = none
  check_resolved resolver hub_host t (some addrs) =
      first_error (check_addresses addrs) (check_hub resolver hub_host t addrs)

  unfoldable pub assert_resolved :
      (String → Bool) → Resolver → String → List Target → Option NetGuardError
  unfolding check_addresses is_hub_target strip_brackets parse_ipv4_loose
  assert_resolved is_ip resolver hub_host [] = none
  assert_resolved is_ip resolver hub_host (t ∷ ts) =
      first_error
        (if is_literal is_ip t.host
          then none
          else check_resolved resolver hub_host t (resolver t.host))
        (assert_resolved is_ip resolver hub_host ts)

  -- `assertSourceAllowed`; `hub_host` is the host of the hub's settings, or empty.
  unfoldable pub assert_source_allowed :
      (String → Bool) → Resolver → String → List Target → Option NetGuardError
  unfolding assert_targets assert_resolved
  assert_source_allowed is_ip resolver hub_host ts =
      first_error (assert_targets ts) (assert_resolved is_ip resolver hub_host ts)
