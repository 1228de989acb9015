-- ===== src/NetGuard/Webhooks.antt =====
-- backend/src/modules/integration/net_guard.ts: the URL of a webhook, when it is set and when it is
-- called.
use zero_datafabric.Common.{
  trim, String, Bool, true, false, not, ◌&&◌, ◌||◌, Option, none, some, List, [], ◌∷◌,
  if◌then◌else◌, ltb, size, lower, ◌==◌, leb,
}
use Prim.Native.Char.{code}
use zero_datafabric.NetGuard.Addresses.{parse_ipv4_loose, is_empty}
use zero_datafabric.NetGuard.Hosts.{
  is_one_of, hub_aliases, strip_brackets, strip_dot, ParseIpv6, classify_host, Env, hub_hosts,
}
use zero_datafabric.NetGuard.Sources.{
  NetGuardError, ssrf_blocked, private_target_blocked, invalid_webhook_url, webhook_unresolvable,
  is_metadata, is_inside,
}

-- What `new URL` reads.
pub record Url : Type 0 where
  pub protocol : String
  pub username : String
  pub password : String
  pub hostname : String
  pub href : String

-- `/[\u0000- \u007f\\]/`
abbrev pub is_illegal : String → Bool
is_illegal String.[] = false
is_illegal (String.◌∷◌ c s) = leb (code c) 32 || code c == 127 || code c == 92 || is_illegal s

pub data Checked : Type 0 where
  safe : String → Checked
  refused : NetGuardError → Checked

module _ (parse_ipv6 : ParseIpv6) (parse_url : String → Option Url) (env : Env) where
  abbrev pub inner_host : Url → String
  inner_host u = strip_dot (strip_brackets u.hostname)

  unfoldable pub check_url : Url → Checked
  unfolding classify_host strip_dot strip_brackets lower hub_hosts
  check_url u =
      let cls = classify_host parse_ipv6 (inner_host u) in
      if not (is_one_of ("http:" ∷ "https:" ∷ []) u.protocol)
      then refused invalid_webhook_url
      else if not (is_empty u.username) || not (is_empty u.password)
      then refused invalid_webhook_url
      else if is_metadata cls
      then refused ssrf_blocked
      else if not env.allow_private_webhooks && is_inside cls
      then refused private_target_blocked
      else if not env.allow_private_webhooks
          && (is_one_of hub_aliases (lower (inner_host u))
              || is_one_of (hub_hosts env) (lower (inner_host u)))
      then refused private_target_blocked
      else safe u.href

  abbrev pub checked : Option Url → Checked
  checked none = refused invalid_webhook_url
  checked (some u) = check_url u

  unfoldable pub assert_safe_webhook_url : String → Checked
  unfolding check_url trim
  assert_safe_webhook_url raw =
      if is_empty (trim raw) || ltb 2048 (size raw) || is_illegal (trim raw)
      then refused invalid_webhook_url
      else checked (parse_url (trim raw))

  unfoldable pub check_webhook_addresses : List String → Option NetGuardError
  unfolding classify_host
  check_webhook_addresses [] = none
  check_webhook_addresses (a ∷ addrs) =
      let cls = classify_host parse_ipv6 a in
      let rest = check_webhook_addresses addrs in
      if is_metadata cls
      then some ssrf_blocked
      else if not env.allow_private_webhooks && is_inside cls
      then some private_target_blocked
      else rest

  abbrev pub resolved : Option (List String) → Option NetGuardError
  resolved none = some webhook_unresolvable
  resolved (some addrs) = check_webhook_addresses addrs

  abbrev pub is_some : {A : Type 0} → Option A → Bool
  is_some none = false
  is_some (some a) = true

  abbrev pub resolve_host :
      (String → Bool) → (String → Option (List String)) → Option Url → Option NetGuardError
  resolve_host is_ip resolver none = some invalid_webhook_url
  resolve_host is_ip resolver (some u) =
      let host = strip_brackets u.hostname in
      if is_ip host || is_some (parse_ipv4_loose host) then none else resolved (resolver host)

  -- `assertWebhookResolvesSafe`; `none` where nothing is thrown.
  unfoldable pub assert_webhook_resolves_safe :
      (String → Bool) → (String → Option (List String)) → String → Option NetGuardError
  unfolding assert_safe_webhook_url check_webhook_addresses parse_ipv4_loose
  assert_webhook_resolves_safe is_ip resolver url = elim (assert_safe_webhook_url url) [
    | refused e ↦ some e
    | safe href ↦ resolve_host is_ip resolver (parse_url href)
  ]
