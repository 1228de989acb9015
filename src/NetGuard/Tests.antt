-- ===== src/NetGuard/Tests.antt =====
-- Runs of the guard. (net_guard.ts)
use zero_datafabric.Common.{
  trim, trim_left, trim_right, ◌≡◌, refl, String, true, false, Option, none, some, List, [], ◌∷◌,
  All, lower, drop_text, has_prefix, print_base,
}
use zero_datafabric.NetGuard.Addresses.{
  read_base, split, read_part, read_parts, address_value, octets_of, parse_ipv4_loose,
}
use zero_datafabric.NetGuard.Hosts.{
  metadata, loopback, private_host, has_suffix, take_text, strip_brackets, strip_dot, classify_v4,
  classify_v6, ParseIpv6, canonical_name, classify_host, Target, Env, canonical_host, hub_hosts,
  hub_ports, is_hub_target,
}
use zero_datafabric.NetGuard.Sources.{
  hub_source_not_allowed, private_target_blocked, apply_docker_alias, check_target, assert_targets,
  check_addresses, assert_resolved, assert_source_allowed,
}
use zero_datafabric.NetGuard.Webhooks.{
  Url, refused, check_url, assert_safe_webhook_url, check_webhook_addresses,
  assert_webhook_resolves_safe,
}
use zero_datafabric.NetGuard.Accepted.{Checked, assert_source_allowed-Checked}

-- All of the guard, for tests.
guarding : Unit {0}
unfolding lower drop_text has_prefix print_base read_base split read_part read_parts address_value
    octets_of trim trim_left trim_right parse_ipv4_loose has_suffix take_text strip_brackets
    strip_dot classify_v4 classify_v6 canonical_name classify_host canonical_host hub_hosts
    hub_ports is_hub_target apply_docker_alias check_target assert_targets check_addresses
    assert_resolved assert_source_allowed check_url assert_safe_webhook_url check_webhook_addresses
    assert_webhook_resolves_safe
guarding = tt

abbrev no_ipv6 : ParseIpv6
no_ipv6 h = none

abbrev env : Env
env = record {
  db_host = some "hub.internal";
  db_port = some 5432;
  database_url = none;
  allow_hub_source = true;
  allow_private_sources = true;
  allow_private_webhooks = false;
}

hex_metadata : classify_host no_ipv6 "0xA9FEA9FE" ≡ metadata
unfolding guarding
hex_metadata = refl

octal_loopback : classify_host no_ipv6 "0177.1" ≡ loopback
unfolding guarding
octal_loopback = refl

dotted_private : classify_host no_ipv6 "172.16.0.9." ≡ private_host
unfolding guarding
dotted_private = refl

hub_by_alias :
    assert_targets no_ipv6 env false (record { host = "localhost"; port = some 5434 } ∷ [])
    ≡ some hub_source_not_allowed
unfolding guarding
hub_by_alias = refl

abbrev url : Url
url = record {
  protocol = "https:";
  username = "";
  password = "";
  hostname = "10.0.0.7";
  href = "https://10.0.0.7/";
}

private_webhook :
    assert_safe_webhook_url no_ipv6 (λ s. some url) env "https://10.0.0.7/"
    ≡ refused private_target_blocked
unfolding guarding
private_webhook = refl

abbrev shop : Target
shop = record { host = "shop.example"; port = some 3306 }

abbrev names : String → Option (List String)
names h = some ("93.184.216.34" ∷ [])

assert_source_allowed-Checked_example :
    All (Checked no_ipv6 env false (λ h. false) names) (shop ∷ [])
unfolding guarding
assert_source_allowed-Checked_example =
    assert_source_allowed-Checked no_ipv6 env false (λ h. false) names "" (shop ∷ []) refl
