-- ===== src/NetGuard/Hosts.antt =====
-- backend/src/modules/integration/net_guard.ts: classes of hosts, and the hub database.
use zero_datafabric.Common.{
  trim, ℕ, zero, suc, ◌-◌, ◌/◌, ◌%◌, String, Bool, true, false, ◌&&◌, ◌||◌, Option, none, some,
  List, [], ◌∷◌, ◌++◌, all, if◌then◌else◌, ◌==◌, leb, any, size, concat, drop_text, has_prefix,
  lower, text_eq, print_base, or_else,
}
use zero_datafabric.NetGuard.Addresses.{Octets, parse_ipv4_loose, is_empty}

pub data HostClass : Type 0 where
  metadata loopback private_host public_host : HostClass

abbrev pub is_one_of : List String → String → Bool
is_one_of names h = any (λ n. text_eq n h) names

abbrev pub metadata_hosts : List String
metadata_hosts =
    "metadata.google.internal" ∷ "metadata" ∷ "metadata.goog" ∷ "instance-data"
    ∷ "instance-data.ec2.internal" ∷ "kubernetes.default" ∷ "kubernetes.default.svc" ∷ []

abbrev pub hub_aliases : List String
hub_aliases = "db" ∷ "datafabric-hub" ∷ "datafabric_hub" ∷ []

abbrev pub local_names : List String
local_names = "localhost" ∷ "localhost.localdomain" ∷ "ip6-localhost" ∷ "ip6-loopback" ∷ []

-- `s.endsWith(suffix)`
unfoldable pub has_suffix : String → String → Bool
unfolding drop_text
has_suffix suffix s =
    leb (size suffix) (size s) && text_eq (drop_text (size s - size suffix) s) suffix

-- The first `n` characters.
unfoldable pub take_text : ℕ → String → String
take_text zero s = String.[]
take_text (suc n) String.[] = String.[]
take_text (suc n) (String.◌∷◌ c s) = String.◌∷◌ c (take_text n s)

unfoldable pub strip_brackets : String → String
unfolding has_prefix has_suffix take_text drop_text
strip_brackets h =
    if has_prefix "[" h && has_suffix "]" h then take_text (size h - 2) (drop_text 1 h) else h

-- `.replace(/\.$/, '')`
unfoldable pub strip_dot : String → String
unfolding has_suffix take_text
strip_dot h = if has_suffix "." h then take_text (size h - 1) h else h

unfoldable pub classify_v4 : Octets → HostClass
classify_v4 o =
    if o.a == 169 && o.b == 254
    then metadata
    else if o.a == 100 && o.b == 100 && o.c == 100 && o.d == 200
    then metadata
    else if o.a == 127 || o.a == 0
    then loopback
    else if o.a == 10
        || (o.a == 172 && leb 16 o.b && leb o.b 31)
        || (o.a == 192 && o.b == 168)
        || (o.a == 100 && leb 64 o.b && leb o.b 127)
    then private_host
    else public_host

abbrev pub all_zero : List ℕ → Bool
all_zero ns = all (λ n. n == 0) ns

-- The class of eight hextets.
unfoldable pub classify_v6 : List ℕ → HostClass
unfolding classify_v4
classify_v6 (g0 ∷ g1 ∷ g2 ∷ g3 ∷ g4 ∷ g5 ∷ g6 ∷ g7 ∷ _) =
    if all_zero (g0 ∷ g1 ∷ g2 ∷ g3 ∷ g4 ∷ g5 ∷ g6 ∷ []) && (g7 == 0 || g7 == 1)
    then loopback
    else if all_zero (g0 ∷ g1 ∷ g2 ∷ g3 ∷ g4 ∷ []) && g5 == 65535
    then classify_v4 (record { a = g6 / 256; b = g6 % 256; c = g7 / 256; d = g7 % 256 })
    else if g0 / 64 == 1018
    then metadata
    else if g0 == 64768 && g1 == 3778
    then metadata
    else if g0 / 512 == 126
    then private_host
    else public_host
classify_v6 _ = public_host

abbrev pub class_of_v4 : Option Octets → HostClass
class_of_v4 none = public_host
class_of_v4 (some o) = classify_v4 o

abbrev pub class_of_literal : Option (List ℕ) → Option Octets → HostClass
class_of_literal (some v6) v4 = classify_v6 v6
class_of_literal none v4 = class_of_v4 v4

-- `parseIPv6`: the eight hextets of an IPv6 literal.
abbrev pub ParseIpv6 : Type 0
ParseIpv6 = String → Option (List ℕ)

unfoldable pub canonical_name : String → String
unfolding trim lower strip_brackets strip_dot
canonical_name raw = strip_dot (strip_brackets (lower (trim raw)))

unfoldable pub classify_host : ParseIpv6 → String → HostClass
unfolding canonical_name has_suffix classify_v6 classify_v4 parse_ipv4_loose
classify_host parse_ipv6 raw =
    let host = canonical_name raw in
    if is_empty host
    then loopback
    else if is_one_of metadata_hosts host
    then metadata
    else if is_one_of local_names host || has_suffix ".localhost" host
    then loopback
    else class_of_literal (parse_ipv6 host) (parse_ipv4_loose host)

pub record Target : Type 0 where
  pub host : String
  pub port : Option ℕ

-- The settings that the guard reads: `DB_HOST`, `DB_PORT` where it is a positive integer, host and
-- port of `DATABASE_URL`, and the three switches.
pub record Env : Type 0 where
  pub db_host : Option String
  pub db_port : Option ℕ
  pub database_url : Option (String × ℕ)
  pub allow_hub_source : Bool
  pub allow_private_sources : Bool
  pub allow_private_webhooks : Bool

abbrev pub decimal : ℕ → String
decimal n = print_base "0123456789" 10 4 n

abbrev pub show_octets : Octets → String
show_octets o = concat (decimal o.a) (
    concat "."
      (concat (decimal o.b) (concat "." (concat (decimal o.c) (concat "." (decimal o.d))))))

abbrev pub octets_or : Option Octets → String → String
octets_or none h = h
octets_or (some o) h = show_octets o

-- `v4 ? v4.join('.') : host`, of the canonical name
unfoldable pub canonical_host : String → String
unfolding canonical_name parse_ipv4_loose print_base
canonical_host raw = octets_or (parse_ipv4_loose (canonical_name raw)) (canonical_name raw)

abbrev pub option_list : {A : Type 0} → Option A → List A
option_list none = []
option_list (some a) = a ∷ []

abbrev pub url_port : Option (String × ℕ) → List ℕ
url_port none = []
url_port (some (h, p)) = p ∷ []

abbrev pub host_list : Option String → List String
host_list none = []
host_list (some h) = if is_empty h then [] else canonical_host h ∷ []

abbrev pub url_host : Option (String × ℕ) → List String
url_host none = []
url_host (some (h, p)) = host_list (some h)

-- `hubTargets`
unfoldable pub hub_hosts : Env → List String
unfolding canonical_host
hub_hosts env = host_list env.db_host ++ url_host env.database_url

abbrev pub or_default_port : List ℕ → List ℕ
or_default_port [] = 5432 ∷ []
or_default_port (p ∷ ps) = p ∷ ps

unfoldable pub hub_ports : Env → List ℕ
hub_ports env = or_default_port (option_list env.db_port ++ url_port env.database_url)

abbrev pub has_port : List ℕ → ℕ → Bool
has_port ps p = any (λ q. q == p) ps

abbrev pub is_loopback : HostClass → Bool
is_loopback loopback = true
is_loopback _ = false

unfoldable pub is_hub_target : ParseIpv6 → Env → Target → Bool
unfolding canonical_host hub_hosts hub_ports classify_host
is_hub_target parse_ipv6 env t =
    let host = canonical_host t.host in
    let port = or_else t.port 5432 in
    if is_one_of hub_aliases host
    then port == 5432 || has_port (hub_ports env) port
    else if is_loopback (classify_host parse_ipv6 host)
    then has_port (hub_ports env) port
    else if is_one_of (hub_hosts env) host
    then has_port (hub_ports env) port
    else false
