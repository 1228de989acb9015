-- ===== src/NetGuard.antt =====
-- backend/src/modules/integration/net_guard.ts: which outbound targets a source or a webhook may
-- name. The expansion of IPv6 literals, which rests on `net.isIPv6`, the parser of URLs, and DNS are
-- arguments; so are the targets that `extractTargets` finds in a connection config.
pub mod Addresses
pub mod Hosts
pub mod Sources
pub mod Webhooks
pub mod Accepted
mod Tests
