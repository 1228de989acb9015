-- ===== src/Lib.antt =====
-- The backend of the data fabric (backend/src): what its own code decides between a request or a
-- manifest and the sources that it reads and writes. Drivers, HTTP and the metadata database are
-- outside: what they answer is an argument of the definitions, as a function of the call or of the
-- round of a loop.
--
-- How the parts interact: a request is resolved to a workspace (Tenants); its plan and its licence
-- bound it (Limits) and its settings are validated (Settings); the table's rules let it through or
-- refuse it (Grants); the row policies of its role are merged into its filter, and their masks are
-- applied to what comes back (Policy); a query is planned (Planner); what a source can answer is
-- compiled to its SQL (Pushdown); one with a hierarchy is walked level by level (Recursive); raw
-- expressions of a manifest are checked before they reach SQL (SqlGuard); what several sources
-- counted is joined (Aggregates); a write to an engine without constraints is validated first
-- (Constraints). A manifest is compared with the live or the stored schema (Diff). A copy runs as a
-- queued job (Jobs) that reads its table in pages and saves a checkpoint after each (Copy). A source
-- or a webhook is checked before it is contacted (NetGuard).
--
-- Common: dynamic values, texts, integers, association lists and their lemmas. A JavaScript object
--   is an association list, a missing key gives `undefined`; `===` on values is `value_eq`.
-- Tenants: backend/src/utils/identifiers.ts and backend/src/utils/tenantScope.ts. assertTenantId is
--   `assert_tenant_id`, belongsToTenant `belongs_to_tenant`, assertCreatableTenantId
--   `assert_creatable_tenant_id`, on the ids of the tenants that exist. Tenants/Separation holds its
--   lemmas. Identifiers are read as texts of code points, which for the accepted alphabet are the
--   units that JavaScript counts.
-- Settings: backend/src/modules/tenancy/validate.ts, validateSection as `validate_section`, and the
--   specs of backend/src/modules/tenancy/workspace-settings.service.ts. A text's length is counted in
--   UTF-16 units. Settings/Accepting says which sections are let through.
-- Limits: backend/src/modules/tenancy/limits.resolver.ts, and Limits/Rows the row ceiling of
--   backend/src/modules/tenancy/enforce.ts. The rows that `compute` reads are the record `Sources`.
-- Grants: backend/src/modules/security/grant.service.ts, `decide`, `check` and `enforce`.
-- Policy: backend/src/modules/security/policy.service.ts. resolve, compileFilter and mergeIntoFilter
--   are `resolve`, `compile_filter` and `merge_into_filter`; Policy/Masks has maskRow with its
--   digest in 32-bit arithmetic, the wrap-around written out. Eight hexadecimal digits print any
--   number of 32 bits, and n + 1 decimal digits print n. Policy/Blanking follows filters through the
--   merges with their texts left out.
-- Constraints: backend/src/modules/query-engine/constraint.service.ts. validate is `validate`, on
--   the lookups that the caller supplies; Number and regular expressions are arguments, Number with
--   integers for its results, as all numbers among the dynamic values are.
-- Planner: backend/src/modules/query-engine/planner.ts. Syntax has the query with collectRefs, Legs
--   resolveLegUncached on the answers of the catalog, Planner itself classify, whose refusals are
--   `none`. Mentioned says which tables a query names, in joins, subqueries and common table
--   expressions, Resolved which legs they get, Databases and Strategies what a plan may rely on.
-- Pushdown: backend/src/modules/query-engine/pushdown.ts. toSql is `to_sql`; Names has the quoting,
--   Grouping the aggregates, Conditions the filter, Statement the rest. The array `params` is passed
--   along, so that a placeholder's number is the length of the array at its turn. Shaped and Shapes
--   describe the text without the values, Sessions joins it with the policies, Counts, Balance,
--   Grouped and Whole count its placeholders.
-- Recursive: backend/src/modules/query-engine/recursive.ts, the walk as `levels` on the number of
--   levels that are left: at most 100, the cap of `maxDepth`. The source accepts any number there, so
--   an `Amount` may lie between two integers, and a `Limit` says whether the walk ends at it exactly;
--   below it the truncation flag of the depth depends on that. The fetch is a function of the call's
--   number and its condition.
-- Aggregates: backend/src/modules/query-engine/aggregate.ts: partialSpec, mergePartials and
--   aggregateRaw, as `partial_spec`, `merged_groups` and `raw_groups`. A mean is kept as its sum and
--   its count. Groups and Merging hold the groups of a fold, Raw the single pass over all rows,
--   Agreement compares the two.
-- SqlGuard: backend/src/utils/sqlGuard.ts. tokenize is `tokenize`, assertSafeExpression
--   `assert_safe_expression`. Lexer reads the tokens with one unit of fuel for each character and
--   one more, since every round drops a character; the source matches with a regular expression.
--   Names has the quoting of identifiers, Paths that of dotted paths, Quoting what a quoted name lets
--   through.
-- Diff: backend/src/modules/metadata/diff_engine.ts, with the capabilities of
--   backend/src/modules/metadata/engine_capabilities.ts in Diff/Engines. Catalogs and stored
--   definitions are functions. Loops go over the manifest's lists.
-- Jobs: the queue of backend/src/modules/jobs/copy_job_engine.ts. The table is a list of rows in
--   order of creation, each SQL statement one step on it, and times are numbers that are given.
--   Attempts follows one worker call and a sequence of calls, Races the statements of two workers and
--   of a user that meet on one row.
-- Copy: backend/src/modules/sync/copy_util.ts. The loop of pagedRead has one unit of fuel for each
--   row below the cap and one more, since every round but the last adds a row. The defaults that the
--   environment gives are an argument of `resolve_opts`.
-- NetGuard: backend/src/modules/integration/net_guard.ts. The parser of IPv6 addresses, the one of
--   URLs, DNS and the environment are arguments.
--
-- Not modelled: the SQL and the driver calls themselves, regular expressions over connection
-- strings, HTTP routes, the user interface, the federation of queries, the compilers for expression
-- trees and for MongoDB, the manifest validator, the check of expression trees in
-- backend/src/utils/sqlGuard.ts.
pub mod Common
pub mod Aggregates
pub mod Constraints
pub mod Copy
pub mod Diff
pub mod Grants
pub mod Jobs
pub mod Limits
pub mod NetGuard
pub mod Planner
pub mod Policy
pub mod Pushdown
pub mod Recursive
pub mod Settings
pub mod SqlGuard
pub mod Tenants
