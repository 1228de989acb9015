-- ===== src/SqlGuard.antt =====
-- backend/src/utils/sqlGuard.ts: the grammar that caller-supplied SQL fragments have to pass.
pub mod Lexer
pub mod Spelling
pub mod Words
pub mod Guarded
pub mod Quoting
pub mod Names
pub mod Paths
mod Tests
use zero_datafabric.Common.{
  trim, ℕ, zero, suc, ◌+◌, ◌-◌, String, Bool, true, false, not, ◌&&◌, ◌||◌, Option, none, some,
  List, [], ◌∷◌, if◌then◌else◌, ◌==◌, leb, ltb, length, any, all, size, concat, has_prefix,
  includes, lower, text_eq, or_else, drop_text, map, ℤ, z_leb,
}
use zero_datafabric.NetGuard.Addresses.{split, only}
use zero_datafabric.Tenants.{
  belongs_to_tenant, assert_ident, is_ident, all_word, is_letter, is_word, quoted,
}
use zero_datafabric.SqlGuard.Lexer.{
  Token, TokenKind, str, qid, num, word, op, punct, blank, tokenize,
}
use Prim.Native.Char.{Char, code}

pub data GuardError : Type 0 where
  not_a_string empty_text too_long forbidden_sequence bad_token too_complex not_a_select too_deep
        unbalanced quoted_call :
      GuardError
  blocked_keyword foreign_schema unknown_function statement_word invalid_name : String → GuardError

abbrev pub functions : List String
functions =
    "count" ∷ "sum" ∷ "avg" ∷ "min" ∷ "max" ∷ "stddev" ∷ "variance" ∷ "array_agg" ∷ "string_agg"
    ∷ "bool_and" ∷ "bool_or" ∷ "row_number" ∷ "rank" ∷ "dense_rank" ∷ "percent_rank" ∷ "cume_dist"
    ∷ "ntile" ∷ "lag" ∷ "lead" ∷ "first_value" ∷ "last_value" ∷ "nth_value" ∷ "coalesce" ∷ "nullif"
    ∷ "greatest" ∷ "least" ∷ "lower" ∷ "upper" ∷ "length" ∷ "char_length" ∷ "trim" ∷ "ltrim"
    ∷ "rtrim" ∷ "btrim" ∷ "substr" ∷ "substring" ∷ "concat" ∷ "concat_ws" ∷ "replace" ∷ "left"
    ∷ "right" ∷ "abs" ∷ "round" ∷ "ceil" ∷ "ceiling" ∷ "floor" ∷ "power" ∷ "sqrt" ∷ "mod" ∷ "sign"
    ∷ "date_trunc" ∷ "date_part" ∷ "to_char" ∷ "to_date" ∷ "to_timestamp" ∷ "now" ∷ "age" ∷ "cast"
    ∷ "extract" ∷ "initcap" ∷ "md5" ∷ "varchar" ∷ "char" ∷ "character" ∷ "numeric" ∷ "decimal" ∷ []

abbrev pub keywords : List String
keywords =
    "and" ∷ "or" ∷ "not" ∷ "is" ∷ "null" ∷ "in" ∷ "like" ∷ "ilike" ∷ "between" ∷ "as" ∷ "asc"
    ∷ "desc" ∷ "distinct" ∷ "case" ∷ "when" ∷ "then" ∷ "else" ∷ "end" ∷ "true" ∷ "false" ∷ "over"
    ∷ "partition" ∷ "by" ∷ "order" ∷ "rows" ∷ "range" ∷ "unbounded" ∷ "preceding" ∷ "following"
    ∷ "current" ∷ "row" ∷ "nulls" ∷ "first" ∷ "last" ∷ "filter" ∷ []

abbrev pub statement_words : List String
statement_words =
    "select" ∷ "from" ∷ "where" ∷ "union" ∷ "intersect" ∷ "except" ∷ "join" ∷ "inner" ∷ "outer"
    ∷ "cross" ∷ "lateral" ∷ "using" ∷ "on" ∷ "group" ∷ "having" ∷ "limit" ∷ "offset" ∷ "fetch"
    ∷ "with" ∷ "recursive" ∷ "all" ∷ "any" ∷ "some" ∷ "exists" ∷ "values" ∷ []

abbrev pub always_blocked : List String
always_blocked =
    "insert" ∷ "update" ∷ "delete" ∷ "drop" ∷ "alter" ∷ "create" ∷ "truncate" ∷ "grant" ∷ "revoke"
    ∷ "call" ∷ "execute" ∷ "exec" ∷ "copy" ∷ "set" ∷ "reset" ∷ "into" ∷ "returning" ∷ "do" ∷ "begin"
    ∷ "commit" ∷ "rollback" ∷ "savepoint" ∷ "vacuum" ∷ "analyze" ∷ "analyse" ∷ "listen" ∷ "notify"
    ∷ "unlisten" ∷ "prepare" ∷ "deallocate" ∷ "declare" ∷ "move" ∷ "lock" ∷ "comment" ∷ "security"
    ∷ "load" ∷ "refresh" ∷ "reindex" ∷ "cluster" ∷ "discard" ∷ "import" ∷ "abort" ∷ "checkpoint"
    ∷ "explain" ∷ "show" ∷ "language" ∷ "function" ∷ "procedure" ∷ "trigger" ∷ "extension" ∷ "owner"
    ∷ "role" ∷ "user" ∷ "session_user" ∷ "current_user" ∷ "pg_sleep" ∷ []

abbrev pub query_keywords : List String
query_keywords =
    "select" ∷ "from" ∷ "where" ∷ "union" ∷ "intersect" ∷ "except" ∷ "join" ∷ "inner" ∷ "outer"
    ∷ "left" ∷ "right" ∷ "full" ∷ "cross" ∷ "using" ∷ "on" ∷ "group" ∷ "having" ∷ "limit" ∷ "offset"
    ∷ "with" ∷ "recursive" ∷ "all" ∷ "distinct" ∷ []

unfoldable pub is_listed : List String → String → Bool
is_listed [] w = false
is_listed (x ∷ xs) w = text_eq x w || is_listed xs w

-- `FORBIDDEN_RAW`
abbrev pub forbidden_texts : List String
forbidden_texts = ";" ∷ "--" ∷ "/*" ∷ "*/" ∷ "\\" ∷ "$" ∷ "`" ∷ []

abbrev pub has_nul_char : String → Bool
has_nul_char String.[] = false
has_nul_char (String.◌∷◌ c s) = code c == 0 || has_nul_char s

unfoldable pub is_forbidden : String → Bool
unfolding includes
is_forbidden s = any (λ t. includes t s) forbidden_texts || has_nul_char s

abbrev pub name_chars : String
name_chars = "abcdefghijklmnopqrstuvwxyz0123456789_"

abbrev pub begins_system : String → String → Bool
begins_system p s = has_prefix p s && only name_chars (drop_text (size p) s)

-- `SYSTEM_QUALIFIERS`, without regard to case
unfoldable pub is_system : String → Bool
unfolding is_listed has_prefix drop_text lower
is_system t =
    let s = lower t in
    is_listed
      ("public" ∷ "information_schema" ∷ "metadata_catalog" ∷ "admin_functions" ∷ "auth" ∷ "cron"
        ∷ [])
      s
    || begins_system "pg_" s
    || begins_system "fabric_" s
    || begins_system "citus" s

pub record GuardOptions : Type 0 where
  pub query : Bool
  pub tenant_id : Option String
  pub max_length : Option ℕ

abbrev pub is_own : Option String → String → Bool
is_own none t = false
is_own (some tenant) t = ltb 0 (size tenant) && belongs_to_tenant t tenant

-- Whether a word may stand before a dot.
unfoldable pub is_foreign : Option String → String → Bool
unfolding is_system has_prefix lower belongs_to_tenant
is_foreign tenant t = is_system t || (has_prefix "tenant_" (lower t) && not (is_own tenant t))

abbrev pub is_punct : String → Option Token → Bool
is_punct s none = false
is_punct s (some t) = elim (t.kind) [ punct ↦ text_eq t.text s | _ ↦ false ]

-- Whether a word may stand before an opening parenthesis.
unfoldable pub is_callable : Bool → String → Bool
unfolding is_listed
is_callable query w =
    is_listed keywords w || (query && is_listed query_keywords w) || is_listed functions w

-- The loop's body for a word, from its neighbours; `none` lets it pass.
unfoldable pub check_word : GuardOptions → Option Token → String → Option Token → Option GuardError
unfolding is_listed is_foreign is_callable lower
check_word o prev t next =
    let w = lower t in
    if is_punct "." prev
    then none
    else if is_listed always_blocked w
    then some (blocked_keyword t)
    else if is_punct "." next && is_foreign o.tenant_id t
    then some (foreign_schema t)
    else if is_punct "(" next
    then (if is_callable o.query w then none else some (unknown_function t))
    else if not o.query && is_listed statement_words w
    then some (statement_word t)
    else none

-- What a round leaves: the depth of the parentheses, or an error.
pub data Walked : Type 0 where
  at_depth : ℕ → Walked
  stopped : GuardError → Walked

abbrev pub deeper : ℕ → Walked
deeper d = if ltb 12 (suc d) then stopped too_deep else at_depth (suc d)

abbrev pub shallower : ℕ → Walked
shallower zero = stopped unbalanced
shallower (suc d) = at_depth d

abbrev pub stop_or : Option GuardError → ℕ → Walked
stop_or none d = at_depth d
stop_or (some e) d = stopped e

-- The loop's body.
unfoldable pub check_token : GuardOptions → Option Token → Token → Option Token → ℕ → Walked
unfolding check_word
check_token o prev t next d = elim (t.kind) [
  | punct ↦
      if text_eq t.text "("
      then deeper d
      else if text_eq t.text ")"
      then shallower d
      else at_depth d
  | qid ↦ if is_punct "(" next then stopped quoted_call else at_depth d
  | word ↦ stop_or (check_word o prev t.text next) d
  | _ ↦ at_depth d
]

abbrev pub first_of : List Token → Option Token
first_of [] = none
first_of (t ∷ ts) = some t

unfoldable pub check_tokens : GuardOptions → Option Token → List Token → ℕ → Walked
unfolding check_token
check_tokens o prev [] d = at_depth d
check_tokens o prev (t ∷ ts) d = elim (check_token o prev t (first_of ts) d) [
  | stopped e ↦ stopped e
  | at_depth d' ↦ check_tokens o (some t) ts d'
]

pub data Guard : Type 0 where
  accepted : String → Guard
  refused : GuardError → Guard

-- `/^(select|with)$/i`
abbrev pub is_select : Option Token → Bool
is_select none = false
is_select (some t) = elim (t.kind) [
  | word ↦ is_listed ("select" ∷ "with" ∷ []) (lower t.text)
  | _ ↦ false
]

abbrev pub closed : String → Walked → Guard
closed src (stopped e) = refused e
closed src (at_depth zero) = accepted src
closed src (at_depth (suc d)) = refused unbalanced

abbrev pub checked_tokens : GuardOptions → String → Option (List Token) → Guard
checked_tokens o src none = refused bad_token
checked_tokens o src (some ts) =
    if ltb (if o.query then 2000 else 200) (length ts)
    then refused too_complex
    else if o.query && not (is_select (first_of ts))
    then refused not_a_select
    else closed src (check_tokens o none ts 0)

abbrev pub checked_text : GuardOptions → String → Guard
checked_text o src =
    if size src == 0
    then refused empty_text
    else if ltb (or_else o.max_length 500) (size src)
    then refused too_long
    else if is_forbidden src
    then refused forbidden_sequence
    else checked_tokens o src (tokenize src)

-- `none` is a value that is no string.
unfoldable pub assert_safe_expression : GuardOptions → Option String → Guard
unfolding check_tokens is_forbidden tokenize trim is_listed lower
assert_safe_expression o none = refused not_a_string
assert_safe_expression o (some expr) = checked_text o (trim expr)

unfoldable pub assert_safe_select_query : Option String → String → Guard
unfolding assert_safe_expression
assert_safe_select_query sql tenant =
    assert_safe_expression
      (record { query = true; tenant_id = some tenant; max_length = some 20000 }) sql
