-- ===== src/SqlGuard/Tests.antt =====
-- Runs of the guard. (sqlGuard.ts)
use zero_datafabric.Common.{
  trim_left, trim_right, trim, ◌≡◌, ◌≤◌, refl, String, true, false, none, some, List, [], ◌∷◌, size,
  lower, has_prefix, includes, drop_text, pos,
}
use zero_datafabric.NetGuard.Addresses.{split, read_base}
use zero_datafabric.Tenants.{belongs_to_tenant, assert_ident}
use Prim.Native.Char.{Char}
use zero_datafabric.SqlGuard.Lexer.{Token, word, split_while, lex, lexemes, tokenize}
use zero_datafabric.SqlGuard.{
  is_listed, is_forbidden, is_system, is_foreign, is_callable, check_word, check_token,
  check_tokens, GuardOptions, accepted, refused, foreign_schema, unknown_function, statement_word,
  forbidden_sequence, bad_token, assert_safe_expression, assert_safe_select_query,
}
use zero_datafabric.SqlGuard.Guarded.{Guarded, assert_safe_expression-Guarded}
use zero_datafabric.SqlGuard.Paths.{unquoted, written, all_in_quotes, quote_dotted-written}
use zero_datafabric.SqlGuard.Names.{
  is_dotted_ident, quote_parts, quote_dotted, field_to_sql, assert_safe_name, safe_int,
  numeral_value, numeral,
}

-- All of the guard, for tests.
guarding : Unit {0}
unfolding split_while lex lexemes tokenize trim_left trim_right trim is_listed is_forbidden includes
    is_system is_foreign is_callable check_word check_token check_tokens lower has_prefix drop_text
    belongs_to_tenant assert_ident assert_safe_expression assert_safe_select_query split quote_parts
    quote_dotted is_dotted_ident field_to_sql assert_safe_name safe_int numeral_value read_base
guarding = tt

abbrev expression : GuardOptions
expression = record { query = false; tenant_id = none; max_length = none }

sum_as :
    assert_safe_expression expression (some " SUM(a.b) AS total ") ≡ accepted "SUM(a.b) AS total"
unfolding guarding
sum_as = refl

sleep : assert_safe_expression expression (some "dblink(1)") ≡ refused (unknown_function "dblink")
unfolding guarding
sleep = refl

sub_select :
    assert_safe_expression expression (some "(SELECT 1)") ≡ refused (statement_word "SELECT")
unfolding guarding
sub_select = refl

dashes : assert_safe_expression expression (some "a -- b") ≡ refused forbidden_sequence
unfolding guarding
dashes = refl

open_literal : assert_safe_expression expression (some "a = 'b") ≡ refused bad_token
unfolding guarding
open_literal = refl

-- A foreign schema is refused as a word and accepted in quotes.
foreign_word :
    assert_safe_select_query (some "SELECT a FROM tenant_beta.t") "acme"
    ≡ refused (foreign_schema "tenant_beta")
unfolding guarding
foreign_word = refl

foreign_quoted :
    assert_safe_select_query (some "SELECT a FROM \"tenant_beta\".t") "acme"
    ≡ accepted "SELECT a FROM \"tenant_beta\".t"
unfolding guarding
foreign_quoted = refl

quoted_field : field_to_sql none (some "o.amount") ≡ accepted "\"o\".\"amount\""
unfolding guarding
quoted_field = refl

small_limit : safe_int (pos 0) (pos 1000) (numeral " 25 ") ≡ some (pos 25)
unfolding guarding
small_limit = refl

abbrev counted : String
counted = "COUNT(a) > 1"

assert_safe_expression-Guarded_example :
    (trim counted ≡ counted)
    × (size counted ≤ 500)
    × (is_forbidden counted ≡ false)
    × (ts : List Token) × (tokenize counted ≡ some ts)
    × Guarded expression ts
unfolding guarding
assert_safe_expression-Guarded_example =
    assert_safe_expression-Guarded expression counted counted refl

abbrev reading : GuardOptions
reading = record { query = true; tenant_id = some "acme"; max_length = some 20000 }

abbrev read_table : List Token
read_table = record { kind = word; text = "t" } ∷ []

quote_dotted-written_example :
    (quote_dotted "o.amount" ≡ some (written "o.amount"))
    × (split "." (written "o.amount") ≡ all_in_quotes (split "." "o.amount"))
    × (unquoted (written "o.amount") ≡ "o.amount")
unfolding guarding
quote_dotted-written_example = quote_dotted-written "o.amount" refl
