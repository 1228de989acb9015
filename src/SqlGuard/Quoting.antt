-- ===== src/SqlGuard/Quoting.antt =====
-- What the checks make of a schema that stands in quotes. (sqlGuard.ts)
use zero_datafabric.Common.{String}
use zero_datafabric.SqlGuard.Lexer.{Token, word, qid, punct}

abbrev pub word_token : String → Token
word_token s = record { kind = word; text = s }

abbrev pub quoted_token : String → Token
quoted_token s = record { kind = qid; text = s }

abbrev pub dot_token : Token
dot_token = record { kind = punct; text = "." }
