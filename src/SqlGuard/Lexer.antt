-- ===== src/SqlGuard/Lexer.antt =====
-- backend/src/utils/sqlGuard.ts: the tokens of an SQL fragment, by the alternatives of TOKEN_RE.
use zero_datafabric.Common.{
  is_space, ℕ, zero, suc, String, Bool, true, false, not, ◌&&◌, ◌||◌, Option, none, some, List, [],
  ◌∷◌, if◌then◌else◌, ◌==◌, leb, size, concat, keep,
}
use zero_datafabric.NetGuard.Addresses.{is_in}
use zero_datafabric.Tenants.{is_letter, is_digit, is_word}
use Prim.Native.Char.{Char, code}

pub data TokenKind : Type 0 where
  str qid num word op punct blank : TokenKind

pub record Token : Type 0 where
  pub kind : TokenKind
  pub text : String

-- The longest front of a text whose characters pass a test, and the rest.
unfoldable pub split_while : (Char → Bool) → String → String × String
split_while p String.[] = ("", "")
split_while p (String.◌∷◌ c s) =
    let r = split_while p s in if p c then (String.◌∷◌ c r.0, r.1) else ("", String.◌∷◌ c s)

abbrev pub Lexeme : Type 0
Lexeme = Token × String

abbrev pub as_token : TokenKind → String × String → Lexeme
as_token k r = (record { kind = k; text = r.0 }, r.1)

abbrev pub one_char : Char → String
one_char c = String.◌∷◌ c ""

-- The quote, the body, and the closing quote, which has to follow.
abbrev pub closed_by : TokenKind → Char → String × String → Option Lexeme
closed_by k q (body, String.[]) = none
closed_by k q (body, String.◌∷◌ c rest) =
    if code c == code q
    then some (record { kind = k; text = String.◌∷◌ q (concat body (one_char c)) }, rest)
    else none

abbrev pub in_literal : Char → Bool
in_literal c = not (code c == 39) && not (code c == 92) && not (code c == 0)

abbrev pub in_quoted : Char → Bool
in_quoted c = is_word c || is_in c " .-"

-- `"[A-Za-z0-9_ .-]{1,128}"`
abbrev pub quoted_ident : Char → String × String → Option Lexeme
quoted_ident q r = if leb 1 (size r.0) && leb (size r.0) 128 then closed_by qid q r else none

abbrev pub add_fraction : String → String → String × String → Lexeme
add_fraction whole rest (String.[], later) = (record { kind = num; text = whole }, rest)
add_fraction whole rest (String.◌∷◌ d ds, later) =
    (record { kind = num; text = concat whole (concat "." (String.◌∷◌ d ds)) }, later)

-- `\d+(?:\.\d+)?`
abbrev pub number : String × String → Lexeme
number (whole, String.[]) = (record { kind = num; text = whole }, "")
number (whole, String.◌∷◌ c s) =
    if code c == 46
    then add_fraction whole (String.◌∷◌ c s) (split_while is_digit s)
    else (record { kind = num; text = whole }, String.◌∷◌ c s)

-- `<=`, `>=`, `<>`, `!=` and `||`
abbrev pub is_pair : Char → Char → Bool
is_pair c d =
    (code c == 60 && (code d == 61 || code d == 62))
    || (code c == 62 && code d == 61)
    || (code c == 33 && code d == 61)
    || (code c == 124 && code d == 124)

abbrev pub one_sign : Char → String → Option Lexeme
one_sign c s =
    if is_in c "=<>+-*/%"
    then some (record { kind = op; text = one_char c }, s)
    else if is_in c "(),."
    then some (record { kind = punct; text = one_char c }, s)
    else none

abbrev pub sign : Char → String → Option Lexeme
sign c String.[] = one_sign c String.[]
sign c (String.◌∷◌ d s) =
    if is_pair c d
    then some (record { kind = op; text = String.◌∷◌ c (one_char d) }, s)
    else one_sign c (String.◌∷◌ d s)

-- One match of TOKEN_RE at the front of a text that is not empty.
unfoldable pub lex : Char → String → Option Lexeme
unfolding split_while
lex c s =
    if is_space c
    then some (as_token blank (split_while is_space (String.◌∷◌ c s)))
    else if code c == 39
    then closed_by str c (split_while in_literal s)
    else if code c == 34
    then quoted_ident c (split_while in_quoted s)
    else if is_digit c
    then some (number (split_while is_digit (String.◌∷◌ c s)))
    else if is_letter c || code c == 95
    then some (as_token word (split_while is_word (String.◌∷◌ c s)))
    else sign c s

abbrev pub add_lexeme : Token → Option (List Token) → Option (List Token)
add_lexeme t none = none
add_lexeme t (some ts) = some (t ∷ ts)

-- The loop of `tokenize`, blanks included; each round drops a character at least.
unfoldable pub lexemes : ℕ → String → Option (List Token)
unfolding lex
lexemes zero s = none
lexemes (suc fuel) String.[] = some []
lexemes (suc fuel) (String.◌∷◌ c s) = elim (lex c s) [
  | none ↦ none
  | some (t, rest) ↦ add_lexeme t (lexemes fuel rest)
]

abbrev pub is_blank : TokenKind → Bool
is_blank blank = true
is_blank _ = false

abbrev pub without_blanks : Option (List Token) → Option (List Token)
without_blanks none = none
without_blanks (some ts) = some (keep (λ t. not (is_blank t.kind)) ts)

unfoldable pub tokenize : String → Option (List Token)
unfolding lexemes
tokenize s = without_blanks (lexemes (suc (size s)) s)
