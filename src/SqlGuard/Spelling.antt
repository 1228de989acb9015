-- ===== src/SqlGuard/Spelling.antt =====
-- The text behind the tokens: nothing is skipped but white space. (sqlGuard.ts)
use zero_datafabric.Common.{
  ◌<◌, ◌≡◌, String, true, Option, none, some, List, [], ◌∷◌, arith, ◌==◌, size, concat,
}
use zero_datafabric.SqlGuard.Lexer.{Token, Lexeme, lex}
use text.Mathlib.TextEquality.{Char-path}
use Prim.Native.Char.{Char, code}

abbrev pub spelled : List Token → String
spelled [] = ""
spelled (t ∷ ts) = concat t.text (spelled ts)

-- A lexeme of a text: its front, which is not empty, and the rest.
abbrev pub Splits : String → Option Lexeme → Type 0
Splits s none = Unit
Splits s (some l) = (concat l.0.text l.1 ≡ s) × (0 < size l.0.text)

same_char : (c d : Char) → (code c == code d) ≡ true → c ≡ d
same_char c d h = Char-path c d (ground arith)

-- A text read in full, or one that has no lexeme at the place after some lexemes.
pub data Reading (s : String) : Type 0 where
  whole : (ts : List Token) → spelled ts ≡ s → Reading s
  broken :
      (ts : List Token) (c : Char) (rest : String)
      → concat (spelled ts) (String.◌∷◌ c rest) ≡ s
      → lex c rest ≡ none
      → Reading s

abbrev pub result_of : {s : String} → Reading s → Option (List Token)
result_of (whole ts e) = some ts
result_of (broken ts c rest e no_lexeme) = none
