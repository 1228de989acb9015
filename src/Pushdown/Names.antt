-- ===== src/Pushdown/Names.antt =====
-- The names in a compiled statement: what they may hold, and how they are quoted. (pushdown.ts)
use zero_datafabric.Common.{String, ◌||◌, List, [], ◌∷◌, map, if◌then◌else◌, text_eq, concat, upper}
use zero_datafabric.NetGuard.Addresses.{split}
use zero_datafabric.Tenants.{is_word}

pub data Dialect : Type 0 where
  postgres mysql snowflake oracle : Dialect

-- `parts.join(separator)`
unfoldable pub join_with : String → List String → String
join_with separator [] = ""
join_with separator (p ∷ []) = p
join_with separator (p ∷ q ∷ ps) = concat p (concat separator (join_with separator (q ∷ ps)))

-- `ident`: the characters outside of `[a-zA-Z0-9_]` are dropped.
unfoldable pub ident : String → String
ident String.[] = String.[]
ident (String.◌∷◌ c s) = let rest = ident s in if is_word c then String.◌∷◌ c rest else rest

unfoldable pub quote_name : Dialect → String → String
unfolding ident upper
quote_name mysql name = concat "`" (concat (ident name) "`")
quote_name oracle name = concat "\"" (concat (upper (ident name)) "\"")
quote_name _ name = concat "\"" (concat (ident name) "\"")

-- `quoteColumn`: a path is quoted part by part.
unfoldable pub quote_column : Dialect → String → String
unfolding quote_name join_with split
quote_column dialect path =
    if text_eq path "" || text_eq path "*"
    then "*"
    else join_with "." (map (quote_name dialect) (split "." path))
