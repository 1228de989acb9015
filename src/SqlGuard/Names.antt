-- ===== src/SqlGuard/Names.antt =====
-- backend/src/utils/sqlGuard.ts: names, dotted paths, fields and integers.
use zero_datafabric.Common.{
  trim, ℕ, zero, suc, String, Bool, true, false, not, ◌&&◌, ◌||◌, Option, none, some, List, [], ◌∷◌,
  if◌then◌else◌, ◌==◌, leb, ltb, length, size, concat, text_eq, ℤ, pos, negsuc, z_leb,
}
use zero_datafabric.NetGuard.Addresses.{split, only, read_base}
use zero_datafabric.Tenants.{is_letter, is_word, all_word, assert_ident, quoted}
use zero_datafabric.SqlGuard.{
  Guard, accepted, refused, not_a_string, invalid_name, assert_safe_expression,
}
use Prim.Native.Char.{Char, code}

-- `STRICT_PART`, of at most 63 characters
abbrev pub is_plain : String → Bool
is_plain String.[] = false
is_plain (String.◌∷◌ c s) = (is_letter c || code c == 95) && all_word s && leb (size s) 62

-- The parts of a path: plain names, and a star at the end of a path of several.
abbrev pub parts_ok : Bool → List String → Bool
parts_ok several [] = true
parts_ok several (p ∷ []) = is_plain p || (text_eq p "*" && several)
parts_ok several (p ∷ q ∷ ps) = is_plain p && parts_ok several (q ∷ ps)

unfoldable pub is_dotted_ident : String → Bool
unfolding split
is_dotted_ident v =
    text_eq v "*"
    || (leb (size v) 200
        && leb (length (split "." v)) 3
        && parts_ok (ltb 1 (length (split "." v))) (split "." v))

-- `parts.join('.')`
abbrev pub join_dots : List String → String
join_dots [] = ""
join_dots (p ∷ []) = p
join_dots (p ∷ q ∷ ps) = concat p (concat "." (join_dots (q ∷ ps)))

abbrev pub quote_part : String → Option String
quote_part p = if text_eq p "*" then some "*" else quoted (assert_ident p)

abbrev pub add_part : Option String → Option (List String) → Option (List String)
add_part (some p) (some ps) = some (p ∷ ps)
add_part _ _ = none

unfoldable pub quote_parts : List String → Option (List String)
unfolding assert_ident
quote_parts [] = some []
quote_parts (p ∷ ps) = add_part (quote_part p) (quote_parts ps)

abbrev pub joined : Option (List String) → Option String
joined none = none
joined (some ps) = some (join_dots ps)

-- `none` where it throws.
unfoldable pub quote_dotted : String → Option String
unfolding is_dotted_ident quote_parts split
quote_dotted v =
    if not (is_dotted_ident v)
    then none
    else if text_eq v "*"
    then some "*"
    else joined (quote_parts (split "." v))

abbrev pub is_relaxed : Bool → Char → Bool
is_relaxed first c = is_word c || code c == 36 || (not first && (code c == 32 || code c == 45))

abbrev pub all_relaxed : String → Bool
all_relaxed String.[] = true
all_relaxed (String.◌∷◌ c s) = is_relaxed false c && all_relaxed s

-- `RELAXED_NAME`
abbrev pub is_relaxed_name : String → Bool
is_relaxed_name String.[] = false
is_relaxed_name (String.◌∷◌ c s) = is_relaxed true c && all_relaxed s && leb (size s) 127

unfoldable pub assert_safe_name : Option String → Guard
unfolding is_dotted_ident
assert_safe_name none = refused not_a_string
assert_safe_name (some v) =
    if text_eq v "*" || is_dotted_ident v || is_relaxed_name v
    then accepted v
    else refused (invalid_name v)

abbrev pub guard_of : String → Option String → Guard
guard_of v none = refused (invalid_name v)
guard_of v (some s) = accepted s

unfoldable pub field_to_sql : Option String → Option String → Guard
unfolding is_dotted_ident quote_dotted assert_safe_expression
field_to_sql tenant none = refused not_a_string
field_to_sql tenant (some v) =
    if text_eq v "*" || is_dotted_ident v
    then guard_of v (quote_dotted v)
    else assert_safe_expression (record { query = false; tenant_id = tenant; max_length = none })
        (some v)

-- An integer, a text, or anything else.
pub data IntInput : Type 0 where
  integer : ℤ → IntInput
  numeral : String → IntInput
  other_input : IntInput

abbrev pub negated : ℕ → ℤ
negated zero = pos 0
negated (suc n) = negsuc n

abbrev pub digits_value : String → Option ℕ
digits_value s =
    if only "0123456789" s && leb 1 (size s) && leb (size s) 12
    then some (read_base "0123456789" 10 0 s)
    else none

abbrev pub map_integer : (ℕ → ℤ) → Option ℕ → Option ℤ
map_integer f none = none
map_integer f (some n) = some (f n)

-- `/^-?\d{1,12}$/` and `Number`
unfoldable pub numeral_value : String → Option ℤ
unfolding read_base
numeral_value String.[] = none
numeral_value (String.◌∷◌ c s) =
    if code c == 45
    then map_integer negated (digits_value s)
    else map_integer pos (digits_value (String.◌∷◌ c s))

abbrev pub in_range : ℤ → ℤ → Option ℤ → Option ℤ
in_range least most none = none
in_range least most (some n) = if z_leb least n && z_leb n most then some n else none

unfoldable pub safe_int : ℤ → ℤ → IntInput → Option ℤ
unfolding numeral_value trim
safe_int least most (integer n) = in_range least most (some n)
safe_int least most (numeral s) = in_range least most (numeral_value (trim s))
safe_int least most other_input = none
