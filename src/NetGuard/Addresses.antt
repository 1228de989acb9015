-- ===== src/NetGuard/Addresses.antt =====
-- backend/src/modules/integration/net_guard.ts: IPv4 addresses in the forms that `inet_aton` reads.
use zero_datafabric.Common.{
  trim, ℕ, suc, ◌+◌, ◌-◌, ◌*◌, ◌/◌, ◌%◌, ◌^◌, String, Bool, true, false, not, ◌&&◌, ◌||◌, Option,
  none, some, List, [], ◌∷◌, if◌then◌else◌, ◌==◌, ltb, leb, length, any, size, drop_text,
  has_prefix, lower,
}
use Prim.Native.Char.{Char, code}

abbrev pub is_in : Char → String → Bool
is_in c String.[] = false
is_in c (String.◌∷◌ x s) = if code x == code c then true else is_in c s

-- `/^[chars]*$/`
abbrev pub only : String → String → Bool
only chars String.[] = true
only chars (String.◌∷◌ c s) = is_in c chars && only chars s

abbrev pub place : String → Char → ℕ
place String.[] c = 0
place (String.◌∷◌ x s) c = if code x == code c then 0 else suc (place s c)

-- `parseInt(s, base)`, with the digits of the base
unfoldable pub read_base : String → ℕ → ℕ → String → ℕ
read_base digits base n String.[] = n
read_base digits base n (String.◌∷◌ c s) = read_base digits base (n * base + place digits c) s

-- `s.split(c)`
unfoldable pub split : Char → String → List String
split c String.[] = "" ∷ []
split c (String.◌∷◌ x s) =
    let rest = split c s in
    if code x == code c
    then "" ∷ rest
    else elim rest [ [] ↦ String.◌∷◌ x "" ∷ [] | p ∷ ps ↦ String.◌∷◌ x p ∷ ps ]

abbrev pub is_empty : String → Bool
is_empty String.[] = true
is_empty (String.◌∷◌ c s) = false

abbrev pub hex_digits : String
hex_digits = "0123456789abcdef"

-- A part of the address: hexadecimal, octal or decimal.
unfoldable pub read_part : String → Option ℕ
unfolding read_base has_prefix drop_text
read_part p =
    let rest = drop_text 2 p in
    if has_prefix "0x" p && not (is_empty rest) && only hex_digits rest
    then some (read_base hex_digits 16 0 rest)
    else if has_prefix "0" p && leb 2 (size p) && only "01234567" p
    then some (read_base "01234567" 8 0 p)
    else if not (is_empty p) && only "0123456789" p && (not (has_prefix "0" p) || size p == 1)
    then some (read_base "0123456789" 10 0 p)
    else none

unfoldable pub read_parts : List String → Option (List ℕ)
unfolding read_part
read_parts [] = some []
read_parts (p ∷ ps) = elim (read_part p) [
  | none ↦ none
  | some n ↦ elim (read_parts ps) [ none ↦ none | some ns ↦ some (n ∷ ns) ]
]

-- The value of the leading bytes from a place on and of the last number, within the bounds that are
-- checked: 255 for a leading number, the bytes that are left for the last one.
unfoldable pub address_value : ℕ → List ℕ → Option ℕ
address_value place [] = none
address_value place (n ∷ []) = if ltb n (2 ^ (8 * (4 - place))) then some n else none
address_value place (n ∷ m ∷ ns) = elim (address_value (suc place) (m ∷ ns)) [
  | none ↦ none
  | some v ↦ if leb n 255 then some (n * 2 ^ (8 * (3 - place)) + v) else none
]

pub record Octets : Type 0 where
  pub a : ℕ
  pub b : ℕ
  pub c : ℕ
  pub d : ℕ

unfoldable pub octets_of : ℕ → Octets
octets_of v = record {
  a = (v / 16777216) % 256;
  b = (v / 65536) % 256;
  c = (v / 256) % 256;
  d = v % 256;
}

abbrev pub map_octets : Option ℕ → Option Octets
map_octets none = none
map_octets (some v) = some (octets_of v)

abbrev pub octets_of_parts : Option (List ℕ) → Option Octets
octets_of_parts none = none
octets_of_parts (some ns) = map_octets (address_value 0 ns)

unfoldable pub parse_ipv4_loose : String → Option Octets
unfolding trim lower split read_parts address_value octets_of
parse_ipv4_loose host =
    let h = lower (trim host) in
    let parts = split "." h in
    if is_empty h || not (only "0123456789abcdefx." h)
    then none
    else if ltb 4 (length parts) || any is_empty parts
    then none
    else octets_of_parts (read_parts parts)
