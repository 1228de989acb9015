-- ===== src/Common/Text.antt =====
-- What the program uses of JavaScript strings. A text is a list of characters: one for each code
-- unit, so texts outside the basic plane are left out where only `units` tells the two apart.
-- Case mapping is that of ASCII.
use Prim.Native.Nat.{ℕ, zero, suc, ◌+◌, ◌/◌, ◌%◌}
use Prim.Native.Char.{Char, code}
use Prim.Native.String.{String}
use mathlib.Core.Bool.{Bool, true, false, ◌&&◌, ◌||◌}
use mathlib.Core.Path.{◌≡◌}
use native.Mathlib.Omega.{arith}
use zero_datafabric.Common.Tests.{◌==◌, leb, if◌then◌else◌}

-- `s.length`, where no character takes two units
abbrev pub size : String → ℕ
size String.[] = 0
size (String.◌∷◌ c s) = suc (size s)

-- The UTF-16 units that `s.length` counts: two for a character beyond the basic plane.
abbrev pub units : String → ℕ
units String.[] = 0
units (String.◌∷◌ c s) = (if leb 65536 (code c) then 2 else 1) + units s

abbrev pub concat : String → String → String
concat String.[] t = t
concat (String.◌∷◌ c s) t = String.◌∷◌ c (concat s t)

pub size-concat : (s t : String) → size (concat s t) ≡ size s + size t
size-concat String.[] t = omega arith
size-concat (String.◌∷◌ c s) t = omega (arith, size-concat s t)

-- `s.slice(n)`
unfoldable pub drop_text : ℕ → String → String
drop_text zero s = s
drop_text (suc n) String.[] = String.[]
drop_text (suc n) (String.◌∷◌ c s) = drop_text n s

-- `t.repeat(n)` for a text of one character
unfoldable pub repeat : Char → ℕ → String
repeat c zero = String.[]
repeat c (suc n) = String.◌∷◌ c (repeat c n)

-- The character of `to` at the place where `from` has `c`; else `c`.
unfoldable pub swap_char : String → String → Char → Char
swap_char String.[] to c = c
swap_char (String.◌∷◌ x from) String.[] c = c
swap_char (String.◌∷◌ x from) (String.◌∷◌ y to) c =
    if code x == code c then y else swap_char from to c

abbrev lower_letters : String
lower_letters = "abcdefghijklmnopqrstuvwxyz"

abbrev upper_letters : String
upper_letters = "ABCDEFGHIJKLMNOPQRSTUVWXYZ"

-- `s.toUpperCase()`
unfoldable pub upper : String → String
unfolding swap_char
upper String.[] = String.[]
upper (String.◌∷◌ c s) = String.◌∷◌ (swap_char lower_letters upper_letters c) (upper s)

-- `s.toLowerCase()`
unfoldable pub lower : String → String
unfolding swap_char
lower String.[] = String.[]
lower (String.◌∷◌ c s) = String.◌∷◌ (swap_char upper_letters lower_letters c) (lower s)

-- `s.startsWith(p)`
unfoldable pub has_prefix : String → String → Bool
has_prefix String.[] s = true
has_prefix (String.◌∷◌ p ps) String.[] = false
has_prefix (String.◌∷◌ p ps) (String.◌∷◌ c s) = code p == code c && has_prefix ps s

-- `s.includes(p)`
unfoldable pub includes : String → String → Bool
unfolding has_prefix
includes p String.[] = has_prefix p String.[]
includes p (String.◌∷◌ c s) = has_prefix p (String.◌∷◌ c s) || includes p s

-- The digit of `alphabet` at a place; the digit of the last place beyond its end.
unfoldable pub digit : String → ℕ → String
digit String.[] n = String.[]
digit (String.◌∷◌ c s) zero = String.◌∷◌ c String.[]
digit (String.◌∷◌ c s) (suc n) = digit s n

-- The digits of `n` in a base, least digit last, with at most `fuel` digits; `n < base ^ fuel` is
-- printed whole.
unfoldable pub print_base : String → ℕ → ℕ → ℕ → String
unfolding digit
print_base alphabet base zero n = String.[]
print_base alphabet base (suc fuel) n =
    let front = print_base alphabet base fuel (n / base) in
    let last = digit alphabet (n % base) in if n / base == 0 then last else concat front last

-- `\s`, which is also what `trim` drops.
abbrev pub is_space : Char → Bool
is_space c =
    (leb 9 (code c) && leb (code c) 13)
    || code c == 32
    || code c == 160
    || code c == 5760
    || (leb 8192 (code c) && leb (code c) 8202)
    || code c == 8232
    || code c == 8233
    || code c == 8239
    || code c == 8287
    || code c == 12288
    || code c == 65279

unfoldable pub trim_left : String → String
trim_left String.[] = String.[]
trim_left (String.◌∷◌ c s) = if is_space c then trim_left s else String.◌∷◌ c s

abbrev pub all_space : String → Bool
all_space String.[] = true
all_space (String.◌∷◌ c s) = is_space c && all_space s

unfoldable pub trim_right : String → String
trim_right String.[] = String.[]
trim_right (String.◌∷◌ c s) =
    if all_space (String.◌∷◌ c s) then String.[] else String.◌∷◌ c (trim_right s)

-- `s.trim()`
unfoldable pub trim : String → String
unfolding trim_left trim_right
trim s = trim_right (trim_left s)
