-- ===== src/Policy/Masks.antt =====
-- backend/src/modules/security/policy.service.ts: column masking after the fetch.
pub mod Hiding
use zero_datafabric.Common.{
  ℕ, zero, suc, ◌+◌, ◌*◌, ◌-◌, ◌%◌, ◌≤◌, ◌<◌, ◌≡◌, ◌≢◌, refl, ap, ◌∙◌, String, Bool, true, false,
  Option, none, some, List, [], ◌∷◌, arith, if◌then◌else◌, leb, ltb, inl, inr, Bool-cases, ℤ, pos,
  negsuc, Value, undefined, null, bool, num, str, Row, get, text_eq, text_eq_iff, is_present, size,
  concat, drop_text, repeat, print_base, size-concat, lookup, insert, lookup-insert,
}
use zero_datafabric.Policy.{MaskStrategy, redact, nullify, hash, partial, other, MaskRule}
use Prim.Native.Char.{code}

abbrev pub decimal : ℕ → String
decimal n = print_base "0123456789" 10 (suc n) n

-- `String(v)`
unfoldable pub show_value : Value → String
unfolding print_base
show_value undefined = "undefined"
show_value null = "null"
show_value (bool true) = "true"
show_value (bool false) = "false"
show_value (num (pos n)) = decimal n
show_value (num (negsuc n)) = concat "-" (decimal (n + 1))
show_value (str s) = s

-- `h = ((h << 5) + h + c) >>> 0`, which is 33 * h + c in 32 bits
unfoldable pub hash_from : ℕ → String → ℕ
hash_from h String.[] = h
hash_from h (String.◌∷◌ c s) = hash_from ((33 * h + code c) % 4294967296) s

-- `s.padStart(n, '0')`
unfoldable pub pad_zeros : ℕ → String → String
unfolding repeat
pad_zeros n s = concat (repeat "0" (n - size s)) s

unfoldable pub cheap_hash : String → String
unfolding hash_from pad_zeros print_base
cheap_hash s = pad_zeros 8 (print_base "0123456789abcdef" 16 8 (hash_from 5381 s))

-- `'*'.repeat(s.length - 4) + s.slice(-4)`
unfoldable pub mask_partial : String → String
unfolding repeat drop_text
mask_partial s =
    if leb (size s) 4 then "****" else concat (repeat "*" (size s - 4)) (drop_text (size s - 4) s)

unfoldable pub mask_present : Value → MaskStrategy → Value
unfolding cheap_hash mask_partial show_value
mask_present v redact = str "***REDACTED***"
mask_present v nullify = null
mask_present v hash = str (concat "sha256:" (cheap_hash (show_value v)))
mask_present v partial = str (mask_partial (show_value v))
mask_present v other = v

unfoldable pub mask_value : Value → MaskStrategy → Value
unfolding mask_present
mask_value v strategy = if is_present v then mask_present v strategy else v

-- `column in row`, and the write of the masked value.
unfoldable pub mask_column : MaskRule → Row → Row
unfolding mask_value lookup insert
mask_column m row = elim (lookup m.column row) [
  | none ↦ row
  | some v ↦ insert m.column (mask_value v m.strategy) row
]

unfoldable pub mask_row : List MaskRule → Row → Row
unfolding mask_column
mask_row [] row = row
mask_row (m ∷ ms) row = mask_row ms (mask_column m row)

unfoldable pub apply_masks : List MaskRule → List Row → List Row
unfolding mask_row
apply_masks masks [] = []
apply_masks masks (r ∷ rows) = mask_row masks r ∷ apply_masks masks rows
