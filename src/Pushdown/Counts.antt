-- ===== src/Pushdown/Counts.antt =====
-- Which parts of a statement hold no placeholder, and how many the others hold. (pushdown.ts)
use zero_datafabric.Common.{
  ℕ, zero, suc, ◌+◌, ◌/◌, ◌%◌, ◌≡◌, refl, inl, inr, Bool-cases, arith, String, Bool, true, not,
  ◌&&◌, ◌||◌, List, [], ◌∷◌, map, all, if◌then◌else◌, ◌==◌, text_eq, concat, upper, swap_char,
  digit, print_base,
}
use Prim.Native.Char.{Char, code}
use zero_datafabric.NetGuard.Addresses.{split}
use zero_datafabric.Tenants.{is_word}
use zero_datafabric.Policy.Masks.{decimal}
use zero_datafabric.Pushdown.Names.{
  Dialect, postgres, mysql, snowflake, oracle, join_with, ident, quote_name, quote_column,
}

-- The character that a placeholder starts with: `$`, `:` or `?`.
abbrev pub mark : Dialect → ℕ
mark postgres = 36
mark oracle = 58
mark _ = 63

abbrev pub not_mark : Char → Bool
not_mark c = not (code c == 36 || code c == 58 || code c == 63)

-- The text holds no such character.
abbrev pub clean : String → Bool
clean String.[] = true
clean (String.◌∷◌ c s) = not_mark c && clean s

abbrev pub occurs : ℕ → Char → ℕ
occurs n c = if code c == n then 1 else 0

-- How often the code of a character occurs.
abbrev pub count_code : ℕ → String → ℕ
count_code n String.[] = 0
count_code n (String.◌∷◌ c s) = occurs n c + count_code n s

pub count-concat :
    (n : ℕ) (s t : String) → count_code n (concat s t) ≡ count_code n s + count_code n t
count-concat n String.[] t = omega arith
count-concat n (String.◌∷◌ c s) t = omega (arith, count-concat n s t)

other_code : (d : Dialect) (c : Char) → not_mark c ≡ true → occurs (mark d) c ≡ 0
other_code postgres c h = ground arith
other_code oracle c h = ground arith
other_code mysql c h = ground arith
other_code snowflake c h = ground arith

pub count-clean : (d : Dialect) (s : String) → clean s ≡ true → count_code (mark d) s ≡ 0
count-clean d String.[] h = refl
count-clean d (String.◌∷◌ c s) h =
    let rest : count_code (mark d) s ≡ 0 = count-clean d s (ground arith) in
    let here : not_mark c ≡ true = ground arith in omega (arith, other_code d c here)

pub clean-concat : (s t : String) → clean s ≡ true → clean t ≡ true → clean (concat s t) ≡ true
clean-concat String.[] t h k = k
clean-concat (String.◌∷◌ c s) t h k =
    let rest : clean (concat s t) ≡ true = clean-concat s t (ground arith) k in ground arith

-- A text between two others.
pub clean-around :
    (before s after : String)
    → clean before ≡ true
    → clean s ≡ true
    → clean after ≡ true
    → clean (concat before (concat s after)) ≡ true
clean-around before s after h k l =
    clean-concat before (concat s after) h (clean-concat s after k l)

pub clean-join :
    (separator : String) (ts : List String)
    → clean separator ≡ true
    → all clean ts ≡ true
    → clean (join_with separator ts) ≡ true
unfolding join_with
clean-join separator [] h k = refl
clean-join separator (t ∷ []) h k = ground arith
clean-join separator (t ∷ u ∷ ts) h k =
    clean-around t separator (join_with separator (u ∷ ts)) (ground arith) h
      (clean-join separator (u ∷ ts) h (ground arith))

pub clean-map :
    {A : Type 0} (f : A → String) (xs : List A)
    → ((x : A) → clean (f x) ≡ true)
    → all clean (map f xs) ≡ true
clean-map f [] h = refl
clean-map f (x ∷ xs) h = ground (arith, h x, clean-map f xs h)

clean-ident : (s : String) → clean (ident s) ≡ true
unfolding ident
clean-ident String.[] = refl
clean-ident (String.◌∷◌ c s) = elim (Bool-cases (is_word c)) [
  | inl e ↦ let here : not_mark c ≡ true = ground arith in rw (e, here, clean-ident s) refl
  | inr e ↦ rw e (clean-ident s)
]

clean-swap :
    (from to : String) (c : Char)
    → clean to ≡ true
    → not_mark c ≡ true
    → not_mark (swap_char from to c) ≡ true
unfolding swap_char
clean-swap String.[] to c h k = k
clean-swap (String.◌∷◌ x from) String.[] c h k = k
clean-swap (String.◌∷◌ x from) (String.◌∷◌ y to) c h k =
    let rest : not_mark (swap_char from to c) ≡ true = clean-swap from to c (ground arith) k in
    elim (Bool-cases (code x == code c)) [ inl e ↦ rw e (ground arith) | inr e ↦ rw e rest ]

clean-upper : (s : String) → clean s ≡ true → clean (upper s) ≡ true
unfolding upper
clean-upper String.[] h = refl
clean-upper (String.◌∷◌ c s) h =
    let here : not_mark c ≡ true = ground arith in
    rw
      (
        clean-swap "abcdefghijklmnopqrstuvwxyz" "ABCDEFGHIJKLMNOPQRSTUVWXYZ" c refl here,
        clean-upper s (ground arith),
      )
      refl

pub clean-quote_name : (d : Dialect) (s : String) → clean (quote_name d s) ≡ true
unfolding quote_name
clean-quote_name mysql s = clean-around "`" (ident s) "`" refl (clean-ident s) refl
clean-quote_name oracle s =
    clean-around "\"" (upper (ident s)) "\"" refl (clean-upper (ident s) (clean-ident s)) refl
clean-quote_name postgres s = clean-around "\"" (ident s) "\"" refl (clean-ident s) refl
clean-quote_name snowflake s = clean-around "\"" (ident s) "\"" refl (clean-ident s) refl

pub clean-quote_column : (d : Dialect) (s : String) → clean (quote_column d s) ≡ true
unfolding quote_column
clean-quote_column d s = elim (Bool-cases (text_eq s "" || text_eq s "*")) [
  | inl e ↦ rw e refl
  | inr e ↦ rw e (
      clean-join "." (map (quote_name d) (split "." s)) refl
        (clean-map (quote_name d) (split "." s) (clean-quote_name d)))
]

clean-digit : (alphabet : String) (n : ℕ) → clean alphabet ≡ true → clean (digit alphabet n) ≡ true
unfolding digit
clean-digit String.[] n h = refl
clean-digit (String.◌∷◌ c s) zero h = ground arith
clean-digit (String.◌∷◌ c s) (suc n) h = clean-digit s n (ground arith)

clean-print :
    (alphabet : String) (base fuel n : ℕ)
    → clean alphabet ≡ true
    → clean (print_base alphabet base fuel n) ≡ true
unfolding print_base
clean-print alphabet base zero n h = refl
clean-print alphabet base (suc fuel) n h =
    let last : clean (digit alphabet (n % base)) ≡ true = clean-digit alphabet (n % base) h in
    elim (Bool-cases (n / base == 0)) [
      | inl e ↦ rw e last
      | inr e ↦ rw e (
          clean-concat (print_base alphabet base fuel (n / base)) (digit alphabet (n % base))
            (clean-print alphabet base fuel (n / base) h) last)
    ]

pub clean-decimal : (n : ℕ) → clean (decimal n) ≡ true
clean-decimal n = clean-print "0123456789" 10 (suc n) n refl
