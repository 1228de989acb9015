-- ===== src/SqlGuard/Guarded.antt =====
-- What an accepted fragment holds. (sqlGuard.ts)
use zero_datafabric.Common.{
  trim, ℕ, zero, suc, ◌+◌, ◌-◌, ◌≤◌, ◌≡◌, refl, ap, subst, ◌⊎◌, inl, inr, Bool-cases, String, Bool,
  true, false, not, ◌&&◌, Option, none, some, List, [], ◌∷◌, arith, if◌then◌else◌, ◌==◌, ltb, size,
  length, or_else,
}
use zero_datafabric.SqlGuard.Lexer.{Token, tokenize}
use zero_datafabric.SqlGuard.{
  GuardError, GuardOptions, Guard, accepted, refused, Walked, at_depth, stopped, check_token,
  check_tokens, first_of, closed, checked_tokens, checked_text, is_forbidden, is_select,
  assert_safe_expression, empty_text, too_long, forbidden_sequence, too_complex, not_a_select,
}
use zero_datafabric.SqlGuard.Words.{AllOk, same_depth, opens, closes, check_token_lem}

-- The depth of the parentheses, from a depth on: never below 0, never above 12, and 0 at the end.
abbrev pub Nested : ℕ → List Token → Type 0
Nested d [] = d ≡ 0
Nested d (t ∷ ts) =
    (closes (t ∷ []) ≤ d + opens (t ∷ []))
    × (d + opens (t ∷ []) - closes (t ∷ []) ≤ 12)
    × Nested (d + opens (t ∷ []) - closes (t ∷ [])) ts

pub Walked-cases :
    (w : Walked) → ((x : GuardError) × (w ≡ stopped x)) ⊎ ((d : ℕ) × (w ≡ at_depth d))
Walked-cases (stopped x) = inl (x, refl)
Walked-cases (at_depth d) = inr (d, refl)

-- The tokens that are let through.
check_tokens_lem :
    (o : GuardOptions) (prev : Option Token) (ts : List Token) (d : ℕ)
    → check_tokens o prev ts d ≡ at_depth 0
    → d ≤ 12
    → AllOk o prev ts × Nested d ts
unfolding check_tokens
check_tokens_lem o prev [] d h b = (tt, same_depth d 0 h)
check_tokens_lem o prev (t ∷ ts) d h b =
    elim (Walked-cases (check_token o prev t (first_of ts) d)) [
      | inl (x, e) ↦ let bad : stopped x ≡ at_depth 0 = rw (e, check_tokens) at h in cc
      | inr (m, e) ↦
          let (ok, moved, low) = check_token_lem o prev t.kind t.text (first_of ts) d m e b in
          let (all, rest) = check_tokens_lem o (some t) ts m (rw (e, check_tokens) at h) low in
          let at_m : m ≡ d + opens (t ∷ []) - closes (t ∷ []) = omega arith in
          ((ok, all), (omega arith, omega arith, subst (λ k. Nested k ts) at_m rest))
    ]

text_of : String → Guard → String
text_of s (accepted t) = t
text_of s (refused e) = s

same_text : (s t : String) → accepted s ≡ accepted t → s ≡ t
unfolding text_of
same_text s t h = ap (text_of s) h

closed_lem :
    (src s : String) (w : Walked) → closed src w ≡ accepted s → (src ≡ s) × (w ≡ at_depth 0)
closed_lem src s (stopped e) h = cc
closed_lem src s (at_depth zero) h = (same_text src s h, refl)
closed_lem src s (at_depth (suc d)) h = cc

-- Each token may stand where it does, the parentheses nest, and a query begins as a SELECT.
abbrev pub Guarded : GuardOptions → List Token → Type 0
Guarded o ts =
    AllOk o none ts
    × Nested 0 ts
    × ((o.query ≡ false) ⊎ (is_select (first_of ts) ≡ true))
    × (length ts ≤ 2000)

module _ (o : GuardOptions) (src s : String) where
  checked_tokens_lem :
      (ts : List Token) → checked_tokens o src (some ts) ≡ accepted s → (src ≡ s) × Guarded o ts
  checked_tokens_lem ts h = elim (Bool-cases (ltb (if o.query then 2000 else 200) (length ts))) [
    | inl e ↦ let bad : refused too_complex ≡ accepted s = rw e at h in cc
    | inr e ↦ elim (Bool-cases (o.query && not (is_select (first_of ts)))) [
      | inl f ↦ let bad : refused not_a_select ≡ accepted s = rw (e, f) at h in cc
      | inr f ↦
          let (same, ended) = closed_lem src s (check_tokens o none ts 0) (rw (e, f) at h) in
          let (ok, nested) = check_tokens_lem o none ts 0 ended (omega arith) in
          (same, (ok, nested, begins f, few (o.query) e))
    ]
  ]
    where
      begins :
          o.query && not (is_select (first_of ts)) ≡ false
          → (o.query ≡ false) ⊎ (is_select (first_of ts) ≡ true)
      begins f = ground arith

      few : (q : Bool) → ltb (if q then 2000 else 200) (length ts) ≡ false → length ts ≤ 2000
      few true e = ground arith
      few false e = ground arith

  checked_lem :
      (m : Option (List Token))
      → checked_tokens o src m ≡ accepted s
      → (src ≡ s) × (ts : List Token) × (m ≡ some ts) × Guarded o ts
  checked_lem none h = cc
  checked_lem (some ts) h = let (same, ok) = checked_tokens_lem ts h in (same, ts, refl, ok)

  checked_text_lem :
      checked_text o src ≡ accepted s
      → (src ≡ s)
        × (size src ≤ or_else o.max_length 500)
        × (is_forbidden src ≡ false)
        × (ts : List Token) × (tokenize src ≡ some ts)
        × Guarded o ts
  checked_text_lem h = elim (Bool-cases (size src == 0)) [
    | inl e ↦ let bad : refused empty_text ≡ accepted s = rw e at h in cc
    | inr e1 ↦ elim (Bool-cases (ltb (or_else o.max_length 500) (size src))) [
      | inl e ↦ let bad : refused too_long ≡ accepted s = rw (e1, e) at h in cc
      | inr e2 ↦ elim (Bool-cases (is_forbidden src)) [
        | inl e ↦ let bad : refused forbidden_sequence ≡ accepted s = rw (e1, e2, e) at h in cc
        | inr e3 ↦
            let (same, ts, read, ok) = checked_lem (tokenize src) (rw (e1, e2, e3) at h) in
            (same, ground arith, e3, ts, read, ok)
      ]
    ]
  ]

-- An accepted fragment is the trimmed input, within the length that is allowed, without any of the
-- forbidden sequences; it reads as tokens each of which may stand where it does (words by their
-- neighbours, no quoted identifier before a parenthesis), with parentheses that nest, at most 12
-- deep; and as a query it begins with SELECT or WITH.
pub assert_safe_expression-Guarded :
    (o : GuardOptions) (expr s : String)
    → assert_safe_expression o (some expr) ≡ accepted s
    → (trim expr ≡ s)
      × (size s ≤ or_else o.max_length 500)
      × (is_forbidden s ≡ false)
      × (ts : List Token) × (tokenize s ≡ some ts)
      × Guarded o ts
unfolding assert_safe_expression
assert_safe_expression-Guarded o expr s h =
    let (same, short, clean, ts, read, ok) = checked_text_lem o (trim expr) s h in
    (
      same,
      subst (λ x. size x ≤ or_else o.max_length 500) same short,
      subst (λ x. is_forbidden x ≡ false) same clean,
      ts,
      subst (λ x. tokenize x ≡ some ts) same read,
      ok,
    )
