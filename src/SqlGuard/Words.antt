-- ===== src/SqlGuard/Words.antt =====
-- Which tokens an accepted fragment may hold, by their neighbours. (sqlGuard.ts)
use zero_datafabric.Common.{
  ℕ, zero, suc, ◌+◌, ◌≤◌, ◌≡◌, refl, sym, ap, ◌⊎◌, inl, inr, Bool-cases, Option-cases, String, Bool,
  true, false, not, ◌&&◌, Option, none, some, List, [], ◌∷◌, arith, if◌then◌else◌, ltb, text_eq,
  text_eq_iff, lower,
}
use zero_datafabric.SqlGuard.Lexer.{Token, TokenKind, str, qid, num, word, op, punct, blank}
use zero_datafabric.SqlGuard.{
  GuardError, GuardOptions, Walked, at_depth, stopped, is_punct, is_listed, is_foreign, is_callable,
  always_blocked, statement_words, check_word, check_token, first_of, deeper, shallower, too_deep,
  quoted_call, blocked_keyword, foreign_schema, unknown_function, statement_word,
}

-- A word that may stand between its neighbours: a member name after a dot; or no blocked word,
-- before a dot only a schema that may be read, before a parenthesis only what may be called, and
-- elsewhere in an expression no statement word.
abbrev WordOk : GuardOptions → Option Token → String → Option Token → Type 0
WordOk o prev t next =
    (is_punct "." prev ≡ true)
    ⊎ ((is_listed always_blocked (lower t) ≡ false)
        × ((is_punct "." next ≡ false) ⊎ (is_foreign o.tenant_id t ≡ false))
        × ((is_punct "(" next ≡ false) ⊎ (is_callable o.query (lower t) ≡ true))
        × ((is_punct "(" next ≡ true)
            ⊎ (o.query ≡ true)
            ⊎ (is_listed statement_words (lower t) ≡ false)))

abbrev TokenOk : GuardOptions → Option Token → Token → Option Token → Type 0
TokenOk o prev t next = elim (t.kind) [
  | word ↦ WordOk o prev t.text next
  | qid ↦ is_punct "(" next ≡ false
  | _ ↦ Unit {0}
]

-- Each token may stand where it does.
abbrev pub AllOk : GuardOptions → Option Token → List Token → Type 0
AllOk o prev [] = Unit
AllOk o prev (t ∷ ts) = TokenOk o prev t (first_of ts) × AllOk o (some t) ts

abbrev pub opens : List Token → ℕ
opens [] = 0
opens (t ∷ ts) = (if is_punct "(" (some t) then 1 else 0) + opens ts

abbrev pub closes : List Token → ℕ
closes [] = 0
closes (t ∷ ts) = (if is_punct ")" (some t) then 1 else 0) + closes ts

-- The same rule over Booleans.
word_rule :
    (dot blocked qual foreign call callable query statement : Bool) (e1 e2 e3 e4 : GuardError)
    → (if dot
        then none
        else if blocked
        then some e1
        else if qual && foreign
        then some e2
        else if call
        then (if callable then none else some e3)
        else if not query && statement
        then some e4
        else none)
      ≡ none
    → (dot ≡ true)
      ⊎ ((blocked ≡ false)
          × ((qual ≡ false) ⊎ (foreign ≡ false))
          × ((call ≡ false) ⊎ (callable ≡ true))
          × ((call ≡ true) ⊎ (query ≡ true) ⊎ (statement ≡ false)))
word_rule true _ _ _ _ _ _ _ e1 e2 e3 e4 h = inl refl
word_rule false true _ _ _ _ _ _ e1 e2 e3 e4 h = cc
word_rule false false true true _ _ _ _ e1 e2 e3 e4 h = cc
word_rule false false true false true true _ _ e1 e2 e3 e4 h =
    inr (refl, inr refl, inr refl, inl refl)
word_rule false false true false true false _ _ e1 e2 e3 e4 h = cc
word_rule false false true false false _ true _ e1 e2 e3 e4 h =
    inr (refl, inr refl, inl refl, inr (inl refl))
word_rule false false true false false _ false true e1 e2 e3 e4 h = cc
word_rule false false true false false _ false false e1 e2 e3 e4 h =
    inr (refl, inr refl, inl refl, inr (inr refl))
word_rule false false false _ true true _ _ e1 e2 e3 e4 h = inr (refl, inl refl, inr refl, inl refl)
word_rule false false false _ true false _ _ e1 e2 e3 e4 h = cc
word_rule false false false _ false _ true _ e1 e2 e3 e4 h =
    inr (refl, inl refl, inl refl, inr (inl refl))
word_rule false false false _ false _ false true e1 e2 e3 e4 h = cc
word_rule false false false _ false _ false false e1 e2 e3 e4 h =
    inr (refl, inl refl, inl refl, inr (inr refl))

check_word-WordOk :
    (o : GuardOptions) (prev : Option Token) (t : String) (next : Option Token)
    → check_word o prev t next ≡ none
    → WordOk o prev t next
unfolding check_word
check_word-WordOk o prev t next h =
    word_rule (is_punct "." prev) (is_listed always_blocked (lower t)) (is_punct "." next)
      (is_foreign o.tenant_id t) (is_punct "(" next) (is_callable o.query (lower t)) o.query
      (is_listed statement_words (lower t)) (blocked_keyword t) (foreign_schema t)
      (unknown_function t) (statement_word t) h

depth_of : ℕ → Walked → ℕ
depth_of d (at_depth e) = e
depth_of d (stopped x) = d

pub same_depth : (d d' : ℕ) → at_depth d ≡ at_depth d' → d ≡ d'
unfolding depth_of
same_depth d d' h = ap (depth_of d) h

deeper_lem : (d d' : ℕ) → deeper d ≡ at_depth d' → (d' ≡ suc d) × (d' ≤ 12)
deeper_lem d d' h = elim (Bool-cases (ltb 12 (suc d))) [
  | inl e ↦ let bad : stopped too_deep ≡ at_depth d' = rw e at h in cc
  | inr e ↦
      let k : at_depth (suc d) ≡ at_depth d' = rw e at h in
      let n = same_depth (suc d) d' k in (sym n, ground arith)
]

shallower_lem : (d d' : ℕ) → shallower d ≡ at_depth d' → suc d' ≡ d
shallower_lem zero d' h = cc
shallower_lem (suc d) d' h = ap suc (sym (same_depth d d' h))

-- A round that goes on has a token that may stand there, and moves the depth by its parenthesis.
pub check_token_lem :
    (o : GuardOptions) (prev : Option Token) (k : TokenKind) (t : String) (next : Option Token)
    (d d' : ℕ)
    → check_token o prev (record { kind = k; text = t }) next d ≡ at_depth d'
    → d ≤ 12
    → TokenOk o prev (record { kind = k; text = t }) next
      × (d' + closes (record { kind = k; text = t } ∷ [])
          ≡ d + opens (record { kind = k; text = t } ∷ []))
      × (d' ≤ 12)
unfolding check_token
check_token_lem o prev punct t next d d' h b = elim (Bool-cases (text_eq t "(")) [
  | inl e ↦
      let (k, l) = deeper_lem d d' (rw e at h) in
      let other : text_eq t ")" ≡ false = rw ((text_eq_iff t "(").0 e) refl in
      (tt, rw (e, other) (omega arith), l)
  | inr e ↦ elim (Bool-cases (text_eq t ")")) [
    | inl f ↦
        let k = shallower_lem d d' (rw (e, f) at h) in (tt, rw (e, f) (omega arith), omega arith)
    | inr f ↦ let k = same_depth d d' (rw (e, f) at h) in (tt, rw (e, f) (omega arith), omega arith)
  ]
]
check_token_lem o prev qid t next d d' h b = elim (Bool-cases (is_punct "(" next)) [
  | inl e ↦ let bad : stopped quoted_call ≡ at_depth d' = rw e at h in cc
  | inr e ↦ let k = same_depth d d' (rw e at h) in (e, omega arith, omega arith)
]
check_token_lem o prev word t next d d' h b = elim (Option-cases (check_word o prev t next)) [
  | inl e ↦
      let k = same_depth d d' (rw e at h) in
      (check_word-WordOk o prev t next e, omega arith, omega arith)
  | inr (x, e) ↦ let bad : stopped x ≡ at_depth d' = rw e at h in cc
]
check_token_lem o prev str t next d d' h b =
    let k = same_depth d d' h in (tt, omega arith, omega arith)
check_token_lem o prev num t next d d' h b =
    let k = same_depth d d' h in (tt, omega arith, omega arith)
check_token_lem o prev op t next d d' h b =
    let k = same_depth d d' h in (tt, omega arith, omega arith)
check_token_lem o prev blank t next d d' h b =
    let k = same_depth d d' h in (tt, omega arith, omega arith)
