-- ===== src/Copy/Pages.antt =====
-- Pages of a table by ascending key: what a page leaves out comes after its last row.
-- (copy_util.ts)
use zero_datafabric.Common.{
  ℕ, zero, suc, ◌≡◌, refl, sym, ap, subst, ◌∙◌, inl, inr, Bool-cases, String, Bool, true, false,
  Option, none, some, List, [], ◌∷◌, arith, take, drop, keep, All, Value, Row, get, is_present,
}
use zero_datafabric.Copy.{Cursor, last_key, offset, by_key, after_key, last_of, Surroundings}

-- `$gt` at the source: a strict order.
pub record StrictOrder (gt : Value → Value → Bool) : Type 0 where
  pub irreflexive : (a : Value) → gt a a ≡ false
  pub transitive : (a b c : Value) → gt a b ≡ true → gt b c ≡ true → gt a c ≡ true

module _ (gt : Value → Value → Bool) (key : String) where
  abbrev pub key_of : Row → Value
  key_of r = get key r

  -- Whether the query after a cursor asks for a row.
  abbrev pub is_after : Option Value → Row → Bool
  is_after none r = true
  is_after (some k) r = gt (get key r) k

  -- The rows that a run from a cursor has to copy.
  abbrev pub remaining : Cursor → List Row → List Row
  remaining (last_key v) table = keep (is_after (after_key v)) table
  remaining (offset n) table = drop n table

  -- The table by ascending key, as `orderBy` asks: no key is missing and none stands twice.
  abbrev pub Ascending : List Row → Type 0
  Ascending [] = Unit
  Ascending (r ∷ rs) =
      (is_present (get key r) ≡ true)
      × All (λ s. gt (get key s) (get key r) ≡ true) rs
      × Ascending rs

  -- A source that holds one table throughout and answers a page query from it.
  abbrev pub Answers : List Row → Surroundings → Type 0
  Answers table env =
      (i n : ℕ) (after : Option Value)
      → env.query i (by_key key after n) ≡ take n (keep (is_after after) table)

  module _ (strict : StrictOrder gt) where
    gt_asym : (a b : Value) → gt a b ≡ true → gt b a ≡ false
    gt_asym a b h = elim (Bool-cases (gt b a)) [
      | inl e ↦
          let loop : gt a a ≡ true = strict.transitive a b a h e in
          absurd (differ (sym loop ∙ strict.irreflexive a))
      | inr e ↦ e
    ]
      where
        differ : true ≡ false → ⊥
        differ e = cc

    keep-All : (p : Row → Bool) (xs : List Row) → All (λ x. p x ≡ true) xs → keep p xs ≡ xs
    keep-All p [] h = refl
    keep-All p (x ∷ xs) (e, h) = rw (e, keep-All p xs h) refl

    All-take : (P : Row → Type 0) (n : ℕ) (xs : List Row) → All P xs → All P (take n xs)
    All-take P zero xs h = tt
    All-take P (suc n) [] h = tt
    All-take P (suc n) (x ∷ xs) (p, h) = (p, All-take P n xs h)

    All-last_of : (P : Row → Type 0) (r : Row) (rs : List Row) → P r → All P rs → P (last_of r rs)
    All-last_of P r [] p h = p
    All-last_of P r (x ∷ xs) p (q, h) = All-last_of P x xs q h

    All-keep : (P : Row → Type 0) (p : Row → Bool) (xs : List Row) → All P xs → All P (keep p xs)
    All-keep P p [] h = tt
    All-keep P p (x ∷ xs) (q, h) = elim (Bool-cases (p x)) [
      | inl e ↦ rw e (q, All-keep P p xs h)
      | inr e ↦ rw e (All-keep P p xs h)
    ]

    keep-Ascending : (p : Row → Bool) (xs : List Row) → Ascending xs → Ascending (keep p xs)
    keep-Ascending p [] h = tt
    keep-Ascending p (x ∷ xs) (here, above, h) = elim (Bool-cases (p x)) [
      | inl e ↦ rw e (
        here,
        All-keep (λ s. gt (get key s) (get key x) ≡ true) p xs above,
        keep-Ascending p xs h,
      )
      | inr e ↦ rw e (keep-Ascending p xs h)
    ]

    keep-first :
        (x : Row) (xs : List Row)
        → All (λ s. gt (get key s) (get key x) ≡ true) xs
        → keep (is_after (some (get key x))) (x ∷ xs) ≡ xs
    keep-first x xs above =
        rw (strict.irreflexive (get key x)) (keep-All (is_after (some (get key x))) xs above)

    -- After the last row of a page come the rows that the page left out.
    keep-drop :
        (m : ℕ) (x : Row) (xs : List Row)
        → Ascending (x ∷ xs)
        → keep (is_after (some (get key (last_of x (take m xs))))) (x ∷ xs) ≡ drop m xs
    keep-drop zero x xs (here, above, h) = keep-first x xs above
    keep-drop (suc m) x [] (here, above, h) = keep-first x [] above
    keep-drop (suc m) x (y ∷ ys) (here, above, h) =
        let beyond : gt (get key (last_of y (take m ys))) (get key x) ≡ true =
          All-last_of (λ s. gt (get key s) (get key x) ≡ true) y (take m ys) above.0
            (All-take (λ s. gt (get key s) (get key x) ≡ true) m ys above.1) in
        rw (gt_asym (get key (last_of y (take m ys))) (get key x) beyond) (keep-drop m y ys h)

    -- Asking for less gives the same when asked of the answer.
    keep-keep :
        (p q : Row → Bool) (xs : List Row)
        → ((r : Row) → q r ≡ true → p r ≡ true)
        → keep q (keep p xs) ≡ keep q xs
    keep-keep p q [] h = refl
    keep-keep p q (x ∷ xs) h = elim (Bool-cases (p x)) [
      | inl e ↦ rw e (ground (arith, keep-keep p q xs h))
      | inr e ↦ elim (Bool-cases (q x)) [
        | inl f ↦ absurd (differ (sym (h x f) ∙ e))
        | inr f ↦ rw (e, f) (keep-keep p q xs h)
      ]
    ]
      where
        differ : true ≡ false → ⊥
        differ e = cc

    module _ (table : List Row) (ascending : Ascending table) where
      later :
          (after : Option Value) (k : Value)
          → ((j : Value) → after ≡ some j → gt k j ≡ true)
          → (r : Row) → is_after (some k) r ≡ true
          → is_after after r ≡ true
      later none k h r e = refl
      later (some j) k h r e = strict.transitive (get key r) k j e (h j refl)

      is_after_cursor :
          (after : Option Value) (l : Row)
          → is_after after l ≡ true
          → (j : Value) → after ≡ some j
          → gt (get key l) j ≡ true
      is_after_cursor none l e j same = cc
      is_after_cursor (some k) l e j same = ground arith

      keep_passes : (p : Row → Bool) (xs : List Row) → All (λ r. p r ≡ true) (keep p xs)
      keep_passes p [] = tt
      keep_passes p (x ∷ xs) = elim (Bool-cases (p x)) [
        | inl e ↦ rw e (e, keep_passes p xs)
        | inr e ↦ rw e (keep_passes p xs)
      ]

      present : (rs : List Row) → Ascending rs → All (λ r. is_present (get key r) ≡ true) rs
      present [] h = tt
      present (r ∷ rs) (here, above, h) = (here, present rs h)

      -- What holds of all rows after a cursor holds of the last row of a page of them.
      page_last :
          (P : Row → Type 0) (n : ℕ) (xs : List Row) (r : Row) (rs : List Row)
          → All P xs
          → take n xs ≡ r ∷ rs
          → P (last_of r rs)
      page_last P n xs r rs h read =
          let all : All P (r ∷ rs) = subst (All P) read (All-take P n xs h) in
          All-last_of P r rs all.0 all.1

      last_or : Row → List Row → Row
      last_or d [] = d
      last_or d (x ∷ xs) = last_of x xs

      page_rest :
          (n : ℕ) (xs : List Row) (r : Row) (rs : List Row)
          → Ascending xs
          → take n xs ≡ r ∷ rs
          → keep (is_after (some (get key (last_of r rs)))) xs ≡ drop n xs
      unfolding last_or
      page_rest zero xs r rs h read = cc
      page_rest (suc m) [] r rs h read = cc
      page_rest (suc m) (x ∷ xs) r rs h read =
          let same : last_of x (take m xs) ≡ last_of r rs = ap (last_or x) read in
          subst (λ l. keep (is_after (some (get key l))) (x ∷ xs) ≡ drop m xs) same
            (keep-drop m x xs h)

      -- The last row of a page that is not empty has a key, and what comes after it is what comes
      -- after the page.
      pub page_split :
          (after : Option Value) (n : ℕ) (r : Row) (rs : List Row)
          → take n (keep (is_after after) table) ≡ r ∷ rs
          → (is_present (get key (last_of r rs)) ≡ true)
            × (keep (is_after (some (get key (last_of r rs)))) table
                ≡ drop n (keep (is_after after) table))
      page_split after n r rs read =
          let rest = keep (is_after after) table in
          let ordered = keep-Ascending (is_after after) table ascending in
          let passed =
            page_last (λ s. is_after after s ≡ true) n rest r rs
              (keep_passes (is_after after) table) read in
          let k = get key (last_of r rs) in
          (
            page_last (λ s. is_present (get key s) ≡ true) n rest r rs (present rest ordered) read,
            sym (
                  keep-keep (is_after after) (is_after (some k)) table
                    (later after k (is_after_cursor after (last_of r rs) passed)))
                ∙ page_rest n rest r rs ordered read,
          )
