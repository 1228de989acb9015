-- ===== src/Recursive/Keys.antt =====
-- The keys that a frontier is expanded by. (recursive.ts, `keys`)
use zero_datafabric.Common.{
  ◌≡◌, refl, true, List, [], ◌∷◌, map, Value, get, has, has-nil, has-here, has-there, has-cons, In,
  inl, inr, Bool-cases, is_present, keep, subst, ◌⊎◌, ap, ◌∙◌,
}
use zero_datafabric.Recursive.{Spec, Tagged, frontier_keys, distinct_from, frontier_key_col}

has-distinct_from :
    (k : Value) (seen xs : List Value) → has k (distinct_from seen xs) ≡ true → has k xs ≡ true
unfolding distinct_from
has-distinct_from k seen [] h = h
has-distinct_from k seen (x ∷ xs) h = elim (Bool-cases (has x seen)) [
  | inl old ↦ has-there k x xs (has-distinct_from k seen xs (rw old at h))
  | inr new ↦ elim (has-cons k x (distinct_from (x ∷ seen) xs) (rw new at h)) [
    | inl e ↦ subst (λ v. has k (v ∷ xs) ≡ true) e (has-here k xs)
    | inr m ↦ has-there k x xs (has-distinct_from k (x ∷ seen) xs m)
  ]
]

distinct_from-has :
    (k : Value) (seen xs : List Value)
    → has k xs ≡ true
    → (has k seen ≡ true) ⊎ (has k (distinct_from seen xs) ≡ true)
unfolding distinct_from
distinct_from-has k seen [] h = inr h
distinct_from-has k seen (x ∷ xs) h = elim (Bool-cases (has x seen)) [
  | inl old ↦ elim (has-cons k x xs h) [
    | inl e ↦ inl (ap (λ v. has v seen) e ∙ old)
    | inr m ↦ rw old (distinct_from-has k seen xs m)
  ]
  | inr new ↦ elim (has-cons k x xs h) [
    | inl e ↦
        inr (rw new (subst (λ v. has k (v ∷ distinct_from (x ∷ seen) xs) ≡ true) e (has-here k _)))
    | inr m ↦ elim (distinct_from-has k (x ∷ seen) xs m) [
      | inl old ↦ elim (has-cons k x seen old) [
        | inl e ↦
            inr (
              rw new (subst (λ v. has k (v ∷ distinct_from (x ∷ seen) xs) ≡ true) e (has-here k _)))
        | inr e ↦ inl e
      ]
      | inr later ↦ inr (rw new (has-there k x _ later))
    ]
  ]
]

module _ (spec : Spec) where
  abbrev key_of : Tagged → Value
  key_of t = get (frontier_key_col spec) t.row

  keep_sound :
      (k : Value) (ts : List Tagged)
      → has k (keep is_present (map key_of ts)) ≡ true
      → (p : Tagged) × In p ts × (k ≡ key_of p) × (is_present k ≡ true)
  keep_sound k [] h = absurd (has-nil k h)
  keep_sound k (t ∷ ts) h = elim (Bool-cases (is_present (key_of t))) [
    | inl present ↦
        elim (has-cons k (key_of t) (keep is_present (map key_of ts)) (rw present at h)) [
          | inl e ↦ (t, inl refl, e, rw e present)
          | inr m ↦ let (p, at, e, q) = keep_sound k ts m in (p, inr at, e, q)
        ]
    | inr absent ↦ let (p, at, e, q) = keep_sound k ts (rw absent at h) in (p, inr at, e, q)
  ]

  keep_complete :
      (p : Tagged) (ts : List Tagged)
      → In p ts
      → is_present (key_of p) ≡ true
      → has (key_of p) (keep is_present (map key_of ts)) ≡ true
  keep_complete p [] m h = absurd m
  keep_complete p (t ∷ ts) (inl e) h =
      subst (λ u. has (key_of p) (keep is_present (map key_of (u ∷ ts))) ≡ true) e
        (rw h (has-here _ _))
  keep_complete p (t ∷ ts) (inr m) h = elim (Bool-cases (is_present (key_of t))) [
    | inl present ↦ rw present (has-there _ _ _ (keep_complete p ts m h))
    | inr absent ↦ rw absent (keep_complete p ts m h)
  ]

  -- A key comes from a row of the frontier.
  pub frontier_keys_sound :
      (k : Value) (frontier : List Tagged)
      → has k (frontier_keys spec frontier) ≡ true
      → (p : Tagged) × In p frontier
        × (k ≡ get (frontier_key_col spec) p.row)
        × (is_present k ≡ true)
  unfolding frontier_keys
  frontier_keys_sound k frontier h = keep_sound k frontier (has-distinct_from k [] _ h)

  -- Each row of the frontier gives its key, if it has one.
  pub frontier_keys_complete :
      (p : Tagged) (frontier : List Tagged)
      → In p frontier
      → is_present (get (frontier_key_col spec) p.row) ≡ true
      → has (get (frontier_key_col spec) p.row) (frontier_keys spec frontier) ≡ true
  unfolding frontier_keys
  frontier_keys_complete p frontier m h =
      elim (distinct_from-has (key_of p) [] _ (keep_complete p frontier m h)) [
        | inl e ↦ absurd (has-nil _ e)
        | inr e ↦ e
      ]
