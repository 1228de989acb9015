-- ===== src/Recursive/Absorbed.antt =====
-- What the walk has read is known to it. (recursive.ts)
use zero_datafabric.Common.{
  ℕ, ◌≡◌, ◌⊎◌, true, false, List, [], ◌∷◌, ◌++◌, Value, Row, has, has-here, has-there, In, inl, inr,
  Bool-cases, ap, subst, ◌∙◌, leb, length,
}
use zero_datafabric.Recursive.{
  Spec, Tagged, Walk, node_key, add_row, absorb, tag, tag_child, add_seeds, row_limit,
}

-- Some row of the list is the node `k`.
abbrev pub Returned : Spec → Value → List Tagged → Type 0
Returned spec k ts = (t : Tagged) × In t ts × (k ≡ node_key spec t.row)

module _ (spec : Spec) where
  -- All of a level's rows are known, unless the row limit cut the level short.
  pub absorb_all :
      (depth : ℕ) (frontier : List Tagged) (cs : List Row) (w : Walk) (next : List Tagged)
      → (absorb spec depth frontier cs w next).full ≡ false
      → (k : Value) → (has k w.seen ≡ true) ⊎ ((c : Row) × In c cs × (k ≡ node_key spec c))
      → has k (absorb spec depth frontier cs w next).walk.seen ≡ true
  unfolding absorb tag_child tag
  absorb_all depth frontier [] w next e k (inl h) = h
  absorb_all depth frontier [] w next e k (inr (c, m, _)) = absurd m
  absorb_all depth frontier (c ∷ cs) w next e k h =
      elim (Bool-cases (has (node_key spec c) w.seen)) [
        | inl old ↦ rw old (absorb_all depth frontier cs w next (rw old at e) k (skip h old))
        | inr new ↦ elim (Bool-cases (leb (row_limit spec) (length (add_row spec w t).out))) [
          | inl full ↦ absurd (false_ne_true (rw (new, full) at e))
          | inr more ↦
              rw (new, more)
                (absorb_all depth frontier cs (add_row spec w t) (next ++ t ∷ [])
                  (rw (new, more) at e) k (pass h))
        ]
      ]
    where
      t : Tagged
      t = tag_child spec depth frontier c

      false_ne_true : true ≡ false → ⊥
      false_ne_true q = cc

      skip :
          (has k w.seen ≡ true) ⊎ ((d : Row) × In d (c ∷ cs) × (k ≡ node_key spec d))
          → has (node_key spec c) w.seen ≡ true
          → (has k w.seen ≡ true) ⊎ ((d : Row) × In d cs × (k ≡ node_key spec d))
      skip (inl s) old = inl s
      skip (inr (d, inl q, same)) old =
          inl (ap (λ v. has v w.seen) (same ∙ ap (node_key spec) q) ∙ old)
      skip (inr (d, inr m, same)) old = inr (d, m, same)

      pass :
          (has k w.seen ≡ true) ⊎ ((d : Row) × In d (c ∷ cs) × (k ≡ node_key spec d))
          → (has k (node_key spec c ∷ w.seen) ≡ true)
            ⊎ ((d : Row) × In d cs × (k ≡ node_key spec d))
      pass (inl s) = inl (has-there k (node_key spec c) w.seen s)
      pass (inr (d, inl q, same)) =
          inl (
            subst (λ v. has k (v ∷ w.seen) ≡ true) (same ∙ ap (node_key spec) q)
              (has-here k w.seen))
      pass (inr (d, inr m, same)) = inr (d, m, same)

  pub add_seeds_all :
      (rs : List Tagged) (w : Walk) (k : Value)
      → (has k w.seen ≡ true) ⊎ Returned spec k rs
      → has k (add_seeds spec rs w).seen ≡ true
  unfolding add_seeds
  add_seeds_all [] w k (inl h) = h
  add_seeds_all [] w k (inr (t, m, _)) = absurd m
  add_seeds_all (r ∷ rs) w k h = elim (Bool-cases (has (node_key spec r.row) w.seen)) [
    | inl old ↦ rw (old, add_seeds) (add_seeds_all rs w k (skip h old))
    | inr new ↦ rw (new, add_seeds) (add_seeds_all rs (add_row spec w r) k (pass h))
  ]
    where
      skip :
          (has k w.seen ≡ true) ⊎ Returned spec k (r ∷ rs)
          → has (node_key spec r.row) w.seen ≡ true
          → (has k w.seen ≡ true) ⊎ Returned spec k rs
      skip (inl s) old = inl s
      skip (inr (t, inl q, same)) old =
          inl (ap (λ v. has v w.seen) (same ∙ ap (λ u. node_key spec u.row) q) ∙ old)
      skip (inr (t, inr m, same)) old = inr (t, m, same)

      pass :
          (has k w.seen ≡ true) ⊎ Returned spec k (r ∷ rs)
          → (has k (node_key spec r.row ∷ w.seen) ≡ true) ⊎ Returned spec k rs
      pass (inl s) = inl (has-there k (node_key spec r.row) w.seen s)
      pass (inr (t, inl q, same)) = inl (
          subst (λ v. has k (v ∷ w.seen) ≡ true) (same ∙ ap (λ u. node_key spec u.row) q)
            (has-here k w.seen))
      pass (inr (t, inr m, same)) = inr (t, m, same)
