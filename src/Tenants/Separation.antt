-- ===== src/Tenants/Separation.antt =====
-- Schemas of different workspaces. (identifiers.ts, tenantScope.ts)
use zero_datafabric.Common.{
  ◌≡◌, refl, sym, ap, subst, ◌∙◌, ◌⊎◌, inl, inr, Bool-cases, Option-cases, In, drop_text, String,
  Bool, true, false, ◌&&◌, ◌||◌, Option, none, some, List, [], ◌∷◌, arith, ◌==◌, has_prefix, lower,
  swap_char, text_eq, text_eq_iff,
}
use Prim.Native.Char.{Char, code}
use text.Mathlib.TextEquality.{Char-path}
use zero_datafabric.Tenants.{
  assert_tenant_id, with_bar, base_name, belongs_to_tenant, overlaps, find_tenant_id_overlap,
  created, invalid_id, id_overlap, assert_creatable_tenant_id, created_unless,
}

code_same : (c d : Char) → (code c == code d) ≡ true → c ≡ d
code_same c d h = Char-path c d (ground arith)

both_true : (a b : Bool) → a && b ≡ true → (a ≡ true) × (b ≡ true)
both_true true true h = (refl, refl)
both_true true false h = cc
both_true false b h = cc

cons_same : (c d : Char) (a b : String) → c ≡ d → a ≡ b → String.◌∷◌ c a ≡ String.◌∷◌ d b
cons_same c d a b p q = cc

-- Of two ids that both stand before a bar in one text, one is the other or stands before a bar in
-- it.
nested :
    (a b t : String)
    → has_prefix (with_bar a) t ≡ true
    → has_prefix (with_bar b) t ≡ true
    → (a ≡ b) ⊎ (has_prefix (with_bar a) b ≡ true) ⊎ (has_prefix (with_bar b) a ≡ true)
unfolding has_prefix
nested String.[] String.[] t p q = inl refl
nested String.[] (String.◌∷◌ c b) String.[] p q = cc
nested String.[] (String.◌∷◌ c b) (String.◌∷◌ x t) p q = inr (inl (ground arith))
nested (String.◌∷◌ c a) String.[] String.[] p q = cc
nested (String.◌∷◌ c a) String.[] (String.◌∷◌ x t) p q = inr (inr (ground arith))
nested (String.◌∷◌ c a) (String.◌∷◌ d b) String.[] p q = cc
nested (String.◌∷◌ c a) (String.◌∷◌ d b) (String.◌∷◌ x t) p q =
    let (p0, p1) = both_true (code c == code x) (has_prefix (with_bar a) t) p in
    let (q0, q1) = both_true (code d == code x) (has_prefix (with_bar b) t) q in
    let same : (code c == code d) ≡ true = ground arith in
    let back : (code d == code c) ≡ true = ground arith in
    elim (nested a b t p1 q1) [
      | inl e ↦ inl (cons_same c d a b (code_same c d same) e)
      | inr (inl h) ↦ inr (inl (rw same h))
      | inr (inr h) ↦ inr (inr (rw back h))
    ]

-- A text does not stand before a bar in itself.
not_before : (s : String) → ¬ (has_prefix (with_bar s) s ≡ true)
unfolding has_prefix
not_before String.[] h = cc
not_before (String.◌∷◌ c s) h =
    not_before s ((both_true (code c == code c) (has_prefix (with_bar s) s) h).1)

lower-with_bar : (s : String) → lower (with_bar s) ≡ with_bar (lower s)
unfolding lower
lower-with_bar String.[] = refl
lower-with_bar (String.◌∷◌ c s) = rw (lower-with_bar s) refl

cons_prefix :
    (c : Char) (p s : String)
    → has_prefix p s ≡ true
    → has_prefix (String.◌∷◌ c p) (String.◌∷◌ c s) ≡ true
unfolding has_prefix
cons_prefix c p s h = ground arith

has_prefix-lower : (p s : String) → has_prefix p s ≡ true → has_prefix (lower p) (lower s) ≡ true
unfolding has_prefix lower
has_prefix-lower String.[] s h = refl
has_prefix-lower (String.◌∷◌ c p) String.[] h = cc
has_prefix-lower (String.◌∷◌ c p) (String.◌∷◌ d s) h =
    let (e, k) = both_true (code c == code d) (has_prefix p s) h in
    subst (λ x. has_prefix (lower (String.◌∷◌ x p)) (lower (String.◌∷◌ d s)) ≡ true)
      (sym (code_same c d e))
      (cons_prefix (swap_char "ABCDEFGHIJKLMNOPQRSTUVWXYZ" "abcdefghijklmnopqrstuvwxyz" d) (lower p)
        (lower s) (has_prefix-lower p s k))

before-overlaps :
    (a b : String)
    → has_prefix (with_bar a) b ≡ true
    → (overlaps a b ≡ true) × (overlaps b a ≡ true)
unfolding overlaps
before-overlaps a b h =
    let low : has_prefix (with_bar (lower a)) (lower b) ≡ true =
      subst (λ p. has_prefix p (lower b) ≡ true) (lower-with_bar a)
        (has_prefix-lower (with_bar a) b h) in
    (
      rw (differ (lower b) (lower a) low, low)
          (or_true (has_prefix (with_bar (lower b)) (lower a))),
      rw (differ_back (lower a) (lower b) low, low) refl,
    )
  where
    differ : (s p : String) → has_prefix (with_bar p) s ≡ true → text_eq s p ≡ false
    differ s p k = elim (Bool-cases (text_eq s p)) [
      | inl e ↦
          absurd
            (not_before p (subst (λ x. has_prefix (with_bar p) x ≡ true) ((text_eq_iff s p).0 e) k))
      | inr e ↦ e
    ]

    differ_back : (p s : String) → has_prefix (with_bar p) s ≡ true → text_eq p s ≡ false
    differ_back p s k = elim (Bool-cases (text_eq p s)) [
      | inl e ↦ absurd (
          not_before p
            (subst (λ x. has_prefix (with_bar p) x ≡ true) (sym ((text_eq_iff p s).0 e)) k))
      | inr e ↦ e
    ]

    or_true : (b : Bool) → b || true ≡ true
    or_true true = refl
    or_true false = refl

-- Two ids with one schema in common are the same or overlap.
shared :
    (schema a b : String)
    → belongs_to_tenant schema a ≡ true
    → belongs_to_tenant schema b ≡ true
    → (a ≡ b) ⊎ (has_prefix (with_bar a) b ≡ true) ⊎ (has_prefix (with_bar b) a ≡ true)
unfolding belongs_to_tenant has_prefix drop_text
shared schema a b p q = elim (Bool-cases (text_eq schema (base_name a))) [
  | inl own ↦
      let at_a : schema ≡ base_name a = (text_eq_iff schema (base_name a)).0 own in
      elim (Bool-cases (text_eq schema (base_name b))) [
        | inl own' ↦
            let at_b : schema ≡ base_name b = (text_eq_iff schema (base_name b)).0 own' in
            inl (ap (drop_text 7) (sym at_a ∙ at_b))
        | inr under ↦
            let pre : has_prefix (with_bar (base_name b)) schema ≡ true = rw under at q in
            inr (inr (subst (λ s. has_prefix (with_bar (base_name b)) s ≡ true) at_a pre))
      ]
  | inr under ↦
      let pre : has_prefix (with_bar (base_name a)) schema ≡ true = rw under at p in
      elim (Bool-cases (text_eq schema (base_name b))) [
        | inl own' ↦
            let at_b : schema ≡ base_name b = (text_eq_iff schema (base_name b)).0 own' in
            inr (inl (subst (λ s. has_prefix (with_bar (base_name a)) s ≡ true) at_b pre))
        | inr under' ↦
            let pre' : has_prefix (with_bar (base_name b)) schema ≡ true = rw under' at q in
            elim (nested (base_name a) (base_name b) schema pre pre') [
              | inl e ↦ inl (ap (drop_text 7) e)
              | inr (inl h) ↦ inr (inl h)
              | inr (inr h) ↦ inr (inr h)
            ]
      ]
]

no_overlap :
    (tenants : List String) (id e : String)
    → find_tenant_id_overlap tenants id ≡ none
    → In e tenants
    → overlaps id e ≡ false
unfolding find_tenant_id_overlap
no_overlap [] id e h m = absurd m
no_overlap (t ∷ ts) id e h m = elim (Bool-cases (overlaps id t)) [
  | inl clash ↦ absurd (some≢none (rw clash at h))
  | inr apart ↦ elim m [
    | inl same ↦ rw same apart
    | inr later ↦ no_overlap ts id e (rw apart at h) later
  ]
]
  where
    some≢none : {A : Type 0} {a : A} → some a ≡ none → ⊥
    some≢none e = cc

created-apart :
    (tenants : List String) (raw id : String) (o : Option String)
    → created_unless o tenants ≡ created id
    → find_tenant_id_overlap tenants id ≡ none
created-apart tenants raw id none h = cc
created-apart tenants raw id (some t) h = elim (Option-cases (find_tenant_id_overlap tenants t)) [
  | inl free ↦
      let same : created t ≡ created id = rw free at h in
      subst (λ x. find_tenant_id_overlap tenants x ≡ none)
        (ap (λ c. elim c [ created x ↦ x | invalid_id ↦ t | id_overlap x ↦ t ]) same) free
  | inr (e, clash) ↦ let wrong : id_overlap e ≡ created id = rw clash at h in cc
]

-- A workspace is only created under an id such that no schema belongs both to it and to another
-- workspace that exists: a schema that belongs to both shows that they have the same id.
pub assert_creatable_tenant_id-separates :
    (tenants : List String) (raw id existing schema : String)
    → assert_creatable_tenant_id tenants raw ≡ created id
    → In existing tenants
    → belongs_to_tenant schema id ≡ true
    → belongs_to_tenant schema existing ≡ true
    → id ≡ existing
unfolding assert_creatable_tenant_id
assert_creatable_tenant_id-separates tenants raw id existing schema made m p q =
    let apart =
      no_overlap tenants id existing (created-apart tenants raw id (assert_tenant_id raw) made) m in
    elim (shared schema id existing p q) [
      | inl e ↦ e
      | inr (inl h) ↦ absurd (true≢false (sym (before-overlaps id existing h).0 ∙ apart))
      | inr (inr h) ↦ absurd (true≢false (sym (before-overlaps existing id h).1 ∙ apart))
    ]
  where
    true≢false : true ≡ false → ⊥
    true≢false e = cc
